-- ===== src/TcpAck/Tests.antt =====
-- Runs of tcp_ack.c on concrete frames.
use w132d_linux_mainline.Prelude.{
  ℕ, zero, suc, ◌+◌, ◌/◌, ◌≡◌, refl, true, arith, List, [], ◌∷◌, Option, none, some, get_elem?, set,
  Returns,
}
use w132d_linux_mainline.TcpAck.Types.{Msg, AckMsg, AckInfo, Manage}
use w132d_linux_mainline.TcpAck.Parse.{Memory, read_options, with_msg, ack_of}
use w132d_linux_mainline.TcpAck.Parse.Options.{
  done, nop, option, drop_of, scale_of, read_options-Proper, end_mark_overrun,
}
use w132d_linux_mainline.TcpAck.Slots.{first, same_flow, tcp_ack_match}
use w132d_linux_mainline.TcpAck.Slots.Valid.{Valid, Matches}
use w132d_linux_mainline.TcpAck.Slots.Take.{take_slot-Valid}
use w132d_linux_mainline.TcpAck.Slots.Turn.{Matched, tcp_ack_match-Matched}
use w132d_linux_mainline.TcpAck.Filter.{
  initial_slot, tcp_ack_init, tcp_ack_timeout, move_tcpack_msg,
}
use w132d_linux_mainline.TcpAck.Events.{tcp_ack_init-Valid, timeout_strands}

-- The bytes of a list, and 0 past its end.
abbrev bytes : List ℕ → Memory
bytes [] i = 0
bytes (x ∷ xs) zero = x
bytes (x ∷ xs) (suc i) = bytes xs i

-- HZ is 250.
abbrev hz250 : ℕ → ℕ
hz250 ms = (ms + 3) / 4

-- An acknowledgement from port 80 to port 90, with options of 12 bytes: two of padding, and a time
-- stamp.
abbrev frame : ℕ → Memory
frame seq = bytes (
    0 ∷ 0 ∷ 0 ∷ 0 ∷ 0 ∷ 0 ∷ 0 ∷ 0 ∷ 0 ∷ 0 ∷ 0 ∷ 0 ∷ 8 ∷ 0 ∷ 0x45 ∷ 0 ∷ 0 ∷ 52 ∷ 0 ∷ 0 ∷ 0 ∷ 0 ∷ 64
    ∷ 6 ∷ 0 ∷ 0 ∷ 10 ∷ 0 ∷ 0 ∷ 1 ∷ 10 ∷ 0 ∷ 0 ∷ 2 ∷ 0 ∷ 80 ∷ 0 ∷ 90 ∷ 0 ∷ 0 ∷ 0 ∷ 0 ∷ 0 ∷ 0 ∷ 0
    ∷ seq ∷ 0x80 ∷ 0x10 ∷ 16 ∷ 0 ∷ 0 ∷ 0 ∷ 0 ∷ 0 ∷ 1 ∷ 1 ∷ 8 ∷ 10 ∷ [])

abbrev started : Manage
started = tcp_ack_init hz250 1000

started-Valid : Valid started
started-Valid = (tcp_ack_init-Valid hz250 1000).0

abbrev stamped : Memory
stamped = bytes (1 ∷ 1 ∷ 8 ∷ 10 ∷ [])

abbrev verdict : ℕ × Option AckMsg × ℕ
verdict = with_msg (frame 7) (1, 0)

read_options-Proper_example : read_options 13 stamped 0 12 1 0 ≡ some (1, 0)
unfolding drop_of scale_of
read_options-Proper_example =
    read_options-Proper 13 stamped 0 12 1 0 ((8, 0) ∷ [])
      (nop (omega arith) refl
        (nop (omega arith) refl (option (omega arith) (omega arith) (omega arith) (done refl))))
      (omega arith) (omega arith)

end_mark_overrun_example :
    read_options (1000 + 9) (bytes []) 0 1 1 0 ≡ read_options 9 (bytes []) (0 + 1000) 1 1 0
end_mark_overrun_example =
    end_mark_overrun 1000 9 (bytes []) 0 1 1 0 (omega arith) (omega arith) (λ j below. refl)

-- A connection whose slot holds message 8.
abbrev busy_slot : Option Msg → AckInfo
busy_slot in_send_msg = record (initial_slot hz250 1000) {
  busy = true;
  msgbuf = some 8;
  timer = some 1002;
  in_send_msg = in_send_msg;
  win_scale = 1;
  ack_msg = ack_of (frame 7);
}

abbrev waiting : Option Msg → Manage
waiting in_send_msg = record started {
  free_index = none;
  max_num = 1;
  ack_info = set started.ack_info 0 (busy_slot in_send_msg);
}

no_match : (j : ℕ) → ¬ Matches started.ack_info (ack_of (frame 7)) j
unfolding Matched tcp_ack_match first tcp_ack_init
no_match = tcp_ack_match-Matched started (ack_of (frame 7))

waiting-Valid : (in_send_msg : Option Msg) → Valid (waiting in_send_msg)
unfolding tcp_ack_init same_flow
waiting-Valid in_send_msg =
    take_slot-Valid started 0 (ack_of (frame 7)) (initial_slot hz250 1000) (busy_slot in_send_msg)
      started-Valid refl refl no_match refl refl

timeout_strands_example : Returns (tcp_ack_timeout 0 (waiting (some 4))) (λ m'.
    (b : AckInfo) × (get_elem? (move_tcpack_msg 4 100 m').ack_info 0 ≡ some b)
    × (b.msgbuf ≡ some 8)
    × (b.timer ≡ none))
unfolding tcp_ack_init
timeout_strands_example =
    timeout_strands 0 8 4 100 (busy_slot (some 4)) (waiting (some 4)) refl refl refl
