-- ===== src/TcpAck/Handle.antt =====
-- What tcp_ack.c does with an acknowledgement that is sent, and the timer that sends one held back.
use w132d_linux_mainline.Prelude.{
  ℕ, ◌+◌, ◌%◌, ◌^◌, Bool, true, false, ◌&&◌, ◌||◌, not, List, [], ◌∷◌, Option, none, some, leb,
  ◌==◌, if◌then◌else◌,
}
use w132d_linux_mainline.TcpAck.Types.{Msg, AckMsg, AckInfo, u32_before}

-- What `sprdwl_tcp_ack_handle` leaves: the slot, what it returns, and `drop_msg`.
pub record Handled : Type 0 where
  pub slot : AckInfo
  pub ret : Bool
  pub drop_msg : Option Msg

abbrev pub is_some {ℓ} : {A : Type ℓ} → Option A → Bool
is_some none = false
is_some (some a) = true

abbrev with_seq : AckMsg → ℕ → AckMsg
with_seq k n = record k { seq = n }

-- The acknowledgement passes the sequence number at which the peer has asked for one.
abbrev pub is_psh_acked : AckInfo → AckMsg → Bool
is_psh_acked a k = a.psh_flag && not (u32_before k.seq a.psh_seq)

-- Type 2: what is held back is dropped, and the new message is sent.
unfoldable pub handle_at_once : ℕ → AckInfo → AckMsg → Handled
handle_at_once max_drop_cnt a k = record {
  slot = record a {
    ack_msg = with_seq a.ack_msg k.seq;
    psh_flag = a.psh_flag && not (is_psh_acked a k);
    msgbuf = none;
    timer = if is_some a.msgbuf then none else a.timer;
    in_send_msg = none;
    drop_cnt = max_drop_cnt;
  };
  ret = false;
  drop_msg = a.msgbuf;
}

-- Type 1: the new message takes the place of what is held back, and is sent if the peer wants one
-- or enough have been merged.
unfoldable pub handle_delayed : ℕ → ℕ → Msg → AckInfo → AckMsg → Handled
handle_delayed expires max_drop_cnt new_msgbuf a k =
    let quick_ack = is_psh_acked a k in
    let cnt = (if quick_ack then a.drop_cnt else a.drop_cnt + 1) in
    let b = record a {
      ack_msg = with_seq a.ack_msg k.seq;
      psh_flag = a.psh_flag && not quick_ack;
    } in
    if quick_ack || not (is_some a.in_send_msg) && leb max_drop_cnt cnt
    then record {
      slot = record b { msgbuf = none; drop_cnt = 0; in_send_msg = some new_msgbuf; timer = none };
      ret = false;
      drop_msg = a.msgbuf;
    }
    else record {
      slot = record b {
        msgbuf = some new_msgbuf;
        drop_cnt = cnt;
        timer = if is_some a.timer then a.timer else some expires;
      };
      ret = true;
      drop_msg = a.msgbuf;
    }

-- The result `true` tells that the message is taken. `msecs_to_jiffies` is the kernel's.
unfoldable pub tcp_ack_handle : (ℕ → ℕ) → ℕ → ℕ → Msg → AckInfo → AckMsg → ℕ → Handled
tcp_ack_handle msecs_to_jiffies now max_drop_cnt new_msgbuf a k type =
    let b = record a { last_time = now } in
    if u32_before a.ack_msg.seq k.seq
    then (if type == 2
        then handle_at_once max_drop_cnt b k
        else handle_delayed ((now + msecs_to_jiffies 5) % 2 ^ 64) max_drop_cnt new_msgbuf b k)
    else record { slot = b; ret = true; drop_msg = some new_msgbuf }

-- `sprdwl_tcp_ack_timeout` at a slot, and the message that it gives to `sprdwl_intf_tx`. A timer
-- that fires is no longer pending.
unfoldable pub slot_timeout : AckInfo → AckInfo × List Msg
slot_timeout a =
    let b = record a { timer = none } in
    elim a.msgbuf [
      | none ↦ (b, [])
      | some msg ↦
          if a.busy && not (is_some a.in_send_msg)
          then (record b { msgbuf = none; drop_cnt = 0; in_send_msg = some msg }, msg ∷ [])
          else (b, [])
    ]

-- The round of `sprdwl_move_tcpack_msg` at a slot: a message has been sent.
unfoldable pub slot_sent : Msg → AckInfo → AckInfo
slot_sent msg a = elim a.in_send_msg [
  | none ↦ a
  | some x ↦ if a.busy && x == msg then record a { in_send_msg = none } else a
]
