-- ===== src/TcpAck/Kept.antt =====
-- No message is lost: each is held back, dropped, handed to the driver, or left to the caller.
use w132d_linux_mainline.Prelude.{
  ℕ, zero, suc, ◌+◌, ◌≡◌, Bool, true, false, List, [], ◌∷◌, some, arith, get_elem?, set, count,
  count-append,
}
use w132d_linux_mainline.TcpAck.Types.{Msg, AckMsg, AckInfo, Manage}
use w132d_linux_mainline.TcpAck.Handle.{handle_at_once, handle_delayed, tcp_ack_handle}
use w132d_linux_mainline.TcpAck.Filter.{drop_list, held_messages}

-- The message that is left to the caller when it is not taken.
abbrev pub given : Bool → Msg → List Msg
given true msg = msg ∷ []
given false msg = []

-- Where the message `x` is, and how often.
abbrev pub places : ℕ → Manage → ℕ
places x m = count x (held_messages m.ack_info) + count x m.dropped + count x m.transmitted

pub held_messages-set :
    (x : ℕ) (xs : List AckInfo) (i : ℕ) (a b : AckInfo)
    → get_elem? xs i ≡ some a
    → count x (held_messages (set xs i b)) + count x (drop_list a.msgbuf)
      ≡ count x (held_messages xs) + count x (drop_list b.msgbuf)
unfolding held_messages
held_messages-set x [] i a b e = ground arith
held_messages-set x (y ∷ xs) zero a b e =
    let c = count-append x (drop_list b.msgbuf) (held_messages xs) in
    let d = count-append x (drop_list y.msgbuf) (held_messages xs) in ground (arith, c, d)
held_messages-set x (y ∷ xs) (suc i) a b e =
    let c = count-append x (drop_list y.msgbuf) (held_messages (set xs i b)) in
    let d = count-append x (drop_list y.msgbuf) (held_messages xs) in
    omega (arith, held_messages-set x xs i a b e, c, d)

-- Handling an acknowledgement keeps the messages: what the slot holds after it and what it drops
-- are what it held before it, and the new message if it is taken.
pub tcp_ack_handle-Kept :
    (msecs : ℕ → ℕ) (now max new : ℕ) (a : AckInfo) (k : AckMsg) (type x : ℕ)
    → let r = tcp_ack_handle msecs now max new a k type in
      count x (drop_list r.slot.msgbuf) + count x (drop_list r.drop_msg)
      ≡ count x (drop_list a.msgbuf) + count x (given r.ret new)
unfolding tcp_ack_handle handle_at_once handle_delayed
tcp_ack_handle-Kept msecs now max new a k type x = ground arith
