-- ===== src/TcpAck/Send.antt =====
-- The entry points of tcp_ack.c keep the invariant of the slots, and the messages.
use w132d_linux_mainline.Prelude.{ℕ, ◌+◌, ◌≡◌, List, count}
use w132d_linux_mainline.TcpAck.Types.{Msg, Manage}
use w132d_linux_mainline.TcpAck.Parse.Checked.{Checked}
use w132d_linux_mainline.TcpAck.Slots.Valid.{Valid}
use w132d_linux_mainline.TcpAck.Kept.{places}

-- The invariant holds, and each message is where it was, with `input` added.
pub record Keeps (input : List Msg) (m m' : Manage) : Type 0 where
  pub valid : Valid m'
  pub messages : (x : ℕ) → places x m' ≡ places x m + count x input
