-- ===== src/TcpAck/Tune.antt =====
-- The settings of tcp_ack.c that are read from text.
use w132d_linux_mainline.Prelude.{
  ℕ, ◌+◌, ◌*◌, ◌<◌, ◌≡◌, arith, leb, ◌==◌, if◌then◌else◌, Bool-cases, inl, inr,
}
use w132d_linux_mainline.TcpAck.Types.{Manage}
use w132d_linux_mainline.TcpAck.Parse.{Memory}
use w132d_linux_mainline.TcpAck.Filter.{read_digits, adjust_tcp_ack_delay}

-- The number of merged acknowledgements is below 100, whatever the text.
pub adjust_tcp_ack_delay-lt :
    (buf : Memory) (offset : ℕ) (m : Manage)
    → (adjust_tcp_ack_delay buf offset m).max_drop_cnt < 100
unfolding adjust_tcp_ack_delay
adjust_tcp_ack_delay-lt buf offset m =
    let n = read_digits 2 buf offset 0 in
    elim (Bool-cases (leb 100 n)) [
      | inl t ↦ simp t (omega arith)
      | inr t ↦ simp t (ground (arith, t))
    ]

-- Of two digits the value counts ten times: the setting is ten times the second digit if the first
-- is 0, and the default of 24 otherwise.
pub adjust_tcp_ack_delay_lem :
    (buf : Memory) (offset d e : ℕ) (m : Manage)
    → d < 10
    → e < 10
    → buf offset ≡ 48 + d
    → buf (offset + 1) ≡ 48 + e
    → (adjust_tcp_ack_delay buf offset m).max_drop_cnt ≡ (if d == 0 then e * 10 else 24)
unfolding adjust_tcp_ack_delay read_digits
adjust_tcp_ack_delay_lem buf offset d e m hd he bd be = ground arith
