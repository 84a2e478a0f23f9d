-- ===== src/TcpAck/Parse/Checked.antt =====
-- What `sprdwl_tcp_check_ack` returns: the message is filled in wherever the caller reads it.
use w132d_linux_mainline.Prelude.{
  ℕ, ◌+◌, ◌-◌, ◌*◌, ◌/◌, ◌≡◌, ◌≢◌, ◌⊎◌, inl, inr, subst, Option, some, arith, ltb, Bool-cases,
  Option-cases,
}
use w132d_linux_mainline.TcpAck.Types.{AckMsg}
use w132d_linux_mainline.TcpAck.Parse.{
  Memory, is_drop_tcp_ack, tcp_check_ack, is_tcp_ack, tcp_at, ip_at, be16, ip_hdr_len, with_msg,
  ack_of,
}
use w132d_linux_mainline.TcpAck.Parse.Options.{read_options-kept}

-- A verdict of 0 comes with no window scale; any other comes with the message.
abbrev pub Checked : ℕ × Option AckMsg × ℕ → Type 0
Checked (drop, msg, win_scale) =
    (drop ≡ 0) × (win_scale ≡ 0) ⊎ (drop ≢ 0) × (k : AckMsg) × (msg ≡ some k)

is_drop_tcp_ack-kept :
    (fuel : ℕ) (buf : Memory) (tcp len : ℕ) (r : ℕ × ℕ)
    → is_drop_tcp_ack fuel buf tcp len 0 ≡ some r
    → (r.0 ≡ 0) × (r.1 ≡ 0) ⊎ r.0 ≢ 0
unfolding is_drop_tcp_ack
is_drop_tcp_ack-kept fuel buf tcp len r e =
    let n = buf (tcp + 12) / 16 * 4 in
    let loop = read_options-kept fuel buf (tcp + 20) (n - 20) 1 0 r (ground arith) in
    elim (Bool-cases (ltb n len)) [
      | inl t ↦ inl (ground (arith, e, t), ground (arith, e, t))
      | inr t ↦ inr (ground (arith, e, t, loop))
    ]

with_msg-Checked :
    (buf : Memory) (r : ℕ × ℕ) → (r.0 ≡ 0) × (r.1 ≡ 0) ⊎ r.0 ≢ 0 → Checked (with_msg buf r)
with_msg-Checked buf r (inl (p, q)) = inl (p, q)
with_msg-Checked buf r (inr p) = inr (p, ack_of buf, ground (arith, p))

pub tcp_check_ack-Checked :
    (fuel : ℕ) (buf : Memory) (c : ℕ × Option AckMsg × ℕ)
    → tcp_check_ack fuel buf 0 ≡ some c
    → Checked c
unfolding tcp_check_ack
tcp_check_ack-Checked fuel buf c e =
    let o = is_drop_tcp_ack fuel buf (tcp_at buf) (be16 buf (ip_at + 2) - ip_hdr_len buf) 0 in
    elim (Bool-cases (is_tcp_ack buf)) [
      | inl t ↦ elim (Option-cases o) [
        | inl p ↦ absurd (ground (arith, e, t, p))
        | inr (r, p) ↦
            let same : some (with_msg buf r) ≡ some c = ground (arith, e, t, p) in
            let shown : with_msg buf r ≡ c = cc in
            subst Checked shown (
              with_msg-Checked buf r (
                is_drop_tcp_ack-kept fuel buf (tcp_at buf) (be16 buf (ip_at + 2) - ip_hdr_len buf) r
                  p))
      ]
      | inr t ↦ inl (ground (arith, e, t), ground (arith, e, t))
    ]
