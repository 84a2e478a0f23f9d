-- ===== src/Seqno/Order.antt =====
-- The circular order of sequence numbers.
use w132d_linux_mainline.Prelude.{ℕ, ◌<◌, ◌≡◌, ◌⊎◌, ◌↔◌, true, arith}
use w132d_linux_mainline.Seqno.{seqno_mod, max_seqno_by_two, seqno_sub, seqno_leq}

-- `seqno_leq` holds exactly if the second number is less than half the range ahead of the first
-- on the circle, or just half the range ahead with the first the larger number.
pub seqno_leq_iff :
    (a b : ℕ)
    → a < seqno_mod
    → b < seqno_mod
    → (seqno_leq a b ≡ true)
      ↔ ((seqno_sub b a < max_seqno_by_two) ⊎ ((seqno_sub b a ≡ max_seqno_by_two) × (b < a)))
unfolding seqno_leq
seqno_leq_iff a b ha hb = (λ h. ground arith, λ h. ground arith)

-- Of two sequence numbers one is at most the other, and if both are they are equal.
pub seqno_leq_total :
    (a b : ℕ)
    → a < seqno_mod
    → b < seqno_mod
    → ((seqno_leq a b ≡ true) ⊎ (seqno_leq b a ≡ true))
      × (seqno_leq a b ≡ true → seqno_leq b a ≡ true → a ≡ b)
unfolding seqno_leq
seqno_leq_total a b ha hb = (ground arith, λ p q. ground arith)
