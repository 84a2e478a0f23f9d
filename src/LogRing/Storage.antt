-- ===== src/LogRing/Storage.antt =====
-- The bytes that the ring of bufring.c holds, oldest first, and how much room there is.
use w132d_linux_mainline.Prelude.{
  ℕ, ◌+◌, ◌<◌, ◌≡◌, ◌≢◌, ◌&&◌, inl, inr, Bool-cases, refl, ◌∙◌, sym, ap, false, List, [], ◌++◌,
  arith, length, length-append,
}
use mathlib.Core.List.{append_assoc}
use w132d_linux_mainline.LogRing.{
  whole_copy, Ring, ring_free_space, ring_readable_len, ring_clear, ring_reset,
}

-- `q` is what was written and not yet read: it stands in one piece behind `rp`, or its end stands
-- at the beginning of the buffer. At least one byte of the buffer is free.
pub data Holds (r : Ring) (q : List ℕ) : Type 0 where
  flat :
      (x z : List ℕ)
      → r.size ≡ length r.pbuff
      → r.pbuff ≡ x ++ (q ++ z)
      → r.rp ≡ length x
      → r.wp ≡ length x + length q
      → 0 < length z
      → Holds r q
  split :
      (q1 q2 z : List ℕ)
      → r.size ≡ length r.pbuff
      → r.pbuff ≡ q2 ++ (z ++ q1)
      → r.wp ≡ length q2
      → r.rp ≡ length q2 + length z
      → 0 < length z
      → 0 < length q1
      → q ≡ q1 ++ q2
      → Holds r q

pub length_parts : (x y z : List ℕ) → length (x ++ (y ++ z)) ≡ length x + (length y + length z)
length_parts x y z = omega (arith, length-append x (y ++ z), length-append y z)

-- The free space is all of the buffer but the bytes that the ring holds.
pub free_space-Holds : (r : Ring) (q : List ℕ) → Holds r q → ring_free_space r + length q ≡ r.size
unfolding ring_free_space
free_space-Holds r q (flat x z size bytes rp wp some_z) =
    ground (arith, size ∙ ap length bytes, length_parts x q z, rp, wp)
free_space-Holds r q (split q1 q2 z size bytes wp rp some_z some_q e) =
    ground (
      arith,
      size ∙ ap length bytes,
      length_parts q2 z q1,
      rp,
      wp,
      ap length e,
      length-append q1 q2,
    )

pub readable_len-Holds : (r : Ring) (q : List ℕ) → Holds r q → ring_readable_len r ≡ length q
unfolding ring_readable_len
readable_len-Holds r q h = omega (arith, free_space-Holds r q h)

pub Holds-size : {r : Ring} {q : List ℕ} → Holds r q → r.size ≡ length r.pbuff
Holds-size (flat x z size bytes rp wp some_z) = size
Holds-size (split q1 q2 z size bytes wp rp some_z some_q e) = size

-- The ring is never full to the last byte.
pub Holds-room : (r : Ring) (q : List ℕ) → Holds r q → length q < r.size
Holds-room r q (flat x z size bytes rp wp some_z) =
    omega (arith, size ∙ ap length bytes, length_parts x q z)
Holds-room r q (split q1 q2 z size bytes wp rp some_z some_q e) =
    omega (arith, size ∙ ap length bytes, length_parts q2 z q1, ap length e, length-append q1 q2)

pub clear-Holds : (r : Ring) (q : List ℕ) → Holds r q → Holds (ring_clear r) []
unfolding ring_clear
clear-Holds r q (flat x z size bytes rp wp some_z) =
    flat (x ++ q) z size (bytes ∙ sym (append_assoc x q z)) (wp ∙ sym (length-append x q))
      (omega (arith, wp, length-append x q)) some_z
clear-Holds r q (split q1 q2 z size bytes wp rp some_z some_q e) =
    flat q2 (z ++ q1) size bytes wp (omega (arith, wp)) (omega (arith, length-append z q1, some_z))

pub reset-Holds : (r : Ring) (q : List ℕ) → Holds r q → Holds (ring_reset r) []
unfolding ring_reset
reset-Holds r q h =
    flat [] r.pbuff (Holds-size h) refl refl refl (omega (arith, Holds-room r q h, Holds-size h))

-- A copy that left bytes behind.
abbrev pub CopyFails : (ℕ → ℕ → ℕ) → Type 0
CopyFails uncopied = (o : ℕ) × (n : ℕ) × (uncopied o n ≢ 0)

pub failed : (u : ℕ → ℕ → ℕ) (o n : ℕ) → whole_copy u o n ≡ false → CopyFails u
failed u o n e = (o, n, ground (arith, e))

pub both_whole :
    (u : ℕ → ℕ → ℕ) (len1 len2 : ℕ)
    → (whole_copy u 0 len1 && whole_copy u len1 len2) ≡ false
    → CopyFails u
both_whole u len1 len2 e = elim (Bool-cases (whole_copy u 0 len1)) [
  | inl w ↦ failed u len1 len2 (ground (arith, e, w))
  | inr w ↦ failed u 0 len1 w
]
