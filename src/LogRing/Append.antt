-- ===== src/LogRing/Append.antt =====
-- Writes to the ring of bufring.c that has room for them, whichever way the bytes fall.
use w132d_linux_mainline.Prelude.{
  ℕ, ◌+◌, ◌-◌, ◌%◌, ◌≤◌, ◌<◌, ◌≡◌, ◌∙◌, ap, true, false, List, inl, inr, arith, length,
  length-append, Bool-cases, Returns, Returns_eq,
}
use native.Mathlib.Nat.{mod-eq_of_lt}
use w132d_linux_mainline.LogRing.{
  Ring, ring_free_space, ring_over_loop, past_end, write_around, write_parts, write_straight,
  write_freely,
}
use w132d_linux_mainline.LogRing.Storage.{Holds, flat, split, free_space-Holds, length_parts}
use w132d_linux_mainline.LogRing.Writing.{
  AtMost, IsWritten, straight_flat, straight_split, around_flat,
}

module _ (uncopied : ℕ → ℕ → ℕ) (at_most : AtMost uncopied) where
  write_loop :
      (r : Ring) (q bs : List ℕ)
      → Returns
          (write_around uncopied (record r { p_order_flag = true }) bs)
          (IsWritten uncopied at_most r.size q bs)
      → past_end r (r.wp + length bs) ≡ true
      → Returns (write_freely uncopied r bs) (IsWritten uncopied at_most r.size q bs)
  unfolding write_freely ring_over_loop
  write_loop r q bs h e = rw (e, write_freely) h

  write_on :
      (r : Ring) (q bs : List ℕ)
      → Returns (write_straight uncopied r bs) (IsWritten uncopied at_most r.size q bs)
      → past_end r (r.wp + length bs) ≡ false
      → Returns (write_freely uncopied r bs) (IsWritten uncopied at_most r.size q bs)
  unfolding write_freely ring_over_loop
  write_on r q bs h e = rw (e, write_freely) h

  pub write_freely-IsWritten :
      (r : Ring) (q bs : List ℕ)
      → Holds r q
      → length bs < ring_free_space r
      → Returns (write_freely uncopied r bs) (IsWritten uncopied at_most r.size q bs)
  write_freely-IsWritten r q bs (flat x z size bytes rp wp some_z) room =
      let free = free_space-Holds r q (flat x z size bytes rp wp some_z) in
      let total = length_parts x q z in
      let whole = size ∙ ap length bytes in
      elim (Bool-cases (past_end r (r.wp + length bs))) [
        | inl e ↦
            let over : r.size - 1 < r.wp + length bs = ground (arith, e) in
            let len1 : r.size - r.wp ≡ length z = omega (arith, whole, total, wp) in
            let small : length bs - (r.size - r.wp) < r.size = omega (arith, free, room) in
            let len2 : (length bs - (r.size - r.wp)) % r.size ≡ length bs - length z =
              mod-eq_of_lt small ∙ ap (λ k. length bs - k) len1 in
            let r' = record r { p_order_flag = true } in
            write_loop r q bs
              (Returns_eq (IsWritten uncopied at_most r.size q bs)
                (ap (λ k. write_parts uncopied r' bs k ((length bs - (r.size - r.wp)) % r.size))
                    len1
                  ∙ ap (write_parts uncopied r' bs (length z)) len2)
                (around_flat uncopied at_most r' q bs x z size bytes rp wp some_z
                  (omega (arith, over, whole, total, wp))
                  (omega (arith, whole, total, free, room))))
              e
        | inr e ↦
            let on : r.wp + length bs ≤ r.size - 1 = ground (arith, e) in
            write_on r q bs
              (straight_flat uncopied at_most r q bs x z size bytes rp wp
                (omega (arith, on, whole, total, wp, some_z)))
              e
      ]
  write_freely-IsWritten r q bs (split q1 q2 z size bytes wp rp some_z some_q e) room =
      let free = free_space-Holds r q (split q1 q2 z size bytes wp rp some_z some_q e) in
      let total = length_parts q2 z q1 in
      let whole = size ∙ ap length bytes in
      let fits : length bs < length z =
        omega (arith, whole, total, free, room, ap length e, length-append q1 q2) in
      let on : past_end r (r.wp + length bs) ≡ false =
        (let short : r.wp + length bs ≤ r.size - 1 = omega (arith, whole, total, wp, fits) in
          ground (arith, short)) in
      write_on r q bs
        (straight_split uncopied at_most r q bs q1 q2 z size bytes wp rp some_q e fits) on
