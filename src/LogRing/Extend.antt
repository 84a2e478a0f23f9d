-- ===== src/LogRing/Extend.antt =====
-- `mdbg_ring_write_ext` of bufring.c: it tests the read pointer where it moves the write pointer.
use w132d_linux_mainline.Prelude.{
  ℕ, ◌+◌, ◌-◌, ◌≤◌, ◌<◌, ◌≡◌, refl, ◌∙◌, ap, false, some, arith, ltb, ◌==◌,
}
use w132d_linux_mainline.LogRing.{
  Ring, ring_free_space, ring_readable_len, ring_over_loop, past_end, ring_will_full,
  ring_write_ext,
}

-- The call succeeds where the tests of the code do.
write_ext_lem :
    (r : Ring) (n : ℕ)
    → 0 < n
    → r.rp + n < r.size
    → n ≤ ring_free_space r
    → ring_write_ext r n ≡ (some r.wp, record r { wp = r.wp + n })
unfolding ring_write_ext ring_over_loop ring_will_full
write_ext_lem r n some_n inside room =
    let given : (n == 0) ≡ false = ground (arith, some_n) in
    let on : past_end r (r.rp + n) ≡ false = ground (arith, inside) in
    let free : ltb (ring_free_space r) n ≡ false = ground (arith, room) in
    rw given (rw (on, ring_over_loop) (rw free refl))

-- Where the ring has been read from and holds at least two bytes, in one piece, the call accepts
-- one byte more than there are up to the end of the buffer, and leaves the write pointer one byte
-- behind the first place outside.
pub write_ext-past_end :
    (r : Ring)
    → 1 ≤ r.rp
    → r.rp + 2 ≤ r.wp
    → r.wp < r.size
    → ring_write_ext r (r.size - r.wp + 1) ≡ (some r.wp, record r { wp = r.size + 1 })
unfolding ring_free_space
write_ext-past_end r was_read two inside =
    let room : r.size - r.wp + 1 ≤ ring_free_space r = ground (arith, was_read, two, inside) in
    let at : r.wp + (r.size - r.wp + 1) ≡ r.size + 1 = omega (arith, inside) in
    write_ext_lem r (r.size - r.wp + 1) (omega arith) (omega (arith, two, inside)) room
    ∙ ap (λ k. (some r.wp, record r { wp = k })) at

-- Where the bytes that the ring holds go around the end of the buffer, a call for all of the free
-- space succeeds, if it passes the test of the read pointer; and the ring, that held bytes, has
-- none to read then.
pub write_ext-empties :
    (r : Ring)
    → r.wp < r.rp
    → r.rp + (r.rp - r.wp) < r.size
    → (0 < ring_readable_len r)
      × ((ring_write_ext r (ring_free_space r)).0 ≡ some r.wp)
      × (ring_readable_len (ring_write_ext r (ring_free_space r)).1 ≡ 0)
unfolding ring_readable_len ring_free_space
write_ext-empties r around inside =
    let free : ring_free_space r ≡ r.rp - r.wp = ground (arith, around) in
    let out =
      write_ext_lem r (ring_free_space r) (omega (arith, free, around))
        (omega (arith, free, inside)) (omega arith) in
    let full : r.wp + ring_free_space r ≡ r.rp = omega (arith, free, around) in
    let after : ring_readable_len (record r { wp = r.rp }) ≡ 0 = ground arith in
    (
      omega (arith, free, inside),
      ap (λ o. o.0) out,
      ap (λ o. ring_readable_len o.1) out
          ∙ ap (λ k. ring_readable_len (record r { wp = k })) full
          ∙ after,
    )
