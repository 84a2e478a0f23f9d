-- ===== src/LogRing/Calls.antt =====
-- A write to the ring of bufring.c, and a read, are those of a bounded queue.
use w132d_linux_mainline.Prelude.{
  ℕ, zero, suc, ◌+◌, ◌≤◌, ◌<◌, ◌≡◌, refl, ◌∙◌, sym, ap, subst, true, false, ◌&&◌, List, [], ◌∷◌,
  ◌++◌, inl, inr, arith, leb, ◌==◌, length, take, drop, Bool-cases, bind_some, if_cases, Returns,
}
use w132d_linux_mainline.Prelude.Memory.{take-all, drop-all}
use w132d_linux_mainline.LogRing.{
  Ring, Ret, bad_param, fault, len, ring_free_space, ring_readable_len, ring_write, read_len,
  ring_read, at_most,
}
use w132d_linux_mainline.LogRing.Storage.{Holds, free_space-Holds, readable_len-Holds}
use w132d_linux_mainline.LogRing.Writing.{AtMost, IsWritten}
use w132d_linux_mainline.LogRing.Append.{write_freely-IsWritten}
use w132d_linux_mainline.LogRing.Reading.{IsRead, read_len-IsRead}
use w132d_linux_mainline.LogRing.Spec.{
  Op, write, read, Answer, wrote, got, run_op, Step, write_nothing, discarded, written, write_fault,
  read_nothing, was_read, read_fault,
}

-- The call answers as the queue does, and the ring then holds what the queue does.
abbrev pub Does : ℕ → Op → List ℕ → Answer × Ring → Type 0
Does size op q (a, r') = (q' : List ℕ) × Step size op q a q' × Holds r' q' × (r'.size ≡ size)

written-Does :
    (u : ℕ → ℕ → ℕ) (bounded : AtMost u) (bs : List ℕ) (size : ℕ) (q : List ℕ) (ret : Ret)
    (r' : Ring)
    → 0 < length bs
    → length q + length bs < size
    → IsWritten u bounded size q bs (ret, r')
    → Does size (write u bs) q (wrote false ret, r')
written-Does u bounded bs size q ret r' some_bs room w = elim w [
  | inl (e, same, h) ↦ (
    q ++ bs,
    subst (λ t. Step size (write u bs) q (wrote false t) (q ++ bs)) (sym e) (written some_bs room),
    h,
    same,
  )
  | inr (e, same, h, fails) ↦ (
    q,
    subst (λ t. Step size (write u bs) q (wrote false t) q) (sym e)
        (write_fault some_bs room fails),
    h,
    same,
  )
]

pub write-Does :
    (u : ℕ → ℕ → ℕ) (bounded : AtMost u) (bs : List ℕ) (r : Ring) (q : List ℕ)
    → Holds r q
    → Returns
        (ring_write u true r bs)
        (λ (w, (ret, r')). Does r.size (write u bs) q (wrote w ret, r'))
unfolding ring_write
write-Does u bounded bs r q h =
    let free = free_space-Holds r q h in
    elim (Bool-cases (length bs == 0)) [
      | inl none_given ↦
          rw (none_given, ring_write)
            (_, refl, (q, write_nothing (ground (arith, none_given)), h, refl))
      | inr given ↦
          let some_bs : 0 < length bs = ground (arith, given) in
          elim (Bool-cases (leb (ring_free_space r) (length bs) && true)) [
            | inl full ↦
                rw (given, ring_write)
                  (rw full (_, refl, (q, discarded some_bs (ground (arith, full, free)), h, refl)))
            | inr room ↦
                let fits : length bs < ring_free_space r = ground (arith, room) in
                let ((ret, r'), out, w) = write_freely-IsWritten u bounded r q bs h fits in
                rw (given, ring_write)
                  (rw room (
                    (false, (ret, r')),
                    bind_some _ out,
                    written-Does u bounded bs r.size q ret r' some_bs (omega (arith, free, fits)) w,
                  ))
          ]
    ]

at_most-take : (n : ℕ) (q : List ℕ) → take (at_most (length q) n) q ≡ take n q
at_most-take n q =
    if_cases (λ k. take k q ≡ take n q) (leb n (length q)) n (length q) (λ e. refl)
      (λ e. take-all (length q) q (omega arith) ∙ sym (take-all n q (ground (arith, e))))

at_most-drop : (n : ℕ) (q : List ℕ) → drop (at_most (length q) n) q ≡ drop n q
at_most-drop n q =
    if_cases (λ k. drop k q ≡ drop n q) (leb n (length q)) n (length q) (λ e. refl)
      (λ e. drop-all (length q) q (omega arith) ∙ sym (drop-all n q (ground (arith, e))))

read-Does_empty :
    (size : ℕ) (u : ℕ → ℕ → ℕ) (n : ℕ) (q : List ℕ)
    → 0 < n
    → length q ≡ 0
    → Step size (read u n) q (got (len 0) []) q
read-Does_empty size u zero q some_n empty = absurd (omega arith)
read-Does_empty size u (suc n) [] some_n empty =
    let zero_len : at_most 0 (suc n) ≡ 0 = ground arith in
    subst (λ t. Step size (read u (suc n)) [] (got (len t) []) []) zero_len (was_read some_n)
read-Does_empty size u (suc n) (x ∷ q) some_n empty = absurd (omega arith)

read-Does_some :
    (u : ℕ → ℕ → ℕ) (n : ℕ) (size : ℕ) (q : List ℕ) (ret : Ret) (out : List ℕ) (r' : Ring)
    → 0 < n
    → 0 < length q
    → IsRead u size q (at_most (length q) n) ((ret, out), r')
    → Does size (read u n) q (got ret out, r')
read-Does_some u n size q ret out r' some_n some_q w = elim w [
  | inl (e, same, taken, h) ↦ (
    drop n q,
    subst (λ t. Step size (read u n) q (got t out) (drop n q)) (sym e)
        (subst (λ t. Step size (read u n) q (got (len (at_most (length q) n)) t) (drop n q))
          (sym (taken ∙ at_most-take n q)) (was_read some_n)),
    subst (Holds r') (at_most-drop n q) h,
    same,
  )
  | inr (e, same, taken, h, fails) ↦ (
    q,
    subst (λ t. Step size (read u n) q (got t out) q) (sym e)
        (subst (λ t. Step size (read u n) q (got fault t) q) (sym taken)
          (read_fault some_n some_q fails)),
    h,
    same,
  )
]

pub read-Does :
    (u : ℕ → ℕ → ℕ) (n : ℕ) (r : Ring) (q : List ℕ)
    → Holds r q
    → Returns (run_op (read u n) r) (Does r.size (read u n) q)
unfolding run_op ring_read
read-Does u n r q h =
    let all = readable_len-Holds r q h in
    elim (Bool-cases (n == 0)) [
      | inl none_asked ↦
          let e : n ≡ 0 = ground (arith, none_asked) in
          rw (none_asked, ring_read)
            (
              _,
              refl,
              (
                q,
                subst (λ k. Step r.size (read u k) q (got bad_param []) q) (sym e) read_nothing,
                h,
                refl,
              ),
            )
      | inr asked ↦
          let some_n : 0 < n = ground (arith, asked) in
          elim (Bool-cases (at_most (ring_readable_len r) n == 0)) [
            | inl empty ↦
                let e : length q ≡ 0 = ground (arith, empty, all, some_n) in
                rw (asked, ring_read)
                  (rw empty (_, refl, (q, read-Does_empty r.size u n q some_n e, h, refl)))
            | inr some_held ↦
                let some_q : 0 < length q = ground (arith, some_held, all) in
                let fits : at_most (length q) n ≤ length q = ground arith in
                let ((res, r'), out, w) = read_len-IsRead u r q (at_most (length q) n) h fits in
                let same = ap (λ k. read_len u r (at_most k n)) all in
                rw (asked, ring_read)
                  (rw some_held (
                    (got res.0 res.1, r'),
                    bind_some _ (same ∙ out),
                    read-Does_some u n r.size q res.0 res.1 r' some_n some_q w,
                  ))
          ]
    ]
