-- ===== src/LogRing/Writing.antt =====
-- Writes to the ring of bufring.c: what is written stands behind what the ring holds.
use w132d_linux_mainline.Prelude.{
  ℕ, ◌+◌, ◌-◌, ◌≤◌, ◌<◌, ◌≡◌, ◌⊎◌, refl, ◌∙◌, sym, ap, true, ◌&&◌, List, [], ◌++◌, Option, some,
  inl, inr, arith, if◌then◌else◌, ◌>>=◌, length, length-append, length-replicate, take, drop,
  replicate, bind_some, if_cases, Returns, Returns_eq,
}
use mathlib.Core.List.{append_assoc, append-nil}
use w132d_linux_mainline.Prelude.Memory.{
  write_bytes, write_bytes-append, length-take, length-drop, take-append-drop, take-all, drop-all,
  drop-append,
}
use w132d_linux_mainline.LogRing.{
  Ring, Ret, fault, len, arrived, whole_copy, write_parts, write_straight,
}
use w132d_linux_mainline.LogRing.Storage.{
  CopyFails, failed, both_whole, Holds, flat, split, length_parts,
}

-- The kernel never leaves more bytes than it was told to copy.
abbrev pub AtMost : (ℕ → ℕ → ℕ) → Type 0
AtMost uncopied = (o n : ℕ) → uncopied o n ≤ n

module _ (uncopied : ℕ → ℕ → ℕ) (at_most : AtMost uncopied) where
  length-arrived : (o : ℕ) (bs : List ℕ) → length (arrived uncopied o bs) ≡ length bs
  unfolding arrived
  length-arrived o bs =
      let k = uncopied o (length bs) in
      omega (
        arith,
        at_most o (length bs),
        length-append (take (length bs - k) bs) (replicate k 0),
        length-take (length bs - k) bs (omega arith),
        length-replicate {A = ℕ} k 0,
      )

  pub arrived-whole :
      (o : ℕ) (bs : List ℕ) → whole_copy uncopied o (length bs) ≡ true → arrived uncopied o bs ≡ bs
  unfolding arrived
  arrived-whole o bs whole =
      let e : uncopied o (length bs) ≡ 0 = ground (arith, whole) in
      rw e (append-nil (take (length bs - 0) bs) ∙ take-all (length bs - 0) bs (omega arith))

  -- All is written behind the old bytes, or the ring holds what it did and a copy failed.
  abbrev pub IsWritten : ℕ → List ℕ → List ℕ → Ret × Ring → Type 0
  IsWritten size q bs (ret, r') =
      ((ret ≡ len (length bs)) × (r'.size ≡ size) × Holds r' (q ++ bs))
      ⊎ ((ret ≡ fault) × (r'.size ≡ size) × Holds r' q × CopyFails uncopied)

  store :
      (pre old bs pbuff : List ℕ) (i : ℕ)
      → pbuff ≡ pre ++ old
      → i ≡ length pre
      → length bs ≤ length old
      → write_bytes pbuff i bs ≡ some (pre ++ (bs ++ drop (length bs) old))
  store pre old bs pbuff i e at room =
      ap (λ b. write_bytes b i bs) e ∙ write_bytes-append pre old bs i at room

  -- One piece, behind a flat queue.
  pub straight_flat :
      (r : Ring) (q bs x z : List ℕ)
      → r.size ≡ length r.pbuff
      → r.pbuff ≡ x ++ (q ++ z)
      → r.rp ≡ length x
      → r.wp ≡ length x + length q
      → length bs < length z
      → Returns (write_straight uncopied r bs) (IsWritten r.size q bs)
  unfolding write_straight
  straight_flat r q bs x z size bytes rp wp room =
      let a = arrived uncopied 0 bs in
      let n = length-arrived 0 bs in
      let d = drop (length a) z in
      let put : write_bytes r.pbuff r.wp a ≡ some (x ++ (q ++ (a ++ d))) =
        store (x ++ q) z a r.pbuff r.wp (bytes ∙ sym (append_assoc x q z))
          (wp ∙ sym (length-append x q)) (omega (arith, n))
        ∙ ap some (append_assoc x q (a ++ d)) in
      let size' : r.size ≡ length (x ++ (q ++ (a ++ d))) = omega (
        arith,
        size ∙ ap length bytes,
        length_parts x q z,
        length_parts x q (a ++ d),
        length-append a d,
        length-drop (length a) z,
        n,
      ) in
      Returns_eq (IsWritten r.size q bs) (bind_some _ put) (
        _,
        refl,
        if_cases (IsWritten r.size q bs) (whole_copy uncopied 0 (length bs)) _ _
            (λ whole. inl (
              refl,
              refl,
              flat x d size'
                  (ap (λ b. x ++ (q ++ (b ++ d))) (arrived-whole 0 bs whole)
                    ∙ ap (λ b. x ++ b) (sym (append_assoc q bs d)))
                  rp (omega (arith, wp, length-append q bs))
                  (omega (arith, n, length-drop (length a) z)),
            ))
            (λ part. inr (
              refl,
              refl,
              flat x (a ++ d) size' refl rp wp
                  (omega (arith, n, length-append a d, length-drop (length a) z)),
              failed uncopied 0 (length bs) part,
            )),
      )

  -- One piece, between the two parts of a split queue.
  pub straight_split :
      (r : Ring) (q bs q1 q2 z : List ℕ)
      → r.size ≡ length r.pbuff
      → r.pbuff ≡ q2 ++ (z ++ q1)
      → r.wp ≡ length q2
      → r.rp ≡ length q2 + length z
      → 0 < length q1
      → q ≡ q1 ++ q2
      → length bs < length z
      → Returns (write_straight uncopied r bs) (IsWritten r.size q bs)
  unfolding write_straight
  straight_split r q bs q1 q2 z size bytes wp rp some_q e room =
      let a = arrived uncopied 0 bs in
      let n = length-arrived 0 bs in
      let d = drop (length a) z in
      let cut : drop (length a) (z ++ q1) ≡ d ++ q1 =
        drop-append (length a) z q1 (omega (arith, n)) in
      let put : write_bytes r.pbuff r.wp a ≡ some (q2 ++ (a ++ (d ++ q1))) =
        store q2 (z ++ q1) a r.pbuff r.wp bytes wp (omega (arith, n, length-append z q1))
        ∙ ap (λ t. some (q2 ++ (a ++ t))) cut in
      let ld = length-drop (length a) z in
      let size' : r.size ≡ length (q2 ++ (a ++ (d ++ q1))) = omega (
        arith,
        size ∙ ap length bytes,
        length_parts q2 z q1,
        length_parts q2 a (d ++ q1),
        length-append d q1,
        ld,
        n,
      ) in
      Returns_eq (IsWritten r.size q bs) (bind_some _ put) (
        _,
        refl,
        if_cases (IsWritten r.size q bs) (whole_copy uncopied 0 (length bs)) _ _
            (λ whole. inl (
              refl,
              refl,
              split q1 (q2 ++ bs) d size'
                  (ap (λ b. q2 ++ (b ++ (d ++ q1))) (arrived-whole 0 bs whole)
                    ∙ sym (append_assoc q2 bs (d ++ q1)))
                  (omega (arith, wp, length-append q2 bs))
                  (omega (arith, rp, length-append q2 bs, ld, n)) (omega (arith, ld, n)) some_q
                  (ap (λ b. b ++ bs) e ∙ append_assoc q1 q2 bs),
            ))
            (λ part. inr (
              refl,
              refl,
              split q1 q2 (a ++ d) size' (ap (λ b. q2 ++ b) (sym (append_assoc a d q1))) wp
                  (omega (arith, rp, length-append a d, ld, n))
                  (omega (arith, length-append a d, ld, n)) some_q e,
              failed uncopied 0 (length bs) part,
            )),
      )

  -- Two pieces: up to the end of the buffer, and from its beginning.
  pub around_flat :
      (r : Ring) (q bs x z : List ℕ)
      → r.size ≡ length r.pbuff
      → r.pbuff ≡ x ++ (q ++ z)
      → r.rp ≡ length x
      → r.wp ≡ length x + length q
      → 0 < length z
      → length z ≤ length bs
      → length bs < length x + length z
      → Returns
          (write_parts uncopied r bs (length z) (length bs - length z))
          (IsWritten r.size q bs)
  unfolding write_parts
  around_flat r q bs x z size bytes rp wp some_z long room =
      let b1 = take (length z) bs in
      let b2 = drop (length z) bs in
      let a1 = arrived uncopied 0 b1 in
      let a2 = arrived uncopied (length z) b2 in
      let n1 = length-arrived 0 b1 in
      let n2 = length-arrived (length z) b2 in
      let l1 = length-take (length z) bs long in
      let l2 = length-drop (length z) bs in
      let d = drop (length a2) x in
      let ld = length-drop (length a2) x in
      let put1 : write_bytes r.pbuff r.wp a1 ≡ some (x ++ (q ++ a1)) =
        store (x ++ q) z a1 r.pbuff r.wp (bytes ∙ sym (append_assoc x q z))
          (wp ∙ sym (length-append x q)) (omega (arith, n1, l1))
        ∙ ap (λ t. some ((x ++ q) ++ (a1 ++ t))) (drop-all (length a1) z (omega (arith, n1, l1)))
        ∙ ap (λ t. some ((x ++ q) ++ t)) (append-nil a1)
        ∙ ap some (append_assoc x q a1) in
      let put2 : write_bytes (x ++ (q ++ a1)) 0 a2 ≡ some (a2 ++ (d ++ (q ++ a1))) =
        store [] (x ++ (q ++ a1)) a2 (x ++ (q ++ a1)) 0 refl refl
          (omega (arith, length-append x (q ++ a1), n2, l2))
        ∙ ap (λ t. some (a2 ++ t)) (drop-append (length a2) x (q ++ a1) (omega (arith, n2, l2))) in
      let part2 : take (length bs - length z) b2 ≡ b2 =
        take-all (length bs - length z) b2 (omega (arith, l2)) in
      let size' : r.size ≡ length (a2 ++ (d ++ (q ++ a1))) = omega (
        arith,
        size ∙ ap length bytes,
        length_parts x q z,
        length_parts a2 d (q ++ a1),
        length-append q a1,
        ld,
        n1,
        n2,
        l1,
        l2,
      ) in
      let test =
        whole_copy uncopied 0 (length z) && whole_copy uncopied (length z) (length bs - length z) in
      let ending : List ℕ → Option (Ret × Ring) = λ m'. some (
        if test
        then (len (length bs), record r { pbuff = m'; wp = length bs - length z })
        else (fault, record r { pbuff = m' })) in
      let put : write_parts uncopied r bs (length z) (length bs - length z) ≡ _ =
        bind_some _ put1
        ∙ ap (λ t. write_bytes (x ++ (q ++ a1)) 0 (arrived uncopied (length z) t) >>= ending) part2
        ∙ bind_some ending put2 in
      Returns_eq (IsWritten r.size q bs) put (
        _,
        refl,
        if_cases (IsWritten r.size q bs) test _ _
            (λ whole.
              let w1 : whole_copy uncopied 0 (length z) ≡ true = ground (arith, whole) in
              let w2 : whole_copy uncopied (length z) (length bs - length z) ≡ true =
                ground (arith, whole) in
              let e1 = arrived-whole 0 b1 (ap (whole_copy uncopied 0) l1 ∙ w1) in
              let e2 = arrived-whole (length z) b2 (ap (whole_copy uncopied (length z)) l2 ∙ w2) in
              inl (
                refl,
                refl,
                split (q ++ b1) b2 d size'
                    (ap (λ t. a2 ++ (d ++ (q ++ t))) e1 ∙ ap (λ t. t ++ (d ++ (q ++ b1))) e2)
                    (sym l2) (omega (arith, rp, ld, n2, l2)) (omega (arith, ld, n2, l2))
                    (omega (arith, length-append q b1, l1))
                    (ap (λ t. q ++ t) (sym (take-append-drop (length z) bs))
                      ∙ sym (append_assoc q b1 b2)),
              ))
            (λ part. inr (
              refl,
              refl,
              flat (a2 ++ d) a1 size' (sym (append_assoc a2 d (q ++ a1)))
                  (omega (arith, rp, length-append a2 d, ld, n2, l2))
                  (omega (arith, wp, length-append a2 d, ld, n2, l2)) (omega (arith, n1, l1)),
              both_whole uncopied (length z) (length bs - length z) part,
            )),
      )
