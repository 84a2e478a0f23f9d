-- ===== src/LogRing/Reading.antt =====
-- Reads from the ring of bufring.c: the oldest bytes leave, whichever way they lie.
use w132d_linux_mainline.Prelude.{
  ℕ, ◌+◌, ◌-◌, ◌≤◌, ◌<◌, ◌≡◌, ◌⊎◌, refl, ◌∙◌, sym, ap, subst, true, false, ◌&&◌, List, [], ◌++◌,
  some, inl, inr, arith, length, length-append, take, drop, Bool-cases, bind_some, if_cases,
  Returns, Returns_eq,
}
use mathlib.Core.List.{append_assoc, append-nil}
use w132d_linux_mainline.Prelude.Memory.{
  read_bytes, read_bytes_lem, length-take, length-drop, take-append-drop, drop-length-append,
  take-all, drop-append, take-append, take-append_past, drop-append_past,
}
use w132d_linux_mainline.LogRing.{
  Ring, Ret, fault, len, ring_over_loop, past_end, whole_copy, read_parts, read_around,
  read_straight, read_len,
}
use w132d_linux_mainline.LogRing.Storage.{
  CopyFails, failed, both_whole, Holds, flat, split, length_parts,
}

-- A part of a list in the middle.
read_middle :
    (pre xs post buf : List ℕ) (i n : ℕ)
    → buf ≡ pre ++ (xs ++ post)
    → i ≡ length pre
    → n ≤ length xs
    → read_bytes buf i n ≡ some (take n xs)
read_middle pre xs post buf i n e at h =
    ap (λ b. read_bytes b i n) e
    ∙ read_bytes_lem (pre ++ (xs ++ post)) i n (omega (arith, length_parts pre xs post))
    ∙ ap (λ k. some (take n (drop k (pre ++ (xs ++ post))))) at
    ∙ ap (λ t. some (take n t)) (drop-length-append pre (xs ++ post))
    ∙ ap some (take-append n xs post h)

module _ (uncopied : ℕ → ℕ → ℕ) where
  -- The first `n` bytes come out, or the ring holds what it did and a copy failed.
  abbrev pub IsRead : ℕ → List ℕ → ℕ → (Ret × List ℕ) × Ring → Type 0
  IsRead size q n ((ret, out), r') =
      ((ret ≡ len n) × (r'.size ≡ size) × (out ≡ take n q) × Holds r' (drop n q))
      ⊎ ((ret ≡ fault) × (r'.size ≡ size) × (out ≡ []) × Holds r' q × CopyFails uncopied)

  straight :
      (r : Ring) (q : List ℕ) (n : ℕ)
      → read_bytes r.pbuff r.rp n ≡ some (take n q)
      → Holds r q
      → Holds (record r { rp = r.rp + n }) (drop n q)
      → Returns (read_straight uncopied r n) (IsRead r.size q n)
  unfolding read_straight
  straight r q n got h later = Returns_eq (IsRead r.size q n) (bind_some _ got) (
    _,
    refl,
    if_cases (IsRead r.size q n) (whole_copy uncopied 0 n) _ _
        (λ whole. inl (refl, refl, refl, later))
        (λ part. inr (refl, refl, refl, h, failed uncopied 0 n part)),
  )

  around :
      (r : Ring) (q : List ℕ) (n len1 len2 : ℕ) (a b : List ℕ)
      → read_bytes r.pbuff r.rp len1 ≡ some a
      → read_bytes r.pbuff 0 len2 ≡ some b
      → a ++ b ≡ take n q
      → Holds r q
      → Holds (record r { rp = len2 }) (drop n q)
      → Returns (read_parts uncopied r n len1 len2) (IsRead r.size q n)
  unfolding read_parts
  around r q n len1 len2 a b got1 got2 e h later =
      Returns_eq (IsRead r.size q n) (bind_some _ got1 ∙ bind_some _ got2) (
        _,
        refl,
        if_cases (IsRead r.size q n) (whole_copy uncopied 0 len1 && whole_copy uncopied len1 len2) _
            _ (λ whole. inl (refl, refl, e, later))
            (λ part. inr (refl, refl, refl, h, both_whole uncopied len1 len2 part)),
      )

  read_loop :
      (r : Ring) (q : List ℕ) (n : ℕ)
      → Returns (read_around uncopied (record r { p_order_flag = false }) n) (IsRead r.size q n)
      → past_end r (r.rp + n) ≡ true
      → Returns (read_len uncopied r n) (IsRead r.size q n)
  unfolding read_len ring_over_loop
  read_loop r q n h e = rw (e, read_len) h

  read_on :
      (r : Ring) (q : List ℕ) (n : ℕ)
      → Returns (read_straight uncopied r n) (IsRead r.size q n)
      → past_end r (r.rp + n) ≡ false
      → Returns (read_len uncopied r n) (IsRead r.size q n)
  unfolding read_len ring_over_loop
  read_on r q n h e = rw (e, read_len) h

  -- A part of what stands behind `rp` in a split queue.
  on_split :
      (r : Ring) (q1 q2 z : List ℕ) (n : ℕ)
      → r.size ≡ length r.pbuff
      → r.pbuff ≡ q2 ++ (z ++ q1)
      → r.wp ≡ length q2
      → r.rp ≡ length q2 + length z
      → 0 < length z
      → n < length q1
      → Returns (read_straight uncopied r n) (IsRead r.size (q1 ++ q2) n)
  on_split r q1 q2 z n size bytes wp rp some_z h =
      let lt = length-take n q1 (omega (arith, h)) in
      let both = length-append z (take n q1) in
      let behind : r.pbuff ≡ (q2 ++ z) ++ (q1 ++ []) =
        bytes ∙ sym (append_assoc q2 z q1) ∙ ap (λ t. (q2 ++ z) ++ t) (sym (append-nil q1)) in
      straight r (q1 ++ q2) n
        (read_middle (q2 ++ z) q1 [] r.pbuff r.rp n behind (rp ∙ sym (length-append q2 z))
            (omega (arith, h))
          ∙ ap some (sym (take-append n q1 q2 (omega (arith, h)))))
        (split q1 q2 z size bytes wp rp some_z (omega (arith, h)) refl)
        (split (drop n q1) q2 (z ++ take n q1) size
          (bytes
            ∙ ap (λ t. q2 ++ (z ++ t)) (sym (take-append-drop n q1))
            ∙ ap (λ t. q2 ++ t) (sym (append_assoc z (take n q1) (drop n q1))))
          wp (omega (arith, rp, both, lt)) (omega (arith, both, some_z))
          (omega (arith, length-drop n q1, h)) (drop-append n q1 q2 (omega (arith, h))))

  -- All of what stands behind `rp`, and a part of the rest.
  over_split :
      (r : Ring) (q1 q2 z : List ℕ) (n : ℕ)
      → r.size ≡ length r.pbuff
      → r.pbuff ≡ q2 ++ (z ++ q1)
      → r.wp ≡ length q2
      → r.rp ≡ length q2 + length z
      → 0 < length z
      → 0 < length q1
      → length q1 ≤ n
      → n ≤ length q1 + length q2
      → Returns (read_parts uncopied r n (length q1) (n - length q1)) (IsRead r.size (q1 ++ q2) n)
  over_split r q1 q2 z n size bytes wp rp some_z some_q long h =
      let k = n - length q1 in
      let fits : k ≤ length q2 = omega (arith, long, h) in
      let behind : r.pbuff ≡ (q2 ++ z) ++ (q1 ++ []) =
        bytes ∙ sym (append_assoc q2 z q1) ∙ ap (λ t. (q2 ++ z) ++ t) (sym (append-nil q1)) in
      around r (q1 ++ q2) n (length q1) k q1 (take k q2)
        (read_middle (q2 ++ z) q1 [] r.pbuff r.rp (length q1) behind (rp ∙ sym (length-append q2 z))
            (omega arith)
          ∙ ap some (take-all (length q1) q1 (omega arith)))
        (read_middle [] q2 (z ++ q1) r.pbuff 0 k bytes refl fits)
        (sym (take-append_past n q1 q2 long)) (split q1 q2 z size bytes wp rp some_z some_q refl)
        (subst (Holds (record r { rp = k })) (sym (drop-append_past n q1 q2 long)) (
          flat (take k q2) (z ++ q1) size
            (bytes
              ∙ ap (λ t. t ++ (z ++ q1)) (sym (take-append-drop k q2))
              ∙ append_assoc (take k q2) (drop k q2) (z ++ q1))
            (sym (length-take k q2 fits))
            (omega (arith, wp, length-take k q2 fits, length-drop k q2))
            (omega (arith, length-append z q1, some_z))))

  pub read_len-IsRead :
      (r : Ring) (q : List ℕ) (n : ℕ)
      → Holds r q
      → n ≤ length q
      → Returns (read_len uncopied r n) (IsRead r.size q n)
  read_len-IsRead r q n (flat x z size bytes rp wp some_z) h =
      let whole = size ∙ ap length bytes in
      let short : r.rp + n ≤ r.size - 1 = omega (arith, whole, length_parts x q z, rp, some_z) in
      let on : past_end r (r.rp + n) ≡ false = ground (arith, short) in
      let lt = length-take n q h in
      let later : Holds (record r { rp = r.rp + n }) (drop n q) =
        flat (x ++ take n q) z size
          (bytes
            ∙ ap (λ t. x ++ (t ++ z)) (sym (take-append-drop n q))
            ∙ ap (λ t. x ++ t) (append_assoc (take n q) (drop n q) z)
            ∙ sym (append_assoc x (take n q) (drop n q ++ z)))
          (omega (arith, rp, length-append x (take n q), lt))
          (omega (arith, wp, length-append x (take n q), lt, length-drop n q)) some_z in
      read_on r q n
        (straight r q n (read_middle x q z r.pbuff r.rp n bytes rp h)
          (flat x z size bytes rp wp some_z) later)
        on
  read_len-IsRead r q n (split q1 q2 z size bytes wp rp some_z some_q e) h =
      let whole = size ∙ ap length bytes in
      let total = length_parts q2 z q1 in
      let all = ap length e ∙ length-append q1 q2 in
      subst (λ t. Returns (read_len uncopied r n) (IsRead r.size t n)) (sym e)
        (elim (Bool-cases (past_end r (r.rp + n))) [
          | inl over ↦
              let past : r.size - 1 < r.rp + n = ground (arith, over) in
              let len1 : r.size - r.rp ≡ length q1 = omega (arith, whole, total, rp) in
              let r' = record r { p_order_flag = false } in
              read_loop r (q1 ++ q2) n
                (Returns_eq (IsRead r.size (q1 ++ q2) n)
                  (ap (λ k. read_parts uncopied r' n k (n - k)) len1)
                  (over_split r' q1 q2 z n size bytes wp rp some_z some_q
                    (omega (arith, past, whole, total, rp)) (omega (arith, h, all))))
                over
          | inr on ↦
              let short : r.rp + n ≤ r.size - 1 = ground (arith, on) in
              read_on r (q1 ++ q2) n
                (on_split r q1 q2 z n size bytes wp rp some_z
                  (omega (arith, short, whole, total, rp, some_q)))
                on
        ])
