-- ===== src/Prelude/Memory.antt =====
-- Arrays as lists: copies into and out of them, `none` where a copy leaves the array.
use Prim.Native.Nat.{ℕ, zero, suc, ◌+◌, ◌-◌, ◌≤◌, ◌<◌}
use mathlib.Core.Path.{◌≡◌, refl, sym, ◌∙◌, ap}
use mathlib.Core.Logic.{inl, inr}
use mathlib.Core.Bool.{true, false}
use mathlib.Core.Option.{Option, none, some}
use mathlib.Core.List.{List, [], ◌∷◌, ◌++◌, append_assoc}
use native.Mathlib.Omega.{arith}
use w132d_linux_mainline.Prelude.Tests.{ltb, leb, if◌then◌else◌, Bool-cases}
use w132d_linux_mainline.Prelude.Lists.{length, set, take, drop, length-append, length-set}

module _ {ℓ} {A : Type ℓ} where
  -- A byte after the other, from an index on.
  unfoldable pub write_bytes : List A → ℕ → List A → Option (List A)
  write_bytes buf i [] = some buf
  write_bytes buf i (b ∷ bs) =
      if ltb i (length buf) then write_bytes (set buf i b) (i + 1) bs else none

  unfoldable pub read_bytes : List A → ℕ → ℕ → Option (List A)
  read_bytes buf i n = if leb (i + n) (length buf) then some (take n (drop i buf)) else none

  pub length-take : (n : ℕ) (xs : List A) → n ≤ length xs → length (take n xs) ≡ n
  length-take zero xs h = refl
  length-take (suc n) [] h = absurd (omega arith)
  length-take (suc n) (x ∷ xs) h = ap suc (length-take n xs (omega arith))

  pub length-drop : (n : ℕ) (xs : List A) → length (drop n xs) ≡ length xs - n
  length-drop zero xs = omega arith
  length-drop (suc n) [] = omega arith
  length-drop (suc n) (x ∷ xs) = omega (arith, length-drop n xs)

  pub take-append-drop : (n : ℕ) (xs : List A) → take n xs ++ drop n xs ≡ xs
  take-append-drop zero xs = refl
  take-append-drop (suc n) [] = refl
  take-append-drop (suc n) (x ∷ xs) = ap (λ ys. x ∷ ys) (take-append-drop n xs)

  pub take-length-append : (xs ys : List A) → take (length xs) (xs ++ ys) ≡ xs
  take-length-append [] ys = refl
  take-length-append (x ∷ xs) ys = ap (λ zs. x ∷ zs) (take-length-append xs ys)

  pub drop-length-append : (xs ys : List A) → drop (length xs) (xs ++ ys) ≡ ys
  drop-length-append [] ys = refl
  drop-length-append (x ∷ xs) ys = drop-length-append xs ys

  set-length_append :
      (pre : List A) (x y : A) (rest : List A)
      → set (pre ++ x ∷ rest) (length pre) y ≡ (pre ++ y ∷ []) ++ rest
  set-length_append [] x y rest = refl
  set-length_append (p ∷ pre) x y rest = ap (λ zs. p ∷ zs) (set-length_append pre x y rest)

  -- A copy behind what is written already, where there is room for it.
  pub write_bytes-append :
      (pre old bs : List A) (i : ℕ)
      → i ≡ length pre
      → length bs ≤ length old
      → write_bytes (pre ++ old) i bs ≡ some (pre ++ (bs ++ drop (length bs) old))
  unfolding write_bytes
  write_bytes-append pre old [] i e h = refl
  write_bytes-append pre [] (b ∷ bs) i e h = absurd (omega arith)
  write_bytes-append pre (o ∷ old) (b ∷ bs) i e h =
      let inside : ltb i (length (pre ++ o ∷ old)) ≡ true =
        ground (arith, length-append pre (o ∷ old), e) in
      let next : i + 1 ≡ length (pre ++ b ∷ []) = omega (arith, length-append pre (b ∷ []), e) in
      let rest = write_bytes-append (pre ++ b ∷ []) old bs (i + 1) next (omega arith) in
      let shifted : set (pre ++ o ∷ old) i b ≡ (pre ++ b ∷ []) ++ old =
        ap (λ k. set (pre ++ o ∷ old) k b) e ∙ set-length_append pre o b old in
      rw (inside, write_bytes)
        (rw shifted (rest ∙ ap some (append_assoc pre (b ∷ []) (bs ++ drop (length bs) old))))

  pub read_bytes_lem :
      (buf : List A) (i n : ℕ)
      → i + n ≤ length buf
      → read_bytes buf i n ≡ some (take n (drop i buf))
  unfolding read_bytes
  read_bytes_lem buf i n h = ground (arith, h)

  pub write_bytes_total :
      (buf : List A) (i : ℕ) (bs : List A)
      → i + length bs ≤ length buf
      → (buf' : List A) × (write_bytes buf i bs ≡ some buf') × (length buf' ≡ length buf)
  unfolding write_bytes
  write_bytes_total buf i [] h = (buf, refl, refl)
  write_bytes_total buf i (b ∷ bs) h =
      let inside : ltb i (length buf) ≡ true = ground (arith, h) in
      let (buf', e, l) =
        write_bytes_total (set buf i b) (i + 1) bs (omega (arith, length-set buf i b)) in
      rw (inside, write_bytes) (buf', e, l ∙ length-set buf i b)

  pub write_bytes_overflow :
      (buf : List A) (i : ℕ) (b : A) (bs : List A)
      → length buf < i + suc (length bs)
      → write_bytes buf i (b ∷ bs) ≡ none
  unfolding write_bytes
  write_bytes_overflow buf i b [] h =
      let outside : ltb i (length buf) ≡ false = ground (arith, h) in rw (outside, write_bytes) refl
  write_bytes_overflow buf i b (c ∷ bs) h = elim (Bool-cases (ltb i (length buf))) [
    | inl e ↦
        rw (e, write_bytes)
          (write_bytes_overflow (set buf i b) (i + 1) c bs (omega (arith, length-set buf i b)))
    | inr e ↦ rw (e, write_bytes) refl
  ]

  pub write_bytes_past :
      (buf : List A) (i : ℕ) (bs : List A)
      → length buf < i + length bs
      → i ≤ length buf
      → write_bytes buf i bs ≡ none
  write_bytes_past buf i [] h k = absurd (omega arith)
  write_bytes_past buf i (b ∷ bs) h k = write_bytes_overflow buf i b bs h

  pub take-all : (n : ℕ) (xs : List A) → length xs ≤ n → take n xs ≡ xs
  take-all zero [] h = refl
  take-all zero (x ∷ xs) h = absurd (omega arith)
  take-all (suc n) [] h = refl
  take-all (suc n) (x ∷ xs) h = ap (λ ys. x ∷ ys) (take-all n xs (omega arith))

  pub drop-all : (n : ℕ) (xs : List A) → length xs ≤ n → drop n xs ≡ []
  drop-all zero [] h = refl
  drop-all zero (x ∷ xs) h = absurd (omega arith)
  drop-all (suc n) [] h = refl
  drop-all (suc n) (x ∷ xs) h = drop-all n xs (omega arith)

  pub drop-append : (n : ℕ) (xs ys : List A) → n ≤ length xs → drop n (xs ++ ys) ≡ drop n xs ++ ys
  drop-append zero xs ys h = refl
  drop-append (suc n) [] ys h = absurd (omega arith)
  drop-append (suc n) (x ∷ xs) ys h = drop-append n xs ys (omega arith)

  pub take-append : (n : ℕ) (xs ys : List A) → n ≤ length xs → take n (xs ++ ys) ≡ take n xs
  take-append zero xs ys h = refl
  take-append (suc n) [] ys h = absurd (omega arith)
  take-append (suc n) (x ∷ xs) ys h = ap (λ zs. x ∷ zs) (take-append n xs ys (omega arith))

  pub take-append_past :
      (n : ℕ) (xs ys : List A) → length xs ≤ n → take n (xs ++ ys) ≡ xs ++ take (n - length xs) ys
  take-append_past n [] ys h = ap (λ k. take k ys) (omega arith)
  take-append_past zero (x ∷ xs) ys h = absurd (omega arith)
  take-append_past (suc n) (x ∷ xs) ys h =
      let less : n - length xs ≡ suc n - suc (length xs) = omega arith in
      ap (λ zs. x ∷ zs) (take-append_past n xs ys (omega arith) ∙ ap (λ k. xs ++ take k ys) less)

  pub drop-append_past :
      (n : ℕ) (xs ys : List A) → length xs ≤ n → drop n (xs ++ ys) ≡ drop (n - length xs) ys
  drop-append_past n [] ys h = ap (λ k. drop k ys) (omega arith)
  drop-append_past zero (x ∷ xs) ys h = absurd (omega arith)
  drop-append_past (suc n) (x ∷ xs) ys h =
      let less : n - length xs ≡ suc n - suc (length xs) = omega arith in
      drop-append_past n xs ys (omega arith) ∙ ap (λ k. drop k ys) less

  drop_nil : (n : ℕ) → drop {A = A} n [] ≡ []
  drop_nil zero = refl
  drop_nil (suc n) = refl

  pub drop-drop : (m n : ℕ) (xs : List A) → drop m (drop n xs) ≡ drop (n + m) xs
  drop-drop m zero xs = ap (λ k. drop k xs) (omega arith)
  drop-drop m (suc n) [] = drop_nil m ∙ sym (drop_nil (suc n + m))
  drop-drop m (suc n) (x ∷ xs) =
      let one : suc (n + m) ≡ suc n + m = omega arith in
      drop-drop m n xs ∙ ap (λ k. drop k (x ∷ xs)) one
