-- ===== src/Checksum/Address.antt =====
-- `do_csum` is the sum of the 16-bit words in ones' complement, at any address.
use w132d_linux_mainline.Prelude.{
  ℕ, ◌+◌, ◌-◌, ◌*◌, ◌%◌, ◌^◌, ◌<◌, ◌≡◌, refl, ◌∙◌, sym, subst, List, [], ◌∷◌, arith, ◌==◌,
  if◌then◌else◌, if_cases, if_true, if_false, Bool-cases, inl, inr,
}
use w132d_linux_mainline.Checksum.{
  from32to16, fold_words, add_half, add_byte, csum_even, swap, do_csum,
}
use w132d_linux_mainline.Checksum.Sum.{
  words_sum, AllBytes, Left, IsSum, fold_words-Left, rest_lem, from32to16-IsSum,
}

csum_from :
    (result s : ℕ) (bs : List ℕ)
    → result < 2 ^ 17
    → AllBytes bs
    → result + words_sum bs ≡ s
    → (let x = from32to16 (add_byte (add_half (fold_words result bs))) in IsSum s x × (x < 2 ^ 16))
csum_from result s bs h b e =
    let (left, small) = fold_words-Left result bs h b in
    let (sum, bound) =
      rest_lem s (fold_words result bs) (subst (λ k. Left k (fold_words result bs)) e left) small in
    from32to16-IsSum s (add_byte (add_half (fold_words result bs))) sum (omega (arith, bound))

started :
    (result : ℕ) (bs : List ℕ)
    → result < 2 ^ 16
    → AllBytes bs
    → (let r = add_half (result, bs) in
        (r.0 < 2 ^ 17) × AllBytes r.1 × (r.0 + words_sum r.1 ≡ result + words_sum bs))
unfolding add_half words_sum
started result [] h b = (omega (arith, h), b, refl)
started result (a ∷ []) h b = (omega (arith, h), b, refl)
started result (a ∷ c ∷ bs) h (ha, (hc, b)) =
    (omega (arith, h, ha, hc), b, omega (arith, h, ha, hc))

csum_even-IsSum :
    (address result : ℕ) (bs : List ℕ)
    → result < 2 ^ 16
    → AllBytes bs
    → (let x = csum_even address result bs in IsSum (result + words_sum bs) x × (x < 2 ^ 16))
unfolding csum_even
csum_even-IsSum address result bs h b =
    let (small, bytes, same) = started result bs h b in
    if_cases
      (λ (r : ℕ × List ℕ).
        let x = from32to16 (add_byte (add_half (fold_words r.0 r.1))) in
        IsSum (result + words_sum bs) x × (x < 2 ^ 16))
      (address % 4 == 0) (result, bs) (add_half (result, bs))
      (λ aligned. csum_from result _ bs (omega (arith, h)) b refl)
      (λ off. csum_from (add_half (result, bs)).0 _ (add_half (result, bs)).1 small bytes same)

-- The number of 16 bits that a sum folds to: zero only for zero.
unfoldable pub ones_sum : ℕ → ℕ
ones_sum s = if s == 0 then 0 else 1 + (s - 1) % 65535

IsSum-ones_sum : (s x : ℕ) → IsSum s x → x < 2 ^ 16 → x ≡ ones_sum s
unfolding ones_sum
IsSum-ones_sum s x h small = elim (Bool-cases (s == 0)) [
  | inl e ↦ let zero_s : s ≡ 0 = ground (arith, e) in h.none_back zero_s ∙ sym (if_true _ _ e)
  | inr e ↦
      let some_s : 0 < s = ground (arith, e) in
      let same = h.same in
      let some_x : 0 < x = elim (Bool-cases (x == 0)) [
        | inl z ↦ let zero_x : x ≡ 0 = ground (arith, z) in omega (arith, h.none zero_x, some_s)
        | inr z ↦ ground (arith, z)
      ] in
      (omega (arith, same, some_s, some_x, small)) ∙ sym (if_false _ _ e)
]

-- Behind an odd byte the words are shifted by a byte.
shifted : (c : ℕ) (cs : List ℕ) → words_sum (c ∷ cs) % 65535 ≡ (c + 256 * words_sum cs) % 65535
unfolding words_sum
shifted c [] = omega arith
shifted c (d ∷ ds) = omega (arith, shifted d ds)

shifted_none :
    (c : ℕ) (cs : List ℕ)
    → (words_sum (c ∷ cs) ≡ 0 → c + words_sum cs ≡ 0)
      × (c + words_sum cs ≡ 0 → words_sum (c ∷ cs) ≡ 0)
unfolding words_sum
shifted_none c [] = ((λ z. omega (arith, z)), (λ z. omega (arith, z)))
shifted_none c (d ∷ ds) =
    let (there, back) = shifted_none d ds in
    (
      (λ z. omega (arith, z, back (omega (arith, z)))),
      (λ z. omega (arith, z, there (omega (arith, z)))),
    )

swap_lem : (x : ℕ) → x < 2 ^ 16 → swap x % 65535 ≡ (256 * x) % 65535
swap_lem x h = omega arith

times_256 : (x y : ℕ) → x % 65535 ≡ y % 65535 → (256 * x) % 65535 ≡ (256 * y) % 65535
times_256 x y h = omega (arith, h)

swap-IsSum :
    (b x : ℕ) (bs : List ℕ)
    → IsSum (b * 256 + words_sum bs) x
    → x < 2 ^ 16
    → IsSum (words_sum (b ∷ bs)) (swap x)
swap-IsSum b x bs h small =
    let (there, back) = shifted_none b bs in
    record {
      same =
          swap_lem x small
          ∙ times_256 x (b * 256 + words_sum bs) h.same
          ∙ (omega arith)
          ∙ sym (shifted b bs);
      none = λ z.
          let zero_x : x ≡ 0 = omega (arith, z, small) in
          let zero_sum = h.none zero_x in back (omega (arith, zero_sum));
      none_back = λ z.
          let zero_sum = there z in
          let zero_x = h.none_back (omega (arith, zero_sum)) in omega (arith, zero_x);
    }

-- The result is the sum of the little-endian words of the buffer, folded to 16 bits as a sum in
-- ones' complement, whatever the address and the length are. The condition: the buffer is of bytes.
pub do_csum-ones_sum :
    (address : ℕ) (bs : List ℕ) → AllBytes bs → do_csum address bs ≡ ones_sum (words_sum bs)
unfolding do_csum words_sum ones_sum
do_csum-ones_sum address [] b = refl
do_csum-ones_sum address (b ∷ bs) (hb, hs) = elim (Bool-cases (address % 2 == 1)) [
  | inl odd ↦
      let (sum, small) = csum_even-IsSum (address + 1) (b * 256) bs (omega (arith, hb)) hs in
      let x = csum_even (address + 1) (b * 256) bs in
      let bound : swap x < 2 ^ 16 = omega arith in
      if_true _ _ odd
      ∙ IsSum-ones_sum (words_sum (b ∷ bs)) (swap x) (swap-IsSum b x bs sum small) bound
  | inr even ↦
      let (sum, small) = csum_even-IsSum address 0 (b ∷ bs) (omega arith) (hb, hs) in
      let x = csum_even address 0 (b ∷ bs) in
      let whole : 0 + words_sum (b ∷ bs) ≡ words_sum (b ∷ bs) = omega arith in
      if_false _ _ even
      ∙ IsSum-ones_sum (words_sum (b ∷ bs)) x (subst (λ k. IsSum k x) whole sum) small
]
