-- ===== src/MsgList/Counts.antt =====
-- How often a buffer stands in a list of msg.c, and the length of the list.
use w132d_linux_mainline.Prelude.{
  ℕ, ◌+◌, ◌<◌, ◌≡◌, refl, ◌∙◌, sym, ap, List, [], ◌∷◌, Option, none, some, inl, inr, arith, ◌==◌,
  if◌then◌else◌, length, count, Bool-cases, if_true, if_false,
}
use w132d_linux_mainline.MsgList.{list_del, with_data}

pub count-list_del :
    (a b : ℕ) (xs : List ℕ)
    → 0 < count b xs
    → count a (list_del b xs) + (if b == a then 1 else 0) ≡ count a xs
unfolding list_del
count-list_del a b [] h = absurd (omega (arith, h))
count-list_del a b (x ∷ xs) h = elim (Bool-cases (x == b)) [
  | inl e ↦ rw (e, list_del) (ground (arith, e))
  | inr e ↦
      let more : 0 < count b xs = ground (arith, h, e) in
      let rest = count-list_del a b xs more in rw (e, list_del) (omega (arith, rest))
]

pub length-list_del :
    (b : ℕ) (xs : List ℕ) → 0 < count b xs → length (list_del b xs) + 1 ≡ length xs
unfolding list_del
length-list_del b [] h = absurd (omega (arith, h))
length-list_del b (x ∷ xs) h = elim (Bool-cases (x == b)) [
  | inl e ↦ rw (e, list_del) (omega arith)
  | inr e ↦
      let more : 0 < count b xs = ground (arith, h, e) in
      let rest = length-list_del b xs more in rw (e, list_del) (omega (arith, rest))
]

abbrev or_zero : Option ℕ → ℕ
or_zero none = 0
or_zero (some b) = b

pub count-with_data :
    (f : ℕ → ℕ) (v b : ℕ) (xs : List ℕ) → with_data f v xs ≡ some b → 0 < count b xs
unfolding with_data
count-with_data f v b [] e = absurd (cc)
count-with_data f v b (x ∷ xs) e = elim (Bool-cases (v == f x)) [
  | inl hit ↦ let same : x ≡ b = ap or_zero (sym (if_true _ _ hit) ∙ e) in ground (arith, same)
  | inr miss ↦
      let rest = count-with_data f v b xs (sym (if_false _ _ miss) ∙ e) in omega (arith, rest)
]

pub count-empty : (a : ℕ) (xs : List ℕ) → length xs ≡ 0 → count a xs ≡ 0
count-empty a [] h = refl
count-empty a (x ∷ xs) h = absurd (omega (arith, h))
