-- ===== src/Credit/Grant.antt =====
-- How sprdwl_fc_get_send_num of tx_msg.c shares out the frames among the colours.
use w132d_linux_mainline.Prelude.{
  ℕ, ◌+◌, ◌-◌, ◌%◌, ◌≤◌, ◌<◌, ◌≡◌, refl, ◌∙◌, sym, ap, subst, true, false, List, [], ◌∷◌, inl, inr,
  arith, leb, ◌==◌, if◌then◌else◌, Bool-cases, if_true, if_false,
}
use w132d_linux_mainline.Credit.{Colour, is_shared, shared_from, fc_test_shared_num}

unfoldable pub granted : List Colour → ℕ
granted [] = 0
granted (c ∷ cs) = c.color_num + granted cs

-- No colour is charged for more frames than it has credits.
abbrev pub Covered : List Colour → Type 0
Covered [] = Unit
Covered (c ∷ cs) = (c.color_num ≤ c.flow) × Covered cs

abbrev pub NoNum : List Colour → Type 0
NoNum [] = Unit
NoNum (c ∷ cs) = (c.color_num ≡ 0) × NoNum cs

unfoldable pub num_of_mode : ℕ → List Colour → ℕ
num_of_mode mode [] = 0
num_of_mode mode (c ∷ cs) = if c.mode == mode then c.color_num else num_of_mode mode cs

abbrev pub least : ℕ → ℕ → ℕ
least m n = if leb m n then m else n

pub NoNum-Covered : (cs : List Colour) → NoNum cs → Covered cs
NoNum-Covered [] h = tt
NoNum-Covered (c ∷ cs) (h, hs) = (omega arith, NoNum-Covered cs hs)

pub granted-NoNum : (cs : List Colour) → NoNum cs → granted cs ≡ 0
unfolding granted
granted-NoNum [] h = refl
granted-NoNum (c ∷ cs) (h, hs) = omega (arith, granted-NoNum cs hs)

-- What the loop over the shared colours gives when `s` frames have been given.
pub record Shares (num s : ℕ) (cs : List Colour) (r : ℕ × List Colour) : Type 0 where
  pub amount : r.0 ≡ least num (s + fc_test_shared_num cs)
  pub total : granted r.1 + s ≡ r.0
  pub covered : Covered r.1

pub kept_lem :
    (num s : ℕ) (c : Colour) (cs : List Colour)
    → is_shared c ≡ false
    → shared_from num s (c ∷ cs) ≡ (let rest = shared_from num s cs in (rest.0, c ∷ rest.1))
unfolding shared_from
kept_lem num s c cs e = rw (e, shared_from) refl

pub enough_lem :
    (num s : ℕ) (c : Colour) (cs : List Colour)
    → is_shared c ≡ true
    → leb (num - s) c.flow ≡ true
    → shared_from num s (c ∷ cs) ≡ (num, record c { color_num = (num - s) % 256 } ∷ cs)
unfolding shared_from
enough_lem num s c cs e e' = if_true _ _ e ∙ if_true _ _ e'

pub more_lem :
    (num s : ℕ) (c : Colour) (cs : List Colour)
    → is_shared c ≡ true
    → leb (num - s) c.flow ≡ false
    → shared_from num s (c ∷ cs) ≡ (
        let rest = shared_from num (s + c.flow) cs in
        (rest.0, record c { color_num = c.flow % 256 } ∷ rest.1))
unfolding shared_from
more_lem num s c cs e e' =
    if_true _ _ e
    ∙ if_false _ _ e'
    ∙ ap
        (λ k.
          let rest = shared_from num k cs in
          (rest.0, record c { color_num = c.flow % 256 } ∷ rest.1))
        (if_true _ _ e)

test_shared :
    (c : Colour) (cs : List Colour)
    → fc_test_shared_num (c ∷ cs)
      ≡ (if is_shared c then c.flow + fc_test_shared_num cs else fc_test_shared_num cs)
unfolding fc_test_shared_num
test_shared c cs = refl

pub shared_from-Shares :
    (num s : ℕ) (cs : List Colour)
    → num < 256
    → s ≤ num
    → NoNum cs
    → Shares num s cs (shared_from num s cs)
unfolding shared_from fc_test_shared_num granted
shared_from-Shares num s [] small h n = record {
  amount = ground (arith, h);
  total = omega arith;
  covered = tt;
}
shared_from-Shares num s (c ∷ cs) small h (z, n) = elim (Bool-cases (is_shared c)) [
  | inr kept ↦
      let rest = shared_from-Shares num s cs small h n in
      let test = test_shared c cs ∙ if_false _ _ kept in
      subst (Shares num s (c ∷ cs)) (sym (kept_lem num s c cs kept)) (record {
        amount = rest.amount ∙ ap (λ k. least num (s + k)) (sym test);
        total = omega (arith, rest.total, z);
        covered = (omega (arith, z), rest.covered);
      })
  | inl shared ↦
      let test = test_shared c cs ∙ if_true _ _ shared in
      elim (Bool-cases (leb (num - s) c.flow)) [
        | inl enough ↦
            let got : num - s ≤ c.flow = ground (arith, enough) in
            subst (Shares num s (c ∷ cs)) (sym (enough_lem num s c cs shared enough)) (record {
              amount = ground (arith, test, got, h);
              total = omega (arith, granted-NoNum cs n, small, h);
              covered = (omega (arith, got, small), NoNum-Covered cs n);
            })
        | inr more ↦
            let short : s + c.flow ≤ num = ground (arith, more) in
            let rest = shared_from-Shares num (s + c.flow) cs small short n in
            let sums : s + c.flow + fc_test_shared_num cs ≡ s + fc_test_shared_num (c ∷ cs) =
              omega (arith, test) in
            subst (Shares num s (c ∷ cs)) (sym (more_lem num s c cs shared more)) (record {
              amount = rest.amount ∙ ap (least num) sums;
              total = omega (arith, rest.total, short, small);
              covered = (omega (arith, short, small), rest.covered);
            })
      ]
]
