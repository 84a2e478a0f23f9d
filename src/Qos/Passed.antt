-- ===== src/Qos/Passed.antt =====
-- Which access category a frame may take in change_priority_if of qos.c, and which are passed.
use w132d_linux_mainline.Prelude.{
  ℕ, suc, ◌≤◌, ◌<◌, ◌≡◌, ◌≢◌, ◌∙◌, ap, true, false, List, some, arith, ◌==◌, get_elem?, set, subst,
  Bool-cases, inl, inr,
}
use w132d_linux_mainline.Qos.{Ac}
use w132d_linux_mainline.Qos.Mapping.{charge, Chosen, refused, chosen}

-- The categories above `k`, up to that of the frame, cannot be used: each needs admission, and has
-- no time left, none used.
abbrev pub Passed : ℕ → ℕ → List Ac → Type 0
Passed k top acs =
    (j : ℕ) (a : Ac)
    → k < j
    → j ≤ top
    → get_elem? acs j ≡ some a
    → (a.acm ≡ true) × (a.admitted ≤ a.used) × (a.used ≡ 0)

-- Why a frame is sent by an access category, or by none, where `top` is the one of its TID: the
-- first from there down that is not passed decides.
pub data Choice (time top : ℕ) (acs : List Ac) : Chosen → Type 0 where
  lowest : Passed 0 top acs → Choice time top acs (chosen 0 acs)
  free :
      (k : ℕ) (a : Ac)
      → 0 < k
      → k ≤ top
      → Passed k top acs
      → get_elem? acs k ≡ some a
      → a.acm ≡ false
      → Choice time top acs (chosen k acs)
  within :
      (k : ℕ) (a : Ac)
      → 0 < k
      → k ≤ top
      → Passed k top acs
      → get_elem? acs k ≡ some a
      → a.acm ≡ true
      → a.used < a.admitted
      → Choice time top acs (chosen k (set acs k (charge time a)))
  spent :
      (k : ℕ) (a : Ac)
      → 0 < k
      → k ≤ top
      → Passed k top acs
      → get_elem? acs k ≡ some a
      → a.acm ≡ true
      → a.admitted ≤ a.used
      → a.used ≢ 0
      → Choice time top acs refused

pub Passed-same : (top : ℕ) (acs : List Ac) → Passed top top acs
Passed-same top acs j a lo hi e = absurd (omega (arith, lo, hi))

-- One more category is passed.
Passed-suc :
    (k top : ℕ) (acs : List Ac) (a : Ac)
    → get_elem? acs (suc top) ≡ some a
    → (a.acm ≡ true) × (a.admitted ≤ a.used) × (a.used ≡ 0)
    → Passed k top acs
    → Passed k (suc top) acs
Passed-suc k top acs a here h p j b lo hi e = elim (Bool-cases (j == suc top)) [
  | inl last ↦
      let at : j ≡ suc top = ground (arith, last) in
      let found : get_elem? acs j ≡ some a = ap (get_elem? acs) at ∙ here in
      let same : a ≡ b = cc in
      subst (λ (x : Ac). (x.acm ≡ true) × (x.admitted ≤ x.used) × (x.used ≡ 0)) same h
  | inr before ↦
      let below : j ≢ suc top = λ q. ground (arith, before, q) in
      p j b lo (omega (arith, hi, below)) e
]

pub lower-Choice :
    (time k : ℕ) (acs : List Ac) (c : Chosen) (a : Ac)
    → get_elem? acs (suc k) ≡ some a
    → (a.acm ≡ true) × (a.admitted ≤ a.used) × (a.used ≡ 0)
    → Choice time k acs c
    → Choice time (suc k) acs c
lower-Choice time k acs _ b here h (lowest p) = lowest (Passed-suc 0 k acs b here h p)
lower-Choice time k acs _ b here h (free j a pos le p e f) =
    free j a pos (omega (arith, le)) (Passed-suc j k acs b here h p) e f
lower-Choice time k acs _ b here h (within j a pos le p e f l) =
    within j a pos (omega (arith, le)) (Passed-suc j k acs b here h p) e f l
lower-Choice time k acs _ b here h (spent j a pos le p e f l n) =
    spent j a pos (omega (arith, le)) (Passed-suc j k acs b here h p) e f l n
