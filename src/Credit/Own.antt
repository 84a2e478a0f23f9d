-- ===== src/Credit/Own.antt =====
-- The colour of a mode in sprdwl_fc_get_send_num of tx_msg.c, and the number it is charged for.
use w132d_linux_mainline.Prelude.{
  ℕ, ◌+◌, ◌-◌, ◌%◌, ◌≤◌, ◌<◌, ◌≡◌, ◌≢◌, refl, ◌∙◌, sym, ap, subst, true, false, ◌||◌, List, [], ◌∷◌,
  inl, inr, arith, leb, ◌==◌, if◌then◌else◌, Bool-cases, if_cases, if_true, if_false,
}
use w132d_linux_mainline.Credit.{
  Colour, mode_none, has_mode, flow_of_mode, set_color_num, is_shared, shared_from,
}
use w132d_linux_mainline.Credit.Grant.{
  granted, Covered, NoNum, num_of_mode, kept_lem, enough_lem, more_lem,
}

-- The first colour of the mode is the same in both lists.
pub record SameOwn (mode : ℕ) (cs cs' : List Colour) : Type 0 where
  pub flow : flow_of_mode mode cs' ≡ flow_of_mode mode cs
  pub num : num_of_mode mode cs' ≡ num_of_mode mode cs
  pub has : has_mode mode cs' ≡ has_mode mode cs

SameOwn-cons :
    (mode : ℕ) (c : Colour) (cs cs' : List Colour)
    → SameOwn mode cs cs'
    → SameOwn mode (c ∷ cs) (c ∷ cs')
unfolding flow_of_mode num_of_mode has_mode
SameOwn-cons mode c cs cs' h = record {
  flow = ap (λ k. if c.mode == mode then c.flow else k) h.flow;
  num = ap (λ k. if c.mode == mode then c.color_num else k) h.num;
  has = ap (λ k. c.mode == mode || k) h.has;
}

SameOwn-other :
    (mode n : ℕ) (c : Colour) (cs cs' : List Colour)
    → (c.mode == mode) ≡ false
    → SameOwn mode cs cs'
    → SameOwn mode (c ∷ cs) (record c { color_num = n } ∷ cs')
unfolding flow_of_mode num_of_mode has_mode
SameOwn-other mode n c cs cs' e h = record {
  flow = if_false _ _ e ∙ h.flow ∙ sym (if_false _ _ e);
  num = if_false _ _ e ∙ h.num ∙ sym (if_false _ _ e);
  has = ap (λ k. c.mode == mode || k) h.has;
}

pub shared_from-SameOwn :
    (mode num s : ℕ) (cs : List Colour)
    → mode ≢ mode_none
    → SameOwn mode cs (shared_from num s cs).1
unfolding shared_from
shared_from-SameOwn mode num s [] some_mode = record { flow = refl; num = refl; has = refl }
shared_from-SameOwn mode num s (c ∷ cs) some_mode = elim (Bool-cases (is_shared c)) [
  | inr kept ↦
      subst (λ r. SameOwn mode (c ∷ cs) r.1) (sym (kept_lem num s c cs kept))
        (SameOwn-cons mode c cs _ (shared_from-SameOwn mode num s cs some_mode))
  | inl shared ↦
      let other : (c.mode == mode) ≡ false = ground (arith, shared, some_mode) in
      elim (Bool-cases (leb (num - s) c.flow)) [
        | inl enough ↦
            subst (λ r. SameOwn mode (c ∷ cs) r.1) (sym (enough_lem num s c cs shared enough))
              (SameOwn-other mode ((num - s) % 256) c cs cs other
                (record { flow = refl; num = refl; has = refl }))
        | inr more ↦
            subst (λ r. SameOwn mode (c ∷ cs) r.1) (sym (more_lem num s c cs shared more))
              (SameOwn-other mode (c.flow % 256) c cs _ other
                (shared_from-SameOwn mode num (s + c.flow) cs some_mode))
      ]
]

pub num_of_mode-NoNum : (mode : ℕ) (cs : List Colour) → NoNum cs → num_of_mode mode cs ≡ 0
unfolding num_of_mode
num_of_mode-NoNum mode [] h = refl
num_of_mode-NoNum mode (c ∷ cs) (h, hs) =
    if_cases (λ k. k ≡ 0) (c.mode == mode) _ _ (λ e. h) (λ e. num_of_mode-NoNum mode cs hs)

-- The first colour of the mode gets the number, and no other colour changes.
pub granted-set_color_num :
    (mode n : ℕ) (cs : List Colour)
    → n < 256
    → has_mode mode cs ≡ true
    → num_of_mode mode cs ≡ 0
    → granted (set_color_num mode n cs) ≡ granted cs + n
unfolding set_color_num granted num_of_mode has_mode
granted-set_color_num mode n [] small h z = absurd (cc)
granted-set_color_num mode n (c ∷ cs) small h z = elim (Bool-cases (c.mode == mode)) [
  | inl mine ↦
      let zero_num : c.color_num ≡ 0 = sym (if_true _ _ mine) ∙ z in
      ap granted (if_true _ _ mine) ∙ (omega (arith, zero_num, small))
  | inr other ↦
      let has : has_mode mode cs ≡ true = ground (arith, h, other) in
      let rest = granted-set_color_num mode n cs small has (sym (if_false _ _ other) ∙ z) in
      ap granted (if_false _ _ other) ∙ (omega (arith, rest))
]

pub set_color_num-Covered :
    (mode n : ℕ) (cs : List Colour)
    → n < 256
    → n ≤ flow_of_mode mode cs
    → Covered cs
    → Covered (set_color_num mode n cs)
unfolding set_color_num flow_of_mode
set_color_num-Covered mode n [] small h v = tt
set_color_num-Covered mode n (c ∷ cs) small h (v, vs) = elim (Bool-cases (c.mode == mode)) [
  | inl mine ↦
      let own : n ≤ c.flow = subst (λ k. n ≤ k) (if_true _ _ mine) h in
      subst Covered (sym (if_true _ _ mine)) (omega (arith, own, small), vs)
  | inr other ↦
      subst Covered (sym (if_false _ _ other))
        (v, set_color_num-Covered mode n cs small (subst (λ k. n ≤ k) (if_false _ _ other) h) vs)
]
