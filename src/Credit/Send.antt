-- ===== src/Credit/Send.antt =====
-- sprdwl_fc_get_send_num of tx_msg.c as a whole.
use w132d_linux_mainline.Prelude.{
  ℕ, suc, ◌+◌, ◌-◌, ◌%◌, ◌^◌, ◌≤◌, ◌<◌, ◌≡◌, ◌≢◌, refl, ◌∙◌, sym, ap, subst, Bool, true, false,
  ◌&&◌, ◌||◌, not, List, [], ◌∷◌, map, inl, inr, arith, leb, ◌==◌, if◌then◌else◌, Bool-cases,
  if_cases, if_true, if_false,
}
use w132d_linux_mainline.Credit.{
  Colour, Hardware, mode_none, is_negative, has_mode, flow_of_mode, set_color_num, shared_from,
  fc_get_shared_num, fc_test_shared_num, no_num, Granted, frames, enomem, positive, grant,
  at_most_hundred, free_closed, assign, fc_find_color_per_mode, fc_get_send_num,
}
use w132d_linux_mainline.Credit.Grant.{
  granted, Covered, NoNum, least, shared_from-Shares, NoNum-Covered, granted-NoNum,
}
use w132d_linux_mainline.Credit.Own.{
  shared_from-SameOwn, num_of_mode-NoNum, granted-set_color_num, set_color_num-Covered,
}

-- The credits that a mode may use: its own, and those of the colours that belong to no mode.
abbrev pub available : ℕ → List Colour → ℕ
available mode cs = flow_of_mode mode cs + fc_test_shared_num cs

-- As many frames as are wanted, if there are credits for them, and otherwise one for each credit;
-- the numbers of the colours add up to that, and each is covered by its credits.
pub record IsGrant (wanted credits : ℕ) (r : Granted × List Colour) : Type 0 where
  pub result : r.0 ≡ (if least wanted credits == 0 then enomem else frames (least wanted credits))
  pub total : granted r.1 ≡ least wanted credits
  pub covered : Covered r.1

positive_small : (k : ℕ) → k < 2 ^ 31 → positive k ≡ (if k == 0 then enomem else frames k)
positive_small k h = elim (Bool-cases (k == 0)) [
  | inl e ↦
      let t : (k == 0 || is_negative k) ≡ true = ground (arith, e) in
      if_true _ _ t ∙ sym (if_true _ _ e)
  | inr e ↦
      let t : (k == 0 || is_negative k) ≡ false = ground (arith, e, h) in
      if_false _ _ t ∙ sym (if_false _ _ e)
]

grant-IsGrant :
    (mode n : ℕ) (cs : List Colour)
    → mode ≢ mode_none
    → has_mode mode cs ≡ true
    → NoNum cs
    → 0 < n
    → n ≤ 100
    → available mode cs < 2 ^ 31
    → IsGrant n (available mode cs) (grant mode n cs)
unfolding grant fc_get_shared_num
grant-IsGrant mode n cs some_mode has none_yet some_n n_small small =
    let own = flow_of_mode mode cs in
    let no_num_yet = num_of_mode-NoNum mode cs none_yet in
    elim (Bool-cases (not (is_negative own) && leb n own)) [
      | inl enough ↦
          let fits : n ≤ own = ground (arith, enough) in
          let all : least n (available mode cs) ≡ n = ground (arith, fits) in
          let some_all : (least n (available mode cs) == 0) ≡ false = ground (arith, all, some_n) in
          subst (IsGrant n (available mode cs)) (sym (if_true _ _ enough)) (record {
            result = ap frames (sym all) ∙ sym (if_false _ _ some_all);
            total =
                granted-set_color_num mode n cs (omega arith) has no_num_yet
                ∙ omega (arith, granted-NoNum cs none_yet, all);
            covered =
                set_color_num-Covered mode n cs (omega arith) fits (NoNum-Covered cs none_yet);
          })
      | inr less ↦
          let short : own < n = ground (arith, less, small) in
          let wanted : (n + 2 ^ 32 - own) % 256 ≡ n - own = omega (arith, short, n_small) in
          let shares =
            shared_from-Shares (n - own) 0 cs (omega (arith, n_small)) (omega arith) none_yet in
          let same = shared_from-SameOwn mode (n - own) 0 cs some_mode in
          let got = shared_from (n - own) 0 cs in
          let all : own + got.0 ≡ least n (available mode cs) =
            ground (arith, shares.amount, short) in
          let bound : least n (available mode cs) ≤ n = ground arith in
          let word : (own + got.0) % 2 ^ 32 ≡ least n (available mode cs) =
            omega (arith, all, bound, n_small) in
          subst (IsGrant n (available mode cs))
            (sym (
              if_false _ _ less
              ∙ ap
                  (λ k.
                    let r = shared_from k 0 cs in
                    (positive ((own + r.0) % 2 ^ 32), set_color_num mode own r.1))
                  wanted))
            (record {
              result =
                  ap positive word
                  ∙ positive_small (least n (available mode cs)) (omega (arith, bound, n_small));
              total =
                  granted-set_color_num mode own got.1 (omega arith) (same.has ∙ has)
                    (same.num ∙ no_num_yet)
                  ∙ omega (arith, shares.total, all);
              covered =
                  set_color_num-Covered mode own got.1 (omega arith) (omega (arith, same.flow))
                    shares.covered;
            })
    ]

NoNum-no_num : (cs : List Colour) → NoNum (map no_num cs)
NoNum-no_num [] = tt
NoNum-no_num (c ∷ cs) = (refl, NoNum-no_num cs)

NoNum-free : (closed : ℕ → Bool) (cs : List Colour) → NoNum cs → NoNum (map (free_closed closed) cs)
NoNum-free closed [] h = tt
NoNum-free closed (c ∷ cs) (h, hs) = (
  if_cases (λ d. d.color_num ≡ 0) (not (c.mode == mode_none) && closed c.mode)
      (record c { mode = mode_none }) c (λ e. h) (λ e. h),
  NoNum-free closed cs hs,
)

NoNum-assign : (i mode : ℕ) (cs : List Colour) → NoNum cs → NoNum (assign i mode cs)
unfolding assign
NoNum-assign i mode [] h = tt
NoNum-assign i mode (c ∷ cs) (h, hs) =
    if_cases NoNum (c.mode == mode_none) (record c { mode = mode; color_bit = i } ∷ cs)
      (c ∷ assign (suc i) mode cs) (λ e. (h, hs)) (λ e. (h, NoNum-assign (suc i) mode cs hs))

has_mode-assign :
    (i mode : ℕ) (cs : List Colour)
    → has_mode mode_none cs ≡ true
    → has_mode mode (assign i mode cs) ≡ true
unfolding assign has_mode
has_mode-assign i mode [] h = absurd (cc)
has_mode-assign i mode (c ∷ cs) h = elim (Bool-cases (c.mode == mode_none)) [
  | inl free ↦ ap (has_mode mode) (if_true _ _ free) ∙ (ground arith)
  | inr taken ↦
      let later : has_mode mode_none cs ≡ true = ground (arith, h, taken) in
      let rest = has_mode-assign (suc i) mode cs later in
      ap (has_mode mode) (if_false _ _ taken) ∙ (ground (arith, rest))
]

-- The colours among which the frames are shared out.
abbrev pub colours_for : (ℕ → Bool) → ℕ → List Colour → List Colour
colours_for closed mode cs = (fc_find_color_per_mode closed mode (map no_num cs)).1

record Found (mode : ℕ) (r : Bool × List Colour) : Type 0 where
  none_yet : NoNum r.1
  has : r.0 ≡ true → has_mode mode r.1 ≡ true

find-Found :
    (closed : ℕ → Bool) (mode : ℕ) (cs : List Colour)
    → NoNum cs
    → Found mode (fc_find_color_per_mode closed mode cs)
unfolding fc_find_color_per_mode
find-Found closed mode cs h =
    let freed = map (free_closed closed) cs in
    if_cases (Found mode) (has_mode mode cs) (true, cs)
      (if has_mode mode_none freed then (true, assign 0 mode freed) else (false, freed))
      (λ e. record { none_yet = h; has = λ t. e })
      (λ e.
        if_cases (Found mode) (has_mode mode_none freed) (true, assign 0 mode freed) (false, freed)
          (λ f. record {
            none_yet = NoNum-assign 0 mode freed (NoNum-free closed cs h);
            has = λ t. has_mode-assign 0 mode freed f;
          })
          (λ f. record { none_yet = NoNum-free closed cs h; has = λ t. absurd (cc) }))

-- With credits in use, a mode that has a colour or gets one is granted as many frames as are wanted,
-- at most 100, or one for each of its own and the shared credits, if these are fewer, and -ENOMEM if
-- there are none; the numbers of the colours add up to what is granted, and no colour is charged
-- more than its credits. The conditions: the interface is not PCIe, some frames are wanted, and the
-- credits are fewer than 2^31.
pub fc_get_send_num-IsGrant :
    (hw : Hardware) (closed : ℕ → Bool) (mode data_num : ℕ) (cs : List Colour)
    → hw.pcie ≡ false
    → hw.no_credit ≡ false
    → mode ≢ mode_none
    → 0 < data_num
    → (fc_find_color_per_mode closed mode (map no_num cs)).0 ≡ true
    → available mode (colours_for closed mode cs) < 2 ^ 31
    → IsGrant
        (at_most_hundred data_num)
        (available mode (colours_for closed mode cs))
        (fc_get_send_num hw closed mode data_num cs)
unfolding fc_get_send_num
fc_get_send_num-IsGrant hw closed mode data_num cs sdio credit some_mode wanted found small =
    let f = find-Found closed mode (map no_num cs) (NoNum-no_num cs) in
    let asked : (data_num == 0 || mode == mode_none) ≡ false = ground (arith, wanted, some_mode) in
    let path : fc_get_send_num hw closed mode data_num cs
        ≡ grant mode (at_most_hundred data_num) (colours_for closed mode cs) =
      if_false _ _ asked ∙ if_false _ _ sdio ∙ if_false _ _ credit ∙ if_true _ _ found in
    subst (IsGrant (at_most_hundred data_num) (available mode (colours_for closed mode cs)))
      (sym path)
      (grant-IsGrant mode (at_most_hundred data_num) (colours_for closed mode cs) some_mode
        (f.has found) f.none_yet (ground arith) (ground arith) small)
