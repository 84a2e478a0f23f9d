-- ===== src/Sleep/Counts.antt =====
-- The counts of sdiohal_common.c in front of the sleep manager, where two threads use one module.
use w132d_linux_mainline.Prelude.{
  ℕ, zero, suc, ◌+◌, ◌-◌, ◌%◌, ◌^◌, ◌<◌, ◌≡◌, refl, ◌∙◌, sym, ap, Bool, true, false, ◌&&◌, ◌||◌,
  not, List, [], ◌∷◌, Option, none, some, arith, ltb, if_cases, if_true, if_false, set, bind_some,
  bind_none, Bool-cases, Option-cases, inl, inr,
}
use w132d_linux_mainline.Sleep.{
  SlpMgr, is_zero, packer_dt_rx, allow, slp_mgr_drv_sleep, Chip, Reading, wake_loop, slp_mgr_wakeup,
  CountedMgr, count_down, allow_module, cp_wakeup,
}

set-set : (bits : List Bool) (s : ℕ) (a b : Bool) → set (set bits s a) s b ≡ set bits s b
set-set [] s a b = refl
set-set (x ∷ bits) zero a b = refl
set-set (x ∷ bits) (suc s) a b = ap (λ l. x ∷ l) (set-set bits s a b)

drv_sleep_modules :
    (wake_host : Bool) (s : ℕ) (enable : Bool) (m : SlpMgr)
    → (slp_mgr_drv_sleep wake_host s enable m).active_module ≡ set m.active_module s (not enable)
unfolding slp_mgr_drv_sleep
drv_sleep_modules wake_host s enable m =
    let m' = record m { active_module = set m.active_module s (not enable) } in
    if_cases (λ (r : SlpMgr). r.active_module ≡ m'.active_module)
      (is_zero m'.active_module && (wake_host || ltb packer_dt_rx s)) (allow m') m' (λ e. refl)
      (λ e. refl)

wakeup_modules :
    (chip : Chip) (rs : List Reading) (m m' : SlpMgr) (ok : Bool)
    → slp_mgr_wakeup chip rs m ≡ some (ok, m')
    → m'.active_module ≡ m.active_module
unfolding slp_mgr_wakeup
wakeup_modules chip rs m m' ok e = elim (Bool-cases m.asleep) [
  | inr awake ↦
      let answer : Option (Bool × SlpMgr) = some (true, m) in
      let path : answer ≡ some (ok, m') = sym (if_false _ _ awake) ∙ e in
      let same : m ≡ m' = cc in ap (λ (x : SlpMgr). x.active_module) (sym same)
  | inl asleep ↦ elim (Option-cases (wake_loop chip false rs)) [
    | inl out ↦
        let answer : Option (Bool × SlpMgr) = none in
        let clash : answer ≡ some (ok, m') = sym (if_true _ _ asleep ∙ bind_none _ out) ∙ e in
        absurd (cc)
    | inr (r, loop) ↦
        let woken : SlpMgr = record m { asleep = false } in
        let answer : Option (Bool × SlpMgr) = some (r, woken) in
        let path : answer ≡ some (ok, m') = sym (if_true _ _ asleep ∙ bind_some _ loop) ∙ e in
        let same : woken ≡ m' = cc in ap (λ (x : SlpMgr). x.active_module) (sym same)
  ]
]

-- The modules after `cp_wakeup`, and the count
wakeup_counted :
    (wake_host : Bool) (s : ℕ) (chip : Chip) (rs : List Reading) (c c' : CountedMgr)
    → cp_wakeup wake_host s chip rs c ≡ some c'
    → (c'.mgr.active_module ≡ set c.mgr.active_module s true)
      × (c'.wake_cp_count ≡ (c.wake_cp_count + 1) % 2 ^ 32)
unfolding cp_wakeup
wakeup_counted wake_host s chip rs c c' e =
    let m = slp_mgr_drv_sleep wake_host s false c.mgr in
    elim (Option-cases (slp_mgr_wakeup chip rs m)) [
      | inl out ↦
          let answer : Option CountedMgr = none in
          let clash : answer ≡ some c' = sym (bind_none _ out) ∙ e in absurd (cc)
      | inr ((ok, m'), path) ↦
          let made : CountedMgr = record {
            mgr = m';
            wake_cp_count = (c.wake_cp_count + 1) % 2 ^ 32;
          } in
          let both : some made ≡ some c' = sym (bind_some _ path) ∙ e in
          let same : made ≡ c' = cc in
          (
            ap (λ (x : CountedMgr). x.mgr.active_module) (sym same)
                ∙ wakeup_modules chip rs m m' ok path
                ∙ drv_sleep_modules wake_host s false c.mgr,
            ap (λ (x : CountedMgr). x.wake_cp_count) (sym same),
          )
    ]

-- The chip is let sleep while a thread uses it, where the last user of a module has counted down to
-- zero, another thread then wakes the chip for the module, and only now the first one calls the
-- sleep manager. The conditions: no other module is active, and the module is above PACKER_DT_RX.
pub allow_module_late :
    (wake_host : Bool) (s : ℕ) (chip : Chip) (rs : List Reading) (c c' : CountedMgr)
    → packer_dt_rx < s
    → is_zero (set c.mgr.active_module s false) ≡ true
    → c.wake_cp_count ≡ 1
    → cp_wakeup wake_host s chip rs (count_down c).1 ≡ some c'
    → ((count_down c).0 ≡ true)
      × ((allow_module wake_host s c').mgr.asleep ≡ true)
      × ((allow_module wake_host s c').wake_cp_count ≡ 1)
unfolding count_down allow_module slp_mgr_drv_sleep
allow_module_late wake_host s chip rs c c' above alone one e =
    let (modules, count) =
      wakeup_counted wake_host s chip rs (record c { wake_cp_count = c.wake_cp_count - 1 }) c' e in
    let bits : set c'.mgr.active_module s false ≡ set c.mgr.active_module s false =
      ap (λ l. set l s false) modules ∙ set-set c.mgr.active_module s true false in
    let none_left : is_zero (set c'.mgr.active_module s false) ≡ true = ap is_zero bits ∙ alone in
    let sleeps : (is_zero (set c'.mgr.active_module s false) && (wake_host || ltb packer_dt_rx s))
        ≡ true =
      ground (arith, none_left, above) in
    (
      ground (arith, one),
      ap (λ (m : SlpMgr). m.asleep) (if_true _ _ sleeps),
      omega (arith, count, one),
    )
