-- ===== src/Sleep/Protocol.antt =====
-- The promise of slp_mgr.c: while a module that was told that the chip is awake has not let it go, the
-- driver does not let the chip sleep.
use w132d_linux_mainline.Prelude.{
  ℕ, Option, zero, suc, ◌≡◌, ◌≢◌, refl, ◌∙◌, sym, Bool, true, false, ◌&&◌, ◌||◌, not, List, [], ◌∷◌,
  none, some, arith, ltb, ◌==◌, if◌then◌else◌, if_cases, if_true, if_false, get_elem?, set,
  bind_some, bind_none, Bool-cases, Option-cases, inl, inr, subst, get_elem?-set_ne,
}
use w132d_linux_mainline.Sleep.{
  SlpMgr, is_zero, packer_dt_rx, allow, slp_mgr_drv_sleep, req_slp_isr, wakeup_ack_isr,
  slp_mgr_reset, slp_mgr_init, slp_mgr_deinit, Chip, Reading, wake_loop, slp_mgr_wakeup,
}

-- The bit of each of the modules is set.
abbrev pub AllActive : List ℕ → List Bool → Type 0
AllActive [] bits = Unit
AllActive (s ∷ u) bits = (get_elem? bits s ≡ some true) × AllActive u bits

-- The modules that were told that the chip is awake are active, and if there are any, `cp2_state` is
-- not STAY_SLPING.
pub record IsKept (u : List ℕ) (m : SlpMgr) : Type 0 where
  pub active : AllActive u m.active_module
  pub awake : u ≢ [] → m.asleep ≡ false

unfoldable pub let_go_of : ℕ → List ℕ → List ℕ
let_go_of s [] = []
let_go_of s (t ∷ u) = let rest = let_go_of s u in if t == s then rest else t ∷ rest

-- Calls of the sleep manager in any order, with the modules that `slp_mgr_wakeup` returned 0 to and
-- that did not let the chip go. A wake-up that returns -1 adds none, and `slp_mgr_deinit` ends them
-- all.
pub data Run : List ℕ → SlpMgr → Type 0 where
  started : (m : SlpMgr) → Run [] (slp_mgr_init m)
  wanted :
      (wake_host : Bool) (s : ℕ) {u : List ℕ} {m : SlpMgr}
      → Run u m
      → Run u (slp_mgr_drv_sleep wake_host s false m)
  woken :
      (s : ℕ) (chip : Chip) (rs : List Reading) {u : List ℕ} {m m' : SlpMgr}
      → Run u m
      → get_elem? m.active_module s ≡ some true
      → slp_mgr_wakeup chip rs m ≡ some (true, m')
      → Run (s ∷ u) m'
  failed :
      (chip : Chip) (rs : List Reading) {u : List ℕ} {m m' : SlpMgr}
      → Run u m
      → slp_mgr_wakeup chip rs m ≡ some (false, m')
      → Run u m'
  let_go :
      (wake_host : Bool) (s : ℕ) {u : List ℕ} {m : SlpMgr}
      → Run u m
      → Run (let_go_of s u) (slp_mgr_drv_sleep wake_host s true m)
  asked : {u : List ℕ} {m : SlpMgr} → Run u m → Run u (req_slp_isr m)
  acked : {u : List ℕ} {m : SlpMgr} → Run u m → Run u (wakeup_ack_isr m)
  ended : {u : List ℕ} {m : SlpMgr} → Run u m → Run [] (slp_mgr_deinit m)
  restarted : {u : List ℕ} {m : SlpMgr} → Run u m → Run u (slp_mgr_reset m)

zero_inactive : (bits : List Bool) (s : ℕ) → is_zero bits ≡ true → get_elem? bits s ≢ some true
unfolding is_zero
zero_inactive [] s z e = absurd (cc)
zero_inactive (true ∷ bits) zero z e = absurd (cc)
zero_inactive (false ∷ bits) zero z e = absurd (cc)
zero_inactive (true ∷ bits) (suc s) z e = absurd (cc)
zero_inactive (false ∷ bits) (suc s) z e = zero_inactive bits s z e

set_active :
    (bits : List Bool) (s t : ℕ)
    → get_elem? bits t ≡ some true
    → get_elem? (set bits s true) t ≡ some true
set_active [] s t e = e
set_active (b ∷ bits) zero zero e = refl
set_active (b ∷ bits) zero (suc t) e = e
set_active (b ∷ bits) (suc s) zero e = e
set_active (b ∷ bits) (suc s) (suc t) e = set_active bits s t e

all_set : (u : List ℕ) (bits : List Bool) (s : ℕ) → AllActive u bits → AllActive u (set bits s true)
all_set [] bits s h = tt
all_set (t ∷ u) bits s (h, hs) = (set_active bits s t h, all_set u bits s hs)

all_let_go :
    (u : List ℕ) (bits : List Bool) (s : ℕ)
    → AllActive u bits
    → AllActive (let_go_of s u) (set bits s false)
unfolding let_go_of
all_let_go [] bits s h = tt
all_let_go (t ∷ u) bits s (h, hs) =
    let rest = all_let_go u bits s hs in
    if_cases (λ (v : List ℕ). AllActive v (set bits s false)) (t == s) (let_go_of s u)
      (t ∷ let_go_of s u) (λ e. rest)
      (λ e.
        let other : s ≢ t = λ p. ground (arith, e, p) in
        (get_elem?-set_ne bits s t false other ∙ h, rest))

-- The chip is only let sleep where no module is active.
allow-IsKept :
    (u : List ℕ) (m : SlpMgr)
    → AllActive u m.active_module
    → is_zero m.active_module ≡ true
    → IsKept u (allow m)
allow-IsKept [] m h z = record { active = tt; awake = λ some_user. absurd (some_user refl) }
allow-IsKept (s ∷ u) m (h, hs) z = absurd (zero_inactive m.active_module s z h)

let_go_nil : (s : ℕ) (u : List ℕ) → let_go_of s u ≢ [] → u ≢ []
unfolding let_go_of
let_go_nil s [] h e = h refl
let_go_nil s (t ∷ u) h e = absurd (cc)

sleep_IsKept :
    (wake_host : Bool) (s : ℕ) (enable : Bool) (u v : List ℕ) (m : SlpMgr)
    → AllActive v (set m.active_module s (not enable))
    → (v ≢ [] → m.asleep ≡ false)
    → IsKept v (slp_mgr_drv_sleep wake_host s enable m)
unfolding slp_mgr_drv_sleep
sleep_IsKept wake_host s enable u v m h awake =
    let m' = record m { active_module = set m.active_module s (not enable) } in
    if_cases (IsKept v) (is_zero m'.active_module && (wake_host || ltb packer_dt_rx s)) (allow m')
      m' (λ e. allow-IsKept v m' h (ground (arith, e))) (λ e. record { active = h; awake = awake })

-- A wake-up keeps the bits, and leaves STAY_AWAKING.
wakeup_lem :
    (chip : Chip) (rs : List Reading) (ok : Bool) (m m' : SlpMgr)
    → slp_mgr_wakeup chip rs m ≡ some (ok, m')
    → (m'.active_module ≡ m.active_module) × (m'.asleep ≡ false)
unfolding slp_mgr_wakeup
wakeup_lem chip rs ok m m' e = elim (Bool-cases m.asleep) [
  | inr awake ↦
      let answer : Option (Bool × SlpMgr) = some (true, m) in
      let path : answer ≡ some (ok, m') = sym (if_false _ _ awake) ∙ e in
      let same : m ≡ m' = cc in
      subst (λ (x : SlpMgr). (x.active_module ≡ m.active_module) × (x.asleep ≡ false)) same
        (refl, awake)
  | inl asleep ↦ elim (Option-cases (wake_loop chip false rs)) [
    | inl out ↦
        let answer : Option (Bool × SlpMgr) = none in
        let clash : answer ≡ some (ok, m') = sym (if_true _ _ asleep ∙ bind_none _ out) ∙ e in
        absurd (cc)
    | inr (r, loop) ↦
        let made : SlpMgr = record m { asleep = false } in
        let answer : Option (Bool × SlpMgr) = some (r, made) in
        let path : answer ≡ some (ok, m') = sym (if_true _ _ asleep ∙ bind_some _ loop) ∙ e in
        let same : made ≡ m' = cc in
        subst (λ (x : SlpMgr). (x.active_module ≡ m.active_module) × (x.asleep ≡ false)) same
          (refl, refl)
  ]
]

-- After any calls and interrupts, a deinit and wake-ups that fail included: while some module that
-- `slp_mgr_wakeup` returned 0 to did not let the chip go, and the manager was not ended since,
-- `cp2_state` is not STAY_SLPING, which it is set to wherever the driver lets the chip sleep; and the
-- bit of each such module is set. The conditions: a module wakes the chip only after its bit is set,
-- and each call runs as a whole.
pub Run-IsKept : {u : List ℕ} {m : SlpMgr} → Run u m → IsKept u m
unfolding slp_mgr_init req_slp_isr wakeup_ack_isr slp_mgr_reset
Run-IsKept (started m) = record { active = tt; awake = λ n. refl }
Run-IsKept (wanted wake_host s {u = u} {m = m} r) =
    let h = Run-IsKept r in
    sleep_IsKept wake_host s false u u m (all_set u m.active_module s h.active) h.awake
Run-IsKept (woken s chip rs {u = u} {m = m} {m' = m'} r here e) =
    let h = Run-IsKept r in
    let (bits, awake) = wakeup_lem chip rs true m m' e in
    record { active = subst (AllActive (s ∷ u)) (sym bits) (here, h.active); awake = λ n. awake }
Run-IsKept (failed chip rs {u = u} {m = m} {m' = m'} r e) =
    let h = Run-IsKept r in
    let (bits, awake) = wakeup_lem chip rs false m m' e in
    record { active = subst (AllActive u) (sym bits) h.active; awake = λ n. awake }
Run-IsKept (let_go wake_host s {u = u} {m = m} r) =
    let h = Run-IsKept r in
    sleep_IsKept wake_host s true u (let_go_of s u) m (all_let_go u m.active_module s h.active)
      (λ n. h.awake (let_go_nil s u n))
Run-IsKept (asked {u = u} {m = m} r) =
    let h = Run-IsKept r in
    if_cases (IsKept u) (is_zero m.active_module) (allow m) m (λ z. allow-IsKept u m h.active z)
      (λ e. h)
Run-IsKept (acked {u = u} {m = m} r) =
    let h = Run-IsKept r in
    if_cases (IsKept u) m.asleep (record m { acks = suc m.acks }) m
      (λ e. record { active = h.active; awake = h.awake }) (λ e. h)
Run-IsKept (restarted r) = let h = Run-IsKept r in record { active = h.active; awake = λ n. refl }
Run-IsKept (ended r) = record { active = tt; awake = λ n. absurd (n refl) }
