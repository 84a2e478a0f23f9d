-- ===== src/Sleep/Wakeup.antt =====
-- slp_mgr_wakeup of slp_mgr.c: that it ends, and what it takes for awake.
use w132d_linux_mainline.Prelude.{
  ◌*◌, ◌/◌, ◌%◌, ◌≡◌, refl, sym, Bool, true, false, ◌&&◌, ◌||◌, not, List, [], ◌∷◌, ◌++◌, Option,
  some, arith, ◌>>=◌, if_cases, bind_some, Returns, Returns_mono, subst,
}
use w132d_linux_mainline.Sleep.{
  SlpMgr, Chip, marlin3l, marlin3e, sleep_status, deepsleep_xlt_on, is_waiting, Reading, has_clock,
  is_woken, is_ready, wake_loop, slp_mgr_wakeup,
}

unfoldable pub any : (Reading → Bool) → List Reading → Bool
any p [] = false
any p (r ∷ rs) = p r || any p rs

abbrev pub is_late : Reading → Bool
is_late r = r.late

-- What the loop returns: 0 only for a reading of an awake chip, and -1 only after the time is over.
pub record Ends (chip : Chip) (do_dump : Bool) (rs : List Reading) (ok : Bool) : Type 0 where
  pub awake : ok ≡ true → any (is_ready chip) rs ≡ true
  pub over : ok ≡ false → (do_dump || any is_late rs) ≡ true

Ends-later :
    (chip : Chip) (r : Reading) (rs : List Reading) (ok : Bool)
    → Ends chip r.late rs ok
    → Ends chip false (r ∷ rs) ok
unfolding any
Ends-later chip r rs ok h = record {
  awake = λ e. let later = h.awake e in ground (arith, later);
  over = λ e. let later = h.over e in ground (arith, later);
}

-- A round that returns at once
ready-Ends :
    (chip : Chip) (do_dump : Bool) (r : Reading) (rs : List Reading)
    → is_ready chip r ≡ true
    → Ends chip do_dump (r ∷ rs) true
unfolding any
ready-Ends chip do_dump r rs e = record { awake = λ t. ground (arith, e); over = λ f. absurd (cc) }

given_up : (chip : Chip) (rs : List Reading) → Ends chip true rs false
given_up chip rs = record { awake = λ t. absurd (cc); over = λ f. refl }

loop_dump :
    (chip : Chip) (r : Reading) (rs : List Reading)
    → Returns (wake_loop chip true (r ∷ rs)) (Ends chip true (r ∷ rs))
unfolding wake_loop
loop_dump chip r rs =
    if_cases (λ (o : Option Bool). Returns o (Ends chip true (r ∷ rs))) (is_ready chip r)
      (some true) (some false) (λ e. (true, refl, ready-Ends chip true r rs e))
      (λ e. (false, refl, given_up chip (r ∷ rs)))

loop_step :
    (chip : Chip) (do_dump : Bool) (r : Reading) (rs : List Reading)
    → Returns (wake_loop chip r.late rs) (Ends chip r.late rs)
    → Returns (wake_loop chip do_dump (r ∷ rs)) (Ends chip do_dump (r ∷ rs))
unfolding wake_loop
loop_step chip true r rs h = loop_dump chip r rs
loop_step chip false r rs h =
    if_cases (λ (o : Option Bool). Returns o (Ends chip false (r ∷ rs))) (is_ready chip r)
      (some true) (wake_loop chip r.late rs) (λ e. (true, refl, ready-Ends chip false r rs e))
      (λ e. Returns_mono h (λ ok. Ends-later chip r rs ok))

loop-Ends :
    (chip : Chip) (do_dump : Bool) (pre : List Reading) (r next : Reading) (rest : List Reading)
    → r.late ≡ true
    → Returns
        (wake_loop chip do_dump (pre ++ (r ∷ (next ∷ rest))))
        (Ends chip do_dump (pre ++ (r ∷ (next ∷ rest))))
loop-Ends chip do_dump [] r next rest late = loop_step chip do_dump r (next ∷ rest) (
    subst (λ d. Returns (wake_loop chip d (next ∷ rest)) (Ends chip d (next ∷ rest))) (sym late)
      (loop_dump chip next rest))
loop-Ends chip do_dump (p ∷ pre) r next rest late =
    loop_step chip do_dump p (pre ++ (r ∷ (next ∷ rest)))
      (loop-Ends chip p.late pre r next rest late)

-- After it the chip counts as awake and the modules are the same; 0 is returned only if it was awake
-- or was read to be, and -1 only if the time was over.
pub record Woken (chip : Chip) (rs : List Reading) (m : SlpMgr) (r : Bool × SlpMgr) : Type 0 where
  pub awake : r.1.asleep ≡ false
  pub same : r.1.active_module ≡ m.active_module
  pub read : r.0 ≡ true → (m.asleep && not (any (is_ready chip) rs)) ≡ false
  pub over : r.0 ≡ false → any is_late rs ≡ true

-- The wait for the chip ends with the round after the first one that finds the 10 ms over, at the
-- latest: the chip counts as awake then, whatever was read; 0 is returned only if it was awake or was
-- read to be awake, and -1 only if the time was over.
pub slp_mgr_wakeup-Woken :
    (chip : Chip) (pre : List Reading) (r next : Reading) (rest : List Reading) (m : SlpMgr)
    → r.late ≡ true
    → (let rs = pre ++ (r ∷ (next ∷ rest)) in Returns (slp_mgr_wakeup chip rs m) (Woken chip rs m))
unfolding slp_mgr_wakeup
slp_mgr_wakeup-Woken chip pre r next rest m late =
    let rs = pre ++ (r ∷ (next ∷ rest)) in
    let P = λ (o : Option (Bool × SlpMgr)). Returns o (Woken chip rs m) in
    let (ok, path, ends) = loop-Ends chip false pre r next rest late in
    if_cases P m.asleep (wake_loop chip false rs >>= λ ok. some (ok, record m { asleep = false }))
      (some (true, m))
      (λ asleep. (
        (ok, record m { asleep = false }),
        bind_some _ path,
        record {
          awake = refl;
          same = refl;
          read = λ e. let found = ends.awake e in ground (arith, found);
          over = λ e. ends.over e;
        },
      ))
      (λ awake. (
        (true, m),
        refl,
        record {
          awake = awake;
          same = refl;
          read = λ e. ground (arith, awake);
          over = λ e. absurd (cc);
        },
      ))

-- A status that waits for the clock is not taken for awake on the Marlin 3E, but is on the Marlin 3L,
-- whose status stands in the other four bits of the byte.
pub is_ready-waiting :
    (r : Reading)
    → r.error ≡ false
    → is_waiting (r.slp_sts % 16) ≡ true
    → (r' : Reading) → r'.error ≡ false
    → is_waiting (r'.slp_sts / 16 % 16) ≡ true
    → (is_ready marlin3e r ≡ false) × (is_ready marlin3l r' ≡ true)
unfolding is_ready sleep_status deepsleep_xlt_on has_clock is_woken
is_ready-waiting r no_error e r' no_error' e' =
    let high : r'.slp_sts / 16 * 16 % 256 ≡ r'.slp_sts / 16 % 16 * 16 = omega arith in
    (ground (arith, e), ground (arith, no_error', e', high))
