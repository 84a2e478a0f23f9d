-- ===== src/Sleep/Tests.antt =====
-- Concrete modules and status readings of the sleep manager.
use w132d_linux_mainline.Prelude.{
  ℕ, ◌≡◌, refl, Bool, true, false, [], ◌∷◌, arith, Returns, replicate, set,
}
use w132d_linux_mainline.Sleep.{
  SlpMgr, is_zero, slp_mgr_drv_sleep, slp_mgr_init, marlin3l, marlin3e, Reading, is_ready,
  slp_mgr_wakeup, CountedMgr, count_down, allow_module, cp_wakeup,
}
use w132d_linux_mainline.Sleep.Wakeup.{Woken, slp_mgr_wakeup-Woken, is_ready-waiting}
use w132d_linux_mainline.Sleep.Protocol.{
  started, wanted, woken, let_go, let_go_of, IsKept, Run-IsKept,
}
use w132d_linux_mainline.Sleep.Counts.{allow_module_late}

abbrev status : ℕ → Bool → Reading
status sts late = record { error = false; slp_sts = sts; wake_status = false; late = late }

abbrev sleeping : SlpMgr
sleeping = record { active_module = replicate 11 false; asleep = true; allowed = 1; acks = 0 }

-- A chip that stays in deep sleep
slp_mgr_wakeup-Woken_example :
    Returns
      (slp_mgr_wakeup marlin3l (status 0 false ∷ (status 0 true ∷ (status 48 true ∷ []))) sleeping)
      (Woken marlin3l (status 0 false ∷ (status 0 true ∷ (status 48 true ∷ []))) sleeping)
slp_mgr_wakeup-Woken_example =
    slp_mgr_wakeup-Woken marlin3l (status 0 false ∷ []) (status 0 true) (status 48 true) [] sleeping
      refl

is_ready-waiting_example :
    (is_ready marlin3e (status 1 false) ≡ false) × (is_ready marlin3l (status 16 false) ≡ true)
is_ready-waiting_example = is_ready-waiting (status 1 false) refl refl (status 16 false) refl refl

-- DT_WRITE (6) wakes the chip, WIFI (8) comes and goes, and the firmware asks to sleep.
abbrev in_use : SlpMgr
in_use = record {
  active_module = set (replicate 11 false) 6 true;
  asleep = false;
  allowed = 1;
  acks = 0;
}

Run-IsKept_example : IsKept (6 ∷ []) in_use
unfolding slp_mgr_init slp_mgr_drv_sleep is_zero slp_mgr_wakeup let_go_of
Run-IsKept_example = Run-IsKept (
    let_go false 8 (
      wanted false 8 (
        woken 6 marlin3l [] (wanted false 6 {m = slp_mgr_init sleeping} (started sleeping)) refl
          refl)))

-- One user of DT_WRITE, which has counted down when another one comes.
abbrev one_user : CountedMgr
one_user = record { mgr = in_use; wake_cp_count = 1 }

allow_module_late_example :
    ((count_down one_user).0 ≡ true)
    × ((allow_module false 6 one_user).mgr.asleep ≡ true)
    × ((allow_module false 6 one_user).wake_cp_count ≡ 1)
unfolding count_down cp_wakeup slp_mgr_drv_sleep slp_mgr_wakeup is_zero
allow_module_late_example =
    allow_module_late false 6 marlin3l [] one_user one_user (omega arith) refl refl refl
