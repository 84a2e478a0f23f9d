-- ===== src/Sleep.antt =====
-- The sleep manager of unisocwcn/sleep (slp_mgr.c, slp_sdio.c): which modules keep the chip awake, and
-- how it is woken; and the counts in front of it in unisocwcn/sdio/sdiohal_common.c.
pub mod Wakeup
pub mod Protocol
pub mod Counts
mod Tests
use w132d_linux_mainline.Prelude.{
  ℕ, zero, suc, ◌+◌, ◌-◌, ◌*◌, ◌/◌, ◌%◌, ◌^◌, Bool, true, false, ◌&&◌, ◌||◌, not, List, [], ◌∷◌,
  Option, none, some, ltb, ◌==◌, if◌then◌else◌, ◌>>=◌, set, replicate, get_elem?,
}

-- `struct slp_mgr_t`: a Boolean for each bit of `active_module` from BIT(0) on, whether `cp2_state` is
-- STAY_SLPING, how often `slp_allow_sleep` and `complete` of `wakeup_ack_completion` were called.
pub record SlpMgr : Type 0 where
  pub active_module : List Bool
  pub asleep : Bool
  pub allowed : ℕ
  pub acks : ℕ

-- `active_module == 0`
unfoldable pub is_zero : List Bool → Bool
is_zero [] = true
is_zero (b ∷ bs) = not b && is_zero bs

-- `PACKER_DT_RX` of `enum slp_subsys`, and `SUBSYS_MAX`
abbrev pub packer_dt_rx : ℕ
packer_dt_rx = 3

abbrev pub subsys_max : ℕ
subsys_max = 11

abbrev pub allow : SlpMgr → SlpMgr
allow m = record m { asleep = true; allowed = suc m.allowed }

-- `slp_mgr_drv_sleep`; `wake_host` is `marlin_get_bt_wl_wake_host_en()`.
unfoldable pub slp_mgr_drv_sleep : Bool → ℕ → Bool → SlpMgr → SlpMgr
slp_mgr_drv_sleep wake_host subsys enable m =
    let m' = record m { active_module = set m.active_module subsys (not enable) } in
    if is_zero m'.active_module && (wake_host || ltb packer_dt_rx subsys) then allow m' else m'

-- `req_slp_isr`
unfoldable pub req_slp_isr : SlpMgr → SlpMgr
req_slp_isr m = if is_zero m.active_module then allow m else m

-- `wakeup_ack_isr`
unfoldable pub wakeup_ack_isr : SlpMgr → SlpMgr
wakeup_ack_isr m = if m.asleep then record m { acks = suc m.acks } else m

-- `slp_mgr_reset`; `reinit_completion` forgets what was completed.
unfoldable pub slp_mgr_reset : SlpMgr → SlpMgr
slp_mgr_reset m = record m { asleep = false; acks = 0 }

-- `slp_mgr_init` of a struct whose `active_module` was not touched
unfoldable pub slp_mgr_init : SlpMgr → SlpMgr
slp_mgr_init m = record m { asleep = false; acks = 0 }

unfoldable pub slp_mgr_deinit : SlpMgr → SlpMgr
slp_mgr_deinit m = record m { asleep = true; active_module = replicate subsys_max false }

-- `enum wcn_chip_model`
pub data Chip : Type 0 where
  marlin3 : Chip
  marlin3l : Chip
  marlin3e : Chip
  invalid_chip : Chip

-- `slp_sts & SLEEP_STATUS_FLAG` of a byte
unfoldable pub sleep_status : Chip → ℕ → ℕ
sleep_status marlin3 sts = sts / 16 * 16 % 256
sleep_status marlin3l sts = sts / 16 * 16 % 256
sleep_status marlin3e sts = sts % 16
sleep_status invalid_chip sts = sts

-- `BTWF_IN_DEEPSLEEP_XLT_ON`
unfoldable pub deepsleep_xlt_on : Chip → ℕ
deepsleep_xlt_on marlin3 = 48
deepsleep_xlt_on marlin3l = 48
deepsleep_xlt_on marlin3e = 3
deepsleep_xlt_on invalid_chip = 4294967295

-- `BTWF_XLT_WAIT`, `BTWF_XLTBUF_WAIT` and `BTWF_PLL_PWR_WAIT`
abbrev pub is_waiting : ℕ → Bool
is_waiting s = s == 4 || (s == 1 || s == 2)

-- What a round of the loop in `slp_mgr_wakeup` reads: whether the bus fails, the byte at REG_BTWF_SLP_STS,
-- BIT(31) of CP_WAKE_STATUS, and whether the 10 ms are over.
pub record Reading : Type 0 where
  pub error : Bool
  pub slp_sts : ℕ
  pub wake_status : Bool
  pub late : Bool

-- The test of the chip model in the condition of the loop
unfoldable pub has_clock : Chip → ℕ → Bool
has_clock marlin3 s = true
has_clock marlin3l s = not (is_waiting s)
has_clock marlin3e s = not (is_waiting s)
has_clock invalid_chip s = false

unfoldable pub is_woken : Chip → Bool → Bool
is_woken marlin3e wake_status = not wake_status
is_woken chip wake_status = true

-- The loop ends with the chip awake.
unfoldable pub is_ready : Chip → Reading → Bool
is_ready chip r =
    let s = sleep_status chip r.slp_sts in
    not r.error
    && (not (s == 0)
        && (not (s == deepsleep_xlt_on chip) && (has_clock chip s && is_woken chip r.wake_status)))

-- The loop of `slp_mgr_wakeup`; `none` where the readings end before it does.
unfoldable pub wake_loop : Chip → Bool → List Reading → Option Bool
wake_loop chip do_dump [] = none
wake_loop chip do_dump (r ∷ rs) =
    let rest = wake_loop chip r.late rs in
    if is_ready chip r then some true else if do_dump then some false else rest

-- `slp_mgr_wakeup`; the result tells whether it is 0.
unfoldable pub slp_mgr_wakeup : Chip → List Reading → SlpMgr → Option (Bool × SlpMgr)
slp_mgr_wakeup chip rs m =
    if m.asleep
    then (wake_loop chip false rs >>= λ ok. some (ok, record m { asleep = false }))
    else some (true, m)

-- The sleep manager, and `tx_wake_cp_count` or `rx_wake_cp_count` of a module.
pub record CountedMgr : Type 0 where
  pub mgr : SlpMgr
  pub wake_cp_count : ℕ

-- The first part of `sdiohal_cp_tx_sleep` and `sdiohal_cp_rx_sleep`: the count, which
-- `sdiohal_atomic_sub` stops at zero, and whether the sleep
-- manager is called next.
unfoldable pub count_down : CountedMgr → Bool × CountedMgr
count_down c = let n = c.wake_cp_count - 1 in (n == 0, record c { wake_cp_count = n })

unfoldable pub allow_module : Bool → ℕ → CountedMgr → CountedMgr
allow_module wake_host subsys c = record c { mgr = slp_mgr_drv_sleep wake_host subsys true c.mgr }

-- `sdiohal_cp_tx_sleep` and `sdiohal_cp_rx_sleep`
unfoldable pub cp_sleep : Bool → ℕ → CountedMgr → CountedMgr
cp_sleep wake_host subsys c =
    let down = count_down c in if down.0 then allow_module wake_host subsys down.1 else down.1

-- `sdiohal_cp_tx_wakeup` and `sdiohal_cp_rx_wakeup`
unfoldable pub cp_wakeup : Bool → ℕ → Chip → List Reading → CountedMgr → Option CountedMgr
cp_wakeup wake_host subsys chip rs c =
    slp_mgr_wakeup chip rs (slp_mgr_drv_sleep wake_host subsys false c.mgr) >>= λ (ok, m).
    some (record { mgr = m; wake_cp_count = (c.wake_cp_count + 1) % 2 ^ 32 })
