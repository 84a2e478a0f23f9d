-- ===== src/Queues/Sent.antt =====
-- What sprdwl_handle_to_send_list of tx_msg.c costs in credits.
use w132d_linux_mainline.Prelude.{
  ℕ, zero, suc, ◌+◌, ◌%◌, ◌^◌, ◌≤◌, ◌<◌, ◌≡◌, ◌≢◌, refl, ◌∙◌, sym, ap, Bool, true, false, ◌||◌,
  List, map, arith, ltb, ◌==◌, if◌then◌else◌, if_cases, if_false, length, length-append, Bool-cases,
  inl, inr,
}
use w132d_linux_mainline.Credit.{
  Hardware, mode_none, no_num, Granted, frames, enomem, at_most_hundred, fc_find_color_per_mode,
  fc_get_send_num, TxMsg, handle_tx_return,
}
use w132d_linux_mainline.Credit.Grant.{granted, Covered}
use w132d_linux_mainline.Credit.Send.{available, colours_for, fc_get_send_num-IsGrant}
use w132d_linux_mainline.Credit.Spend.{credits, AllWords, granted_frames, after_send}
use w132d_linux_mainline.Credit.Flows.{flows-get_send_num, credits_same, AllWords-same}
use w132d_linux_mainline.Queues.{cut}
use w132d_linux_mainline.Queues.Taken.{length-cut}
use w132d_linux_mainline.Queues.Handlers.{
  Env, Transmit, intf_tx_list, flush_tosendlist, count_failure, send_granted, send_if,
  handle_to_send_list,
}

-- The credits and the frames that the bus took
abbrev pub credits_and_sent : Transmit → ℕ
credits_and_sent t = credits t.credits.colours + length t.to_free_list

failure_keeps : (t : Transmit) → credits_and_sent (count_failure t) ≡ credits_and_sent t
unfolding count_failure flush_tosendlist
failure_keeps t =
    let n = (t.failcount + 1) % 2 ^ 64 in
    if_cases (λ (t' : Transmit). credits_and_sent t' ≡ credits_and_sent t) (ltb 10 n)
      (flush_tosendlist (record t { failcount = 0 })) (record t { failcount = n }) (λ e. refl)
      (λ e. refl)

moved_lem :
    (refused : Bool) (k : ℕ) (t : Transmit)
    → k ≤ length t.to_send_list
    → length (intf_tx_list refused k t).to_free_list
      ≡ length t.to_free_list + (if refused then 0 else k)
unfolding intf_tx_list
moved_lem true k t h = omega arith
moved_lem false k t h =
    let a = length-append t.to_free_list (cut k t.to_send_list).0 in
    let b = length-cut k t.to_send_list h in omega (arith, a, b)

moved_credits :
    (refused : Bool) (k : ℕ) (t : Transmit) → (intf_tx_list refused k t).credits ≡ t.credits
unfolding intf_tx_list
moved_credits true k t = refl
moved_credits false k t = refl

-- The frames that were granted are covered by the credits, and wait on the list.
record CanSend (k : ℕ) (t : Transmit) : Type 0 where
  covered : Covered t.credits.colours
  total : k ≡ granted t.credits.colours
  waiting : k ≤ length t.to_send_list

send_granted-credits :
    (env : Env) (k : ℕ) (t : Transmit)
    → env.hw.no_credit ≡ false
    → CanSend k t
    → AllWords t.credits.colours
    → credits_and_sent (send_granted env k t).1 ≡ credits_and_sent t
unfolding send_granted
send_granted-credits env k t credit can words =
    let marked = record t { xmit_mode = env.mode } in
    let moved = intf_tx_list env.refused k marked in
    let returned = record moved { credits = handle_tx_return env.hw env.refused k moved.credits } in
    let a = moved_lem env.refused k marked can.waiting in
    let b : handle_tx_return env.hw env.refused k moved.credits
        ≡ handle_tx_return env.hw env.refused k t.credits =
      ap (handle_tx_return env.hw env.refused k) (moved_credits env.refused k marked) in
    let c =
      after_send env.hw t.credits t.credits.colours k env.refused credit can.covered words
        can.total in
    let d = ap (λ (m : TxMsg). credits m.colours) b in
    let all : credits_and_sent returned ≡ credits_and_sent t = omega (arith, a, c, d) in
    if_cases (λ (r : Bool × Transmit). credits_and_sent r.1 ≡ credits_and_sent t) env.refused
      (false, count_failure returned) (true, returned) (λ e. failure_keeps returned ∙ all)
      (λ e. all)

send_if-credits :
    (env : Env) (g : Granted) (t : Transmit)
    → env.hw.no_credit ≡ false
    → ((k : ℕ) → g ≡ frames k → CanSend k t)
    → AllWords t.credits.colours
    → credits_and_sent (send_if env g t).1 ≡ credits_and_sent t
send_if-credits env enomem t credit can words = refl
send_if-credits env (frames zero) t credit can words = refl
send_if-credits env (frames (suc k)) t credit can words =
    send_granted-credits env (suc k) t credit (can (suc k) refl) words

not_found :
    (hw : Hardware) (closed : ℕ → Bool) (mode data_num : ℕ) (t : TxMsg)
    → (data_num == 0 || mode == mode_none) ≡ false
    → hw.pcie ≡ false
    → hw.no_credit ≡ false
    → (fc_find_color_per_mode closed mode (map no_num t.colours)).0 ≡ false
    → (fc_get_send_num hw closed mode data_num t.colours).0 ≡ enomem
unfolding fc_get_send_num
not_found hw closed mode data_num t asked sdio credit none =
    ap (λ (r : Granted × List _). r.0)
      (if_false _ _ asked ∙ if_false _ _ sdio ∙ if_false _ _ credit ∙ if_false _ _ none)

-- One credit is paid for each frame that the bus takes, and none where it refuses the transfer or no
-- frame is sent: the credits and the frames that were handed to the bus stay the same in all. The
-- conditions: credits are in use and the interface is not PCIe, the mode is one of an interface, the
-- credits it may use are fewer than 2^31, and flows have 32 bits.
pub handle_to_send_list-credits :
    (env : Env) (t : Transmit)
    → env.hw.pcie ≡ false
    → env.hw.no_credit ≡ false
    → env.mode ≢ mode_none
    → available env.mode (colours_for env.closed env.mode t.credits.colours) < 2 ^ 31
    → AllWords t.credits.colours
    → credits_and_sent (handle_to_send_list env t).1 ≡ credits_and_sent t
unfolding handle_to_send_list
handle_to_send_list-credits env t sdio credit some_mode small words =
    let n = length t.to_send_list in
    let cs = t.credits.colours in
    let r = fc_get_send_num env.hw env.closed env.mode n cs in
    let charged = record t { credits = record t.credits { colours = r.1 } } in
    let flows = flows-get_send_num env.hw env.closed env.mode n cs in
    let same : credits_and_sent charged ≡ credits_and_sent t =
      ap (λ k. k + length t.to_free_list) (credits_same cs r.1 flows) in
    let words' = AllWords-same cs r.1 flows words in
    if_cases (λ (r : Bool × Transmit). credits_and_sent r.1 ≡ credits_and_sent t)
      (env.cp_asserted || n == 0) (true, t) (send_if env r.0 charged) (λ idle. refl)
      (λ busy.
        let some_n : 0 < n = ground (arith, busy) in
        let asked : (n == 0 || env.mode == mode_none) ≡ false = ground (arith, some_n, some_mode) in
        elim (Bool-cases (fc_find_color_per_mode env.closed env.mode (map no_num cs)).0) [
          | inl found ↦
              let g =
                fc_get_send_num-IsGrant env.hw env.closed env.mode n cs sdio credit some_mode some_n
                  found small in
              let avail = available env.mode (colours_for env.closed env.mode cs) in
              let can : (k : ℕ) → r.0 ≡ frames k → CanSend k charged = λ k e.
                let total : k ≡ granted r.1 = granted_frames (at_most_hundred n) avail k r g e in
                let l = g.total in
                record { covered = g.covered; total = total; waiting = ground (arith, total, l) } in
              send_if-credits env r.0 charged credit can words' ∙ same
          | inr none ↦
              let no = not_found env.hw env.closed env.mode n t.credits asked sdio credit none in
              let can : (k : ℕ) → r.0 ≡ frames k → CanSend k charged =
                λ k e. let clash : enomem ≡ frames k = sym no ∙ e in absurd (cc) in
              send_if-credits env r.0 charged credit can words' ∙ same
        ])
