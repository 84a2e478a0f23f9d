-- ===== src/Queues/Close.antt =====
-- handle_tx_status_after_close of tx_msg.c, and adjust_qos_ratio of wl_core.c.
use w132d_linux_mainline.Prelude.{
  ℕ, zero, suc, ◌+◌, ◌≤◌, ◌<◌, ◌≡◌, refl, ◌∙◌, ap, Bool, false, ◌&&◌, not, List, map, arith, ltb,
  ◌==◌, if_cases, if_false, if_true, get_elem?, Option-cases, inl, inr, Bool-cases, ◌⊎◌, Returns,
  bind_some, some, length, get_elem?_total,
}
use w132d_linux_mainline.Queues.{TxT}
use w132d_linux_mainline.Queues.Share.{AtMostHundred}
use w132d_linux_mainline.Queues.Flush.{
  mode_max, first_open, reset_colours, give_up, AllModes, flush_if_closed,
  handle_tx_status_after_close, AllRatios, set_ratio, two_digits, adjust_qos_ratio,
}

first_open-stops :
    (closed : ℕ → Bool) (mode n : ℕ)
    → (first_open closed mode n ≡ mode + n) ⊎ (closed (first_open closed mode n) ≡ false)
unfolding first_open
first_open-stops closed mode zero = inl (omega arith)
first_open-stops closed mode (suc n) = elim (Bool-cases (closed mode)) [
  | inl e ↦ elim (first_open-stops closed (suc mode) n) [
    | inl last ↦ inl (if_true _ _ e ∙ (omega (arith, last)))
    | inr stop ↦ inr (ap closed (if_true _ _ e) ∙ stop)
  ]
  | inr e ↦ inr (ap closed (if_false _ _ e) ∙ e)
]

open_keeps :
    (closed : ℕ → Bool) (mode : ℕ) (lists : List TxT)
    → closed mode ≡ false
    → flush_if_closed closed mode lists ≡ lists
unfolding flush_if_closed
open_keeps closed mode lists e = elim (Option-cases (get_elem? lists mode)) [
  | inl out ↦ rw (out, flush_if_closed) refl
  | inr (l, here) ↦
      let skip : (ltb mode mode_max && (closed mode && not (l.mode_list_num == 0))) ≡ false =
        ground (arith, e) in
      rw (here, flush_if_closed) (if_false _ _ skip)
]

-- When an interface closes no list is flushed, whichever modes are closed and whatever waits.
pub after_close-tx_lists :
    (closed : ℕ → Bool) (vif_mode : ℕ) (t : AllModes)
    → (handle_tx_status_after_close closed vif_mode t).tx_lists ≡ t.tx_lists
unfolding handle_tx_status_after_close
after_close-tx_lists closed vif_mode t =
    let mode = first_open closed 1 7 in
    if_cases (λ (t' : AllModes). t'.tx_lists ≡ t.tx_lists) (mode == mode_max)
      (record t {
        credits = record { colours = reset_colours 0 t.credits.colours; ring_cp = 0; ring_ap = 0 };
      })
      (record {
        credits = record t.credits { colours = map (give_up vif_mode) t.credits.colours };
        tx_lists = flush_if_closed closed mode t.tx_lists;
      })
      (λ all. refl)
      (λ some_open. elim (first_open-stops closed 1 7) [
        | inl last ↦ absurd (ground (arith, last, some_open))
        | inr stop ↦ open_keeps closed mode t.tx_lists stop
      ])

-- The character of a digit
abbrev pub IsDigit : ℕ → Type 0
IsDigit c = (48 ≤ c) × (c ≤ 57)

two_digits-small : (a b : ℕ) → IsDigit a → IsDigit b → two_digits a b ≤ 100
two_digits-small a b (a_low, a_high) (b_low, b_high) = omega (arith, a_low, a_high, b_low, b_high)

set_ratio-AtMostHundred :
    (c0 c1 q : ℕ) (r : AllRatios)
    → q ≤ 100
    → AtMostHundred r.ratios
    → AtMostHundred (set_ratio c0 c1 q r).ratios
unfolding set_ratio
set_ratio-AtMostHundred c0 c1 q r small h =
    let P = λ (x : AllRatios). AtMostHundred x.ratios in
    if_cases P (c0 == 118) _ _
      (λ v.
        if_cases P (c1 == 111) _ _ (λ o. record { vo = small; vi = h.vi; be = h.be })
          (λ o.
            if_cases P (c1 == 105) _ _ (λ i. record { vo = h.vo; vi = small; be = h.be }) (λ i. h)))
      (λ v.
        if_cases P (c0 == 98 && c1 == 101) _ _ (λ b. record { vo = h.vo; vi = h.vi; be = small })
          (λ b. if_cases P (c0 == 97 && c1 == 109) _ _ (λ m. h) (λ m. h)))

-- A setting of two digits keeps every ratio at 100 or below, and is read within its characters.
pub adjust_qos_ratio-AtMostHundred :
    (buf : List ℕ) (offset a b : ℕ) (r : AllRatios)
    → get_elem? buf (offset + 3) ≡ some a
    → get_elem? buf (offset + 4) ≡ some b
    → offset + 4 < length buf
    → IsDigit a
    → IsDigit b
    → AtMostHundred r.ratios
    → Returns (adjust_qos_ratio buf offset r) (λ r'. AtMostHundred r'.ratios)
unfolding adjust_qos_ratio
adjust_qos_ratio-AtMostHundred buf offset a b r at_a at_b inside da db h =
    let (c0, at_0) = get_elem?_total buf offset (omega (arith, inside)) in
    let (c1, at_1) = get_elem?_total buf (offset + 1) (omega (arith, inside)) in
    (
      set_ratio c0 c1 (two_digits a b) r,
      bind_some _ at_a ∙ bind_some _ at_b ∙ bind_some _ at_0 ∙ bind_some _ at_1,
      set_ratio-AtMostHundred c0 c1 (two_digits a b) r (two_digits-small a b da db) h,
    )
