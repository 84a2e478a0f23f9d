-- ===== src/Credit/Balance.antt =====
-- The counters of tx_msg.c: `ring_cp` counts the credits that came, `ring_ap` those that were spent.
use w132d_linux_mainline.Prelude.{
  ℕ, ◌+◌, ◌-◌, ◌%◌, ◌^◌, ◌≤◌, ◌<◌, ◌≡◌, refl, ◌∙◌, ap, Bool, true, List, [], ◌∷◌, map, arith, ◌==◌,
  if◌then◌else◌, length, if_cases,
}
use w132d_linux_mainline.Credit.{
  Colour, TxMsg, Head, data_special, flowcon_event, other_message, sum, add_flows, as_ulong,
  reset_cp, reset_colour, process_credit,
}
use w132d_linux_mainline.Credit.Spend.{credits}

-- The credits at hand are those that came and were not spent.
abbrev pub Balanced : TxMsg → Type 0
Balanced t = t.ring_cp ≡ t.ring_ap + credits t.colours

credits-add_flows :
    (fs : List ℕ) (cs : List Colour)
    → length fs ≡ length cs
    → credits cs + sum fs < 2 ^ 32
    → credits (add_flows fs cs) ≡ credits cs + sum fs
unfolding add_flows credits sum
credits-add_flows [] [] e h = omega arith
credits-add_flows [] (c ∷ cs) e h = absurd (omega arith)
credits-add_flows (f ∷ fs) [] e h = absurd (omega arith)
credits-add_flows (f ∷ fs) (c ∷ cs) e h =
    let rest = credits-add_flows fs cs (omega (arith, e)) (omega (arith, h)) in
    omega (arith, rest, h)

credits-reset : (cs : List Colour) → credits (map reset_colour cs) ≡ 0
unfolding credits
credits-reset [] = refl
credits-reset (c ∷ cs) = omega (arith, credits-reset cs)

reset_cp_lem :
    (cp : ℕ) (cs : List Colour)
    → credits cs ≤ cp
    → credits cs < 2 ^ 31
    → cp < 2 ^ 64
    → reset_cp cp cs ≡ cp - credits cs
unfolding reset_cp credits as_ulong
reset_cp_lem cp [] h few small = omega arith
reset_cp_lem cp (c ∷ cs) h few small =
    let same : as_ulong c.flow ≡ c.flow = ground (arith, few) in
    let less : (if cp == 0 then 0 else (cp + 2 ^ 64 - as_ulong c.flow) % 2 ^ 64) ≡ cp - c.flow =
      ground (arith, h, small, same) in
    ap (λ k. reset_cp k cs) less
    ∙ reset_cp_lem (cp - c.flow) cs (omega (arith, h)) (omega (arith, few)) (omega (arith, small))
    ∙ (omega (arith, h))

added :
    (fs : List ℕ) (t : TxMsg)
    → Balanced t
    → length fs ≡ length t.colours
    → credits t.colours + sum fs < 2 ^ 32
    → t.ring_cp + sum fs < 2 ^ 64
    → Balanced
        (record t { colours = add_flows fs t.colours; ring_cp = (t.ring_cp + sum fs) % 2 ^ 64 })
added fs t b e h h' = omega (arith, b, credits-add_flows fs t.colours e h, h')

-- The credits at hand stay those that came and were not spent when a message comes, whether it
-- brings credits, none, or takes them all away. The conditions: one byte for each colour, fewer than
-- 2^31 credits, which an `int` holds, and a counter below 2^64.
pub process_credit-Balanced :
    (head : Head) (fs : List ℕ) (t : TxMsg)
    → Balanced t
    → length fs ≡ length t.colours
    → credits t.colours + sum fs < 2 ^ 31
    → t.ring_cp + sum fs < 2 ^ 64
    → Balanced (process_credit head fs t).1
unfolding process_credit
process_credit-Balanced other_message fs t b e h h' = b
process_credit-Balanced data_special fs t b e h h' = added fs t b e (omega (arith, h)) h'
process_credit-Balanced flowcon_event fs t b e h h' =
    if_cases (λ (r : Bool × TxMsg). Balanced r.1) (sum fs == 0)
      (
        true,
        record t { colours = map reset_colour t.colours; ring_cp = reset_cp t.ring_cp t.colours },
      )
      (true, record t { colours = add_flows fs t.colours; ring_cp = (t.ring_cp + sum fs) % 2 ^ 64 })
      (λ z.
        reset_cp_lem t.ring_cp t.colours (omega (arith, b)) (omega (arith, h)) (omega (arith, h'))
        ∙ omega (arith, b, credits-reset t.colours))
      (λ z. added fs t b e (omega (arith, h)) h')
