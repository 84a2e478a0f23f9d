-- ===== src/Credit/Spend.antt =====
-- What the frames that sprdwl_fc_get_send_num of tx_msg.c grants cost when they are sent.
use w132d_linux_mainline.Prelude.{
  ℕ, ◌+◌, ◌^◌, ◌<◌, ◌≡◌, ◌≢◌, refl, ◌∙◌, sym, ap, Bool, true, false, List, [], ◌∷◌, map, arith,
  ◌==◌, if◌then◌else◌, if_cases, if_false,
}
use w132d_linux_mainline.Credit.{
  Colour, Hardware, mode_none, no_num, Granted, frames, enomem, at_most_hundred,
  fc_find_color_per_mode, fc_get_send_num, TxMsg, spend, handle_tx_return,
}
use w132d_linux_mainline.Credit.Grant.{granted, Covered, least}
use w132d_linux_mainline.Credit.Send.{available, colours_for, IsGrant, fc_get_send_num-IsGrant}

unfoldable pub credits : List Colour → ℕ
credits [] = 0
credits (c ∷ cs) = c.flow + credits cs

abbrev pub AllWords : List Colour → Type 0
AllWords [] = Unit
AllWords (c ∷ cs) = (c.flow < 2 ^ 32) × AllWords cs

credits-spend :
    (cs : List Colour) → Covered cs → AllWords cs → credits (map spend cs) + granted cs ≡ credits cs
unfolding credits granted
credits-spend [] v w = omega arith
credits-spend (c ∷ cs) (v, vs) (w, ws) = omega (arith, credits-spend cs vs ws)

credits-no_num : (cs : List Colour) → credits (map no_num cs) ≡ credits cs
unfolding credits
credits-no_num [] = refl
credits-no_num (c ∷ cs) = ap (λ k. c.flow + k) (credits-no_num cs)

frames_of : Granted → ℕ
frames_of (frames k) = k
frames_of enomem = 0

pub granted_frames :
    (wanted avail k : ℕ) (r : Granted × List Colour)
    → IsGrant wanted avail r
    → r.0 ≡ frames k
    → k ≡ granted r.1
unfolding frames_of
granted_frames wanted avail k r h got =
    let l = least wanted avail in
    let e : k ≡ frames_of (if l == 0 then enomem else frames l) =
      ap frames_of (sym got ∙ h.result) in
    let f : frames_of (if l == 0 then enomem else frames l) ≡ l =
      if_cases (λ g. frames_of g ≡ l) (l == 0) enomem (frames l) (λ z. ground (arith, z))
        (λ z. refl) in
    e ∙ f ∙ sym h.total

pub after_send :
    (hw : Hardware) (t : TxMsg) (cs : List Colour) (k : ℕ) (failed : Bool)
    → hw.no_credit ≡ false
    → Covered cs
    → AllWords cs
    → k ≡ granted cs
    → credits (handle_tx_return hw failed k (record t { colours = cs })).colours
        + (if failed then 0 else k)
      ≡ credits cs
unfolding handle_tx_return
after_send hw t cs k true credit v w e = omega (arith, credits-no_num cs)
after_send hw t cs k false credit v w e =
    let spent : (if hw.no_credit then cs else map spend cs) ≡ map spend cs = if_false _ _ credit in
    ap (λ z. credits z + k) spent ∙ (omega (arith, credits-spend cs v w, e))

-- A send that succeeds costs one credit for each frame that was granted, from the colours that were
-- charged for it, and one that fails costs none: the credits left and the frames sent are the
-- credits before. The conditions are those of the grant, and flows of 32 bits.
pub tx_return-credits :
    (hw : Hardware) (closed : ℕ → Bool) (mode data_num k : ℕ) (t : TxMsg) (failed : Bool)
    → hw.pcie ≡ false
    → hw.no_credit ≡ false
    → mode ≢ mode_none
    → 0 < data_num
    → (fc_find_color_per_mode closed mode (map no_num t.colours)).0 ≡ true
    → available mode (colours_for closed mode t.colours) < 2 ^ 31
    → (fc_get_send_num hw closed mode data_num t.colours).0 ≡ frames k
    → AllWords (fc_get_send_num hw closed mode data_num t.colours).1
    → (let cs = (fc_get_send_num hw closed mode data_num t.colours).1 in
        let t' = handle_tx_return hw failed k (record t { colours = cs }) in
        credits t'.colours + (if failed then 0 else k) ≡ credits cs)
tx_return-credits hw closed mode data_num k t failed sdio credit some_mode wanted found small got
      words =
    let g =
      fc_get_send_num-IsGrant hw closed mode data_num t.colours sdio credit some_mode wanted found
        small in
    let r = fc_get_send_num hw closed mode data_num t.colours in
    after_send hw t r.1 k failed credit g.covered words (
      granted_frames (at_most_hundred data_num) (available mode (colours_for closed mode t.colours))
        k r g got)
