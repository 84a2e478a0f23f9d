-- ===== src/Credit/Tests.antt =====
-- Concrete colours of tx_msg.c.
use w132d_linux_mainline.Prelude.{ℕ, ◌≡◌, refl, false, List, [], ◌∷◌, map, arith}
use w132d_linux_mainline.Credit.{
  Colour, Hardware, TxMsg, flowcon_event, frames, has_mode, flow_of_mode, set_color_num,
  shared_from, fc_get_shared_num, fc_test_shared_num, grant, fc_find_color_per_mode,
  fc_get_send_num, fc_set_clor_bit, process_credit, sum,
}
use w132d_linux_mainline.Credit.Grant.{granted}
use w132d_linux_mainline.Credit.Send.{IsGrant, fc_get_send_num-IsGrant}
use w132d_linux_mainline.Credit.Spend.{credits}
use w132d_linux_mainline.Credit.Colours.{frames_from, spread, set_clor_bit-spread}
use w132d_linux_mainline.Credit.Balance.{Balanced, process_credit-Balanced}

abbrev sdio : Hardware
sdio = record { pcie = false; no_credit = false }

abbrev colour : ℕ → ℕ → ℕ → ℕ → Colour
colour mode i flow num = record { mode = mode; color_bit = i; flow = flow; color_num = num }

-- A station with three credits, and two shared colours with two and four.
abbrev four : List Colour
four = colour 0 0 2 0 ∷ (colour 1 1 3 0 ∷ (colour 0 2 4 0 ∷ (colour 5 3 9 0 ∷ [])))

abbrev shared_out : List Colour
shared_out = colour 0 0 2 2 ∷ (colour 1 1 3 3 ∷ (colour 0 2 4 2 ∷ (colour 5 3 9 0 ∷ [])))

-- Seven frames cost two, three and two credits.
seven : fc_get_send_num sdio (λ m. false) 1 7 four ≡ (frames 7, shared_out)
unfolding fc_get_send_num fc_find_color_per_mode has_mode grant flow_of_mode set_color_num
    shared_from fc_get_shared_num
seven = refl

fc_get_send_num-IsGrant_example : IsGrant 20 9 (fc_get_send_num sdio (λ m. false) 1 20 four)
unfolding fc_find_color_per_mode has_mode flow_of_mode fc_test_shared_num
fc_get_send_num-IsGrant_example =
    fc_get_send_num-IsGrant sdio (λ m. false) 1 20 four refl refl (cc) (omega arith) refl
      (omega arith)

abbrev sending : TxMsg
sending = record { colours = four; ring_cp = 18; ring_ap = 0 }

set_clor_bit-spread_example :
    map (fc_set_clor_bit sdio shared_out) (frames_from 0 (granted shared_out)) ≡ spread 0 shared_out
set_clor_bit-spread_example = set_clor_bit-spread sdio shared_out refl

process_credit-Balanced_example :
    Balanced (process_credit flowcon_event (1 ∷ (0 ∷ (2 ∷ (0 ∷ [])))) sending).1
unfolding credits sum
process_credit-Balanced_example =
    process_credit-Balanced flowcon_event (1 ∷ (0 ∷ (2 ∷ (0 ∷ [])))) sending refl refl (omega arith)
      (omega arith)
