-- ===== src/Credit.antt =====
-- The credits of unisocwifi/tx_msg.c: how many frames may be sent, and what each of them costs.
pub mod Grant
pub mod Own
pub mod Send
pub mod Spend
pub mod Balance
pub mod Colours
pub mod Flows
mod Tests
use w132d_linux_mainline.Prelude.{
  ℕ, zero, suc, ◌+◌, ◌-◌, ◌%◌, ◌^◌, Bool, true, false, ◌&&◌, ◌||◌, not, List, [], ◌∷◌, ◌++◌, map,
  Option, none, some, ltb, leb, ◌==◌, if◌then◌else◌, length, replicate,
}

-- `SPRDWL_MODE_NONE` of `enum sprdwl_mode`; the other modes are numbers above it.
abbrev pub mode_none : ℕ
mode_none = 0

-- `struct sprdwl_flow_control` at an index `i`, with `color_num[i]` beside it. `flow` is an `int`, here
-- a word of 32 bits, and `color_num` has 8 bits.
pub record Colour : Type 0 where
  pub mode : ℕ
  pub color_bit : ℕ
  pub flow : ℕ
  pub color_num : ℕ

-- `atomic_t` read as an `int`
abbrev pub is_negative : ℕ → Bool
is_negative w = leb (2 ^ 31) w

unfoldable pub has_mode : ℕ → List Colour → Bool
has_mode mode [] = false
has_mode mode (c ∷ cs) = c.mode == mode || has_mode mode cs

-- The flow of the first colour of a mode; zero where there is none.
unfoldable pub flow_of_mode : ℕ → List Colour → ℕ
flow_of_mode mode [] = 0
flow_of_mode mode (c ∷ cs) = if c.mode == mode then c.flow else flow_of_mode mode cs

-- `color_num` of the first colour of a mode is set.
unfoldable pub set_color_num : ℕ → ℕ → List Colour → List Colour
set_color_num mode n [] = []
set_color_num mode n (c ∷ cs) =
    if c.mode == mode then record c { color_num = n % 256 } ∷ cs else c ∷ set_color_num mode n cs

abbrev pub free_closed : (ℕ → Bool) → Colour → Colour
free_closed closed c =
    if not (c.mode == mode_none) && closed c.mode then record c { mode = mode_none } else c

-- The first colour of no mode gets the mode; `i` is the index of the head of the list.
unfoldable pub assign : ℕ → ℕ → List Colour → List Colour
assign i mode [] = []
assign i mode (c ∷ cs) =
    if c.mode == mode_none
    then record c { mode = mode; color_bit = i } ∷ cs
    else c ∷ assign (suc i) mode cs

-- `sprdwl_fc_find_color_per_mode`: `closed` is `fw_stat[mode] == SPRDWL_INTF_CLOSE`. The colour that is
-- found is the first one of the mode in the new list, and there is none exactly when `false` comes out.
unfoldable pub fc_find_color_per_mode : (ℕ → Bool) → ℕ → List Colour → Bool × List Colour
fc_find_color_per_mode closed mode cs =
    let freed = map (free_closed closed) cs in
    if has_mode mode cs
    then (true, cs)
    else if has_mode mode_none freed
    then (true, assign 0 mode freed)
    else (false, freed)

abbrev pub is_shared : Colour → Bool
is_shared c = c.mode == mode_none && not (c.flow == 0)

-- The loop of `sprdwl_fc_get_shared_num`; `shared` is `shared_flow_num`, below `num` while it runs.
unfoldable pub shared_from : ℕ → ℕ → List Colour → ℕ × List Colour
shared_from num shared [] = (shared, [])
shared_from num shared (c ∷ cs) =
    let rest = shared_from num (if is_shared c then shared + c.flow else shared) cs in
    if is_shared c
    then (if leb (num - shared) c.flow
        then (num, record c { color_num = (num - shared) % 256 } ∷ cs)
        else (rest.0, record c { color_num = c.flow % 256 } ∷ rest.1))
    else (rest.0, c ∷ rest.1)

unfoldable pub fc_get_shared_num : ℕ → List Colour → ℕ × List Colour
fc_get_shared_num num cs = shared_from num 0 cs

abbrev pub no_num : Colour → Colour
no_num c = record c { color_num = 0 }

-- What priv says of the hardware: PCIe, or no credits.
pub record Hardware : Type 0 where
  pub pcie : Bool
  pub no_credit : Bool

-- A number of frames, or -ENOMEM
pub data Granted : Type 0 where
  frames : ℕ → Granted
  enomem : Granted

abbrev pub positive : ℕ → Granted
positive n = if n == 0 || is_negative n then enomem else frames n

-- `sprdwl_fc_get_send_num` behind the search of the colour; `n` is at most 100.
unfoldable pub grant : ℕ → ℕ → List Colour → Granted × List Colour
grant mode n cs =
    let own = flow_of_mode mode cs in
    if not (is_negative own) && leb n own
    then (frames n, set_color_num mode n cs)
    else (let shared = fc_get_shared_num ((n + 2 ^ 32 - own) % 256) cs in
        (positive ((own + shared.0) % 2 ^ 32), set_color_num mode own shared.1))

abbrev pub at_most_hundred : ℕ → ℕ
at_most_hundred n = if ltb 100 n then 100 else n

-- `sprdwl_fc_get_send_num`; `data_num` is not negative.
unfoldable pub fc_get_send_num : Hardware → (ℕ → Bool) → ℕ → ℕ → List Colour → Granted × List Colour
fc_get_send_num hw closed mode data_num cs =
    let found = fc_find_color_per_mode closed mode (map no_num cs) in
    if data_num == 0 || mode == mode_none
    then (frames 0, cs)
    else if hw.pcie
    then (frames data_num, cs)
    else if hw.no_credit
    then (frames (at_most_hundred data_num), cs)
    else if found.0
    then grant mode (at_most_hundred data_num) found.1
    else (enomem, found.1)

-- `sprdwl_fc_test_shared_num`
unfoldable pub fc_test_shared_num : List Colour → ℕ
fc_test_shared_num [] = 0
fc_test_shared_num (c ∷ cs) =
    if is_shared c then c.flow + fc_test_shared_num cs else fc_test_shared_num cs

-- `sprdwl_fc_test_send_num`
unfoldable pub fc_test_send_num :
    Hardware → (ℕ → Bool) → ℕ → ℕ → List Colour → Granted × List Colour
fc_test_send_num hw closed mode data_num cs =
    let found = fc_find_color_per_mode closed mode cs in
    let n = (flow_of_mode mode found.1 + fc_test_shared_num found.1) % 2 ^ 32 in
    if data_num == 0 || mode == mode_none
    then (frames 0, cs)
    else if hw.pcie
    then (frames data_num, cs)
    else if hw.no_credit
    then (frames (at_most_hundred data_num), cs)
    else if not found.0 || (n == 0 || is_negative n)
    then (enomem, found.1)
    else (
      frames (if leb n (at_most_hundred data_num) then n else at_most_hundred data_num),
      found.1,
    )

-- `sprdwl_fc_set_clor_bit` from the index `i` on, where `count` frames have the colours before.
unfoldable pub colour_from : ℕ → ℕ → List Colour → ℕ → ℕ
colour_from i count [] num = i
colour_from i count (c ∷ cs) num =
    let rest = colour_from (suc i) (count + c.color_num) cs num in
    if leb num (count + c.color_num) then i else rest

unfoldable pub fc_set_clor_bit : Hardware → List Colour → ℕ → ℕ
fc_set_clor_bit hw cs num = if hw.no_credit then 0 else colour_from 0 0 cs num

-- `struct sprdwl_tx_msg`, its credits; `ring_cp` and `ring_ap` are an `unsigned long` of 64 bits.
pub record TxMsg : Type 0 where
  pub colours : List Colour
  pub ring_cp : ℕ
  pub ring_ap : ℕ

abbrev pub spend : Colour → Colour
spend c = record c { flow = (c.flow + 2 ^ 32 - c.color_num) % 2 ^ 32 }

-- `sprdwl_handle_tx_return` on the credits; `failed` is `ret != 0`.
unfoldable pub handle_tx_return : Hardware → Bool → ℕ → TxMsg → TxMsg
handle_tx_return hw failed send_num t =
    if failed then record t { colours = map no_num t.colours } else record t {
      ring_ap = (t.ring_ap + send_num) % 2 ^ 64;
      colours = if hw.no_credit then t.colours else map spend t.colours;
    }

-- `sprdwl_fc_add_share_credit` for a mode that is closed
unfoldable pub fc_add_share_credit : ℕ → List Colour → List Colour
fc_add_share_credit mode [] = []
fc_add_share_credit mode (c ∷ cs) =
    if c.mode == mode then record c { mode = mode_none } ∷ cs else c ∷ fc_add_share_credit mode cs

-- The message that brings credits: data with four bytes of them, the event with them, or another.
pub data Head : Type 0 where
  data_special : Head
  flowcon_event : Head
  other_message : Head

unfoldable pub sum : List ℕ → ℕ
sum [] = 0
sum (n ∷ ns) = n + sum ns

-- The bytes `flow[i]` are added to the colours.
unfoldable pub add_flows : List ℕ → List Colour → List Colour
add_flows [] cs = cs
add_flows (f ∷ fs) [] = []
add_flows (f ∷ fs) (c ∷ cs) = record c { flow = (c.flow + f) % 2 ^ 32 } ∷ add_flows fs cs

-- What `atomic_read` gives, an `int`, as an `unsigned long` of 64 bits: the sign is extended.
unfoldable pub as_ulong : ℕ → ℕ
as_ulong flow = if ltb flow (2 ^ 31) then flow else flow + (2 ^ 64 - 2 ^ 32)

-- The loop of a reset: what remains of `ring_cp`, an `unsigned long` of 64 bits.
unfoldable pub reset_cp : ℕ → List Colour → ℕ
reset_cp cp [] = cp
reset_cp cp (c ∷ cs) = reset_cp (if cp == 0 then 0 else (cp + 2 ^ 64 - as_ulong c.flow) % 2 ^ 64) cs

abbrev pub reset_colour : Colour → Colour
reset_colour c = record c { flow = 0; color_num = 0 }

-- `sprdwl_sdio_process_credit` with the four bytes at `flow`; the result tells whether it is -1.
unfoldable pub process_credit : Head → List ℕ → TxMsg → Bool × TxMsg
process_credit other_message flow t = (false, t)
process_credit data_special flow t = (
  false,
  record t { colours = add_flows flow t.colours; ring_cp = (t.ring_cp + sum flow) % 2 ^ 64 },
)
process_credit flowcon_event flow t =
    if sum flow == 0
    then (
      true,
      record t { colours = map reset_colour t.colours; ring_cp = reset_cp t.ring_cp t.colours },
    )
    else (
      true,
      record t { colours = add_flows flow t.colours; ring_cp = (t.ring_cp + sum flow) % 2 ^ 64 },
    )

-- The colours after `sprdwl_tx_init`
unfoldable pub first_colours : ℕ → ℕ → List Colour
first_colours i zero = []
first_colours i (suc n) =
    record { mode = mode_none; color_bit = i; flow = 0; color_num = 0 } ∷ first_colours (suc i) n
