-- ===== src/Queues/Flush.antt =====
-- How the transmit queues of tx_msg.c are filled and emptied: sprdwl_tx_msg_func on the lists, the
-- flushes, and handle_tx_status_after_close.
use w132d_linux_mainline.Prelude.{
  ℕ, zero, suc, ◌+◌, ◌-◌, ◌*◌, ◌%◌, ◌^◌, Bool, true, false, ◌&&◌, not, List, [], ◌∷◌, ◌++◌, map,
  Option, none, some, ltb, ◌==◌, if◌then◌else◌, ◌>>=◌, get_elem?, set,
}
use w132d_linux_mainline.Credit.{Colour, mode_none, TxMsg}
use w132d_linux_mainline.Queues.{
  Buf, PeerList, TxT, atomic_sub, atomic_add, cleared, queue_data_msg_buf, Ratios,
}
use w132d_linux_mainline.Queues.Handlers.{Transmit}

-- `q_list[i].p_list[j]`, and a change of it; `none` is an access past an array.
unfoldable pub peer_list : ℕ → ℕ → List (List PeerList) → Option PeerList
peer_list i j [] = none
peer_list zero j (ps ∷ qs) = get_elem? ps j
peer_list (suc i) j (ps ∷ qs) = peer_list i j qs

unfoldable pub set_peer_list : ℕ → ℕ → PeerList → List (List PeerList) → List (List PeerList)
set_peer_list i j p [] = []
set_peer_list zero j p (ps ∷ qs) = set ps j p ∷ qs
set_peer_list (suc i) j p (ps ∷ qs) = ps ∷ set_peer_list i j p qs

abbrev pub with_queues : List (List PeerList) → ℕ → Transmit → Transmit
with_queues qs n t = record t { tx_list = record { q_list = qs; mode_list_num = n } }

-- `sprdwl_tx_msg_func` puts a data buffer on the list of its access category and peer.
unfoldable pub queue_data : Bool → Buf → ℕ → ℕ → Transmit → Option Transmit
queue_data first b i j t = elim (peer_list i j t.tx_list.q_list) [
  | none ↦ none
  | some p ↦ some (
      with_queues (set_peer_list i j (queue_data_msg_buf first b p) t.tx_list.q_list)
        (atomic_add 1 t.tx_list.mode_list_num) t)
]

abbrev pub is_empty : List Buf → Bool
is_empty [] = true
is_empty (b ∷ bs) = false

-- `sprdwl_flush_tx_qoslist`
unfoldable pub flush_tx_qoslist : ℕ → ℕ → Transmit → Option Transmit
flush_tx_qoslist i j t = elim (peer_list i j t.tx_list.q_list) [
  | none ↦ none
  | some p ↦
      let flushed =
        with_queues (set_peer_list i j (cleared p) t.tx_list.q_list)
          (atomic_sub p.l_num t.tx_list.mode_list_num) t in
      some (if is_empty p.head_list then t else record flushed { freed = t.freed ++ p.head_list })
]

-- The lists of a mode after `sprdwl_flush_mode_txlist`, and what is freed. An empty list is passed over.
abbrev pub flush_peer : PeerList → PeerList
flush_peer p = if is_empty p.head_list then p else cleared p

unfoldable pub waiting_peers : List PeerList → List Buf
waiting_peers [] = []
waiting_peers (p ∷ ps) = p.head_list ++ waiting_peers ps

unfoldable pub waiting : List (List PeerList) → List Buf
waiting [] = []
waiting (ps ∷ qs) = waiting_peers ps ++ waiting qs

unfoldable pub flush_lists : TxT → TxT
flush_lists t = record { q_list = map (map flush_peer) t.q_list; mode_list_num = 0 }

unfoldable pub flush_mode_txlist : Transmit → Transmit
flush_mode_txlist t = record t {
  tx_list = flush_lists t.tx_list;
  freed = t.freed ++ waiting t.tx_list.q_list;
}

-- `SPRDWL_MODE_MAX`
abbrev pub mode_max : ℕ
mode_max = 8

-- The first mode from `mode` on that is not closed, where `n` modes are left, or SPRDWL_MODE_MAX.
unfoldable pub first_open : (ℕ → Bool) → ℕ → ℕ → ℕ
first_open closed mode zero = mode
first_open closed mode (suc n) =
    let rest = first_open closed (suc mode) n in if closed mode then rest else mode

abbrev pub colour_reset : ℕ → Colour → Colour
colour_reset i c = record c { mode = mode_none; color_bit = i; flow = 0 }

unfoldable pub reset_colours : ℕ → List Colour → List Colour
reset_colours i [] = []
reset_colours i (c ∷ cs) = colour_reset i c ∷ reset_colours (suc i) cs

abbrev pub give_up : ℕ → Colour → Colour
give_up mode c = if c.mode == mode then record c { mode = mode_none } else c

-- The credits and the lists of all modes.
pub record AllModes : Type 0 where
  pub credits : TxMsg
  pub tx_lists : List TxT

-- The lists of the mode that the loop stopped at.
unfoldable pub flush_if_closed : (ℕ → Bool) → ℕ → List TxT → List TxT
flush_if_closed closed mode lists = elim (get_elem? lists mode) [
  | none ↦ lists
  | some l ↦
      if ltb mode mode_max && (closed mode && not (l.mode_list_num == 0))
      then set lists mode (flush_lists l)
      else lists
]

-- `handle_tx_status_after_close` for the interface of a mode
unfoldable pub handle_tx_status_after_close : (ℕ → Bool) → ℕ → AllModes → AllModes
handle_tx_status_after_close closed vif_mode t =
    let mode = first_open closed 1 7 in
    if mode == mode_max
    then record t {
      credits = record { colours = reset_colours 0 t.credits.colours; ring_cp = 0; ring_ap = 0 };
    }
    else record {
      credits = record t.credits { colours = map (give_up vif_mode) t.credits.colours };
      tx_lists = flush_if_closed closed mode t.tx_lists;
    }

-- The ratios of the queues, and `wmmac_ratio`, which qos.c reads.
pub record AllRatios : Type 0 where
  pub ratios : Ratios
  pub wmmac_ratio : ℕ

-- The number of two characters, an `unsigned int`
abbrev pub two_digits : ℕ → ℕ → ℕ
two_digits a b = ((a + 2 ^ 32 - 48) * 10 + (b + 2 ^ 32 - 48)) % 2 ^ 32

abbrev pub with_ratios : AllRatios → Ratios → AllRatios
with_ratios r q = record r { ratios = q }

-- The `if` of `adjust_qos_ratio`: the characters `vo`, `vi`, `be` or `am`, and the new ratio.
unfoldable pub set_ratio : ℕ → ℕ → ℕ → AllRatios → AllRatios
set_ratio c0 c1 q r =
    if c0 == 118
    then (if c1 == 111
        then with_ratios r (record r.ratios { vo_ratio = q })
        else if c1 == 105
        then with_ratios r (record r.ratios { vi_ratio = q })
        else r)
    else if c0 == 98 && c1 == 101
    then with_ratios r (record r.ratios { be_ratio = q })
    else if c0 == 97 && c1 == 109
    then record r { wmmac_ratio = q }
    else r

-- `adjust_qos_ratio` of wl_core.c on the characters of a setting such as `vo=87`, which begins at
-- `offset`; a read past them is `none`.
unfoldable pub adjust_qos_ratio : List ℕ → ℕ → AllRatios → Option AllRatios
adjust_qos_ratio buf offset r = get_elem? buf (offset + 3) >>= λ a.
    get_elem? buf (offset + 4) >>= λ b. get_elem? buf offset >>= λ c0.
    get_elem? buf (offset + 1) >>= λ c1. some (set_ratio c0 c1 (two_digits a b) r)
