-- ===== src/Reorder/Dispatch.antt =====
-- `wlan_ba_session_event` of reorder.c: the events of the firmware, each to its handler.
use w132d_linux_mainline.Prelude.{
  ℕ, ◌^◌, ◌<◌, ◌≡◌, ◌≢◌, refl, ◌∙◌, Bool, true, false, List, Option, none, some, ◌==◌,
  if◌then◌else◌, ◌>>=◌, Returns, Returns-bind, arith, if_cases, Option-cases, inl, inr, get_elem?,
  set, length, get_elem?_total, bind_some,
}
use w132d_linux_mainline.Seqno.{seqno_mod}
use w132d_linux_mainline.Reorder.Types.{Node}
use w132d_linux_mainline.Reorder.Table.{
  num_tids, Table, BaEvent, find_peer, send_addba_rsp, wlan_addba_event, wlan_delba_event,
  wlan_filter_event,
}
use w132d_linux_mainline.Reorder.Lookup.{IsLinked, Has}
use w132d_linux_mainline.Reorder.Events.{wlan_filter_event-IsLinked}
use w132d_linux_mainline.Reorder.Remove.{wlan_delba_event-gone}
use w132d_linux_mainline.Reorder.Start.{Room, wlan_addba_event-Started}

-- `SPRDWL_ADDBA_REQ_EVENT`, `SPRDWL_DELBA_EVENT`, `SPRDWL_FILTER_EVENT` and `SPRDWL_DELTXBA_EVENT`
abbrev pub addba_req_event : ℕ
addba_req_event = 0

abbrev pub delba_event : ℕ
delba_event = 2

abbrev pub filter_event : ℕ
filter_event = 4

abbrev pub deltxba_event : ℕ
deltxba_event = 6

-- The bits of `ba_tx_done_map` of each entry of `intf->peer_entry`. The event of a transmit session
-- clears the one of its TID; an index that is not in the array is `none`, as is a bit past the word.
unfoldable pub clear_tx_done : List (List Bool) → ℕ → ℕ → Option (List (List Bool))
clear_tx_done maps lut tid = get_elem? maps lut >>= λ map.
    get_elem? map tid >>= λ was. some (set maps lut (set map tid false))

-- The answer to a request tells whether it succeeded. Events that are not known do nothing.
unfoldable pub wlan_ba_session_event :
    ℕ → ℕ → Option ℕ → Bool → Table × List (List Bool) → BaEvent → Option (Table × List (List Bool))
wlan_ba_session_event hz jiffies new_node has_buffer (t, maps) ev =
    if ev.type == addba_req_event
    then (wlan_addba_event new_node has_buffer t ev >>= λ (ok, t').
        some (send_addba_rsp t' ev.tid ev.sta_lut_index ok, maps))
    else if ev.type == delba_event
    then (wlan_delba_event t ev >>= λ t'. some (t', maps))
    else if ev.type == filter_event
    then (wlan_filter_event hz jiffies t ev >>= λ t'. some (t', maps))
    else if ev.type == deltxba_event
    then (clear_tx_done maps ev.sta_lut_index ev.tid >>= λ maps'. some (t, maps'))
    else some (t, maps)

send_addba_rsp-IsLinked :
    (t : Table) (tid lut : ℕ) (ok : Bool) → IsLinked t → IsLinked (send_addba_rsp t tid lut ok)
unfolding send_addba_rsp
send_addba_rsp-IsLinked t tid lut ok l = elim (Option-cases (find_peer t.peers lut)) [
  | inl e ↦ rw (e, send_addba_rsp) l
  | inr (x, e) ↦
      rw (e, send_addba_rsp)
        (record {
          linked = l.linked;
          distinct = l.distinct;
          single = l.single;
          current = l.current;
        })
]

-- A request finds a free address for a new node, a window in range, and room for it in a session of
-- the TID that is there.
pub record CanStart (new : ℕ) (t : Table) (ev : BaEvent) : Type 0 where
  pub free : t.heap new ≡ none
  pub start : ev.win_start < seqno_mod
  pub size : ev.win_size < 2 ^ 16
  pub room : (p : ℕ) (n : Node) → Has p (t.hlist ev.tid) → t.heap p ≡ some n → Room ev n

abbrev pub AllActive : Table → Type 0
AllActive t = (tid p : ℕ) (n : Node) → Has p (t.hlist tid) → t.heap p ≡ some n → n.active ≡ true

-- Every map of a peer is a word of 64 bits.
abbrev pub AllWords : List (List Bool) → Type 0
AllWords maps = (lut : ℕ) (map : List Bool) → get_elem? maps lut ≡ some map → length map ≡ 64

-- A bit of a peer that is there is cleared, and the others stay as they are.
abbrev Cleared : List (List Bool) → ℕ → ℕ → List (List Bool) → Type 0
Cleared maps lut tid maps' =
    (map : List Bool) × (get_elem? maps lut ≡ some map) × (maps' ≡ set maps lut (set map tid false))

clear_tx_done-Cleared :
    (maps : List (List Bool)) (lut tid : ℕ)
    → AllWords maps
    → lut < length maps
    → tid < num_tids
    → Returns (clear_tx_done maps lut tid) (Cleared maps lut tid)
unfolding clear_tx_done
clear_tx_done-Cleared maps lut tid words here small =
    let (map, found) = get_elem?_total maps lut here in
    let (was, bit) = get_elem?_total map tid (omega (arith, small, words lut map found)) in
    (_, bind_some _ found ∙ bind_some _ bit, (map, found, refl))

-- What an event leaves: a linked table, and the maps of the peers, where only the end of a transmit
-- session clears its bit.
abbrev pub Handled : BaEvent → List (List Bool) → Table × List (List Bool) → Type 0
Handled ev maps (t', maps') =
    IsLinked t'
    × (ev.type ≢ deltxba_event → maps' ≡ maps)
    × (ev.type ≡ deltxba_event → Cleared maps ev.sta_lut_index ev.tid maps')

-- Any event of the firmware is handled without a bad access, and leaves the table linked. The end of
-- a transmit session clears its bit of the peer, and no other event changes one. The conditions: the
-- TID of the event is below 8; for a request, a new node is at a free address, the window starts
-- below 4096 and its size has 16 bits, and a session of the TID that is there has room for it; for a
-- filtered frame, every session is active; for the end of a transmit session, the index, which the
-- code does not check, is in the array of peers.
pub wlan_ba_session_event-IsLinked :
    (hz jiffies new : ℕ) (t : Table) (maps : List (List Bool)) (ev : BaEvent)
    → IsLinked t
    → AllWords maps
    → ev.tid < num_tids
    → (ev.type ≡ addba_req_event → CanStart new t ev)
    → (ev.type ≡ filter_event → AllActive t)
    → (ev.type ≡ deltxba_event → ev.sta_lut_index < length maps)
    → Returns (wlan_ba_session_event hz jiffies (some new) true (t, maps) ev) (Handled ev maps)
unfolding wlan_ba_session_event
wlan_ba_session_event-IsLinked hz jiffies new t maps ev l words h can act there =
    let P : Option (Table × List (List Bool)) → Type 0 = λ o. Returns o (Handled ev maps) in
    if_cases P (ev.type == addba_req_event) _ _
      (λ e.
        let c = can (ground (arith, e)) in
        Returns-bind _ _ _ (wlan_addba_event-Started new t ev l h c.free c.start c.size c.room)
          (λ (ok, t') o. (
            _,
            refl,
            (
              send_addba_rsp-IsLinked t' ev.tid ev.sta_lut_index ok o.1,
              (λ n. refl),
              λ last. absurd (ground (arith, e, last)),
            ),
          )))
      (λ e.
        if_cases P (ev.type == delba_event) _ _
          (λ e'.
            Returns-bind _ _ _ (wlan_delba_event-gone t ev l h)
              (λ t' o. (_, refl, (o.0, (λ n. refl), λ last. absurd (ground (arith, e', last))))))
          (λ e'.
            if_cases P (ev.type == filter_event) _ _
              (λ e''.
                Returns-bind _ _ _
                  (wlan_filter_event-IsLinked hz jiffies t ev l h (act (ground (arith, e''))))
                  (λ t' o. (_, refl, (o, (λ n. refl), λ last. absurd (ground (arith, e'', last))))))
              (λ e''.
                if_cases P (ev.type == deltxba_event) _ _
                  (λ d.
                    let last : ev.type ≡ deltxba_event = ground (arith, d) in
                    Returns-bind _ _ _
                      (clear_tx_done-Cleared maps ev.sta_lut_index ev.tid words (there last) h)
                      (λ maps' o. (_, refl, (l, (λ n. absurd (n last)), λ at. o))))
                  (λ d. (_, refl, (l, (λ n. refl), λ last. absurd (ground (arith, d, last))))))))
