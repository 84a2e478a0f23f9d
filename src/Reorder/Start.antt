-- ===== src/Reorder/Start.antt =====
-- The request that starts a session: the size of the buffer, and the node that joins the table.
use w132d_linux_mainline.Prelude.{
  ℕ, zero, suc, ◌+◌, ◌-◌, ◌*◌, ◌%◌, ◌^◌, ◌<◌, ◌≤◌, ◌≡◌, ◌≢◌, inl, inr, refl, ◌∙◌, sym, ap, subst,
  Option, none, some, Bool, true, false, arith, Returns, Returns-bind, Bool-cases, ◌==◌, ltb,
  length, length-replicate,
}
use native.Mathlib.Nat.{pow-suc}
use w132d_linux_mainline.Seqno.{seqno_mod}
use w132d_linux_mainline.Reorder.Types.{Node, zero_pkt}
use w132d_linux_mainline.Reorder.Buffer.{doubled, get_index_size, set_ba_node_desc, min_index_size}
use w132d_linux_mainline.Reorder.Account.{Fits}
use w132d_linux_mainline.Reorder.Window.{Framed}
use w132d_linux_mainline.Reorder.Table.{
  Table, num_tids, update, store, init_ba_node, create_ba_node, start_session, start_or_create,
  is_same_ba, find_ba_node, BaEvent, wlan_addba_event,
}
use w132d_linux_mainline.Reorder.Lookup.{
  Has, At, IsLinked, Found, focus, find_ba_node-Found, focus-IsLinked,
}
use w132d_linux_mainline.Reorder.Events.{store-IsLinked}
use w132d_linux_mainline.Reorder.Join.{joined-IsLinked}

pow_pos : (n : ℕ) → 0 < 2 ^ n
pow_pos zero = omega arith
pow_pos (suc n) = omega (arith, pow-suc 2 n, pow_pos n)

-- Enough rounds of doubling reach the size, and no 32-bit product wraps on the way.
doubled_lem :
    (fuel size idx : ℕ)
    → size ≤ idx * 2 ^ fuel
    → idx * 2 ^ fuel < 2 ^ 32
    → 0 < idx
    → (size ≤ doubled fuel size idx) × (idx ≤ doubled fuel size idx)
unfolding doubled
doubled_lem zero size idx h w p = (omega arith, omega arith)
doubled_lem (suc fuel) size idx h w p = elim (Bool-cases (ltb idx size)) [
  | inr e ↦ rw (e, doubled) (ground (arith, e), omega arith)
  | inl e ↦
      let more : idx * 2 ^ suc fuel ≡ idx * 2 * 2 ^ fuel =
        omega (arith, ap (λ k. idx * k) (pow-suc 2 fuel)) in
      let small : idx * 2 ≤ idx * 2 * 2 ^ fuel = grind (arith, pow_pos fuel) in
      let exact : idx * 2 % 2 ^ 32 ≡ idx * 2 = omega arith in
      rw (e, doubled)
        (let (a, b) = doubled_lem fuel size (idx * 2) (omega arith) (omega arith) (omega arith) in
          rw exact (a, omega arith))
]

-- The buffer of a window of `win_size` has room for twice as many packets, and at least 64.
pub get_index_size_lem :
    (win_size : ℕ)
    → win_size < 2 ^ 16
    → (2 * win_size ≤ get_index_size (2 * win_size)) × (64 ≤ get_index_size (2 * win_size))
unfolding get_index_size
get_index_size_lem win_size h =
    doubled_lem 11 (2 * win_size) min_index_size (omega arith) (omega arith) (omega arith)

-- The buffer of the node is as large as the window that is asked for needs.
abbrev pub Room : BaEvent → Node → Type 0
Room ev n = get_index_size (2 * ev.win_size) ≤ length n.rx_ba.reorder_buffer

-- The session that was asked for: not yet active, with room for two windows.
abbrev pub Started : Table → BaEvent → Type 0
Started t ev =
    (p : ℕ) × Has p (t.hlist ev.tid)
    × At t.heap p (λ n.
      (n.sta_lut_index ≡ ev.sta_lut_index)
      × (n.active ≡ false)
      × (n.rx_ba.win_start ≡ ev.win_start)
      × (n.rx_ba.win_size ≡ ev.win_size)
      × (2 * ev.win_size ≤ n.rx_ba.index_mask + 1))

-- A node with the window of the event.
abbrev started_node : BaEvent → Node → Node
started_node ev n = record n {
  active = false;
  rx_ba = set_ba_node_desc n.rx_ba ev.win_start ev.win_size (get_index_size (2 * ev.win_size) - 1);
}

started_node-Framed :
    (ev : BaEvent) (n : Node)
    → ev.win_start < seqno_mod
    → ev.win_size < 2 ^ 16
    → Room ev n
    → Framed (started_node ev n).rx_ba
unfolding set_ba_node_desc
started_node-Framed ev n s w r = record {
  fits = omega (arith, get_index_size_lem ev.win_size w);
  start_lt = s;
  tail_lt = omega arith;
  limit_eq = refl;
}

start_session-Started :
    (t : Table) (ev : BaEvent) (p : ℕ)
    → IsLinked t
    → Has p (t.hlist ev.tid)
    → ev.win_start < seqno_mod
    → ev.win_size < 2 ^ 16
    → At t.heap p (λ n. (n.sta_lut_index ≡ ev.sta_lut_index) × Room ev n)
    → Returns
        (start_session t p ev.win_start ev.win_size (get_index_size (2 * ev.win_size)))
        (λ t'. IsLinked t' × Started t' ev)
unfolding start_session set_ba_node_desc
start_session-Started t ev p l h s w (n, e, c) =
    Returns-bind _ (λ k. (k ≡ n) × (t.heap p ≡ some k)) _ (n, e, (refl, e))
      (λ k ek. (
        _,
        refl,
        (
          store-IsLinked t p k (started_node ev k) l ek.1 refl refl
              (started_node-Framed ev k s w (subst (Room ev) (sym ek.0) c.1)),
          (
            p,
            h,
            (
              started_node ev k,
              stored t p (started_node ev k),
              (
                ap (λ (x : Node). x.sta_lut_index) ek.0 ∙ c.0,
                refl,
                refl,
                refl,
                omega (arith, get_index_size_lem ev.win_size w),
              ),
            ),
          ),
        ),
      ))
  where
    stored : (t : Table) (p : ℕ) (n : Node) → (store t p n).heap p ≡ some n
    stored t p n = ground arith

update_self : (heap : ℕ → Option Node) (p : ℕ) (n : Node) → update heap p (some n) p ≡ some n
update_self heap p n = ground arith

update_ne :
    (heap : ℕ → Option Node) (p x : ℕ) (n : Node) → p ≢ x → update heap p (some n) x ≡ heap x
update_ne heap p x n ne = ground (arith, ne)

-- A session that is new to the table: the node is made, linked, and given its window.
create_and_start :
    (t : Table) (ev : BaEvent) (new : ℕ)
    → IsLinked t
    → ev.tid < num_tids
    → t.heap new ≡ none
    → Found t ev.sta_lut_index ev.tid none
    → ev.win_start < seqno_mod
    → ev.win_size < 2 ^ 16
    → Returns
        (start_or_create (some new) true ev (none, t))
        (λ (ok, t'). (ok ≡ true) × IsLinked t' × Started t' ev)
unfolding start_or_create create_ba_node start_session init_ba_node set_ba_node_desc
create_and_start t ev new l h free absent s w =
    let e : ltb ev.tid num_tids ≡ true = ground arith in
    let size : ℕ = get_index_size (2 * ev.win_size) in
    let n : Node = started_node ev (init_ba_node ev.sta_lut_index ev.tid size) in
    let self : (new == new) ≡ true = ground arith in
    let framed : Framed n.rx_ba =
      started_node-Framed ev (init_ba_node ev.sta_lut_index ev.tid size) s w
        (omega (arith, length-replicate size zero_pkt)) in
    let made : ℕ → Option Node =
      update t.heap new (some (init_ba_node ev.sta_lut_index ev.tid size)) in
    let heap : ℕ → Option Node = update made new (some n) in
    let here : heap new ≡ some n = update_self made new n in
    let tid_self : (ev.tid == ev.tid) ≡ true = ground arith in
    rw (e, create_ba_node)
      (rw (self, start_session)
        (
          _,
          refl,
          (
            refl,
            joined-IsLinked t new ev.tid n l free h absent (refl, framed) heap here
                (λ x ne.
                  update_ne made new x n ne
                  ∙ update_ne t.heap new x (init_ba_node ev.sta_lut_index ev.tid size) ne),
            (
              new,
              rw tid_self (inl refl),
              (n, here, (refl, refl, refl, refl, omega (arith, get_index_size_lem ev.win_size w))),
            ),
          ),
        ))

start_known :
    (new : ℕ) (t : Table) (ev : BaEvent) (r : Option ℕ) (t' : Table)
    → IsLinked t
    → ev.tid < num_tids
    → t.heap new ≡ none
    → ev.win_start < seqno_mod
    → ev.win_size < 2 ^ 16
    → ((p : ℕ) (n : Node) → Has p (t.hlist ev.tid) → t.heap p ≡ some n → Room ev n)
    → Found t ev.sta_lut_index ev.tid r
    → t' ≡ focus t r
    → Returns
        (start_or_create (some new) true ev (r, t'))
        (λ (ok, u). (ok ≡ true) × IsLinked u × Started u ev)
unfolding start_or_create
start_known new t ev none t' l h free s w room f e = rw e (create_and_start t ev new l h free f s w)
start_known new t ev (some p) t' l h free s w room f e =
    let (n, en, st) = f.1 in
    rw e (
      Returns-bind _ _ _
        (start_session-Started (focus t (some p)) ev p
          (focus-IsLinked t ev.sta_lut_index ev.tid (some p) l h f) f.0 s w
          (n, en, (st, room p n f.0 en)))
        (λ u o. (_, refl, (refl, o.0, o.1))))

-- The request that starts a session, with memory for a new node: it succeeds, the table stays
-- linked, and it holds a session of that station and TID, not yet active, with the window that
-- was asked for and a mask for at least twice as many packets. The sessions of that TID that are
-- there already must have buffers that are large enough for the window.
pub wlan_addba_event-Started :
    (new : ℕ) (t : Table) (ev : BaEvent)
    → IsLinked t
    → ev.tid < num_tids
    → t.heap new ≡ none
    → ev.win_start < seqno_mod
    → ev.win_size < 2 ^ 16
    → ((p : ℕ) (n : Node) → Has p (t.hlist ev.tid) → t.heap p ≡ some n → Room ev n)
    → Returns
        (wlan_addba_event (some new) true t ev)
        (λ (ok, t'). (ok ≡ true) × IsLinked t' × Started t' ev)
unfolding wlan_addba_event
wlan_addba_event-Started new t ev l h free s w room =
    Returns-bind _ _ _ (find_ba_node-Found t ev.sta_lut_index ev.tid l h)
      (λ (r, t') o. start_known new t ev r t' l h free s w room o.0 o.1)

-- A request for a window that needs more room than the buffer of the session that is there: it
-- succeeds, and leaves a session whose mask lets through indices past the end of its buffer.
pub wlan_addba_event-overflow :
    (new : Option ℕ) (has_buffer : Bool) (t : Table) (ev : BaEvent) (p : ℕ) (n : Node)
    → is_same_ba t ev.sta_lut_index ev.tid ≡ some true
    → ev.tid < num_tids
    → t.current_ba_node ≡ some p
    → t.heap p ≡ some n
    → ev.win_size < 2 ^ 16
    → length n.rx_ba.reorder_buffer < get_index_size (2 * ev.win_size)
    → Returns
        (wlan_addba_event new has_buffer t ev)
        (λ (ok, t'). (ok ≡ true) × At t'.heap p (λ n'. Fits n'.rx_ba → ⊥))
unfolding wlan_addba_event find_ba_node start_or_create start_session set_ba_node_desc
wlan_addba_event-overflow new has_buffer t ev p n same h cur en w big =
    let e : ltb ev.tid num_tids ≡ true = ground arith in
    rw (e, find_ba_node)
      (rw same (
        simp cur (
          simp en (
            _,
            refl,
            (
              refl,
              (
                started_node ev n,
                update_self t.heap p (started_node ev n),
                λ f. absurd (omega (arith, get_index_size_lem ev.win_size w)),
              ),
            ),
          ))))
