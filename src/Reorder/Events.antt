-- ===== src/Reorder/Events.antt =====
-- The handlers of frames and events keep the table of sessions linked.
use w132d_linux_mainline.Prelude.{
  ℕ, ◌<◌, ◌≡◌, ◌⊎◌, inl, inr, refl, ◌∙◌, sym, ap, subst, ◌&&◌, not, Option, none, some, true, arith,
  Returns, Returns-bind, Returns_mono, Bool-cases, ◌==◌, ==_iff, ltb, ◌>>=◌,
}
use w132d_linux_mainline.Seqno.{seqno_mod}
use w132d_linux_mainline.Reorder.Types.{Skb, MsduDesc, Node, Output}
use w132d_linux_mainline.Reorder.Buffer.{reorder_set_skb_list}
use w132d_linux_mainline.Reorder.Process.{reorder_msdu_process}
use w132d_linux_mainline.Reorder.Table.{
  Table, num_tids, update, store, find_ba_node, process_at, process_found, reorder_data_process,
  BaEvent, filter_desc, wlan_filter_event,
}
use w132d_linux_mainline.Reorder.Window.{Framed}
use w132d_linux_mainline.Reorder.Receive.{reorder_msdu_process-Done, reorder_msdu_process_inactive}
use w132d_linux_mainline.Reorder.Lookup.{
  Has, At, IsSound, IsLinked, Found, focus, find_ba_node-Found, focus-IsLinked, some_inj,
}

-- In a heap with one node stored anew, a node is the new one or an old one.
pub update-cases :
    (heap : ℕ → Option Node) (p : ℕ) (n' : Node) (p' : ℕ) (m : Node)
    → update heap p (some n') p' ≡ some m
    → ((p ≡ p') × (n' ≡ m)) ⊎ (heap p' ≡ some m)
update-cases heap p n' p' m e = elim (Bool-cases (p == p')) [
  | inl y ↦ inl ((==_iff p p').0 y, some_inj (rw y at e))
  | inr y ↦ inr (rw y at e)
]

-- A node that is stored anew, of the same station and TID and with a proper window, keeps the
-- table linked.
pub store-IsLinked :
    (t : Table) (p : ℕ) (n n' : Node)
    → IsLinked t
    → t.heap p ≡ some n
    → n'.tid ≡ n.tid
    → n'.sta_lut_index ≡ n.sta_lut_index
    → Framed n'.rx_ba
    → IsLinked (store t p n')
store-IsLinked t p n n' l e same station w = record {
  linked = λ tid p' h. fresh tid p' (l.linked tid p' h);
  distinct = l.distinct;
  single = λ tid a b x y ha hb ex ey s.
      let (x', ex', sx) = old a x (update-cases t.heap p n' a x ex) in
      let (y', ey', sy) = old b y (update-cases t.heap p n' b y ey) in
      l.single tid a b x' y' ha hb ex' ey' (sx ∙ (s ∙ sym sy));
  current = l.current;
}
  where
    fresh :
        (tid p' : ℕ) → At t.heap p' (IsSound tid) → At (update t.heap p (some n')) p' (IsSound tid)
    fresh tid p' (m, em, s) = elim (Bool-cases (p == p')) [
      | inl y ↦ (
        n',
        rw y refl,
        (
          same
              ∙ (ap (λ (k : Node). k.tid) (some_inj (sym e ∙ (ap t.heap ((==_iff p p').0 y) ∙ em)))
                  ∙ s.0),
          w,
        ),
      )
      | inr y ↦ (m, rw y em, s)
    ]

    old :
        (a : ℕ) (x : Node)
        → ((p ≡ a) × (n' ≡ x)) ⊎ (t.heap a ≡ some x)
        → (x' : Node) × (t.heap a ≡ some x') × (x'.sta_lut_index ≡ x.sta_lut_index)
    old a x (inl (i, j)) =
        (n, ap t.heap (sym i) ∙ e, sym station ∙ ap (λ (k : Node). k.sta_lut_index) j)
    old a x (inr ex) = (x, ex, refl)

-- The output and the commands are no part of the links.
pub output-IsLinked : (t : Table) (q : Output) → IsLinked t → IsLinked (record t { output = q })
output-IsLinked t q l = record {
  linked = l.linked;
  distinct = l.distinct;
  single = l.single;
  current = l.current;
}

-- The frame carries an skb, or the session is active: then no null pointer is followed.
abbrev pub Safe : Option Skb → Node → Type 0
Safe none n = n.active ≡ true
Safe (some s) n = Unit

processed :
    (hz jiffies : ℕ) (q : Output) (m : MsduDesc) (skb : Option Skb) (n : Node)
    → Safe skb n
    → Framed n.rx_ba
    → m.seq_num < seqno_mod
    → Returns
        (reorder_msdu_process hz jiffies q m skb n)
        (λ (q', n'). (n'.tid ≡ n.tid) × (n'.sta_lut_index ≡ n.sta_lut_index) × Framed n'.rx_ba)
processed hz jiffies q m none n safe w h =
    Returns_mono (reorder_msdu_process-Done hz jiffies q m none n safe w h)
      (λ out o. (o.same_tid, o.same_station, o.buffer.framed))
processed hz jiffies q m (some s) n safe w h = elim (Bool-cases n.active) [
  | inl act ↦
      Returns_mono (reorder_msdu_process-Done hz jiffies q m (some s) n act w h)
        (λ out o. (o.same_tid, o.same_station, o.buffer.framed))
  | inr act ↦ (_, reorder_msdu_process_inactive hz jiffies q m s n act, (refl, refl, w))
]

pub process_at-IsLinked :
    (hz jiffies : ℕ) (t : Table) (m : MsduDesc) (skb : Option Skb) (tid p : ℕ)
    → IsLinked t
    → Has p (t.hlist tid)
    → ((n : Node) → t.heap p ≡ some n → Safe skb n)
    → m.seq_num < seqno_mod
    → Returns (process_at hz jiffies t m skb p) IsLinked
unfolding process_at
process_at-IsLinked hz jiffies t m skb tid p l h safe seq =
    let (n, e, s) = l.linked tid p h in
    Returns-bind _ (λ n. (t.heap p ≡ some n) × Framed n.rx_ba) _ (n, e, (e, s.1))
      (λ n en.
        Returns-bind _ _ _ (processed hz jiffies t.output m skb n (safe n en.0) en.1 seq)
          (λ (q', n') o.
            (_, refl, output-IsLinked _ q' (store-IsLinked t p n n' l en.0 o.0 o.1 o.2))))

process_found-IsLinked :
    (hz jiffies : ℕ) (t : Table) (m : MsduDesc) (s : Skb) (r : Option ℕ) (t' : Table)
    → IsLinked t
    → m.tid < num_tids
    → m.seq_num < seqno_mod
    → Found t m.sta_lut_index m.tid r
    → t' ≡ focus t r
    → Returns (process_found hz jiffies m s (r, t')) IsLinked
unfolding process_found reorder_set_skb_list
process_found-IsLinked hz jiffies t m s none t' l h seq f e =
    (_, refl, output-IsLinked t' _ (subst IsLinked (sym e) l))
process_found-IsLinked hz jiffies t m s (some p) t' l h seq f e = rw e (
    process_at-IsLinked hz jiffies _ m (some s) m.tid p
      (focus-IsLinked t m.sta_lut_index m.tid (some p) l h f) f.0 (λ n en. tt) seq)

-- A frame that has a session is looked up; one of a TID that no session can have goes up.
session_frame-IsLinked :
    (hz jiffies : ℕ) (t : Table) (m : MsduDesc) (s : Skb)
    → IsLinked t
    → m.seq_num < seqno_mod
    → Returns (find_ba_node t m.sta_lut_index m.tid >>= process_found hz jiffies m s) IsLinked
unfolding process_found find_ba_node reorder_set_skb_list
session_frame-IsLinked hz jiffies t m s l seq = elim (Bool-cases (ltb m.tid num_tids)) [
  | inl e ↦
      Returns-bind _ _ _ (find_ba_node-Found t m.sta_lut_index m.tid l (ground (arith, e)))
        (λ (r, t') o.
          process_found-IsLinked hz jiffies t m s r t' l (ground (arith, e)) seq o.0 o.1)
  | inr e ↦ rw (e, find_ba_node) (_, refl, output-IsLinked t _ l)
]

-- Any received frame, in a linked table: no null or freed pointer is followed, no index is out of
-- bounds, and the table stays linked.
pub reorder_data_process-IsLinked :
    (hz jiffies : ℕ) (t : Table) (m : MsduDesc) (s : Skb)
    → IsLinked t
    → m.seq_num < seqno_mod
    → Returns (reorder_data_process hz jiffies t m s) IsLinked
unfolding reorder_data_process reorder_set_skb_list
reorder_data_process-IsLinked hz jiffies t m s l seq =
    elim (Bool-cases (not m.bc_mc_flag && m.qos_flag)) [
      | inl e ↦ rw e (session_frame-IsLinked hz jiffies t m s l seq)
      | inr e ↦ rw e (_, refl, output-IsLinked t _ l)
    ]

filtered-IsLinked :
    (hz jiffies : ℕ) (t : Table) (ev : BaEvent) (r : Option ℕ) (t' : Table)
    → IsLinked t
    → ev.tid < num_tids
    → ((tid p : ℕ) (n : Node) → Has p (t.hlist tid) → t.heap p ≡ some n → n.active ≡ true)
    → Found t ev.sta_lut_index ev.tid r
    → t' ≡ focus t r
    → Returns {A = Table}
        (elim r [ none ↦ some t' | some p ↦ process_at hz jiffies t' (filter_desc ev) none p ])
        IsLinked
filtered-IsLinked hz jiffies t ev none t' l h act f e = (_, refl, subst IsLinked (sym e) l)
filtered-IsLinked hz jiffies t ev (some p) t' l h act f e = rw e (
    process_at-IsLinked hz jiffies _ (filter_desc ev) none ev.tid p
      (focus-IsLinked t ev.sta_lut_index ev.tid (some p) l h f) f.0 (λ n en. act ev.tid p n f.0 en)
      (omega arith))

-- The event of a filtered frame is safe where every session is active.
pub wlan_filter_event-IsLinked :
    (hz jiffies : ℕ) (t : Table) (ev : BaEvent)
    → IsLinked t
    → ev.tid < num_tids
    → ((tid p : ℕ) (n : Node) → Has p (t.hlist tid) → t.heap p ≡ some n → n.active ≡ true)
    → Returns (wlan_filter_event hz jiffies t ev) IsLinked
unfolding wlan_filter_event
wlan_filter_event-IsLinked hz jiffies t ev l h act =
    Returns-bind _ _ _ (find_ba_node-Found t ev.sta_lut_index ev.tid l h)
      (λ (r, t') o. filtered-IsLinked hz jiffies t ev r t' l h act o.0 o.1)
