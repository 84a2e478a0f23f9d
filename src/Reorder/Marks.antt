-- ===== src/Reorder/Marks.antt =====
-- What marks sessions: `sprdwl_active_ba_node` and `reset_pn`.
use w132d_linux_mainline.Prelude.{
  ℕ, zero, suc, ◌+◌, ◌≤◌, ◌<◌, ◌≡◌, inl, inr, refl, ◌∙◌, sym, ap, subst, true, List, [], ◌∷◌,
  Option, none, some, arith, ◌==◌, if◌then◌else◌, ◌>>=◌, Bool-cases, Returns, Returns-bind, ==_iff,
}
use w132d_linux_mainline.Reorder.Types.{Node}
use w132d_linux_mainline.Reorder.Window.{Framed}
use w132d_linux_mainline.Reorder.Table.{Table, Peer, num_tids, store, find_ba_node}
use w132d_linux_mainline.Reorder.Lookup.{
  Has, IsLinked, Found, focus, find_ba_node-Found, focus-IsLinked, some_inj,
}
use w132d_linux_mainline.Reorder.Events.{store-IsLinked}

abbrev pub activated : Node → Node
activated n = record n { active = true }

abbrev pub pn_reset : Node → Node
pn_reset n = record n { rx_ba = record n.rx_ba { reset_pn = 1 } }

-- A mark on the node that a search has found, if any.
unfoldable pub mark_found : (Node → Node) → Option ℕ × Table → Option Table
mark_found mark (none, t) = some t
mark_found mark (some p, t) = t.heap p >>= λ n. some (store t p (mark n))

unfoldable pub sprdwl_active_ba_node : Table → ℕ → ℕ → Option Table
sprdwl_active_ba_node t sta_lut_index tid =
    find_ba_node t sta_lut_index tid >>= mark_found activated

-- `ether_addr_equal` over the peers: the first one's station index; 0xff stands for none.
unfoldable pub lut_of_addr : List Peer → ℕ → ℕ
lut_of_addr [] mac_addr = 0xff
lut_of_addr (x ∷ xs) mac_addr = if x.da == mac_addr then x.lut_index else lut_of_addr xs mac_addr

-- The loop of `reset_pn` from TID `tid` on, `n` rounds.
unfoldable pub reset_pn_from : ℕ → ℕ → ℕ → Table → Option Table
reset_pn_from zero tid lut_id t = some t
reset_pn_from (suc n) tid lut_id t =
    find_ba_node t lut_id tid >>= mark_found pn_reset >>= reset_pn_from n (tid + 1) lut_id

-- A null `mac_addr` is `none`.
unfoldable pub reset_pn : Table → Option ℕ → Option Table
reset_pn t none = some t
reset_pn t (some mac_addr) =
    if lut_of_addr t.peers mac_addr == 0xff
    then some t
    else reset_pn_from num_tids 0 (lut_of_addr t.peers mac_addr) t

-- A mark that leaves station, TID and window alone.
pub record IsMark (mark : Node → Node) : Type 0 where
  pub same_tid : (n : Node) → (mark n).tid ≡ n.tid
  pub same_station : (n : Node) → (mark n).sta_lut_index ≡ n.sta_lut_index
  pub framed : (n : Node) → Framed n.rx_ba → Framed (mark n).rx_ba

activated-IsMark : IsMark activated
activated-IsMark = record { same_tid = λ n. refl; same_station = λ n. refl; framed = λ n w. w }

pn_reset-IsMark : IsMark pn_reset
pn_reset-IsMark = record {
  same_tid = λ n. refl;
  same_station = λ n. refl;
  framed = λ n w. record {
    fits = w.fits;
    start_lt = w.start_lt;
    tail_lt = w.tail_lt;
    limit_eq = w.limit_eq;
  };
}

-- The table stays linked, and each session of the station in the bucket is marked.
abbrev pub Marked : (Node → Node) → Table → ℕ → ℕ → Table → Type 0
Marked mark t lut tid t' =
    IsLinked t'
    × ((p : ℕ) (n : Node)
        → Has p (t.hlist tid)
        → t.heap p ≡ some n
        → n.sta_lut_index ≡ lut
        → t'.heap p ≡ some (mark n))

mark_found-Marked :
    (mark : Node → Node) (t : Table) (lut tid : ℕ) (r : Option ℕ)
    → IsMark mark
    → IsLinked t
    → tid < num_tids
    → Found t lut tid r
    → Returns (mark_found mark (r, focus t r)) (Marked mark t lut tid)
unfolding mark_found
mark_found-Marked mark t lut tid none k l h f =
    (_, refl, (l, λ p n has e s. absurd (f p n has e s)))
mark_found-Marked mark t lut tid (some p) k l h (has, (n, e, s)) =
    let (n2, e2, sound) = l.linked tid p has in
    let framed : Framed n.rx_ba =
      subst (λ (x : Node). Framed x.rx_ba) (some_inj (sym e2 ∙ e)) sound.1 in
    let focused = focus-IsLinked t lut tid (some p) l h (has, (n, e, s)) in
    rw e (
      _,
      refl,
      (
        store-IsLinked (focus t (some p)) p n (mark n) focused e (k.same_tid n) (k.same_station n)
            (k.framed n framed),
        λ p' n' has' e' s'.
            let q = l.single tid p p' n n' has has' e e' (s ∙ sym s') in
            let test : (p == p') ≡ true = (==_iff p p').1 q in
            let same : n ≡ n' = some_inj (sym e ∙ (ap t.heap q ∙ e')) in
            rw test (ap (λ x. some (mark x)) same),
      ),
    )

-- The event that makes a session active: nothing is read that is not allocated, the table stays
-- linked, and the session of the station and TID, if there is one, is active.
pub sprdwl_active_ba_node-Marked :
    (t : Table) (lut tid : ℕ)
    → IsLinked t
    → tid < num_tids
    → Returns (sprdwl_active_ba_node t lut tid) (Marked activated t lut tid)
unfolding sprdwl_active_ba_node
sprdwl_active_ba_node-Marked t lut tid l h =
    Returns-bind _ _ _ (find_ba_node-Found t lut tid l h) (λ (r, t') o.
      subst (λ u. Returns (mark_found activated (r, u)) (Marked activated t lut tid)) (sym o.1)
        (mark_found-Marked activated t lut tid r activated-IsMark l h o.0))

reset_pn_from-IsLinked :
    (n tid lut : ℕ) (t : Table)
    → IsLinked t
    → tid + n ≤ num_tids
    → Returns (reset_pn_from n tid lut t) IsLinked
unfolding reset_pn_from
reset_pn_from-IsLinked zero tid lut t l h = (_, refl, l)
reset_pn_from-IsLinked (suc n) tid lut t l h =
    let below : tid < num_tids = omega arith in
    Returns-bind _ _ _
      (Returns-bind _ _ (Marked pn_reset t lut tid) (find_ba_node-Found t lut tid l below)
        (λ (r, t') o.
          subst (λ u. Returns (mark_found pn_reset (r, u)) (Marked pn_reset t lut tid)) (sym o.1)
            (mark_found-Marked pn_reset t lut tid r pn_reset-IsMark l below o.0)))
      (λ t'' o. reset_pn_from-IsLinked n (tid + 1) lut t'' o.0 (omega arith))

-- The reset of the packet numbers of a station, whoever it is: nothing is read that is not
-- allocated, and the table stays linked.
pub reset_pn-IsLinked :
    (t : Table) (mac_addr : Option ℕ) → IsLinked t → Returns (reset_pn t mac_addr) IsLinked
unfolding reset_pn
reset_pn-IsLinked t none l = (_, refl, l)
reset_pn-IsLinked t (some mac_addr) l = elim (Bool-cases (lut_of_addr t.peers mac_addr == 0xff)) [
  | inl e ↦ rw e (_, refl, l)
  | inr e ↦
      rw e (reset_pn_from-IsLinked num_tids 0 (lut_of_addr t.peers mac_addr) t l (omega arith))
]
