-- ===== src/Reorder/Remove.antt =====
-- The event that ends a session: the node leaves the table before it is freed.
use w132d_linux_mainline.Prelude.{
  ℕ, zero, suc, ◌+◌, ◌>>=◌, ◌<◌, ◌≡◌, ◌≢◌, inl, inr, refl, ◌∙◌, sym, ap, subst, List, [], ◌∷◌,
  Option, none, some, false, arith, Returns, Returns-bind, Returns_mono, Bool-cases, ◌==◌, ==_iff,
}
use w132d_linux_mainline.Reorder.Types.{Node, Output}
use w132d_linux_mainline.Reorder.Window.{Framed}
use w132d_linux_mainline.Reorder.Table.{
  Table, num_tids, update, hlist_del, remove_node, end_session, end_found, close_buffer,
  drop_buffer, find_ba_node, BaEvent, wlan_delba_event, peer_delba_from, peer_entry_delba,
}
use w132d_linux_mainline.Reorder.Lookup.{
  Has, At, Distinct, IsLinked, Found, focus, find_ba_node-Found, focus-IsLinked, some_inj,
}
use w132d_linux_mainline.Reorder.Events.{output-IsLinked}
use w132d_linux_mainline.Reorder.Close.{close_buffer_total, drop_buffer_total}

Has-map : (x y : ℕ) (ps qs : List ℕ) → (Has x ps → Has x qs) → Has x (y ∷ ps) → Has x (y ∷ qs)
Has-map x y ps qs f (inl i) = inl i
Has-map x y ps qs f (inr i) = inr (f i)

-- What is left in a bucket was in it.
hlist_del-Has : (p x : ℕ) (ps : List ℕ) → Has x (hlist_del p ps) → Has x ps
unfolding hlist_del
hlist_del-Has p x [] h = h
hlist_del-Has p x (y ∷ ps) h = elim (Bool-cases (y == p)) [
  | inl e ↦ inr (rw e at h)
  | inr e ↦ Has-map x y (hlist_del p ps) ps (hlist_del-Has p x ps) (rw e at h)
]

not_Has-cons : (p y : ℕ) (ps : List ℕ) → (y == p) ≡ false → (Has p ps → ⊥) → Has p (y ∷ ps) → ⊥
not_Has-cons p y ps e f (inl i) = absurd (ground (arith, e, i))
not_Has-cons p y ps e f (inr i) = f i

hlist_del-not_Has : (p : ℕ) (ps : List ℕ) → Distinct ps → Has p (hlist_del p ps) → ⊥
unfolding hlist_del
hlist_del-not_Has p [] d h = h
hlist_del-not_Has p (y ∷ ps) d h = elim (Bool-cases (y == p)) [
  | inl e ↦ d.0 (subst (λ k. Has k ps) (sym ((==_iff y p).0 e)) (rw e at h))
  | inr e ↦ not_Has-cons p y (hlist_del p ps) e (hlist_del-not_Has p ps d.1) (rw e at h)
]

hlist_del-Distinct : (p : ℕ) (ps : List ℕ) → Distinct ps → Distinct (hlist_del p ps)
unfolding hlist_del
hlist_del-Distinct p [] d = d
hlist_del-Distinct p (y ∷ ps) d = elim (Bool-cases (y == p)) [
  | inl e ↦ rw e d.1
  | inr e ↦ rw e (λ h. d.0 (hlist_del-Has p y ps h), hlist_del-Distinct p ps d.1)
]

-- The buckets after a node of TID `tid` has left its own.
abbrev without : Table → ℕ → ℕ → ℕ → List ℕ
without t p tid = update t.hlist tid (hlist_del p (t.hlist tid))

module _ (t : Table) (p tid : ℕ) (l : IsLinked t) (h : Has p (t.hlist tid)) where
  -- The node is in no other bucket, as its TID is that of its bucket.
  pub only_there : (tid' : ℕ) → Has p (t.hlist tid') → tid ≡ tid'
  only_there tid' h' =
      let (n, e, s) = l.linked tid p h in
      let (m, em, s') = l.linked tid' p h' in
      sym s.0 ∙ (ap (λ (k : Node). k.tid) (some_inj (sym e ∙ em)) ∙ s'.0)

  without-Has : (tid' x : ℕ) → Has x (without t p tid tid') → Has x (t.hlist tid') × (p ≢ x)
  without-Has tid' x h' = elim (Bool-cases (tid == tid')) [
    | inl e ↦ same ((==_iff tid tid').0 e) (rw e at h')
    | inr e ↦ other e (rw e at h')
  ]
    where
      same : tid ≡ tid' → Has x (hlist_del p (t.hlist tid)) → Has x (t.hlist tid') × (p ≢ x)
      same i g = (
        subst (λ k. Has x (t.hlist k)) i (hlist_del-Has p x (t.hlist tid) g),
        λ j.
            hlist_del-not_Has p (t.hlist tid) (l.distinct tid)
              (subst (λ k. Has k (hlist_del p (t.hlist tid))) (sym j) g),
      )

      other : (tid == tid') ≡ false → Has x (t.hlist tid') → Has x (t.hlist tid') × (p ≢ x)
      other e g = (
        g,
        λ j.
            absurd
              (ground (arith, e, only_there tid' (subst (λ k. Has k (t.hlist tid')) (sym j) g))),
      )

  without-Distinct : (tid' : ℕ) → Distinct (without t p tid tid')
  without-Distinct tid' = elim (Bool-cases (tid == tid')) [
    | inl e ↦ rw e (hlist_del-Distinct p (t.hlist tid) (l.distinct tid))
    | inr e ↦ rw e (l.distinct tid')
  ]

  freed_ne : (x : ℕ) → p ≢ x → update t.heap p none x ≡ t.heap x
  freed_ne x ne = ground (arith, ne)

  removed-IsLinked : (n : Node) → n.tid ≡ tid → IsLinked (remove_node t p n)
  unfolding remove_node
  removed-IsLinked n e = rw e (record {
    linked = λ tid' x g.
        let (was, ne) = without-Has tid' x g in rw (freed_ne x ne) (l.linked tid' x was);
    distinct = without-Distinct;
    single = λ tid' a b x y ga gb ex ey s.
        let (wa, na) = without-Has tid' a ga in
        let (wb, nb) = without-Has tid' b gb in
        l.single tid' a b x y wa wb (sym (freed_ne a na) ∙ ex) (sym (freed_ne b nb) ∙ ey) s;
    current = λ q i. cc;
  })

  -- No other node of the bucket is of the station.
  removed-Found :
      (n : Node)
      → n.tid ≡ tid
      → t.heap p ≡ some n
      → Found (remove_node t p n) n.sta_lut_index tid none
  unfolding remove_node
  removed-Found n e en x m g em s =
      let (was, ne) = without-Has tid x (subst (λ k. Has x (without t p k tid)) e g) in
      ne (l.single tid p x n m h was en (sym (freed_ne x ne) ∙ em) (sym s))

-- Nothing is in a bucket that was not in it, and what is there is what it was.
pub record Shrinks (t t' : Table) : Type 0 where
  pub less : (tid x : ℕ) → Has x (t'.hlist tid) → Has x (t.hlist tid) × (t'.heap x ≡ t.heap x)

pub Shrinks-refl : (t : Table) → Shrinks t t
Shrinks-refl t = record { less = λ tid x h. (h, refl) }

pub Shrinks-trans : {t t' t'' : Table} → Shrinks t t' → Shrinks t' t'' → Shrinks t t''
Shrinks-trans a b = record {
  less = λ tid x h.
      let (h', e') = b.less tid x h in let (h'', e'') = a.less tid x h' in (h'', e' ∙ e'');
}

-- A session that is not there does not come back.
pub Shrinks-gone :
    {t t' : Table} (lut tid : ℕ) → Shrinks t t' → Found t lut tid none → Found t' lut tid none
Shrinks-gone lut tid s f p n h e = let (h', e') = s.less tid p h in f p n h' (sym e' ∙ e)

-- The session that ends is gone: its node is freed, and no bucket or current node names it.
record Removed (t : Table) (p lut tid : ℕ) (t' : Table) : Type 0 where
  links : IsLinked t'
  freed : t'.heap p ≡ none
  gone : Found t' lut tid none
  less : Shrinks t t'

update_self : (t : Table) (p : ℕ) → update t.heap p none p ≡ none
update_self t p = ground arith

unlinked-Removed :
    (t : Table) (q : Output) (p lut tid : ℕ) (k : Node)
    → IsLinked t
    → Has p (t.hlist tid)
    → t.heap p ≡ some k
    → k.tid ≡ tid
    → k.sta_lut_index ≡ lut
    → Removed t p lut tid (record (remove_node t p k) { output = q })
unfolding remove_node
unlinked-Removed t q p lut tid k l h ek et es = record {
  links = output-IsLinked (remove_node t p k) q (removed-IsLinked t p tid l h k et);
  freed = update_self t p;
  gone =
      subst (λ x. Found (record (remove_node t p k) { output = q }) x tid none) es
        (removed-Found t p tid l h k et ek);
  less = record {
    less = λ tid' x g.
        let (was, ne) =
          without-Has t p tid l h tid' x (subst (λ j. Has x (without t p j tid')) et g) in
        (was, freed_ne t p tid l h x ne);
  };
}

end_session-Removed :
    (close : Output → Node → Option Output)
    → ((q : Output) (n : Node) → Framed n.rx_ba → Returns (close q n) (λ q'. Unit {0}))
    → (t : Table) (lut tid p : ℕ) → IsLinked t
    → Has p (t.hlist tid)
    → At t.heap p (λ n. n.sta_lut_index ≡ lut)
    → Returns (end_session close t p) (Removed t p lut tid)
unfolding end_session
end_session-Removed close total t lut tid p l h (n, e, s) =
    let (m, em, sound) = l.linked tid p h in
    let same : m ≡ n = some_inj (sym em ∙ e) in
    Returns-bind _ (λ k. (k ≡ n) × (t.heap p ≡ some k)) _ (n, e, (refl, e))
      (λ k ek.
        Returns-bind _ _ _
          (total t.output k (subst (λ (x : Node). Framed x.rx_ba) (same ∙ sym ek.0) sound.1))
          (λ q' u. (
            _,
            refl,
            unlinked-Removed t q' p lut tid k l h ek.1
                (ap (λ (x : Node). x.tid) (ek.0 ∙ sym same) ∙ sound.0)
                (ap (λ (x : Node). x.sta_lut_index) ek.0 ∙ s),
          )))

-- The session is gone and no other has come.
abbrev Ended : Table → ℕ → ℕ → Table → Type 0
Ended t lut tid u = IsLinked u × Found u lut tid none × Shrinks t u

end_found-Ended :
    (close : Output → Node → Option Output)
    → ((q : Output) (n : Node) → Framed n.rx_ba → Returns (close q n) (λ q'. Unit {0}))
    → (t : Table) (lut tid : ℕ) (r : Option ℕ) (t' : Table) → IsLinked t
    → tid < num_tids
    → Found t lut tid r
    → t' ≡ focus t r
    → Returns (end_found close (r, t')) (Ended t lut tid)
unfolding end_found
end_found-Ended close total t lut tid none t' l h f e =
    (_, refl, subst (Ended t lut tid) (sym e) (l, f, Shrinks-refl t))
end_found-Ended close total t lut tid (some p) t' l h f e = rw e (
    Returns_mono
      (end_session-Removed close total (focus t (some p)) lut tid p
        (focus-IsLinked t lut tid (some p) l h f) f.0 f.1)
      (λ u o. (o.links, o.gone, record { less = o.less.less })))

end_session_of :
    (close : Output → Node → Option Output)
    → ((q : Output) (n : Node) → Framed n.rx_ba → Returns (close q n) (λ q'. Unit {0}))
    → (t : Table) (lut tid : ℕ) → IsLinked t
    → tid < num_tids
    → Returns (find_ba_node t lut tid >>= end_found close) (Ended t lut tid)
end_session_of close total t lut tid l h =
    Returns-bind _ _ _ (find_ba_node-Found t lut tid l h)
      (λ (r, t') o. end_found-Ended close total t lut tid r t' l h o.0 o.1)

-- After the event that ends a session, the table is linked and holds no session of that station
-- and TID; the other sessions are what they were. Nothing is read that is not allocated.
pub wlan_delba_event-gone :
    (t : Table) (ev : BaEvent)
    → IsLinked t
    → ev.tid < num_tids
    → Returns
        (wlan_delba_event t ev)
        (λ t'. IsLinked t' × Found t' ev.sta_lut_index ev.tid none × Shrinks t t')
unfolding wlan_delba_event
wlan_delba_event-gone t ev l h =
    end_session_of close_buffer close_buffer_total t ev.sta_lut_index ev.tid l h

peer_delba_from-gone :
    (n tid lut : ℕ) (t : Table)
    → IsLinked t
    → tid + n ≡ num_tids
    → ((j : ℕ) → j < tid → Found t lut j none)
    → Returns
        (peer_delba_from n tid lut t)
        (λ t'. IsLinked t' × ((j : ℕ) → j < num_tids → Found t' lut j none))
unfolding peer_delba_from
peer_delba_from-gone zero tid lut t l e f = (_, refl, (l, λ j h. f j (omega arith)))
peer_delba_from-gone (suc n) tid lut t l e f =
    Returns-bind _ _ _ (end_session_of drop_buffer drop_buffer_total t lut tid l (omega arith))
      (λ u o. peer_delba_from-gone n (tid + 1) lut u o.0 (omega arith) (λ j h.
        elim (Bool-cases (j == tid)) [
          | inl y ↦ subst (λ k. Found u lut k none) (sym ((==_iff j tid).0 y)) o.1
          | inr y ↦ Shrinks-gone lut j o.2 (f j (ground (arith, y)))
        ]))

-- When a station leaves, none of its sessions stays in the table, whatever the TID, and the table
-- is linked.
pub peer_entry_delba-gone :
    (t : Table) (lut : ℕ)
    → IsLinked t
    → Returns
        (peer_entry_delba t lut)
        (λ t'. IsLinked t' × ((tid : ℕ) → tid < num_tids → Found t' lut tid none))
unfolding peer_entry_delba
peer_entry_delba-gone t lut l =
    peer_delba_from-gone num_tids 0 lut t l (omega arith) (λ j h. absurd (omega arith))
