-- ===== src/Reorder/Deinit.antt =====
-- sprdwl_reorder_init and sprdwl_reorder_deinit of reorder.c.
use w132d_linux_mainline.Prelude.{
  ℕ, zero, suc, ◌+◌, ◌>>=◌, ◌≤◌, ◌<◌, ◌≡◌, ◌≢◌, ◌⊎◌, inl, inr, refl, ◌∙◌, sym, ap, subst, List, [],
  ◌∷◌, Option, none, some, true, arith, Returns, Returns-bind, Returns_mono, bind_some, Returns_eq,
  Bool-cases, ◌==◌, ==_iff, if_true, if_cases,
}
use w132d_linux_mainline.Reorder.Types.{Node, Output}
use w132d_linux_mainline.Reorder.Buffer.{flush_reorder_buffer}
use w132d_linux_mainline.Reorder.Table.{Table, num_tids, update, hlist_del}
use w132d_linux_mainline.Reorder.Close.{flush_total}
use w132d_linux_mainline.Reorder.Remove.{only_there}
use w132d_linux_mainline.Reorder.Lookup.{Has, Distinct, IsLinked}

-- `sprdwl_reorder_init`: the heads of `num_tids` buckets
unfoldable pub init_from : ℕ → ℕ → Table → Table
init_from zero tid t = t
init_from (suc n) tid t = init_from n (suc tid) (record t { hlist = update t.hlist tid [] })

unfoldable pub reorder_init : Table → Table
reorder_init t = init_from num_tids 0 t

-- A round of the inner loop: the node at `p` in the bucket `tid`.
unfoldable pub deinit_node : ℕ → ℕ → Table → Option Table
deinit_node tid p t = t.heap p >>= λ n. flush_reorder_buffer t.output n.rx_ba >>= λ (q', d').
    some (record t {
      output = q';
      hlist = update t.hlist tid (hlist_del p (t.hlist tid));
      heap = update t.heap p none;
    })

unfoldable pub deinit_bucket : ℕ → List ℕ → Table → Option Table
deinit_bucket tid [] t = some t
deinit_bucket tid (p ∷ ps) t = deinit_node tid p t >>= deinit_bucket tid ps

unfoldable pub deinit_from : ℕ → ℕ → Table → Option Table
deinit_from zero tid t = some t
deinit_from (suc n) tid t = deinit_bucket tid (t.hlist tid) t >>= deinit_from n (suc tid)

-- `sprdwl_reorder_deinit`
unfoldable pub reorder_deinit : Table → Option Table
reorder_deinit t = deinit_from num_tids 0 t

-- The buckets from `tid` on and their nodes are as they were in `t`, those before are empty and their
-- nodes freed.
record Rest (t : Table) (tid : ℕ) (t' : Table) : Type 0 where
  lists : (k : ℕ) → tid ≤ k → t'.hlist k ≡ t.hlist k
  nodes : (k p : ℕ) → tid ≤ k → Has p (t.hlist k) → t'.heap p ≡ t.heap p
  emptied : (k : ℕ) → k < tid → t'.hlist k ≡ []
  freed : (k p : ℕ) → k < tid → Has p (t.hlist k) → t'.heap p ≡ none

-- In the bucket `tid` the nodes `ps` are left.
record Within (t : Table) (tid : ℕ) (ps : List ℕ) (t' : Table) : Type 0 where
  here : t'.hlist tid ≡ ps
  distinct : Distinct ps
  left : (p : ℕ) → Has p ps → (t'.heap p ≡ t.heap p) × Has p (t.hlist tid)
  gone : (p : ℕ) → Has p (t.hlist tid) → (t'.heap p ≡ none) ⊎ Has p ps
  lists : (k : ℕ) → suc tid ≤ k → t'.hlist k ≡ t.hlist k
  nodes : (k p : ℕ) → suc tid ≤ k → Has p (t.hlist k) → t'.heap p ≡ t.heap p
  emptied : (k : ℕ) → k < tid → t'.hlist k ≡ []
  freed : (k p : ℕ) → k < tid → Has p (t.hlist k) → t'.heap p ≡ none

update_ne : {A : Type 0} (f : ℕ → A) (a x : ℕ) (v : A) → a ≢ x → update f a v x ≡ f x
update_ne f a x v ne = ground (arith, ne)

update_here : {A : Type 0} (f : ℕ → A) (a : ℕ) (v : A) → update f a v a ≡ v
update_here f a v = ground arith

-- What is freed stays so.
update_none : (f : ℕ → Option Node) (a x : ℕ) → f x ≡ none → update f a none x ≡ none
update_none f a x e = if_cases (λ o. o ≡ none) (a == x) none (f x) (λ i. refl) (λ i. e)

module _ (t : Table) (tid : ℕ) (l : IsLinked t) where
  node_Within :
      (p : ℕ) (ps : List ℕ) (t' : Table) (q : Output)
      → Within t tid (p ∷ ps) t'
      → Within t tid ps (record t' {
        output = q;
        hlist = update t'.hlist tid (hlist_del p (t'.hlist tid));
        heap = update t'.heap p none;
      })
  unfolding hlist_del
  node_Within p ps t' q w =
      let (same, was) = w.left p (inl refl) in
      let first : hlist_del p (p ∷ ps) ≡ ps =
        let at_p : (p == p) ≡ true = ground arith in if_true _ _ at_p in
      let rest : hlist_del p (t'.hlist tid) ≡ ps = ap (hlist_del p) w.here ∙ first in
      let other : (k x : ℕ) → suc tid ≤ k → Has x (t.hlist k) → p ≢ x = λ k x le h e.
        let there : Has p (t.hlist k) = subst (λ y. Has y (t.hlist k)) (sym e) h in
        let i = only_there t p tid l was k there in absurd (omega (arith, i, le)) in
      record {
        here = update_here t'.hlist tid (hlist_del p (t'.hlist tid)) ∙ rest;
        distinct = w.distinct.1;
        left = λ x h.
            let ne : p ≢ x = λ e. w.distinct.0 (subst (λ y. Has y ps) (sym e) h) in
            let (e, there) = w.left x (inr h) in (update_ne t'.heap p x none ne ∙ e, there);
        gone = λ x h. elim (w.gone x h) [
          | inl e ↦ inl (update_none t'.heap p x e)
          | inr (inl i) ↦
              inl (subst (λ y. update t'.heap p none y ≡ none) i (update_here t'.heap p none))
          | inr (inr i) ↦ inr i
        ];
        lists = λ k le.
            update_ne t'.hlist tid k (hlist_del p (t'.hlist tid))
              (λ e. absurd (omega (arith, e, le)))
            ∙ w.lists k le;
        nodes = λ k x le h. update_ne t'.heap p x none (other k x le h) ∙ w.nodes k x le h;
        emptied = λ k less.
            update_ne t'.hlist tid k (hlist_del p (t'.hlist tid))
              (λ e. absurd (omega (arith, e, less)))
            ∙ w.emptied k less;
        freed = λ k x less h. update_none t'.heap p x (w.freed k x less h);
      }

  deinit_node-Within :
      (p : ℕ) (ps : List ℕ) (t' : Table)
      → Within t tid (p ∷ ps) t'
      → Returns (deinit_node tid p t') (Within t tid ps)
  unfolding deinit_node
  deinit_node-Within p ps t' w =
      let (same, was) = w.left p (inl refl) in
      let (n, e, sound) = l.linked tid p was in
      Returns_eq _ (bind_some _ (same ∙ e)) (
        Returns-bind _ (λ out. Unit {0}) _ (flush_total t'.output n.rx_ba sound.1)
          (λ (q', d') u. (_, refl, node_Within p ps t' q' w)))

  deinit_bucket-Within :
      (ps : List ℕ) (t' : Table)
      → Within t tid ps t'
      → Returns (deinit_bucket tid ps t') (Within t tid [])
  unfolding deinit_bucket
  deinit_bucket-Within [] t' w = (t', refl, w)
  deinit_bucket-Within (p ∷ ps) t' w =
      Returns-bind _ (Within t tid ps) _ (deinit_node-Within p ps t' w)
        (λ t'' w'. deinit_bucket-Within ps t'' w')

Rest-Within :
    (t : Table) (tid : ℕ) (t' : Table) → IsLinked t → Rest t tid t' → Within t tid (t'.hlist tid) t'
Rest-Within t tid t' l r =
    let here = r.lists tid (omega arith) in
    record {
      here = refl;
      distinct = subst Distinct (sym here) (l.distinct tid);
      left = λ p h.
          let was : Has p (t.hlist tid) = subst (Has p) here h in
          (r.nodes tid p (omega arith) was, was);
      gone = λ p h. inr (subst (Has p) (sym here) h);
      lists = λ k le. r.lists k (omega (arith, le));
      nodes = λ k p le h. r.nodes k p (omega (arith, le)) h;
      emptied = r.emptied;
      freed = r.freed;
    }

Within-Rest : (t : Table) (tid : ℕ) (t' : Table) → Within t tid [] t' → Rest t (suc tid) t'
Within-Rest t tid t' w = record {
  lists = w.lists;
  nodes = w.nodes;
  emptied = λ k less. elim (Bool-cases (k == tid)) [
    | inl e ↦ subst (λ i. t'.hlist i ≡ []) (sym ((==_iff k tid).0 e)) w.here
    | inr e ↦ w.emptied k (ground (arith, e, less))
  ];
  freed = λ k p less h. elim (Bool-cases (k == tid)) [
    | inl e ↦ elim (w.gone p (subst (λ i. Has p (t.hlist i)) ((==_iff k tid).0 e) h)) [
      | inl none_there ↦ none_there
      | inr nothing ↦ absurd nothing
    ]
    | inr e ↦ w.freed k p (ground (arith, e, less)) h
  ];
}

deinit_from-Rest :
    (t : Table) (n tid : ℕ) (t' : Table)
    → IsLinked t
    → Rest t tid t'
    → Returns (deinit_from n tid t') (Rest t (n + tid))
unfolding deinit_from
deinit_from-Rest t zero tid t' l r = (t', refl, subst (λ k. Rest t k t') (omega arith) r)
deinit_from-Rest t (suc n) tid t' l r =
    Returns-bind _ (Within t tid []) _
      (deinit_bucket-Within t tid l (t'.hlist tid) t' (Rest-Within t tid t' l r))
      (λ t'' w.
        let step : n + suc tid ≡ suc n + tid = omega arith in
        subst (λ k. Returns (deinit_from n (suc tid) t'') (Rest t k)) step
          (deinit_from-Rest t n (suc tid) t'' l (Within-Rest t tid t'' w)))

-- Every bucket is empty, and the nodes that were in one are freed.
pub record Emptied (t t' : Table) : Type 0 where
  pub buckets : (tid : ℕ) → tid < num_tids → t'.hlist tid ≡ []
  pub nodes : (tid p : ℕ) → tid < num_tids → Has p (t.hlist tid) → t'.heap p ≡ none

-- The end of the reordering faults nowhere, frees the node of every session, and leaves every bucket
-- empty; where the table was linked.
pub reorder_deinit-Emptied : (t : Table) → IsLinked t → Returns (reorder_deinit t) (Emptied t)
unfolding reorder_deinit
reorder_deinit-Emptied t l =
    Returns_mono
      (deinit_from-Rest t num_tids 0 t l (record {
        lists = λ k le. refl;
        nodes = λ k p le h. refl;
        emptied = λ k less. absurd (omega (arith, less));
        freed = λ k p less h. absurd (omega (arith, less));
      }))
      (λ t' r. record {
        buckets = λ tid h. r.emptied tid (omega (arith, h));
        nodes = λ tid p h g. r.freed tid p (omega (arith, h)) g;
      })
