-- ===== src/Reorder/Join.antt =====
-- A node that joins the table of sessions keeps it linked.
use w132d_linux_mainline.Prelude.{
  ℕ, ◌<◌, ◌≡◌, ◌≢◌, ◌⊎◌, inl, inr, refl, ◌∙◌, sym, ap, subst, List, ◌∷◌, Option, none, some, true,
  arith, Bool-cases, ◌==◌, ==_iff,
}
use w132d_linux_mainline.Reorder.Types.{Node}
use w132d_linux_mainline.Reorder.Table.{Table, num_tids, update}
use w132d_linux_mainline.Reorder.Lookup.{Has, At, IsSound, Distinct, IsLinked, Found, some_inj}

module _ (t : Table) (p tid : ℕ) (n' : Node) (l : IsLinked t) (free : t.heap p ≡ none)
    (small : tid < num_tids) (absent : Found t n'.sta_lut_index tid none) (sound : IsSound tid n')
    (heap : ℕ → Option Node) (here : heap p ≡ some n')
    (there : (x : ℕ) → p ≢ x → heap x ≡ t.heap x) where
  -- The buckets with the new node at the head of its own.
  abbrev joined : ℕ → List ℕ
  joined = update t.hlist tid (p ∷ t.hlist tid)

  old_ne : (tid' x : ℕ) → Has x (t.hlist tid') → p ≢ x
  old_ne tid' x h e =
      let (m, em, s) = l.linked tid' x h in absurd (none_some m (sym free ∙ (ap t.heap e ∙ em)))
    where
      none_some : (m : Node) → none ≡ some m → ⊥
      none_some m e = cc

  joined-cases :
      (tid' x : ℕ) → Has x (joined tid') → ((p ≡ x) × (tid ≡ tid')) ⊎ Has x (t.hlist tid')
  joined-cases tid' x h = elim (Bool-cases (tid == tid')) [
    | inr e ↦ inr (rw e at h)
    | inl e ↦ split ((==_iff tid tid').0 e) (rw e at h)
  ]
    where
      split : tid ≡ tid' → Has x (p ∷ t.hlist tid) → ((p ≡ x) × (tid ≡ tid')) ⊎ Has x (t.hlist tid')
      split e (inl i) = inl (i, e)
      split e (inr i) = inr (subst (λ k. Has x (t.hlist k)) e i)

  joined-At :
      (tid' x : ℕ) → ((p ≡ x) × (tid ≡ tid')) ⊎ Has x (t.hlist tid') → At heap x (IsSound tid')
  joined-At tid' x (inl (i, j)) = (n', ap heap (sym i) ∙ here, (sound.0 ∙ j, sound.1))
  joined-At tid' x (inr h) = rw (there x (old_ne tid' x h)) (l.linked tid' x h)

  joined-Distinct : (tid' : ℕ) → Distinct (joined tid')
  joined-Distinct tid' = elim (Bool-cases (tid == tid')) [
    | inl e ↦ rw e (λ h. old_ne tid p h refl, l.distinct tid)
    | inr e ↦ rw e (l.distinct tid')
  ]

  -- The new node is the only one of its station.
  stranger :
      (tid' x : ℕ) (m : Node)
      → tid ≡ tid'
      → Has x (t.hlist tid')
      → heap x ≡ some m
      → n'.sta_lut_index ≢ m.sta_lut_index
  stranger tid' x m e h em s =
      absent x m (subst (λ k. Has x (t.hlist k)) (sym e) h) (sym (there x (old_ne tid' x h)) ∙ em)
        (sym s)

  joined-single :
      (tid' a b : ℕ) (x y : Node)
      → ((p ≡ a) × (tid ≡ tid')) ⊎ Has a (t.hlist tid')
      → ((p ≡ b) × (tid ≡ tid')) ⊎ Has b (t.hlist tid')
      → heap a ≡ some x
      → heap b ≡ some y
      → x.sta_lut_index ≡ y.sta_lut_index
      → a ≡ b
  joined-single tid' a b x y (inl i) (inl j) ex ey s = sym i.0 ∙ j.0
  joined-single tid' a b x y (inl i) (inr j) ex ey s = absurd (
      stranger tid' b y i.1 j ey
        (ap (λ (k : Node). k.sta_lut_index) (some_inj (sym here ∙ (ap heap i.0 ∙ ex))) ∙ s))
  joined-single tid' a b x y (inr i) (inl j) ex ey s = absurd (
      stranger tid' a x j.1 i ex
        (ap (λ (k : Node). k.sta_lut_index) (some_inj (sym here ∙ (ap heap j.0 ∙ ey))) ∙ sym s))
  joined-single tid' a b x y (inr i) (inr j) ex ey s =
      l.single tid' a b x y i j (sym (there a (old_ne tid' a i)) ∙ ex)
        (sym (there b (old_ne tid' b j)) ∙ ey) s

  pub joined-IsLinked :
      IsLinked (record t { hlist = joined; heap = heap; current_ba_node = some p })
  joined-IsLinked = record {
    linked = λ tid' x h. joined-At tid' x (joined-cases tid' x h);
    distinct = joined-Distinct;
    single = λ tid' a b x y ha hb.
        joined-single tid' a b x y (joined-cases tid' a ha) (joined-cases tid' b hb);
    current = λ q e. (tid, small, head q (inj e));
  }
    where
      inj : {a b : ℕ} → some a ≡ some b → a ≡ b
      inj e = cc

      head : (q : ℕ) → p ≡ q → Has q (joined tid)
      head q e = let y : (tid == tid) ≡ true = ground arith in rw y (inl e)
