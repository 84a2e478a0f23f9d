-- ===== src/Reorder/Lookup.antt =====
-- The table of sessions: what is linked is allocated, and a search finds the session there is.
use w132d_linux_mainline.Prelude.{
  ℕ, ◌<◌, ◌≡◌, ◌≢◌, ◌⊎◌, inl, inr, refl, ◌∙◌, sym, ap, subst, List, [], ◌∷◌, Option, none, some,
  Bool, true, false, arith, Returns, Returns-bind, Returns_mono, Bool-cases, ◌==◌, ==_iff, ltb,
  if◌then◌else◌,
}
use w132d_linux_mainline.Reorder.Types.{Node}
use w132d_linux_mainline.Reorder.Table.{
  Table, num_tids, scan, is_same_ba, find_in_bucket, find_ba_node,
}
use w132d_linux_mainline.Reorder.Window.{Framed}

-- The address stands in the list.
abbrev pub Has : ℕ → List ℕ → Type 0
Has p [] = ⊥
Has p (x ∷ xs) = (x ≡ p) ⊎ Has p xs

-- An allocated node at the address, with the property.
abbrev pub At : (ℕ → Option Node) → ℕ → (Node → Type 0) → Type 0
At heap p P = (n : Node) × (heap p ≡ some n) × P n

abbrev pub IsSound : ℕ → Node → Type 0
IsSound tid n = (n.tid ≡ tid) × Framed n.rx_ba

-- No address stands twice in the list.
abbrev pub Distinct : List ℕ → Type 0
Distinct [] = Unit
Distinct (x ∷ xs) = (Has x xs → ⊥) × Distinct xs

-- Every node in a bucket is allocated, is of the TID of the bucket and has a proper window; no
-- bucket holds a node twice, or two nodes of one station; the current node is in a bucket.
pub record IsLinked (t : Table) : Type 0 where
  pub linked : (tid p : ℕ) → Has p (t.hlist tid) → At t.heap p (IsSound tid)
  pub distinct : (tid : ℕ) → Distinct (t.hlist tid)
  pub single :
      (tid p p' : ℕ) (n n' : Node)
      → Has p (t.hlist tid)
      → Has p' (t.hlist tid)
      → t.heap p ≡ some n
      → t.heap p' ≡ some n'
      → n.sta_lut_index ≡ n'.sta_lut_index
      → p ≡ p'
  pub current :
      (p : ℕ) → t.current_ba_node ≡ some p → (tid : ℕ) × (tid < num_tids) × Has p (t.hlist tid)

-- The result of a search: a node of the station in the bucket, or that there is none.
abbrev pub Found : Table → ℕ → ℕ → Option ℕ → Type 0
Found t lut tid (some p) = Has p (t.hlist tid) × At t.heap p (λ n. n.sta_lut_index ≡ lut)
Found t lut tid none =
    (p : ℕ) (n : Node) → Has p (t.hlist tid) → t.heap p ≡ some n → n.sta_lut_index ≢ lut

-- `Found` for a part of the bucket.
abbrev FoundIn : (ℕ → Option Node) → ℕ → List ℕ → Option ℕ → Type 0
FoundIn heap lut ps (some p) = Has p ps × At heap p (λ n. n.sta_lut_index ≡ lut)
FoundIn heap lut ps none = (p : ℕ) (n : Node) → Has p ps → heap p ≡ some n → n.sta_lut_index ≢ lut

pub some_inj : {n m : Node} → some n ≡ some m → n ≡ m
some_inj e = cc

FoundIn-cons :
    (heap : ℕ → Option Node) (lut x : ℕ) (ps : List ℕ) (n : Node) (r : Option ℕ)
    → heap x ≡ some n
    → n.sta_lut_index ≢ lut
    → FoundIn heap lut ps r
    → FoundIn heap lut (x ∷ ps) r
FoundIn-cons heap lut x ps n (some p) e ne f = (inr f.0, f.1)
FoundIn-cons heap lut x ps n none e ne f = go
  where
    go : (p : ℕ) (m : Node) → Has p (x ∷ ps) → heap p ≡ some m → m.sta_lut_index ≢ lut
    go p m (inl i) e' h =
        ne (ap (λ (k : Node). k.sta_lut_index) (some_inj (sym e ∙ (ap heap i ∙ e'))) ∙ h)
    go p m (inr i) e' h = f p m i e' h

scan-FoundIn :
    (heap : ℕ → Option Node) (lut : ℕ) (ps : List ℕ)
    → ((p : ℕ) → Has p ps → At heap p (λ n. Unit {0}))
    → Returns (scan heap lut ps) (FoundIn heap lut ps)
unfolding scan
scan-FoundIn heap lut [] live = (none, refl, λ p n h. absurd h)
scan-FoundIn heap lut (x ∷ ps) live =
    let (n, e, u) = live x (inl refl) in
    Returns-bind _ (λ m. heap x ≡ some m) _ (n, e, e)
      (λ m em. elim (Bool-cases (lut == m.sta_lut_index)) [
        | inl y ↦ rw y (some x, refl, (inl refl, (m, em, sym ((==_iff _ _).0 y))))
        | inr y ↦ rw y (
            Returns_mono (scan-FoundIn heap lut ps (λ p h. live p (inr h)))
              (λ r f. FoundIn-cons heap lut x ps m r em (ground (arith, y)) f))
      ])

-- The table after a search: the node that was found is the current one.
abbrev pub focus : Table → Option ℕ → Table
focus t none = t
focus t (some p) = record t { current_ba_node = some p }

find_in_bucket-Found :
    (t : Table) (lut tid : ℕ)
    → IsLinked t
    → Returns (find_in_bucket t lut tid) (λ (r, t'). Found t lut tid r × (t' ≡ focus t r))
unfolding find_in_bucket
find_in_bucket-Found t lut tid l =
    Returns-bind _ _ _
      (scan-FoundIn t.heap lut (t.hlist tid)
        (λ p h. let (n, e, s) = l.linked tid p h in (n, e, tt)))
      pack
  where
    pack :
        (r : Option ℕ)
        → FoundIn t.heap lut (t.hlist tid) r
        → Returns {A = Option ℕ × Table}
            (elim r [
              | none ↦ some (none, t)
              | some p ↦ some (some p, record t { current_ba_node = some p })
            ])
            (λ (r, t'). Found t lut tid r × (t' ≡ focus t r))
    pack none f = (_, refl, (f, refl))
    pack (some p) f = (_, refl, (f, refl))

-- The current node answers a search only if it is a node of the station in the bucket.
IsCurrent : Table → ℕ → ℕ → Type 0
IsCurrent t lut tid =
    (p : ℕ) × (t.current_ba_node ≡ some p)
    × Has p (t.hlist tid)
    × At t.heap p (λ n. n.sta_lut_index ≡ lut)

is_same_ba-IsCurrent :
    (t : Table) (lut tid : ℕ) (c : Option ℕ)
    → IsLinked t
    → t.current_ba_node ≡ c
    → Returns
        (is_same_ba (record t { current_ba_node = c }) lut tid)
        (λ same. same ≡ true → IsCurrent t lut tid)
unfolding is_same_ba IsCurrent
is_same_ba-IsCurrent t lut tid none l e = (false, refl, λ h. cc)
is_same_ba-IsCurrent t lut tid (some p) l e =
    let (tid', lt, h) = l.current p e in
    let (n, en, s) = l.linked tid' p h in
    Returns-bind _ (λ m. t.heap p ≡ some m) _ (n, en, en)
      (λ m em. (
        _,
        refl,
        λ h'. (
          p,
          e,
          moved tid' h (ground (arith, s.0, some_inj (sym em ∙ en))),
          (m, em, ground arith),
        ),
      ))
  where
    moved : (tid' : ℕ) → Has p (t.hlist tid') → tid' ≡ tid → Has p (t.hlist tid)
    moved tid' h i = subst (λ k. Has p (t.hlist k)) i h

find_by-Found :
    (t : Table) (lut tid : ℕ) (same : Bool)
    → IsLinked t
    → (same ≡ true → IsCurrent t lut tid)
    → Returns
        (if same then some (t.current_ba_node, t) else find_in_bucket t lut tid)
        (λ (r, t'). Found t lut tid r × (t' ≡ focus t r))
unfolding IsCurrent
find_by-Found t lut tid false l s = find_in_bucket-Found t lut tid l
find_by-Found t lut tid true l s =
    let (p, e, h, a) = s refl in
    (
      (some p, record t { current_ba_node = some p }),
      ap (λ c. some (c, record t { current_ba_node = c })) e,
      ((h, a), refl),
    )

-- A search in a linked table touches no freed node and finds a node exactly if the bucket of the
-- TID holds one of the station. That node becomes the current one, and nothing else changes.
pub find_ba_node-Found :
    (t : Table) (lut tid : ℕ)
    → IsLinked t
    → tid < num_tids
    → Returns (find_ba_node t lut tid) (λ (r, t'). Found t lut tid r × (t' ≡ focus t r))
unfolding find_ba_node
find_ba_node-Found t lut tid l h =
    let e : ltb tid num_tids ≡ true = ground arith in
    rw (e, find_ba_node)
      (Returns-bind _ _ _ (is_same_ba-IsCurrent t lut tid t.current_ba_node l refl)
        (λ same s. find_by-Found t lut tid same l s))

pub focus-IsLinked :
    (t : Table) (lut tid : ℕ) (r : Option ℕ)
    → IsLinked t
    → tid < num_tids
    → Found t lut tid r
    → IsLinked (focus t r)
focus-IsLinked t lut tid none l h f = l
focus-IsLinked t lut tid (some p) l h f = record {
  linked = l.linked;
  distinct = l.distinct;
  single = l.single;
  current = λ p' e. (tid, h, subst (λ k. Has k (t.hlist tid)) (some_inj_ℕ e) f.0);
}
  where
    some_inj_ℕ : {a b : ℕ} → some a ≡ some b → a ≡ b
    some_inj_ℕ e = cc
