-- ===== src/Defrag/Frames.antt =====
-- The first fragment of a frame: the node that it takes.
use w132d_linux_mainline.Prelude.{
  ℕ, ◌+◌, ◌≡◌, ◌≢◌, refl, ◌∙◌, ap, subst, true, false, ◌&&◌, not, List, [], ◌∷◌, ◌++◌, Option, none,
  some, inl, inr, arith, ◌==◌, length, take, Bool-cases, Option-cases, if_false, if_true, bind_some,
}
use mathlib.Core.List.{append-nil}
use w132d_linux_mainline.Prelude.Memory.{length-take}
use w132d_linux_mainline.Seqno.{seqno_leq}
use w132d_linux_mainline.Defrag.{
  FragDesc, Skb, Node, Entry, Place, is_owner, owner, last_place, init_first_frag_node, start_at,
  init_first_defrag_node, get_defrag_node, with_frag, add_frag, place_frag,
  defrag_single_data_process, defrag_data_process, one_further,
}
use w132d_linux_mainline.Defrag.Reassembly.{payloads, Fits, frag_len_lem}
use w132d_linux_mainline.Defrag.Series.{Holds}

-- Every node of the station and TID is of an earlier frame.
abbrev pub AllOlder : FragDesc → List Node → Type 0
AllOlder m [] = Unit
AllOlder m (n ∷ ns) = (is_owner m n ≡ true → seqno_leq m.seq_num n.seq_num ≡ false) × AllOlder m ns

abbrev Older : FragDesc → Option Place → Type 0
Older m none = Unit
Older m (some p) = seqno_leq m.seq_num p.node.seq_num ≡ false

Older-one_further :
    (m : FragDesc) (n : Node) (r : Option Place)
    → Older m r
    → Older m (elim r [ none ↦ none | some p ↦ some (one_further n p) ])
Older-one_further m n none h = h
Older-one_further m n (some p) h = h

owner-Older : (m : FragDesc) (ns : List Node) → AllOlder m ns → Older m (owner m ns)
unfolding owner
owner-Older m [] a = tt
owner-Older m (n ∷ ns) (h, a) = elim (Bool-cases (is_owner m n)) [
  | inl mine ↦ rw (mine, owner) (h mine)
  | inr other ↦ rw (other, owner) (Older-one_further m n (owner m ns) (owner-Older m ns a))
]

last_place_total : (n : Node) (ns : List Node) → (p : Place) × (last_place (n ∷ ns) ≡ some p)
unfolding last_place
last_place_total n ns = elim (Option-cases (last_place ns)) [
  | inl e ↦ rw (e, last_place) (_, refl)
  | inr (p, e) ↦ rw (e, last_place) (_, refl)
]

last_place_exists : (ns : List Node) → ns ≢ [] → (p : Place) × (last_place ns ≡ some p)
last_place_exists [] h = absurd (h refl)
last_place_exists (n ∷ ns) h = last_place_total n ns

-- The node of a first fragment, where it is taken.
init_first_node :
    (m : FragDesc) (e : Entry)
    → e.nodes ≢ []
    → AllOlder m e.nodes
    → (p : Place) × (init_first_defrag_node m e ≡ (let r = start_at m p e in some (some r.0, r.1)))
unfolding init_first_defrag_node
init_first_node m e some_node old = elim (Option-cases (owner m e.nodes)) [
  | inl free ↦
      let (p, e') = last_place_exists e.nodes some_node in
      (p, rw (free, init_first_defrag_node) (bind_some _ e'))
  | inr (p, o) ↦ (
    p,
    rw (o, init_first_defrag_node) (if_false _ _ (subst (Older m) o (owner-Older m e.nodes old))),
  )
]

Holds-first :
    (f : Skb) (n : Node)
    → f.desc.frag_num ≡ 0
    → Fits f
    → Holds f [] (with_frag f (init_first_frag_node f.desc n))
unfolding init_first_frag_node payloads
Holds-first f n first fit = record {
  same_station = refl;
  same_tid = refl;
  same_seq = refl;
  last = first;
  frags = refl;
  len =
      let head = take (f.desc.msdu_offset + f.desc.msdu_len) f.data_bytes in
      omega (
        arith,
        frag_len_lem f fit,
        ap length (append-nil head),
        length-take (f.desc.msdu_offset + f.desc.msdu_len) f.data_bytes fit.held,
      );
}

-- The first fragment of a frame is kept at the head of the list.
pub first_frag :
    (alloc : ℕ → Option (List ℕ)) (f : Skb) (e : Entry)
    → f.desc.frag_num ≡ 0
    → f.desc.more_frag_bit ≡ true
    → Fits f
    → e.nodes ≢ []
    → AllOlder f.desc e.nodes
    → (n : Node) × (ns : List Node) × (old : List Skb) × Holds f [] n
      × (defrag_data_process alloc f e
          ≡ some (none, record { nodes = n ∷ ns; freed = e.freed ++ old }))
unfolding defrag_data_process defrag_single_data_process get_defrag_node place_frag add_frag
    start_at
first_frag alloc f e first more fit some_node old =
    let (p, taken) = init_first_node f.desc e some_node old in
    let is_first : (f.desc.frag_num == 0) ≡ true = ground (arith, first) in
    let not_alone : (f.desc.frag_num == 0 && not f.desc.more_frag_bit) ≡ false =
      ground (arith, first, more) in
    (
      with_frag f (init_first_frag_node f.desc p.node),
      p.before ++ p.behind,
      p.node.skb_list,
      Holds-first f p.node first fit,
      if_false _ _ not_alone
          ∙ bind_some (place_frag alloc f) (if_true _ _ is_first ∙ taken)
          ∙ if_true _ _ more,
    )
