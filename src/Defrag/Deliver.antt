-- ===== src/Defrag/Deliver.antt =====
-- A whole frame: its fragments in order, one call for each, and what comes out.
use w132d_linux_mainline.Prelude.{
  ℕ, suc, ◌+◌, ◌^◌, ◌≤◌, ◌<◌, ◌≡◌, ◌≢◌, refl, ◌∙◌, sym, ap, subst, true, false, List, [], ◌∷◌, ◌++◌,
  Option, none, some, arith, ◌>>=◌, length, take, length-append, bind_some, Returns,
}
use mathlib.Core.List.{append_assoc}
use w132d_linux_mainline.Defrag.{Skb, Node, Entry, with_len, with_frag, defrag_data_process}
use w132d_linux_mainline.Defrag.Reassembly.{payloads, whole, Fits, AllFit}
use w132d_linux_mainline.Defrag.Series.{
  Holds, IsFrag, next_frag, last_frag, Holds-more, payloads-append,
}
use w132d_linux_mainline.Defrag.Frames.{AllOlder, first_frag}

-- The fragments behind the first one, from the `k`-th on, up to the one that has no successor.
pub data IsTail (f : Skb) : ℕ → List Skb → Type 0 where
  last_one : {k : ℕ} {g : Skb} → IsFrag f k g → g.desc.more_frag_bit ≡ false → IsTail f k (g ∷ [])
  further :
      {k : ℕ} {g : Skb} {gs : List Skb}
      → IsFrag f k g
      → g.desc.more_frag_bit ≡ true
      → IsTail f (suc k) gs
      → IsTail f k (g ∷ gs)

abbrev pub with_frame : Option Skb → List Skb → List Skb
with_frame none fs = fs
with_frame (some f) fs = f ∷ fs

-- Calls one after the other, with the frames that come out.
unfoldable pub defrag_all : (ℕ → Option (List ℕ)) → List Skb → Entry → Option (List Skb × Entry)
defrag_all alloc [] e = some ([], e)
defrag_all alloc (s ∷ ss) e = defrag_data_process alloc s e >>= λ r.
    defrag_all alloc ss r.1 >>= λ q. some (with_frame r.0 q.0, q.1)

IsTail-AllFit : {f : Skb} {k : ℕ} {gs : List Skb} → IsTail f k gs → AllFit gs
IsTail-AllFit (last_one k more) = (k.fits, tt)
IsTail-AllFit (further k more t) = (k.fits, IsTail-AllFit t)

AllFit-append : (xs ys : List Skb) → AllFit xs → AllFit ys → AllFit (xs ++ ys)
AllFit-append [] ys h k = k
AllFit-append (x ∷ xs) ys (h, hs) k = (h, AllFit-append xs ys hs k)

-- A part of the fragments makes no longer frame than all of them.
length-whole_part : (f : Skb) (xs ys : List Skb) → length (whole f xs) ≤ length (whole f (xs ++ ys))
length-whole_part f xs ys =
    let head = take (f.desc.msdu_offset + f.desc.msdu_len) f.data_bytes in
    omega (
      arith,
      length-append head (payloads xs),
      length-append head (payloads (xs ++ ys)),
      ap length (payloads-append xs ys),
      length-append (payloads xs) (payloads ys),
    )

-- What comes out of the kernel's memory and the fragments.
abbrev pub IsWhole : Skb → List Skb → List Skb × Entry → Type 0
IsWhole f fs r =
    (left : List ℕ) × (before : List Skb) × (r.0 ≡ (
      record { desc = with_len (length (whole f fs)) f.desc; data_bytes = whole f fs ++ left }
      ∷ []))
    × (r.1.freed ≡ before ++ (f ∷ fs))

tail_frags :
    (alloc : ℕ → Option (List ℕ)) (f : Skb) (done gs : List Skb) (k : ℕ) (n : Node) (e : Entry)
    (ns : List Node) (memory : List ℕ)
    → IsTail f k gs
    → k ≡ suc (length done)
    → Holds f done n
    → e.nodes ≡ n ∷ ns
    → Fits f
    → AllFit done
    → length (whole f (done ++ gs)) < 2 ^ 16
    → alloc (length (whole f (done ++ gs))) ≡ some memory
    → length (whole f (done ++ gs)) ≤ length memory
    → Returns (defrag_all alloc gs e) (IsWhole f (done ++ gs))
unfolding defrag_all
tail_frags alloc f done xs k n e ns memory (last_one {g = g} i last) at h nodes fit fits small got
      room =
    let (left, out) =
      last_frag alloc f g done n e ns memory h (subst (λ j. IsFrag f j g) at i) last nodes fit
        (AllFit-append done (g ∷ []) fits (i.fits, tt)) small got room in
    (_, bind_some _ out, (left, e.freed, refl, ap (λ z. e.freed ++ (z ++ (g ∷ []))) h.frags))
tail_frags alloc f done xs k n e ns memory (further {g = g} {gs} i more t) at h nodes fit fits small
      got room =
    let i' = subst (λ j. IsFrag f j g) at i in
    let same : (done ++ (g ∷ [])) ++ gs ≡ done ++ (g ∷ gs) = append_assoc done (g ∷ []) gs in
    let small' = subst (λ z. length (whole f z) < 2 ^ 16) (sym same) small in
    let part = length-whole_part f (done ++ (g ∷ [])) gs in
    let (r, out, w) =
      tail_frags alloc f (done ++ (g ∷ [])) gs (suc k)
        (with_frag g (record n { last_frag_num = g.desc.frag_num }))
        (record e { nodes = with_frag g (record n { last_frag_num = g.desc.frag_num }) ∷ ns }) ns
        memory t (omega (arith, at, length-append done (g ∷ [])))
        (Holds-more f g done n h i' (omega (arith, part, small'))) refl fit
        (AllFit-append done (g ∷ []) fits (i.fits, tt)) small'
        (subst (λ z. alloc (length (whole f z)) ≡ some memory) (sym same) got)
        (subst (λ z. length (whole f z) ≤ length memory) (sym same) room) in
    (
      r,
      bind_some _ (next_frag alloc f g done n e ns h i' more nodes) ∙ bind_some _ out,
      subst (λ z. IsWhole f z r) same w,
    )

-- The fragments of a frame, given one after the other in their order, leave as exactly one frame:
-- all of the first fragment up to its length, then the payloads of the others in order, in the
-- memory of the new skb, whose descriptor has the length of the whole; and the last skbs that were
-- freed are the fragments. The conditions: each fragment fits its skb, the frame has fewer than
-- 2^16 bytes, the kernel gives memory for all of it, the list has a node, and each node of the
-- station and TID is of an earlier frame.
pub defrag_all-whole :
    (alloc : ℕ → Option (List ℕ)) (f : Skb) (gs : List Skb) (e : Entry) (memory : List ℕ)
    → f.desc.frag_num ≡ 0
    → f.desc.more_frag_bit ≡ true
    → IsTail f 1 gs
    → Fits f
    → e.nodes ≢ []
    → AllOlder f.desc e.nodes
    → length (whole f gs) < 2 ^ 16
    → alloc (length (whole f gs)) ≡ some memory
    → length (whole f gs) ≤ length memory
    → Returns (defrag_all alloc (f ∷ gs) e) (IsWhole f gs)
unfolding defrag_all
defrag_all-whole alloc f gs e memory first more t fit some_node old small got room =
    let (n, ns, purged, h, kept) = first_frag alloc f e first more fit some_node old in
    let (r, out, w) =
      tail_frags alloc f [] gs 1 n (record { nodes = n ∷ ns; freed = e.freed ++ purged }) ns memory
        t refl h refl fit tt small got room in
    (r, bind_some _ kept ∙ bind_some _ out, w)
