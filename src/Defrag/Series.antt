-- ===== src/Defrag/Series.antt =====
-- The fragments of one frame, one call after the other.
use w132d_linux_mainline.Prelude.{
  ℕ, suc, ◌+◌, ◌-◌, ◌^◌, ◌≤◌, ◌<◌, ◌≡◌, refl, ◌∙◌, sym, ap, true, false, ◌&&◌, List, [], ◌∷◌, ◌++◌,
  Option, none, some, arith, ◌==◌, length, take, length-append, if_false, bind_some,
}
use mathlib.Core.List.{append_assoc, append-nil}
use w132d_linux_mainline.Defrag.{
  FragDesc, Skb, Node, Entry, Place, eth_len, with_len, is_owner, owner, find_defrag_node,
  get_defrag_node, assemble, with_frag, add_frag, place_frag, defrag_single_data_process,
  defrag_data_process,
}
use w132d_linux_mainline.Defrag.Reassembly.{
  payload, payloads, whole, Fits, AllFit, frag_len_lem, length-payload, fill_frame_lem,
}

-- What a node holds after the fragment `f` and those of `done`.
pub record Holds (f : Skb) (done : List Skb) (n : Node) : Type 0 where
  pub same_station : n.sta_lut_index ≡ f.desc.sta_lut_index
  pub same_tid : n.tid ≡ f.desc.tid
  pub same_seq : n.seq_num ≡ f.desc.seq_num
  pub last : n.last_frag_num ≡ length done
  pub frags : n.skb_list ≡ f ∷ done
  pub len : n.msdu_len ≡ length (whole f done)

-- The `k`-th fragment of the frame that `f` begins.
pub record IsFrag (f : Skb) (k : ℕ) (g : Skb) : Type 0 where
  pub same_station : g.desc.sta_lut_index ≡ f.desc.sta_lut_index
  pub same_tid : g.desc.tid ≡ f.desc.tid
  pub same_seq : g.desc.seq_num ≡ f.desc.seq_num
  pub number : g.desc.frag_num ≡ k
  pub fits : Fits g

pub payloads-append : (xs ys : List Skb) → payloads (xs ++ ys) ≡ payloads xs ++ payloads ys
unfolding payloads
payloads-append [] ys = refl
payloads-append (x ∷ xs) ys =
    ap (λ z. payload x ++ z) (payloads-append xs ys)
    ∙ sym (append_assoc (payload x) (payloads xs) (payloads ys))

-- One fragment more adds its payload.
length-whole_more :
    (f g : Skb) (done : List Skb)
    → Fits g
    → length (whole f (done ++ (g ∷ [])))
      ≡ length (whole f done) + (g.desc.msdu_len - eth_len g.desc)
unfolding payloads
length-whole_more f g done h =
    let head = take (f.desc.msdu_offset + f.desc.msdu_len) f.data_bytes in
    let split = ap length (payloads-append done (g ∷ [])) in
    let parts = length-append (payloads done) (payload g ++ []) in
    let own = ap length (append-nil (payload g)) in
    let left = length-append head (payloads done) in
    let right = length-append head (payloads (done ++ (g ∷ []))) in
    omega (arith, split, parts, own, left, right, length-payload g h)

pub owner_at_head :
    (m : FragDesc) (n : Node) (ns : List Node)
    → is_owner m n ≡ true
    → owner m (n ∷ ns) ≡ some (record { before = []; node = n; behind = ns })
unfolding owner
owner_at_head m n ns mine = rw (mine, owner) refl

pub find_next :
    (m : FragDesc) (e : Entry) (p : Place)
    → owner m e.nodes ≡ some p
    → (p.node.seq_num == m.seq_num && p.node.last_frag_num + 1 == m.frag_num) ≡ true
    → find_defrag_node m e ≡ some (record p { node = record p.node { last_frag_num = m.frag_num } })
unfolding find_defrag_node
find_next m e p o follows = rw (o, find_defrag_node) (rw follows refl)

-- The node of the frame is at the head of the list, and the fragment goes there.
found_at_head :
    (f g : Skb) (done : List Skb) (n : Node) (e : Entry) (ns : List Node)
    → Holds f done n
    → IsFrag f (suc (length done)) g
    → e.nodes ≡ n ∷ ns
    → get_defrag_node g.desc e
      ≡ some (
        some (record {
          before = [];
          node = record n { last_frag_num = g.desc.frag_num };
          behind = ns;
        }),
        e,
      )
unfolding get_defrag_node is_owner
found_at_head f g done n e ns h k at =
    let not_first : (g.desc.frag_num == 0) ≡ false = ground (arith, k.number) in
    let mine : is_owner g.desc n ≡ true =
      ground (arith, h.same_station, h.same_tid, k.same_station, k.same_tid) in
    let follows : (n.seq_num == g.desc.seq_num && n.last_frag_num + 1 == g.desc.frag_num) ≡ true =
      ground (arith, h.same_seq, k.same_seq, h.last, k.number) in
    let p : Place = record { before = []; node = n; behind = ns } in
    let o : owner g.desc e.nodes ≡ some p = ap (owner g.desc) at ∙ owner_at_head g.desc n ns mine in
    rw not_first (ap (λ r. some (r, e)) (find_next g.desc e p o follows))

-- The node with one fragment more.
pub Holds-more :
    (f g : Skb) (done : List Skb) (n : Node)
    → Holds f done n
    → IsFrag f (suc (length done)) g
    → length (whole f (done ++ (g ∷ []))) < 2 ^ 16
    → Holds f (done ++ (g ∷ [])) (with_frag g (record n { last_frag_num = g.desc.frag_num }))
Holds-more f g done n h k small = record {
  same_station = h.same_station;
  same_tid = h.same_tid;
  same_seq = h.same_seq;
  last = omega (arith, k.number, length-append done (g ∷ []));
  frags = ap (λ z. z ++ (g ∷ [])) h.frags;
  len =
      let grown = length-whole_more f g done k.fits in
      omega (arith, grown, small, h.len, frag_len_lem g k.fits);
}

-- A fragment in the middle is kept.
pub next_frag :
    (alloc : ℕ → Option (List ℕ)) (f g : Skb) (done : List Skb) (n : Node) (e : Entry)
    (ns : List Node)
    → Holds f done n
    → IsFrag f (suc (length done)) g
    → g.desc.more_frag_bit ≡ true
    → e.nodes ≡ n ∷ ns
    → defrag_data_process alloc g e
      ≡ some (
        none,
        record e { nodes = with_frag g (record n { last_frag_num = g.desc.frag_num }) ∷ ns },
      )
unfolding defrag_data_process defrag_single_data_process place_frag add_frag
next_frag alloc f g done n e ns h k more at =
    let not_first : (g.desc.frag_num == 0) ≡ false = ground (arith, k.number) in
    let found = found_at_head f g done n e ns h k at in rw not_first (rw found (rw more refl))

-- The frame of a node whose last fragment has come, where `memory` is what the kernel gives.
assemble_lem :
    (alloc : ℕ → Option (List ℕ)) (f : Skb) (fs : List Skb) (len : ℕ) (memory : List ℕ)
    → Fits f
    → AllFit fs
    → length (whole f fs) < 2 ^ 16
    → alloc len ≡ some memory
    → length (whole f fs) ≤ length memory
    → (left : List ℕ) × (assemble alloc len (f ∷ fs)
        ≡ some (some (record { desc = with_len len f.desc; data_bytes = whole f fs ++ left })))
unfolding assemble
assemble_lem alloc f fs len memory fit fits small got room =
    let (left, filled) = fill_frame_lem len f fs memory fit fits small room in
    (left, rw (got, assemble) (rw filled refl))

add_last :
    (alloc : ℕ → Option (List ℕ)) (s : Skb) (p : Place) (e : Entry) (r : Option Skb)
    → s.desc.more_frag_bit ≡ false
    → assemble alloc (with_frag s p.node).msdu_len (with_frag s p.node).skb_list ≡ some r
    → add_frag alloc s p e
      ≡ some (
        r,
        record e {
          nodes = p.before ++ p.behind ++ (record (with_frag s p.node) { skb_list = [] } ∷ []);
          freed = e.freed ++ (with_frag s p.node).skb_list;
        },
      )
unfolding add_frag
add_last alloc s p e r last out = if_false _ _ last ∙ bind_some _ out

-- The last fragment: the frame comes out, if there is memory for it, and the node is empty.
pub last_frag :
    (alloc : ℕ → Option (List ℕ)) (f g : Skb) (done : List Skb) (n : Node) (e : Entry)
    (ns : List Node) (memory : List ℕ)
    → Holds f done n
    → IsFrag f (suc (length done)) g
    → g.desc.more_frag_bit ≡ false
    → e.nodes ≡ n ∷ ns
    → Fits f
    → AllFit (done ++ (g ∷ []))
    → length (whole f (done ++ (g ∷ []))) < 2 ^ 16
    → alloc (length (whole f (done ++ (g ∷ [])))) ≡ some memory
    → length (whole f (done ++ (g ∷ []))) ≤ length memory
    → (left : List ℕ) × (defrag_data_process alloc g e
        ≡ some (
          some (record {
            desc = with_len (length (whole f (done ++ (g ∷ [])))) f.desc;
            data_bytes = whole f (done ++ (g ∷ [])) ++ left;
          }),
          record e {
            nodes =
                ns
                ++ (record (with_frag g (record n { last_frag_num = g.desc.frag_num })) {
                  skb_list = [];
                }
                    ∷ []);
            freed = e.freed ++ (n.skb_list ++ (g ∷ []));
          },
        ))
unfolding defrag_data_process defrag_single_data_process place_frag
last_frag alloc f g done n e ns memory h k last at fit fits small got room =
    let not_first : (g.desc.frag_num == 0) ≡ false = ground (arith, k.number) in
    let found = found_at_head f g done n e ns h k at in
    let n' = with_frag g (record n { last_frag_num = g.desc.frag_num }) in
    let len : n'.msdu_len ≡ length (whole f (done ++ (g ∷ []))) =
      (Holds-more f g done n h k small).len in
    let frags : n'.skb_list ≡ f ∷ (done ++ (g ∷ [])) = (Holds-more f g done n h k small).frags in
    let (left, built) =
      assemble_lem alloc f (done ++ (g ∷ [])) (length (whole f (done ++ (g ∷ [])))) memory fit fits
        small got room in
    let out : assemble alloc n'.msdu_len n'.skb_list
        ≡ some (
            some (record {
              desc = with_len (length (whole f (done ++ (g ∷ [])))) f.desc;
              data_bytes = whole f (done ++ (g ∷ [])) ++ left;
            })) =
      ap (λ k. assemble alloc k n'.skb_list) len
      ∙ ap (assemble alloc (length (whole f (done ++ (g ∷ []))))) frags
      ∙ built in
    let p : Place = record {
      before = [];
      node = record n { last_frag_num = g.desc.frag_num };
      behind = ns;
    } in
    (left, rw not_first (rw found (add_last alloc g p e _ last out)))
