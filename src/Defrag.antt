-- ===== src/Defrag.antt =====
-- unisocwifi/defrag.c: the fragments of a frame are put together.
pub mod Reassembly
pub mod Series
pub mod Frames
pub mod Deliver
pub mod Phantom
mod Tests
use w132d_linux_mainline.Prelude.{
  ℕ, zero, suc, ◌+◌, ◌-◌, ◌%◌, ◌^◌, Bool, true, false, ◌&&◌, not, List, [], ◌∷◌, ◌++◌, map, Option,
  none, some, ltb, ◌==◌, if◌then◌else◌, ◌>>=◌, length, replicate,
}
use w132d_linux_mainline.Prelude.Memory.{write_bytes, read_bytes}
use w132d_linux_mainline.Seqno.{seqno_leq}

-- The fields of `struct rx_msdu_desc` that defrag.c reads.
pub record FragDesc : Type 0 where
  pub sta_lut_index : ℕ
  pub tid : ℕ
  pub seq_num : ℕ
  pub frag_num : ℕ
  pub more_frag_bit : Bool
  pub snap_hdr_present : Bool
  pub msdu_offset : ℕ
  pub msdu_len : ℕ

-- `data` is the memory from `skb->data` on; its first bytes are the descriptor, whose fields stand
-- beside it.
pub record Skb : Type 0 where
  pub desc : FragDesc
  pub data_bytes : List ℕ

-- `struct rx_defrag_node`, with the fields of `desc` that are read.
pub record Node : Type 0 where
  pub sta_lut_index : ℕ
  pub tid : ℕ
  pub seq_num : ℕ
  pub skb_list : List Skb
  pub msdu_len : ℕ
  pub last_frag_num : ℕ

-- The nodes in the order of the list, and a record of the skbs that were freed.
pub record Entry : Type 0 where
  pub nodes : List Node
  pub freed : List Skb

abbrev pub max_defrag_num : ℕ
max_defrag_num = 3

-- `ETH_HLEN` or `2 * ETH_ALEN`
unfoldable pub eth_len : FragDesc → ℕ
eth_len m = if m.snap_hdr_present then 14 else 12

-- `frag_len`, an `unsigned short`
unfoldable pub frag_len : FragDesc → ℕ
frag_len m = (m.msdu_len + 2 ^ 16 - eth_len m) % 2 ^ 16

unfoldable pub is_owner : FragDesc → Node → Bool
is_owner m n = n.sta_lut_index == m.sta_lut_index && n.tid == m.tid

-- A node of the list with those before it and those behind it.
pub record Place : Type 0 where
  pub before : List Node
  pub node : Node
  pub behind : List Node

abbrev pub one_further : Node → Place → Place
one_further n p = record p { before = n ∷ p.before }

-- The first node that belongs to the station and TID.
unfoldable pub owner : FragDesc → List Node → Option Place
owner m [] = none
owner m (n ∷ ns) =
    let rest = owner m ns in
    if is_owner m n
    then some (record { before = []; node = n; behind = ns })
    else elim rest [ none ↦ none | some p ↦ some (one_further n p) ]

-- `list_entry(list.prev)`: the last node. An empty list has none, and its head is read as a node.
unfoldable pub last_place : List Node → Option Place
last_place [] = none
last_place (n ∷ ns) =
    let rest = last_place ns in
    elim rest [
      | none ↦ some (record { before = []; node = n; behind = ns })
      | some p ↦ some (one_further n p)
    ]

-- `__init_first_frag_node`
unfoldable pub init_first_frag_node : FragDesc → Node → Node
init_first_frag_node m n = record {
  sta_lut_index = m.sta_lut_index;
  tid = m.tid;
  seq_num = m.seq_num;
  skb_list = [];
  msdu_len = eth_len m + m.msdu_offset;
  last_frag_num = m.frag_num;
}

-- A fragment that is not the first: its node, if it follows the last one.
unfoldable pub find_defrag_node : FragDesc → Entry → Option Place
find_defrag_node m e = elim (owner m e.nodes) [
  | none ↦ none
  | some p ↦
      if p.node.seq_num == m.seq_num && p.node.last_frag_num + 1 == m.frag_num
      then some (record p { node = record p.node { last_frag_num = m.frag_num } })
      else none
]

-- A first fragment in a node, which moves to the head of the list.
unfoldable pub start_at : FragDesc → Place → Entry → Place × Entry
start_at m p e =
    let q : Place = record {
      before = [];
      node = init_first_frag_node m p.node;
      behind = p.before ++ p.behind;
    } in
    (q, record e { freed = e.freed ++ p.node.skb_list })

-- The first fragment of a frame takes the node of its station and TID, if the frame is a later one,
-- or the last node of the list. `none` is a fault.
unfoldable pub init_first_defrag_node : FragDesc → Entry → Option (Option Place × Entry)
init_first_defrag_node m e = elim (owner m e.nodes) [
  | some p ↦
      if seqno_leq m.seq_num p.node.seq_num
      then some (none, e)
      else (let r = start_at m p e in some (some r.0, r.1))
  | none ↦ last_place e.nodes >>= λ p. let r = start_at m p e in some (some r.0, r.1)
]

unfoldable pub get_defrag_node : FragDesc → Entry → Option (Option Place × Entry)
get_defrag_node m e =
    if m.frag_num == 0 then init_first_defrag_node m e else some (find_defrag_node m e, e)

abbrev pub frag_offset : FragDesc → ℕ
frag_offset m = m.msdu_offset + eth_len m

-- The loop over the fragments behind the first one; `offset` has 16 bits.
unfoldable pub append_frags : List ℕ → ℕ → List Skb → Option (List ℕ)
append_frags buf offset [] = some buf
append_frags buf offset (s ∷ ss) =
    read_bytes s.data_bytes (frag_offset s.desc) (frag_len s.desc) >>= λ bs.
    write_bytes buf offset bs >>= λ buf'. append_frags buf' ((offset + frag_len s.desc) % 2 ^ 16) ss

abbrev pub total_len : FragDesc → ℕ
total_len m = (m.msdu_offset + m.msdu_len) % 2 ^ 16

abbrev pub with_len : ℕ → FragDesc → FragDesc
with_len len m = record m { msdu_len = (len + 2 ^ 32 - m.msdu_offset) % 2 ^ 16 }

-- The whole frame in the memory of a new skb.
unfoldable pub fill_frame : ℕ → Skb → List Skb → List ℕ → Option Skb
fill_frame len f fs memory = read_bytes f.data_bytes 0 (total_len f.desc) >>= λ head.
    write_bytes memory 0 head >>= λ buf. append_frags buf (total_len f.desc) fs >>= λ bytes.
    some (record { desc = with_len len f.desc; data_bytes = bytes })

abbrev pub with_frag : Skb → Node → Node
with_frag s n = record n {
  skb_list = n.skb_list ++ (s ∷ []);
  msdu_len = (n.msdu_len + frag_len s.desc) % 2 ^ 32;
}

-- `dev_alloc_skb` is the kernel's: the memory of a new skb, or a null pointer.
module _ (dev_alloc_skb : ℕ → Option (List ℕ)) where
  -- The fragments of a node whose last one has come. The list is never empty there.
  unfoldable pub assemble : ℕ → List Skb → Option (Option Skb)
  assemble len [] = none
  assemble len (f ∷ fs) = elim (dev_alloc_skb len) [
    | none ↦ some none
    | some memory ↦ fill_frame len f fs memory >>= λ s. some (some s)
  ]

  unfoldable pub add_frag : Skb → Place → Entry → Option (Option Skb × Entry)
  add_frag s p e =
      let n = with_frag s p.node in
      if s.desc.more_frag_bit
      then some (none, record e { nodes = p.before ++ (n ∷ p.behind) })
      else (assemble n.msdu_len n.skb_list >>= λ r. some (
        r,
        record e {
          nodes = p.before ++ p.behind ++ (record n { skb_list = [] } ∷ []);
          freed = e.freed ++ n.skb_list;
        },
      ))

  unfoldable pub place_frag : Skb → Option Place × Entry → Option (Option Skb × Entry)
  place_frag s (none, e) = some (none, record e { freed = e.freed ++ (s ∷ []) })
  place_frag s (some p, e) = add_frag s p e

  unfoldable pub defrag_single_data_process : Skb → Entry → Option (Option Skb × Entry)
  defrag_single_data_process s e = get_defrag_node s.desc e >>= place_frag s

  unfoldable pub defrag_data_process : Skb → Entry → Option (Option Skb × Entry)
  defrag_data_process s e =
      if s.desc.frag_num == 0 && not s.desc.more_frag_bit
      then some (some s, e)
      else defrag_single_data_process s e

-- A node of `kzalloc`
abbrev pub zero_node : Node
zero_node = record {
  sta_lut_index = 0;
  tid = 0;
  seq_num = 0;
  skb_list = [];
  msdu_len = 0;
  last_frag_num = 0;
}

-- `sprdwl_defrag_init`, where `n` calls of `kzalloc` succeed before one fails, if any does; the
-- result `false` is -ENOMEM.
unfoldable pub defrag_init : ℕ → Bool × Entry
defrag_init n =
    if ltb n max_defrag_num
    then (false, record { nodes = replicate n zero_node; freed = [] })
    else (true, record { nodes = replicate max_defrag_num zero_node; freed = [] })

unfoldable pub held_frags : List Node → List Skb
held_frags [] = []
held_frags (n ∷ ns) = n.skb_list ++ held_frags ns

-- `sprdwl_defrag_deinit`
unfoldable pub defrag_deinit : Entry → Entry
defrag_deinit e = record { nodes = []; freed = e.freed ++ held_frags e.nodes }
