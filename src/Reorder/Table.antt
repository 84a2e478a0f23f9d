-- ===== src/Reorder/Table.antt =====
-- The table of sessions of reorder.c: `struct sprdwl_rx_ba_entry`, its nodes, and what the
-- handlers of events and of the timer do to it.
use w132d_linux_mainline.Prelude.{
  ℕ, zero, suc, ◌+◌, ◌*◌, ◌-◌, ◌%◌, Bool, true, false, ◌&&◌, not, List, [], ◌∷◌, ◌++◌, Option, none,
  some, ltb, ◌==◌, if◌then◌else◌, ◌>>=◌, replicate,
}
use w132d_linux_mainline.Seqno.{seqno_mod}
use w132d_linux_mainline.Reorder.Types.{Skb, MsduDesc, Output, Node, zero_pkt}
use w132d_linux_mainline.Reorder.Buffer.{
  get_index_size, set_ba_node_desc, reorder_set_skb_list, flush_reorder_buffer,
}
use w132d_linux_mainline.Reorder.Process.{between_seqlo_seqhi, reorder_msdu_process}

abbrev pub num_tids : ℕ
num_tids = 8

abbrev pub max_timeout_cnt : ℕ
max_timeout_cnt = 60

-- The fields of `struct sprdwl_peer_entry` that are read here; `da` is `tx.da` as a number.
pub record Peer : Type 0 where
  pub lut_index : ℕ
  pub da : ℕ
  pub ctx_id : ℕ

-- What `sprdwl_rx_send_cmd` is given.
pub data Cmd : Type 0 where
  addba_rsp : (tid da : ℕ) (success : Bool) (sta_lut_index ctx_id : ℕ) → Cmd
  delba : (tid da ctx_id : ℕ) → Cmd

-- A node is named by its address; `heap` gives the nodes that are allocated. `rx_work` tells that
-- the work of handing skbs to the stack is queued.
pub record Table : Type 0 where
  pub hlist : ℕ → List ℕ
  pub current_ba_node : Option ℕ
  pub heap : ℕ → Option Node
  pub output : Output
  pub peers : List Peer
  pub cmds : List Cmd
  pub rx_work : Bool

abbrev pub update {ℓ} : {A : Type ℓ} → (ℕ → A) → ℕ → A → ℕ → A
update f i a j = if i == j then a else f j

abbrev pub store : Table → ℕ → Node → Table
store t p n = record t { heap = update t.heap p (some n) }

-- The node of the station in a bucket, in the order of the list.
unfoldable pub scan : (ℕ → Option Node) → ℕ → List ℕ → Option (Option ℕ)
scan heap sta_lut_index [] = some none
scan heap sta_lut_index (p ∷ ps) =
    let rest = scan heap sta_lut_index ps in
    heap p >>= λ n. if sta_lut_index == n.sta_lut_index then some (some p) else rest

unfoldable pub is_same_ba : Table → ℕ → ℕ → Option Bool
is_same_ba t sta_lut_index tid = elim t.current_ba_node [
  | none ↦ some false
  | some p ↦ t.heap p >>= λ n. some (n.sta_lut_index == sta_lut_index && n.tid == tid)
]

-- The search of the bucket; a node that is found becomes the current one.
unfoldable pub find_in_bucket : Table → ℕ → ℕ → Option (Option ℕ × Table)
find_in_bucket t sta_lut_index tid = scan t.heap sta_lut_index (t.hlist tid) >>= λ r. elim r [
  | none ↦ some (none, t)
  | some p ↦ some (some p, record t { current_ba_node = some p })
]

unfoldable pub find_ba_node : Table → ℕ → ℕ → Option (Option ℕ × Table)
find_ba_node t sta_lut_index tid =
    if ltb tid num_tids
    then (is_same_ba t sta_lut_index tid >>= λ same.
        if same then some (t.current_ba_node, t) else find_in_bucket t sta_lut_index tid)
    else some (none, t)

-- A node of `kzalloc`, initialised by `init_ba_node`, with a buffer of `size` packets.
unfoldable pub init_ba_node : ℕ → ℕ → ℕ → Node
init_ba_node sta_lut_index tid size = record {
  sta_lut_index = sta_lut_index;
  tid = tid;
  active = false;
  timeout_cnt = 0;
  reorder_timer = none;
  rx_ba = record {
    win_start = 0;
    win_limit = 0;
    win_tail = 0;
    win_size = 0;
    buff_cnt = 0;
    pn_h = 0;
    pn_l = 0;
    reset_pn = 0;
    index_mask = 0;
    reorder_buffer = replicate size zero_pkt;
  };
}

-- `new_node` and `has_buffer` are what the two calls of `kzalloc` return. The table of buckets has
-- `num_tids` elements, and here nothing checks the TID.
unfoldable pub create_ba_node : Option ℕ → Bool → Table → ℕ → ℕ → ℕ → Option (Option ℕ × Table)
create_ba_node none has_buffer t sta_lut_index tid size = some (none, t)
create_ba_node (some p) false t sta_lut_index tid size = some (none, t)
create_ba_node (some p) true t sta_lut_index tid size =
    if ltb tid num_tids
    then some (
      some p,
      record t {
        heap = update t.heap p (some (init_ba_node sta_lut_index tid size));
        hlist = update t.hlist tid (p ∷ t.hlist tid);
        current_ba_node = some p;
      },
    )
    else none

-- `hlist_del`: the node leaves its bucket.
unfoldable pub hlist_del : ℕ → List ℕ → List ℕ
hlist_del p [] = []
hlist_del p (x ∷ xs) = if x == p then xs else x ∷ hlist_del p xs

-- The end of `wlan_delba_event` and of a round of `peer_entry_delba`: unlink and free the node.
unfoldable pub remove_node : Table → ℕ → Node → Table
remove_node t p n = record t {
  hlist = update t.hlist n.tid (hlist_del p (t.hlist n.tid));
  heap = update t.heap p none;
  current_ba_node = none;
}

-- `struct sprdwl_event_ba`, with both members of its union
pub record BaEvent : Type 0 where
  pub type : ℕ
  pub tid : ℕ
  pub sta_lut_index : ℕ
  pub win_start : ℕ
  pub win_size : ℕ
  pub seq_num : ℕ

-- The descriptor that `wlan_filter_event` makes up; `seq_num` is a field of 12 bits.
abbrev pub filter_desc : BaEvent → MsduDesc
filter_desc ev = record {
  sta_lut_index = ev.sta_lut_index;
  tid = ev.tid;
  seq_num = ev.seq_num % seqno_mod;
  last_msdu_of_mpdu = true;
  qos_flag = true;
  bc_mc_flag = false;
  pn_l = 0;
  pn_h = 0;
  cipher_type = 0;
}

-- Run `reorder_msdu_process` on the node at `p`.
unfoldable pub process_at : ℕ → ℕ → Table → MsduDesc → Option Skb → ℕ → Option Table
process_at hz jiffies t m skb p = t.heap p >>= λ n.
    reorder_msdu_process hz jiffies t.output m skb n >>= λ (q', n').
    some (record (store t p n') { output = q' })

module _ (hz jiffies : ℕ) where
  -- Of `reorder_data_process`: the frame at a node, or past the reordering.
  unfoldable pub process_found : MsduDesc → Skb → Option ℕ × Table → Option Table
  process_found m skb (some p, t) = process_at hz jiffies t m (some skb) p
  process_found m skb (none, t) =
      reorder_set_skb_list t.output (skb ∷ []) >>= λ q'. some (record t { output = q' })

  unfoldable pub reorder_data_process : Table → MsduDesc → Skb → Option Table
  reorder_data_process t m skb =
      if not m.bc_mc_flag && m.qos_flag
      then (find_ba_node t m.sta_lut_index m.tid >>= process_found m skb)
      else (reorder_set_skb_list t.output (skb ∷ []) >>= λ q'. some (record t { output = q' }))

  unfoldable pub wlan_filter_event : Table → BaEvent → Option Table
  wlan_filter_event t ev = find_ba_node t ev.sta_lut_index ev.tid >>= λ (r, t'). elim r [
    | none ↦ some t'
    | some p ↦ process_at hz jiffies t' (filter_desc ev) none p
  ]

-- What a session that ends does with its buffer: the frames in order go up, the rest is freed.
unfoldable pub close_buffer : Output → Node → Option Output
close_buffer q n =
    if n.active
    then (between_seqlo_seqhi q n.rx_ba >>= λ (q', d').
        flush_reorder_buffer q' d' >>= λ (q'', d''). some q'')
    else some q

-- What `peer_entry_delba` does with the buffer: all of it is freed.
unfoldable pub drop_buffer : Output → Node → Option Output
drop_buffer q n =
    if n.active then (flush_reorder_buffer q n.rx_ba >>= λ (q', d'). some q') else some q

-- Empty the buffer of the node at `p` by `close`, then unlink and free the node.
unfoldable pub end_session : (Output → Node → Option Output) → Table → ℕ → Option Table
end_session close t p =
    t.heap p >>= λ n. close t.output n >>= λ q'. some (record (remove_node t p n) { output = q' })

-- The session of a station and TID, if there is one, is ended.
unfoldable pub end_found : (Output → Node → Option Output) → Option ℕ × Table → Option Table
end_found close (none, t) = some t
end_found close (some p, t) = end_session close t p

unfoldable pub wlan_delba_event : Table → BaEvent → Option Table
wlan_delba_event t ev = find_ba_node t ev.sta_lut_index ev.tid >>= end_found close_buffer

-- The loop of `peer_entry_delba` from TID `tid` on, `n` rounds.
unfoldable pub peer_delba_from : ℕ → ℕ → ℕ → Table → Option Table
peer_delba_from zero tid lut_index t = some t
peer_delba_from (suc n) tid lut_index t =
    find_ba_node t lut_index tid >>= end_found drop_buffer >>= λ t'.
    peer_delba_from n (tid + 1) lut_index t'

unfoldable pub peer_entry_delba : Table → ℕ → Option Table
peer_entry_delba t lut_index = peer_delba_from num_tids 0 lut_index t

-- The window of a new or found session. With CP2_RESET_SUPPORT, which the Makefile sets, the
-- session is made inactive first.
unfoldable pub start_session : Table → ℕ → ℕ → ℕ → ℕ → Option Table
start_session t p win_start win_size index_size = t.heap p >>= λ n.
    let rx_ba = set_ba_node_desc n.rx_ba win_start win_size (index_size - 1) in
    some (store t p (record n { active = false; rx_ba = rx_ba }))

-- A node that was found, or a new one, gets the window; `false` is -ENOMEM.
unfoldable pub start_or_create :
    Option ℕ → Bool → BaEvent → Option ℕ × Table → Option (Bool × Table)
start_or_create new_node has_buffer ev (some p, t) =
    start_session t p ev.win_start ev.win_size (get_index_size (2 * ev.win_size)) >>= λ u.
    some (true, u)
start_or_create new_node has_buffer ev (none, t) =
    create_ba_node new_node has_buffer t ev.sta_lut_index ev.tid (get_index_size (2 * ev.win_size))
    >>= λ (r, t'). elim r [
      | none ↦ some (false, t')
      | some p ↦
          start_session t' p ev.win_start ev.win_size (get_index_size (2 * ev.win_size)) >>= λ u.
          some (true, u)
    ]

unfoldable pub wlan_addba_event : Option ℕ → Bool → Table → BaEvent → Option (Bool × Table)
wlan_addba_event new_node has_buffer t ev =
    find_ba_node t ev.sta_lut_index ev.tid >>= start_or_create new_node has_buffer ev

-- `sprdwl_find_peer_entry_using_lut_index` of wl_intf.c
unfoldable pub find_peer : List Peer → ℕ → Option Peer
find_peer [] sta_lut_index = none
find_peer (x ∷ xs) sta_lut_index =
    if sta_lut_index == x.lut_index then some x else find_peer xs sta_lut_index

unfoldable pub send_addba_rsp : Table → ℕ → ℕ → Bool → Table
send_addba_rsp t tid sta_lut_index ok = elim (find_peer t.peers sta_lut_index) [
  | none ↦ t
  | some x ↦ record t { cmds = t.cmds ++ addba_rsp tid x.da ok sta_lut_index x.ctx_id ∷ [] }
]

unfoldable pub send_delba : Table → ℕ → ℕ → Table
send_delba t tid sta_lut_index = elim (find_peer t.peers sta_lut_index) [
  | none ↦ t
  | some x ↦ record t { cmds = t.cmds ++ delba tid x.da x.ctx_id ∷ [] }
]
