-- ===== src/Reorder/Buffer.antt =====
-- The functions of reorder.c on one reorder buffer.
use w132d_linux_mainline.Prelude.{
  ℕ, zero, suc, ◌+◌, ◌-◌, ◌*◌, ◌%◌, ◌^◌, bit_and, Bool, true, false, ◌&&◌, ◌||◌, List, [], ◌∷◌,
  ◌++◌, Option, none, some, ltb, leb, ◌==◌, if◌then◌else◌, ◌>>=◌, get_elem?, set,
}
use w132d_linux_mainline.Seqno.{seqno_add, seqno_sub}
use w132d_linux_mainline.Reorder.Types.{
  Skb, MsduDesc, PktDesc, Pkt, NodeDesc, Output, hw_tkip, hw_ccmp, zero_pkt,
}

-- `while (size > index_size) index_size <<= 1`, from `min_index_size`.
unfoldable pub doubled : ℕ → ℕ → ℕ → ℕ
doubled zero size index_size = index_size
doubled (suc fuel) size index_size = elim (ltb index_size size) [
  | true ↦ doubled fuel size (index_size * 2 % 2 ^ 32)
  | false ↦ index_size
]

abbrev pub min_index_size : ℕ
min_index_size = 0x40

-- The size is twice a 16-bit number, so eleven rounds are enough.
unfoldable pub get_index_size : ℕ → ℕ
unfolding doubled
get_index_size size = doubled 11 size min_index_size

-- The buffer keeps what it holds.
unfoldable pub set_ba_node_desc : NodeDesc → ℕ → ℕ → ℕ → NodeDesc
set_ba_node_desc d win_start win_size index_mask = record d {
  win_start = win_start;
  win_limit = seqno_add win_start (seqno_sub win_size 1);
  win_tail = seqno_sub win_start 1;
  win_size = win_size;
  buff_cnt = 0;
  index_mask = index_mask;
}

unfoldable pub set_ba_pkt_desc : PktDesc → MsduDesc → PktDesc
set_ba_pkt_desc p m = record p {
  pn_l = m.pn_l;
  pn_h = m.pn_h;
  seq = m.seq_num;
  cipher_type = m.cipher_type;
}

-- A null `skb_head` is dereferenced at the end: `skb_last->next = NULL`.
unfoldable pub reorder_set_skb_list : Output → List Skb → Option Output
reorder_set_skb_list q [] = none
reorder_set_skb_list q (s ∷ chain) = some (record q { skb_list = q.skb_list ++ s ∷ chain })

-- The list is taken by the network stack.
unfoldable pub reorder_get_skb_list : Output → List Skb × Output
reorder_get_skb_list q = (q.skb_list, record q { skb_list = [] })

unfoldable pub has_pn : ℕ → Bool
has_pn cipher_type = cipher_type == hw_tkip || cipher_type == hw_ccmp

unfoldable pub is_same_pn : PktDesc → MsduDesc → Bool
unfolding has_pn
is_same_pn p m = if has_pn p.cipher_type then (p.pn_l == m.pn_l && p.pn_h == m.pn_h) else true

unfoldable pub replay_detection : PktDesc → NodeDesc → Bool × NodeDesc
unfolding has_pn
replay_detection p d =
    if has_pn p.cipher_type
    then (if d.reset_pn == 1 && leb p.pn_l d.pn_l && leb p.pn_h d.pn_h
        then (true, record d { reset_pn = 0; pn_l = p.pn_l; pn_h = p.pn_h })
        else (if d.pn_h == p.pn_h && ltb d.pn_l p.pn_l || ltb d.pn_h p.pn_h
            then (true, record d { pn_l = p.pn_l; pn_h = p.pn_h })
            else (false, d)))
    else (true, d)

-- `kfree_skb_list` and `dev_kfree_skb`
unfoldable pub kfree_skb_list : Output → List Skb → Output
kfree_skb_list q chain = record q { freed = q.freed ++ chain }

-- Deliver a chain that has passed the replay detection, free it otherwise.
unfoldable pub hand_over : Bool → Output → NodeDesc → List Skb → Option (Output × NodeDesc)
hand_over true q d chain = reorder_set_skb_list q chain >>= λ q'. some (q', d)
hand_over false q d chain = some (kfree_skb_list q chain, d)

unfoldable pub deliver : Output → NodeDesc → PktDesc → List Skb → Option (Output × NodeDesc)
deliver q d p chain = let (fresh, d') = replay_detection p d in hand_over fresh q d' chain

-- `skb` is null for a frame that the hardware has filtered.
unfoldable pub send_order_msdu :
    Output → MsduDesc → Option Skb → NodeDesc → Option (Output × NodeDesc)
unfolding set_ba_pkt_desc
send_order_msdu q m skb d =
    let win_start = seqno_add d.win_start 1 in
    let d' : NodeDesc = record d {
      win_start = win_start;
      win_limit = seqno_add d.win_limit 1;
      win_tail = seqno_sub win_start 1;
    } in
    elim skb [
      | none ↦ some (q, d')
      | some s ↦ deliver q d' (set_ba_pkt_desc zero_pkt.desc m) (s ∷ [])
    ]

-- What `send_reorder_skb` does for a packet of the buffer, before the slot is cleared.
unfoldable pub send_chain : Output → NodeDesc → Pkt → Option (Output × NodeDesc)
send_chain q d pkt = elim pkt.chain [ [] ↦ some (q, d) | s ∷ r ↦ deliver q d pkt.desc (s ∷ r) ]

-- `send_reorder_skb` at `index`, with `pkt` the packet there
unfoldable pub send_reorder_skb : Output → NodeDesc → ℕ → Pkt → Option (Output × NodeDesc)
send_reorder_skb q d index pkt = send_chain q d pkt >>= λ (q', d').
    some (q', record d' { reorder_buffer = set d'.reorder_buffer index zero_pkt })

-- The loop of `flush_reorder_buffer` from index `i` on, `n` rounds.
unfoldable pub flush_from : ℕ → ℕ → Output → List Pkt → Option (Output × List Pkt)
flush_from zero i q buf = some (q, buf)
flush_from (suc n) i q buf = get_elem? buf i >>= λ pkt.
    flush_from n (i + 1) (kfree_skb_list q pkt.chain) (set buf i zero_pkt)

unfoldable pub flush_reorder_buffer : Output → NodeDesc → Option (Output × NodeDesc)
flush_reorder_buffer q d = flush_from (d.index_mask + 1) 0 q d.reorder_buffer >>= λ (q', buf).
    some (q', record d { reorder_buffer = buf; buff_cnt = 0 })

unfoldable pub joint_msdu : List Skb → Option Skb → List Skb
joint_msdu chain none = chain
joint_msdu chain (some s) = chain ++ s ∷ []

-- `&ba_node_desc->reorder_buffer[seq_num & ba_node_desc->index_mask]`, dereferenced
abbrev pub slot : NodeDesc → ℕ → Option Pkt
slot d seq_num = get_elem? d.reorder_buffer (bit_and seq_num d.index_mask)

-- Deliver the packet of `seq_num` and count it off.
unfoldable pub take_out : Output → NodeDesc → ℕ → Pkt → Option (Output × NodeDesc)
take_out q d seq_num pkt = send_reorder_skb q d (bit_and seq_num d.index_mask) pkt >>= λ (q', d').
    some (q', record d' { buff_cnt = d'.buff_cnt - 1 })

-- The loop of `send_msdu_in_order`. A round that does not leave it takes one from `buff_cnt`, so
-- `buff_cnt` rounds are enough, and the fuel counts one more.
unfoldable pub in_order_from : ℕ → ℕ → Output → NodeDesc → Option (Output × NodeDesc × ℕ)
in_order_from zero seq_num q d = none
in_order_from (suc fuel) seq_num q d = elim (d.buff_cnt == 0) [
  | true ↦ some (q, d, seq_num)
  | false ↦ slot d seq_num >>= λ pkt. elim pkt.desc.last [
    | false ↦ some (q, d, seq_num)
    | true ↦
        take_out q d seq_num pkt >>= λ (q', d'). in_order_from fuel ((seq_num + 1) % 2 ^ 16) q' d'
  ]
]

unfoldable pub send_msdu_in_order : Output → NodeDesc → Option (Output × NodeDesc × ℕ)
send_msdu_in_order q d = in_order_from (d.buff_cnt + 1) d.win_start q d >>= λ (q', d', seq_num).
    some (q', d', seq_num % 2 ^ 12)

-- One round of the loop of `send_msdu_with_gap`.
unfoldable pub gap_round : Output → NodeDesc → ℕ → Option (Output × NodeDesc)
gap_round q d seq_num =
    if d.buff_cnt == 0
    then some (q, d)
    else (slot d seq_num >>= λ pkt.
        if pkt.desc.msdu_num == 0 then some (q, d) else take_out q d seq_num pkt)

-- The loop of `send_msdu_with_gap` with `num` rounds left; its count `num_frms` has no reader.
unfoldable pub with_gap_from : ℕ → ℕ → Output → NodeDesc → Option (Output × NodeDesc)
with_gap_from zero seq_num q d = some (q, d)
with_gap_from (suc num) seq_num q d =
    gap_round q d seq_num >>= λ (q', d'). with_gap_from num ((seq_num + 1) % 2 ^ 16) q' d'

unfoldable pub send_msdu_with_gap : Output → NodeDesc → ℕ → Option (Output × NodeDesc)
send_msdu_with_gap q d last_seqno = with_gap_from (seqno_sub last_seqno d.win_start) d.win_start q d
