-- ===== src/Reorder/Process.antt =====
-- The functions of reorder.c on one session: a node of the table, its buffer and its timer.
use w132d_linux_mainline.Prelude.{
  ℕ, ◌+◌, ◌/◌, ◌%◌, ◌^◌, bit_and, Bool, true, false, ◌&&◌, ◌||◌, not, List, [], ◌∷◌, Option, none,
  some, ◌==◌, if◌then◌else◌, ◌>>=◌, set,
}
use w132d_linux_mainline.Seqno.{seqno_add, seqno_sub, seqno_leq, seqno_geq}
use w132d_linux_mainline.Reorder.Types.{Skb, MsduDesc, Pkt, NodeDesc, Output, Node}
use w132d_linux_mainline.Reorder.Buffer.{
  slot, set_ba_pkt_desc, reorder_set_skb_list, is_same_pn, kfree_skb_list, send_order_msdu,
  joint_msdu, send_msdu_in_order, send_msdu_with_gap,
}

-- The chain of one skb, or a null pointer.
abbrev pub chain_of : Option Skb → List Skb
chain_of none = []
chain_of (some s) = s ∷ []

-- What `between_seqlo_seqhi`, `greater_than_seqhi` and `bar_send_ba_buffer` end with.
unfoldable pub between_seqlo_seqhi : Output → NodeDesc → Option (Output × NodeDesc)
between_seqlo_seqhi q d = send_msdu_in_order q d >>= λ (q', d', seq_num).
    some (
      q',
      record d' { win_start = seq_num; win_limit = seqno_add seq_num (seqno_sub d'.win_size 1) },
    )

-- Send what lies before `win_start`, move the window there, and send what follows in order.
unfoldable pub move_window : Output → NodeDesc → ℕ → Option (Output × NodeDesc)
move_window q d win_start = send_msdu_with_gap q d win_start >>= λ (q', d').
    between_seqlo_seqhi q' (record d' { win_start = win_start })

unfoldable pub greater_than_seqhi : Output → NodeDesc → ℕ → Option (Output × NodeDesc)
greater_than_seqhi q d seq_num = move_window q d (seqno_sub seq_num (seqno_sub d.win_size 1))

unfoldable pub bar_send_ba_buffer : Output → NodeDesc → ℕ → Option (Output × NodeDesc)
bar_send_ba_buffer q d seq_num =
    if seqno_leq seq_num d.win_start then some (q, d) else move_window q d seq_num

-- A packet of the buffer with one more MSDU; the first one sets its descriptor. `false` is -EINVAL.
unfoldable pub insert_pkt : MsduDesc → Option Skb → Pkt → Bool × Pkt
insert_pkt m skb p =
    if p.desc.msdu_num == 0
    then (
      true,
      record {
        chain = joint_msdu p.chain skb;
        desc = record (set_ba_pkt_desc p.desc m) { last = m.last_msdu_of_mpdu; msdu_num = 1 };
      },
    )
    else (if p.desc.seq == m.seq_num && not p.desc.last && is_same_pn p.desc m
        then (
          true,
          record {
            chain = joint_msdu p.chain skb;
            desc = record p.desc {
              msdu_num = (p.desc.msdu_num + 1) % 2 ^ 16;
              last = m.last_msdu_of_mpdu;
            };
          },
        )
        else (false, p))

unfoldable pub insert_msdu : MsduDesc → Option Skb → NodeDesc → Option (Bool × NodeDesc)
insert_msdu m skb d = slot d m.seq_num >>= λ p.
    let (done, p') = insert_pkt m skb p in
    some (
      done,
      record d {
        reorder_buffer = set d.reorder_buffer (bit_and m.seq_num d.index_mask) p';
        buff_cnt = if p.desc.msdu_num == 0 then (d.buff_cnt + 1) % 2 ^ 16 else d.buff_cnt;
      },
    )

-- `if (ret && skb) dev_kfree_skb(skb)`
unfoldable pub free_refused : Output → Option Skb → Output
free_refused q none = q
free_refused q (some s) = kfree_skb_list q (s ∷ [])

-- A frame past the window moves the window, so that the frame is the last one in it.
unfoldable pub make_room : Output → NodeDesc → ℕ → Option (Output × NodeDesc)
make_room q d seq_num =
    if seqno_leq seq_num d.win_limit then some (q, d) else greater_than_seqhi q d seq_num

-- Insert the frame and move the tail, or free the skb; `false` is -EINVAL.
unfoldable pub accept :
    Output → MsduDesc → Option Skb → NodeDesc → Option (Bool × Output × NodeDesc)
accept q m skb d = insert_msdu m skb d >>= λ (done, d'). some (
  done,
  (if done then q else free_refused q skb),
  (if done && seqno_geq m.seq_num d'.win_tail then record d' { win_tail = m.seq_num } else d'),
)

unfoldable pub reorder_msdu :
    Output → MsduDesc → Option Skb → NodeDesc → Option (Bool × Output × NodeDesc)
reorder_msdu q m skb d =
    if seqno_geq m.seq_num d.win_start
    then (make_room q d m.seq_num >>= λ (q', d'). accept q' m skb d')
    else some (false, free_refused q skb, d)

unfoldable pub timer_pending : Node → Bool
timer_pending n = elim n.reorder_timer [ none ↦ false | some t ↦ true ]

-- The time is in jiffies, `hz` of them to the second.
module _ (hz jiffies : ℕ) where
  unfoldable pub mod_reorder_timer : Node → Node
  mod_reorder_timer n =
      if n.rx_ba.buff_cnt == 0
      then record n { reorder_timer = none; timeout_cnt = 0 }
      else record n { reorder_timer = some (jiffies + hz / 10) }

  -- The end of `reorder_msdu_process`, after `reorder_msdu` has returned `done`.
  unfoldable pub after_reorder : MsduDesc → ℕ → Bool → Output → Node → Option (Output × Node)
  unfolding timer_pending
  after_reorder m old_win_start done q n =
      if done
      then (if m.last_msdu_of_mpdu && m.seq_num == n.rx_ba.win_start
          then (between_seqlo_seqhi q n.rx_ba >>= λ (q', d').
              some (q', mod_reorder_timer (record n { rx_ba = d' })))
          else some (
            q,
            if not (timer_pending n) || not (old_win_start == n.rx_ba.win_start)
                then mod_reorder_timer n
                else n,
          ))
      else some (
        q,
        if n.rx_ba.buff_cnt == 0 then record n { reorder_timer = none; timeout_cnt = 0 } else n,
      )

  -- A complete frame at the start of the window, with nothing buffered, needs no buffer.
  unfoldable pub process_active : Output → MsduDesc → Option Skb → Node → Option (Output × Node)
  process_active q m skb n =
      if m.seq_num == n.rx_ba.win_start && n.rx_ba.buff_cnt == 0 && m.last_msdu_of_mpdu
      then (send_order_msdu q m skb n.rx_ba >>= λ (q', d'). some (q', record n { rx_ba = d' }))
      else (reorder_msdu q m skb n.rx_ba >>= λ (done, q', d').
          after_reorder m n.rx_ba.win_start done q' (record n { rx_ba = d' }))

  unfoldable pub reorder_msdu_process :
      Output → MsduDesc → Option Skb → Node → Option (Output × Node)
  reorder_msdu_process q m skb n =
      if n.active
      then process_active q m skb n
      else (reorder_set_skb_list q (chain_of skb) >>= λ q'. some (q', n))
