-- ===== src/Reorder/Receive.antt =====
-- A received frame at a session: memory safety, the window, and every skb accounted for.
use w132d_linux_mainline.Prelude.{
  ℕ, ◌<◌, ◌≡◌, refl, List, [], ◌∷◌, ◌++◌, Option, none, some, Bool, true, ◌||◌, false, ◌&&◌, not,
  Returns, Returns-bind, Returns_mono, Bool-cases, inl, inr, ◌==◌, if◌then◌else◌,
}
use w132d_linux_mainline.Seqno.{seqno_mod, seqno_leq}
use w132d_linux_mainline.Reorder.Types.{Skb, MsduDesc, NodeDesc, Output, Node}
use w132d_linux_mainline.Reorder.Buffer.{reorder_set_skb_list}
use w132d_linux_mainline.Reorder.Process.{
  bar_send_ba_buffer, mod_reorder_timer, timer_pending, after_reorder, process_active,
  reorder_msdu_process, chain_of,
}
use w132d_linux_mainline.Reorder.Window.{Framed, Done, between_seqlo_seqhi-Done, move_window-Done}
use w132d_linux_mainline.Reorder.Accept.{
  Done-refl, Done-more, reorder_msdu-Done, send_order_msdu-Done,
}

-- `Done` for the buffer of a node, which stays the node of the same session.
pub record NodeDone (input : List Skb) (q : Output) (n : Node) (q' : Output) (n' : Node)
    : Type 0 where
  pub buffer : Done input q n.rx_ba q' n'.rx_ba
  pub same_station : n'.sta_lut_index ≡ n.sta_lut_index
  pub same_tid : n'.tid ≡ n.tid
  pub same_active : n'.active ≡ n.active

-- The timer is no part of what is kept.
mod_reorder_timer-NodeDone :
    (hz jiffies : ℕ) (input : List Skb) {q q' : Output} {n n' : Node}
    → NodeDone input q n q' n'
    → NodeDone input q n q' (mod_reorder_timer hz jiffies n')
unfolding mod_reorder_timer
mod_reorder_timer-NodeDone hz jiffies input {n' = n'} o =
    elim (Bool-cases (n'.rx_ba.buff_cnt == 0)) [
      | inl e ↦ rw e (record {
        buffer = o.buffer;
        same_station = o.same_station;
        same_tid = o.same_tid;
        same_active = o.same_active;
      })
      | inr e ↦ rw e (record {
        buffer = o.buffer;
        same_station = o.same_station;
        same_tid = o.same_tid;
        same_active = o.same_active;
      })
    ]

NodeDone-choose :
    (b : Bool) (input : List Skb) {q q' : Output} {n n' n'' : Node}
    → NodeDone input q n q' n'
    → NodeDone input q n q' n''
    → NodeDone input q n q' (if b then n' else n'')
NodeDone-choose true input o p = o
NodeDone-choose false input o p = p

buffer-NodeDone :
    (input : List Skb) {q q' : Output} (n : Node) {d' : NodeDesc}
    → Done input q n.rx_ba q' d'
    → NodeDone input q n q' (record n { rx_ba = d' })
buffer-NodeDone input n o = record {
  buffer = o;
  same_station = refl;
  same_tid = refl;
  same_active = refl;
}

idle-NodeDone : (q : Output) (n : Node) → Framed n.rx_ba → NodeDone [] q n q n
idle-NodeDone q n w = buffer-NodeDone [] n (Done-refl q n.rx_ba w)

after_reorder-Done :
    (hz jiffies : ℕ) (m : MsduDesc) (old : ℕ) (done : Bool) (q : Output) (n : Node)
    → Framed n.rx_ba
    → Returns (after_reorder hz jiffies m old done q n) (λ (q', n'). NodeDone [] q n q' n')
unfolding after_reorder
after_reorder-Done hz jiffies m old false q n w = (
  _,
  refl,
  NodeDone-choose (n.rx_ba.buff_cnt == 0) []
      (record {
        buffer = Done-refl q n.rx_ba w;
        same_station = refl;
        same_tid = refl;
        same_active = refl;
      })
      (idle-NodeDone q n w),
)
after_reorder-Done hz jiffies m old true q n w =
    elim (Bool-cases (m.last_msdu_of_mpdu && m.seq_num == n.rx_ba.win_start)) [
      | inl e ↦ rw e (
          Returns-bind _ _ _ (between_seqlo_seqhi-Done q n.rx_ba w.fits w.tail_lt) (λ (q', d') o.
            (_, refl, mod_reorder_timer-NodeDone hz jiffies [] (buffer-NodeDone [] n o))))
      | inr e ↦ rw e (
        _,
        refl,
        NodeDone-choose (not (timer_pending n) || not (old == n.rx_ba.win_start)) []
            (mod_reorder_timer-NodeDone hz jiffies [] (idle-NodeDone q n w)) (idle-NodeDone q n w),
      )
    ]

process_active-Done :
    (hz jiffies : ℕ) (q : Output) (m : MsduDesc) (skb : Option Skb) (n : Node)
    → Framed n.rx_ba
    → m.seq_num < seqno_mod
    → Returns (process_active hz jiffies q m skb n) (λ (q', n'). NodeDone (chain_of skb) q n q' n')
unfolding process_active
process_active-Done hz jiffies q m skb n w h =
    elim (Bool-cases
      (m.seq_num == n.rx_ba.win_start && n.rx_ba.buff_cnt == 0 && m.last_msdu_of_mpdu)) [
        | inl e ↦ rw e (
            Returns-bind _ _ _ (send_order_msdu-Done q m skb n.rx_ba w)
              (λ (q', d') o. (_, refl, buffer-NodeDone (chain_of skb) n o)))
        | inr e ↦ rw e (
            Returns-bind _ _ _ (reorder_msdu-Done q m skb n.rx_ba w h) (λ (done, q', d') o.
              Returns_mono
                (after_reorder-Done hz jiffies m n.rx_ba.win_start done q' (record n { rx_ba = d' })
                  o.framed)
                (λ out p. record {
                  buffer = Done-more (chain_of skb) o p.buffer;
                  same_station = p.same_station;
                  same_tid = p.same_tid;
                  same_active = p.same_active;
                })))
      ]

-- A frame for an active session, whatever its sequence number of 12 bits: no access is out of bounds, every
-- skb held before and the frame's own are afterwards held just as often (delivered, freed or
-- buffered), the window keeps its size and ends `win_size - 1` after its start, and the node stays
-- the active node of its station and TID.
pub reorder_msdu_process-Done :
    (hz jiffies : ℕ) (q : Output) (m : MsduDesc) (skb : Option Skb) (n : Node)
    → n.active ≡ true
    → Framed n.rx_ba
    → m.seq_num < seqno_mod
    → Returns
        (reorder_msdu_process hz jiffies q m skb n)
        (λ (q', n'). NodeDone (chain_of skb) q n q' n')
unfolding reorder_msdu_process
reorder_msdu_process-Done hz jiffies q m skb n act w h =
    simp act (process_active-Done hz jiffies q m skb n w h)

-- A frame for a session that is not active goes up as it is, and the node stays.
pub reorder_msdu_process_inactive :
    (hz jiffies : ℕ) (q : Output) (m : MsduDesc) (s : Skb) (n : Node)
    → n.active ≡ false
    → reorder_msdu_process hz jiffies q m (some s) n
      ≡ some (record q { skb_list = q.skb_list ++ s ∷ [] }, n)
unfolding reorder_msdu_process reorder_set_skb_list
reorder_msdu_process_inactive hz jiffies q m s n act = simp act

-- A frame without an skb, for a session that is not active: a null pointer is dereferenced.
pub filtered_frame_faults :
    (hz jiffies : ℕ) (q : Output) (m : MsduDesc) (n : Node)
    → n.active ≡ false
    → reorder_msdu_process hz jiffies q m none n ≡ none
unfolding reorder_msdu_process reorder_set_skb_list
filtered_frame_faults hz jiffies q m n act = simp act

pub bar_send_ba_buffer-Done :
    (q : Output) (d : NodeDesc) (seq_num : ℕ)
    → Framed d
    → Returns (bar_send_ba_buffer q d seq_num) (λ (q', d'). Done [] q d q' d')
unfolding bar_send_ba_buffer
bar_send_ba_buffer-Done q d seq_num w = elim (Bool-cases (seqno_leq seq_num d.win_start)) [
  | inl e ↦ rw e (_, refl, Done-refl q d w)
  | inr e ↦ rw e (move_window-Done q d seq_num w.fits w.tail_lt)
]
