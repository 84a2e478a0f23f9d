-- ===== src/Reorder/Filtered.antt =====
-- wlan_filter_event of reorder.c on a session that was asked for and is not active yet.
use w132d_linux_mainline.Prelude.{
  ℕ, ◌<◌, ◌≡◌, ◌∙◌, sym, ap, subst, true, false, Option, none, some, Returns, Returns_mono, arith,
  bind_some, bind_none,
}
use w132d_linux_mainline.Reorder.Types.{MsduDesc, Node}
use w132d_linux_mainline.Reorder.Table.{
  num_tids, Table, BaEvent, wlan_addba_event, wlan_filter_event, filter_desc, process_at,
}
use w132d_linux_mainline.Reorder.Lookup.{IsLinked, Has, Found, focus, find_ba_node-Found}
use w132d_linux_mainline.Reorder.Receive.{filtered_frame_faults}
use w132d_linux_mainline.Reorder.Start.{wlan_addba_event-Started}
use w132d_linux_mainline.Reorder.Dispatch.{CanStart}

-- The node of a filtered frame is found, and if it is not active the frame has no skb to read.
process_inactive :
    (hz jiffies : ℕ) (t : Table) (m : MsduDesc) (p : ℕ) (n : Node)
    → t.heap p ≡ some n
    → n.active ≡ false
    → process_at hz jiffies t m none p ≡ none
unfolding process_at
process_inactive hz jiffies t m p n at idle =
    bind_some _ at ∙ bind_none _ (filtered_frame_faults hz jiffies t.output m n idle)

filter_inactive :
    (hz jiffies : ℕ) (t : Table) (ev : BaEvent) (p : ℕ) (n : Node)
    → IsLinked t
    → ev.tid < num_tids
    → Has p (t.hlist ev.tid)
    → t.heap p ≡ some n
    → n.sta_lut_index ≡ ev.sta_lut_index
    → n.active ≡ false
    → wlan_filter_event hz jiffies t ev ≡ none
unfolding wlan_filter_event
filter_inactive hz jiffies t ev p n l h has at mine idle =
    let ((r, t'), found, (right, same)) = find_ba_node-Found t ev.sta_lut_index ev.tid l h in
    bind_some _ found ∙ filtered r t' right same
  where
    filtered :
        (r : Option ℕ) (t' : Table)
        → Found t ev.sta_lut_index ev.tid r
        → t' ≡ focus t r
        → (elim r [ none ↦ some t' | some q ↦ process_at hz jiffies t' (filter_desc ev) none q ])
          ≡ none
    filtered none t' f same = absurd (f p n has at mine)
    filtered (some q) t' (there, (k, at_q, its)) same =
        let one : q ≡ p = l.single ev.tid q p k n there has at_q at (its ∙ sym mine) in
        let heap : t'.heap p ≡ some n = ap (λ (x : Table). x.heap p) same ∙ at in
        process_inactive hz jiffies t' (filter_desc ev) q n (ap t'.heap one ∙ heap) idle

-- A request is handled, and the next event says that a frame of the session was filtered. The
-- session is not active yet, and such a frame has no skb: a null pointer is dereferenced. The
-- conditions: the table is linked, the TID is below 8, a new node is at a free address, the window
-- starts below 4096 and its size has 16 bits, and a session that is there has room for it.
pub filtered_after_addba :
    (hz jiffies new : ℕ) (t : Table) (ev filtered : BaEvent)
    → IsLinked t
    → ev.tid < num_tids
    → CanStart new t ev
    → filtered.tid ≡ ev.tid
    → filtered.sta_lut_index ≡ ev.sta_lut_index
    → Returns
        (wlan_addba_event (some new) true t ev)
        (λ (ok, t'). (ok ≡ true) × (wlan_filter_event hz jiffies t' filtered ≡ none))
filtered_after_addba hz jiffies new t ev filtered l h c tid lut =
    Returns_mono (wlan_addba_event-Started new t ev l h c.free c.start c.size c.room)
      (λ (ok, t') (done, l', (p, has, (n, at, (mine, idle, w, size, mask)))). (
        done,
        filter_inactive hz jiffies t' filtered p n l' (omega (arith, tid, h))
            (subst (λ k. Has p (t'.hlist k)) (sym tid) has) at (mine ∙ sym lut) idle,
      ))
