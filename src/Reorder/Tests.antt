-- ===== src/Reorder/Tests.antt =====
-- Runs of the reordering on concrete sessions, and the theorems at concrete inputs.
use w132d_linux_mainline.Prelude.{
  ℕ, zero, suc, Bool, ◌+◌, ◌*◌, ◌<◌, ◌≤◌, ◌≡◌, ◌↔◌, inl, inr, refl, ◌∙◌, sym, ap, subst, Option,
  none, some, true, false, List, [], ◌∷◌, arith, Returns, Bool-cases, ◌==◌, ==_iff, if◌then◌else◌,
  replicate, ◌>>=◌, length,
}
use Prim.Native.Nat.{max}
use w132d_linux_mainline.Seqno.{seqno_geq}
use w132d_linux_mainline.Reorder.Types.{MsduDesc, PktDesc, NodeDesc, Output, Node, zero_pkt}
use w132d_linux_mainline.Reorder.Buffer.{
  get_index_size, has_pn, replay_detection, send_msdu_in_order, in_order_from, deliver, gap_round,
  hand_over, is_same_pn, joint_msdu, kfree_skb_list, reorder_set_skb_list, send_chain,
  send_msdu_with_gap, send_order_msdu, send_reorder_skb, set_ba_pkt_desc, take_out, with_gap_from,
}
use w132d_linux_mainline.Reorder.Process.{
  reorder_msdu_process, process_active, reorder_msdu, make_room, accept, insert_msdu, after_reorder,
  insert_pkt, mod_reorder_timer, between_seqlo_seqhi, free_refused, greater_than_seqhi, move_window,
  timer_pending,
}
use w132d_linux_mainline.Reorder.Table.{
  Table, num_tids, BaEvent, is_same_ba, find_in_bucket, scan, process_found, process_at,
  find_ba_node, reorder_data_process, peer_entry_delba, wlan_addba_event, wlan_filter_event,
}
use w132d_linux_mainline.Reorder.Timeout.{expire, ba_reorder_timeout}
use w132d_linux_mainline.Reorder.Window.{Framed}
use w132d_linux_mainline.Reorder.Receive.{NodeDone, reorder_msdu_process-Done}
use w132d_linux_mainline.Reorder.Replay.{packet_number, replay_detection_lem}
use w132d_linux_mainline.Reorder.Lookup.{Has, At, Distinct, IsSound, IsLinked, Found}
use w132d_linux_mainline.Reorder.Deinit.{reorder_deinit, Emptied, reorder_deinit-Emptied}
use w132d_linux_mainline.Reorder.Events.{reorder_data_process-IsLinked}
use w132d_linux_mainline.Reorder.Remove.{peer_entry_delba-gone}
use w132d_linux_mainline.Reorder.Dispatch.{
  AllWords, Handled, wlan_ba_session_event, wlan_ba_session_event-IsLinked,
}
use w132d_linux_mainline.Reorder.Filtered.{filtered_after_addba}
use w132d_linux_mainline.Reorder.Start.{Room, Started, wlan_addba_event-Started}
use w132d_linux_mainline.Reorder.Recover.{Expired, expire-Expired, ba_reorder_timeout-IsLinked}

abbrev idle_desc : NodeDesc
idle_desc = record {
  win_start = 100;
  win_limit = 103;
  win_tail = 99;
  win_size = 4;
  buff_cnt = 0;
  pn_h = 0;
  pn_l = 0;
  reset_pn = 0;
  index_mask = 63;
  reorder_buffer = replicate 64 zero_pkt;
}

abbrev idle_node : Node
idle_node = record {
  sta_lut_index = 5;
  tid = 0;
  active = true;
  timeout_cnt = 0;
  reorder_timer = none;
  rx_ba = idle_desc;
}

abbrev no_output : Output
no_output = record { skb_list = []; freed = [] }

abbrev frame : ℕ → MsduDesc
frame seq_num = record {
  sta_lut_index = 5;
  tid = 0;
  seq_num = seq_num;
  last_msdu_of_mpdu = true;
  qos_flag = true;
  bc_mc_flag = false;
  pn_l = seq_num;
  pn_h = 0;
  cipher_type = 2;
}

abbrev table : Table
table = record {
  hlist = λ tid. if tid == 0 then 7 ∷ [] else [];
  current_ba_node = some 7;
  heap = λ p. if p == 7 then some idle_node else none;
  output = no_output;
  peers = [];
  cmds = [];
  rx_work = false;
}

-- The frames of a list of sequence numbers, the first with skb 0.
run_from : ℕ → Table → List ℕ → Option Output
unfolding reorder_data_process find_ba_node is_same_ba find_in_bucket scan process_found process_at
    reorder_msdu_process process_active reorder_msdu make_room accept insert_msdu after_reorder
    insert_pkt mod_reorder_timer between_seqlo_seqhi send_msdu_in_order in_order_from deliver
    gap_round hand_over is_same_pn joint_msdu kfree_skb_list reorder_set_skb_list replay_detection
    send_chain send_msdu_with_gap send_order_msdu send_reorder_skb set_ba_pkt_desc take_out
    with_gap_from free_refused greater_than_seqhi move_window timer_pending seqno_geq
run_from s t [] = some t.output
run_from s t (n ∷ ns) = reorder_data_process 100 0 t (frame n) s >>= λ t'. run_from (s + 1) t' ns

-- Frames 102, 101 and 100 go up in the order of their numbers.
reordered :
    run_from 0 table (102 ∷ 101 ∷ 100 ∷ [])
    ≡ some (record { skb_list = 2 ∷ 1 ∷ 0 ∷ []; freed = [] })
unfolding run_from
reordered = refl

-- Frame 106 moves the window of four on, and frame 101 comes too late and is freed.
moved_on :
    run_from 0 table (102 ∷ 106 ∷ 101 ∷ []) ≡ some (record { skb_list = 0 ∷ []; freed = 2 ∷ [] })
unfolding run_from
moved_on = refl

idle-Framed : Framed idle_desc
idle-Framed = omega arith

reorder_msdu_process-Done_example :
    Returns
      (reorder_msdu_process 100 0 no_output (frame 102) (some 9) idle_node)
      (λ (q', n'). NodeDone (9 ∷ []) no_output idle_node q' n')
reorder_msdu_process-Done_example =
    reorder_msdu_process-Done 100 0 no_output (frame 102) (some 9) idle_node refl idle-Framed
      (omega arith)

abbrev packet : ℕ → PktDesc
packet pn = record { pn_l = pn; pn_h = 0; seq = 0; cipher_type = 2; last = true; msdu_num = 1 }

replay_detection_lem_example :
    (((replay_detection (packet 9) idle_desc).0 ≡ true) ↔ (packet_number 0 0 < packet_number 0 9))
    × (packet_number
          (replay_detection (packet 9) idle_desc).1.pn_h
          (replay_detection (packet 9) idle_desc).1.pn_l
        ≡ max (packet_number 0 0) (packet_number 0 9))
unfolding has_pn
replay_detection_lem_example =
    replay_detection_lem (packet 9) idle_desc refl (omega arith) (omega arith) (omega arith)

abbrev rekeyed : NodeDesc
rekeyed = record idle_desc { pn_h = 1; reset_pn = 1 }

-- What stands in a bucket of the table.
bucket_only : (tid p : ℕ) → Has p (table.hlist tid) → (7 ≡ p) × (0 ≡ tid)
bucket_only tid p h = elim (Bool-cases (tid == 0)) [
  | inl e ↦ (only (rw e at h), sym ((==_iff tid 0).0 e))
  | inr e ↦ absurd (rw e at h)
]
  where
    only : Has p (7 ∷ []) → 7 ≡ p
    only (inl i) = i
    only (inr i) = absurd i

some_inj : {A : Type 0} {a b : A} → some a ≡ some b → a ≡ b
some_inj e = cc

table-IsLinked : IsLinked table
table-IsLinked = record {
  linked = λ tid p h.
      let (i, j) = bucket_only tid p h in
      subst (λ k. At table.heap k (IsSound tid)) i (idle_node, refl, (j, idle-Framed));
  distinct = λ tid. distinct_bucket tid;
  single = λ tid p p' n n' h h' e e' s. sym (bucket_only tid p h).0 ∙ (bucket_only tid p' h').0;
  current = λ p e. (0, omega arith, inl (some_inj e));
}
  where
    distinct_bucket : (tid : ℕ) → Distinct (table.hlist tid)
    distinct_bucket tid = elim (Bool-cases (tid == 0)) [
      | inl e ↦ rw e (λ h. h, tt)
      | inr e ↦ rw e tt
    ]

reorder_data_process-IsLinked_example :
    Returns (reorder_data_process 100 0 table (frame 101) 9) IsLinked
reorder_data_process-IsLinked_example =
    reorder_data_process-IsLinked 100 0 table (frame 101) 9 table-IsLinked (omega arith)

abbrev event : ℕ → BaEvent
event type = record {
  type = type;
  tid = 0;
  sta_lut_index = 5;
  win_start = 200;
  win_size = 32;
  seq_num = 101;
}

table_active :
    (tid p : ℕ) (n : Node) → Has p (table.hlist tid) → table.heap p ≡ some n → n.active ≡ true
table_active tid p n h e =
    let (i, j) = bucket_only tid p h in
    ap (λ (k : Node). k.active) (some_inj (sym e ∙ ap table.heap (sym i)))

table-Room : (p : ℕ) (n : Node) → Has p (table.hlist 0) → table.heap p ≡ some n → Room (event 0) n
unfolding get_index_size
table-Room p n h e =
    subst (λ (k : Node). 64 ≤ length k.rx_ba.reorder_buffer)
      (some_inj (ap table.heap (bucket_only 0 p h).0 ∙ e)) (omega arith)

-- No transmit session of the 32 peers is marked as set up.
abbrev no_maps : List (List Bool)
no_maps = replicate 32 (replicate 64 false)

replicate-AllWords : (k : ℕ) → AllWords (replicate k (replicate 64 false))
replicate-AllWords zero lut map e = absurd (cc)
replicate-AllWords (suc k) zero map e =
    let same : replicate 64 false ≡ map = cc in ap length (sym same)
replicate-AllWords (suc k) (suc lut) map e = replicate-AllWords k lut map e

wlan_ba_session_event-IsLinked_example :
    Returns
      (wlan_ba_session_event 100 0 (some 8) true (table, no_maps) (event 0))
      (Handled (event 0) no_maps)
wlan_ba_session_event-IsLinked_example =
    wlan_ba_session_event-IsLinked 100 0 8 table no_maps (event 0) table-IsLinked
      (replicate-AllWords 32) (omega arith)
      (λ e. record { free = refl; start = omega arith; size = omega arith; room = table-Room })
      (λ e. table_active) (λ e. omega arith)

filtered_after_addba_example :
    Returns
      (wlan_addba_event (some 8) true table (event 0))
      (λ (ok, t'). (ok ≡ true) × (wlan_filter_event 100 0 t' (event 4) ≡ none))
filtered_after_addba_example =
    filtered_after_addba 100 0 8 table (event 0) (event 4) table-IsLinked (omega arith)
      (record { free = refl; start = omega arith; size = omega arith; room = table-Room }) refl refl

peer_entry_delba-gone_example :
    Returns
      (peer_entry_delba table 5)
      (λ t'. IsLinked t' × ((tid : ℕ) → tid < num_tids → Found t' 5 tid none))
peer_entry_delba-gone_example = peer_entry_delba-gone table 5 table-IsLinked

get_index_size_runs : get_index_size (2 * 200) ≡ 512
unfolding get_index_size
get_index_size_runs = refl

-- A window of 32 needs a buffer of 64.
wlan_addba_event-Started_example :
    Returns
      (wlan_addba_event (some 8) true table (event 0))
      (λ (ok, t'). (ok ≡ true) × IsLinked t' × Started t' (event 0))
wlan_addba_event-Started_example =
    wlan_addba_event-Started 8 table (event 0) table-IsLinked (omega arith) refl (omega arith)
      (omega arith) table-Room

expire-Expired_example : Returns (expire 100 0 no_output idle_node) (Expired no_output idle_node)
expire-Expired_example = expire-Expired 100 0 no_output idle_node idle-Framed

ba_reorder_timeout-IsLinked_example : Returns (ba_reorder_timeout 100 0 table 7) IsLinked
ba_reorder_timeout-IsLinked_example =
    ba_reorder_timeout-IsLinked 100 0 table 0 7 table-IsLinked (inl refl)

-- A table with one peer, of address 77, whose session it is.
abbrev peered : Table
peered = record table { peers = record { lut_index = 5; da = 77; ctx_id = 1 } ∷ [] }

peered-IsLinked : IsLinked peered
peered-IsLinked = record {
  linked = table-IsLinked.linked;
  distinct = table-IsLinked.distinct;
  single = table-IsLinked.single;
  current = table-IsLinked.current;
}

reorder_deinit-Emptied_example : Returns (reorder_deinit table) (Emptied table)
reorder_deinit-Emptied_example = reorder_deinit-Emptied table table-IsLinked
