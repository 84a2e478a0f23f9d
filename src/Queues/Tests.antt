-- ===== src/Queues/Tests.antt =====
-- Concrete transmit queues of tx_msg.c.
use w132d_linux_mainline.Prelude.{ℕ, zero, suc, ◌+◌, ◌≡◌, refl, false, true, List, [], ◌∷◌, arith}
use w132d_linux_mainline.Credit.{
  Hardware, Colour, fc_find_color_per_mode, has_mode, flow_of_mode, fc_test_shared_num,
}
use w132d_linux_mainline.Queues.{
  Buf, PeerList, default_ratios, empty_peer, total_of, merge_lists, queue_data_msg_buf, sum_of,
  merge_some, merge_peers, min_num, fp_num, ratio_of, cut,
}
use w132d_linux_mainline.Queues.Share.{AtMostHundred}
use w132d_linux_mainline.Queues.Order.{IsMerged, merge_lists-IsMerged}
use w132d_linux_mainline.Queues.Weight.{weigh, weigh_peers, weigh_queues}
use w132d_linux_mainline.Queues.Handlers.{Env, Transmit, handle_to_send_list, tx_eachmode_data}
use w132d_linux_mainline.Queues.Flush.{
  AllModes, handle_tx_status_after_close, queue_data, peer_list, set_peer_list,
}
use w132d_linux_mainline.Queues.Kept.{IsTxT}
use w132d_linux_mainline.Queues.Sent.{credits_and_sent, handle_to_send_list-credits}
use w132d_linux_mainline.Queues.Calls.{no_call, queued, round, Accounted, Calls-Accounted}
use w132d_linux_mainline.Queues.Close.{after_close-tx_lists}

abbrev buf : ℕ → Buf
buf k = record { frame = k; timeout = 100 + k }

abbrev peer : ℕ → ℕ → PeerList
peer a zero = empty_peer
peer a (suc n) = record { head_list = buf a ∷ (peer (suc a) n).head_list; l_num = suc n }

-- Voice frames of two peers, and best effort frames of a third.
abbrev lists : List (List PeerList)
lists = (peer 10 2 ∷ (peer 20 3 ∷ [])) ∷ (([]) ∷ ((peer 0 0 ∷ (peer 30 4 ∷ [])) ∷ (([]) ∷ [])))

abbrev nums : List (List ℕ)
nums = (2 ∷ (3 ∷ [])) ∷ (([]) ∷ ((0 ∷ (4 ∷ [])) ∷ (([]) ∷ [])))

abbrev hundred : AtMostHundred default_ratios
hundred = record { vo = omega arith; vi = omega arith; be = omega arith }

-- Of six credits five go to the voice frames, and one to the others.
six_credits :
    (let m = merge_lists default_ratios 6 nums lists in m.sent)
    ≡ buf 10 ∷ (buf 11 ∷ (buf 20 ∷ (buf 21 ∷ (buf 22 ∷ (buf 30 ∷ [])))))
unfolding merge_lists total_of sum_of merge_some merge_peers min_num fp_num ratio_of cut
six_credits = refl

merge_lists-IsMerged_example : IsMerged 6 nums lists (merge_lists default_ratios 6 nums lists)
merge_lists-IsMerged_example =
    merge_lists-IsMerged default_ratios 6 nums lists hundred
      ((omega arith, (omega arith, tt)), (tt, ((omega arith, (omega arith, tt)), (tt, tt))))

abbrev sdio : Hardware
sdio = record { pcie = false; no_credit = false }

-- A station with three credits, and two shared colours with two and four.
abbrev colour : ℕ → ℕ → ℕ → Colour
colour mode i flow = record { mode = mode; color_bit = i; flow = flow; color_num = 0 }

abbrev transmit : Transmit
transmit = record {
  tx_list = record { q_list = lists; mode_list_num = 9 };
  to_send_list = buf 1 ∷ (buf 2 ∷ []);
  to_free_list = [];
  xmit_mode = 1;
  failcount = 0;
  credits = record {
    colours = colour 0 0 2 ∷ (colour 1 1 3 ∷ (colour 0 2 4 ∷ (colour 5 3 9 ∷ [])));
    ring_cp = 18;
    ring_ap = 0;
  };
  drop_cnt = 0;
  freed = [];
}

abbrev station : Env
station = record {
  hw = sdio;
  closed = λ m. false;
  mode = 1;
  ratios = default_ratios;
  late = λ n. false;
  maxnum = 20000;
  refused = false;
  cp_asserted = false;
}

abbrev right : IsTxT transmit.tx_list
unfolding weigh weigh_peers weigh_queues
right = record {
  counted = (
    (record { l_num = refl; int = omega arith }, (record { l_num = refl; int = omega arith }, tt)),
    (
      tt,
      (
        (
          record { l_num = refl; int = omega arith },
          (record { l_num = refl; int = omega arith }, tt),
        ),
        (tt, tt),
      ),
    ),
  );
  total = refl;
  int = omega arith;
}

handle_to_send_list-credits_example :
    credits_and_sent (handle_to_send_list station transmit).1 ≡ credits_and_sent transmit
unfolding fc_find_color_per_mode has_mode flow_of_mode fc_test_shared_num
handle_to_send_list-credits_example =
    handle_to_send_list-credits station transmit refl refl (cc) (omega arith)
      (omega arith, (omega arith, (omega arith, (omega arith, tt))))

-- One more frame is queued for the first peer, and a round is done.
abbrev with_frame : Transmit
with_frame = record transmit {
  tx_list = record {
    q_list = set_peer_list 0 0 (queue_data_msg_buf false (buf 7) (peer 10 2)) lists;
    mode_list_num = 10;
  };
}

Calls-Accounted_example : Accounted transmit (buf 7 ∷ []) (tx_eachmode_data station with_frame).1
unfolding queue_data peer_list
Calls-Accounted_example = Calls-Accounted right (
    round station
      (queued false (buf 7) 0 0 (peer 10 2) (no_call transmit) refl (omega arith) (omega arith)
        refl)
      hundred)

abbrev three_modes : AllModes
three_modes = record {
  credits = transmit.credits;
  tx_lists = transmit.tx_list ∷ (transmit.tx_list ∷ (transmit.tx_list ∷ []));
}

after_close-tx_lists_example :
    (handle_tx_status_after_close (λ m. true) 2 three_modes).tx_lists ≡ three_modes.tx_lists
after_close-tx_lists_example = after_close-tx_lists (λ m. true) 2 three_modes
