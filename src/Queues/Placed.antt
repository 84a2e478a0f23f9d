-- ===== src/Queues/Placed.antt =====
-- One list among the transmit queues of tx_msg.c, and what a new frame on it changes.
use w132d_linux_mainline.Prelude.{
  ℕ, zero, suc, ◌+◌, ◌<◌, ◌≡◌, refl, ap, Bool, true, false, List, [], ◌∷◌, some, arith, length,
  length-append, get_elem?, set, subst,
}
use w132d_linux_mainline.Queues.{Buf, PeerList, queue_data_msg_buf}
use w132d_linux_mainline.Queues.Order.{IsCounted, AllCounted, QueuesCounted}
use w132d_linux_mainline.Queues.Weight.{weigh, weigh_peers, weigh_queues, weigh-append}
use w132d_linux_mainline.Queues.Flush.{peer_list, set_peer_list}

-- A list in its place: the weight of all is the weight of the others and its own.
pub record Placed (i j : ℕ) (p : PeerList) (qs : List (List PeerList)) : Type 0 where
  pub counted : QueuesCounted qs → IsCounted p
  pub replaced :
      (p' : PeerList) → QueuesCounted qs → IsCounted p' → QueuesCounted (set_peer_list i j p' qs)
  pub weight :
      (f : Buf → ℕ) (p' : PeerList)
      → weigh_queues f (set_peer_list i j p' qs) + weigh f p.head_list
        ≡ weigh_queues f qs + weigh f p'.head_list

record InPlace (j : ℕ) (p : PeerList) (ps : List PeerList) : Type 0 where
  counted : AllCounted ps → IsCounted p
  replaced : (p' : PeerList) → AllCounted ps → IsCounted p' → AllCounted (set ps j p')
  weight :
      (f : Buf → ℕ) (p' : PeerList)
      → weigh_peers f (set ps j p') + weigh f p.head_list ≡ weigh_peers f ps + weigh f p'.head_list

in_place : (j : ℕ) (p : PeerList) (ps : List PeerList) → get_elem? ps j ≡ some p → InPlace j p ps
unfolding weigh_peers
in_place j p [] e = absurd (cc)
in_place zero p (q ∷ ps) e =
    let same : q ≡ p = cc in
    record {
      counted = λ c. subst IsCounted same c.0;
      replaced = λ p' c d. (d, c.1);
      weight = λ f p'.
          let w : weigh f q.head_list ≡ weigh f p.head_list =
            ap (λ (x : PeerList). weigh f x.head_list) same in
          omega (arith, w);
    }
in_place (suc j) p (q ∷ ps) e =
    let h = in_place j p ps e in
    record {
      counted = λ c. h.counted c.1;
      replaced = λ p' c d. (c.0, h.replaced p' c.1 d);
      weight = λ f p'. omega (arith, h.weight f p');
    }

pub placed :
    (i j : ℕ) (p : PeerList) (qs : List (List PeerList))
    → peer_list i j qs ≡ some p
    → Placed i j p qs
unfolding peer_list set_peer_list weigh_queues
placed i j p [] e = absurd (cc)
placed zero j p (ps ∷ qs) e =
    let h = in_place j p ps e in
    record {
      counted = λ c. h.counted c.0;
      replaced = λ p' c d. (h.replaced p' c.0 d, c.1);
      weight = λ f p'. omega (arith, h.weight f p');
    }
placed (suc i) j p (ps ∷ qs) e =
    let h = placed i j p qs e in
    record {
      counted = λ c. h.counted c.1;
      replaced = λ p' c d. (c.0, h.replaced p' c.1 d);
      weight = λ f p'. omega (arith, h.weight f p');
    }

pub queued_weight :
    (f : Buf → ℕ) (first : Bool) (b : Buf) (p : PeerList)
    → weigh f (queue_data_msg_buf first b p).head_list ≡ f b + weigh f p.head_list
unfolding queue_data_msg_buf weigh
queued_weight f true b p = refl
queued_weight f false b p = let a = weigh-append f p.head_list (b ∷ []) in omega (arith, a)

pub queued-IsCounted :
    (first : Bool) (b : Buf) (p : PeerList)
    → length p.head_list < 46340
    → IsCounted p
    → IsCounted (queue_data_msg_buf first b p)
unfolding queue_data_msg_buf
queued-IsCounted true b p small c =
    let e = c.l_num in record { l_num = omega (arith, e, small); int = omega (arith, small) }
queued-IsCounted false b p small c =
    let e = c.l_num in
    let a = length-append p.head_list (b ∷ []) in
    record { l_num = omega (arith, e, a, small); int = omega (arith, a, small) }
