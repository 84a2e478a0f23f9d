-- ===== src/Queues/Changes.antt =====
-- What a new frame and the flushes of tx_msg.c do to the frames and the counters of the queues.
use w132d_linux_mainline.Prelude.{
  ℕ, ◌+◌, ◌^◌, ◌<◌, ◌≡◌, refl, sym, ap, Bool, true, List, [], ◌∷◌, ◌++◌, map, some, arith,
  if◌then◌else◌, if_cases, length, subst,
}
use w132d_linux_mainline.Queues.{
  Buf, PeerList, atomic_sub, atomic_add, empty_peer, queue_data_msg_buf,
}
use w132d_linux_mainline.Queues.Order.{IsCounted, AllCounted, QueuesCounted}
use w132d_linux_mainline.Queues.Weight.{
  weigh, weigh_peers, weigh_queues, each_one, weigh-append, weigh-each_one,
}
use w132d_linux_mainline.Queues.Handlers.{Transmit}
use w132d_linux_mainline.Queues.Flush.{
  peer_list, set_peer_list, with_queues, queue_data, is_empty, flush_tx_qoslist, flush_peer,
  waiting_peers, waiting, flush_lists, flush_mode_txlist,
}
use w132d_linux_mainline.Queues.Placed.{placed, queued_weight, queued-IsCounted}
use w132d_linux_mainline.Queues.Kept.{IsTxT, weight, Keeps}

empty_nil : (l : List Buf) → is_empty l ≡ true → l ≡ []
empty_nil [] e = refl
empty_nil (b ∷ l) e = absurd (cc)

empty_IsCounted : IsCounted empty_peer
empty_IsCounted = record { l_num = refl; int = omega arith }

-- The lists and the weight of all frames after a buffer was queued.
pub record Queues (b : Buf) (t t' : Transmit) : Type 0 where
  pub lists : IsTxT t'.tx_list
  pub weight : (f : Buf → ℕ) → weight f t' ≡ weight f t + f b

pub queue_data-Queues :
    (first : Bool) (b : Buf) (i j : ℕ) (p : PeerList) (t t' : Transmit)
    → IsTxT t.tx_list
    → peer_list i j t.tx_list.q_list ≡ some p
    → length p.head_list < 46340
    → t.tx_list.mode_list_num + 1 < 2 ^ 31
    → queue_data first b i j t ≡ some t'
    → Queues b t t'
unfolding queue_data weight
queue_data-Queues first b i j p t t' h here room small e =
    let qs = t.tx_list.q_list in
    let p' = queue_data_msg_buf first b p in
    let pl = placed i j p qs here in
    let made : Transmit =
      with_queues (set_peer_list i j p' qs) (atomic_add 1 t.tx_list.mode_list_num) t in
    let result : queue_data first b i j t ≡ some made = rw (here, queue_data) refl in
    let same : made ≡ t' = cc in
    let c = queued-IsCounted first b p room (pl.counted h.counted) in
    let w = pl.weight each_one p' in
    let q = queued_weight each_one first b p in
    let total = h.total in
    subst (Queues b t) same (record {
      lists = record {
        counted = pl.replaced p' h.counted c;
        total = omega (arith, w, q, total, small);
        int = omega (arith, w, q, total, small);
      };
      weight =
          λ f. let w = pl.weight f p' in let q = queued_weight f first b p in omega (arith, w, q);
    })

pub flush_tx_qoslist-Keeps :
    (i j : ℕ) (p : PeerList) (t t' : Transmit)
    → IsTxT t.tx_list
    → peer_list i j t.tx_list.q_list ≡ some p
    → flush_tx_qoslist i j t ≡ some t'
    → Keeps t t'
unfolding flush_tx_qoslist weight weigh
flush_tx_qoslist-Keeps i j p t t' h here e =
    let qs = t.tx_list.q_list in
    let flushed : Transmit =
      with_queues (set_peer_list i j empty_peer qs) (atomic_sub p.l_num t.tx_list.mode_list_num)
        t in
    let made : Transmit =
      if is_empty p.head_list then t else record flushed { freed = t.freed ++ p.head_list } in
    let result : flush_tx_qoslist i j t ≡ some made = rw (here, flush_tx_qoslist) refl in
    let same : made ≡ t' = cc in
    let pl = placed i j p qs here in
    let c = pl.counted h.counted in
    let w = pl.weight each_one empty_peer in
    let l = weigh-each_one p.head_list in
    let l_num = c.l_num in
    let total = h.total in
    let int = h.int in
    subst (Keeps t) same (
      if_cases (Keeps t) (is_empty p.head_list) t
        (record flushed { freed = t.freed ++ p.head_list })
        (λ nothing. record { lists = h; weight = λ f. refl })
        (λ some. record {
          lists = record {
            counted = pl.replaced empty_peer h.counted empty_IsCounted;
            total = omega (arith, w, l, l_num, total, int);
            int = omega (arith, w, int);
          };
          weight = λ f.
              let w = pl.weight f empty_peer in
              let a = weigh-append f t.freed p.head_list in omega (arith, w, a);
        }))

flush_peers_lem :
    (ps : List PeerList)
    → AllCounted ps
    → AllCounted (map flush_peer ps)
      × ((f : Buf → ℕ) → weigh_peers f (map flush_peer ps) ≡ 0)
      × ((f : Buf → ℕ) → weigh f (waiting_peers ps) ≡ weigh_peers f ps)
unfolding weigh_peers waiting_peers weigh
flush_peers_lem [] c = (tt, λ f. refl, λ f. refl)
flush_peers_lem (p ∷ ps) (c, cs) =
    let rest = flush_peers_lem ps cs in
    (
      (
        if_cases IsCounted (is_empty p.head_list) p empty_peer (λ e. c) (λ e. empty_IsCounted),
        rest.0,
      ),
      λ f.
          let here : weigh f (flush_peer p).head_list ≡ 0 =
            if_cases (λ (q : PeerList). weigh f q.head_list ≡ 0) (is_empty p.head_list) p empty_peer
              (λ e. ap (weigh f) (empty_nil p.head_list e)) (λ e. refl) in
          omega (arith, here, rest.1 f),
      λ f. let a = weigh-append f p.head_list (waiting_peers ps) in omega (arith, a, rest.2 f),
    )

flush_lists_lem :
    (qs : List (List PeerList))
    → QueuesCounted qs
    → QueuesCounted (map (map flush_peer) qs)
      × ((f : Buf → ℕ) → weigh_queues f (map (map flush_peer) qs) ≡ 0)
      × ((f : Buf → ℕ) → weigh f (waiting qs) ≡ weigh_queues f qs)
unfolding weigh_queues waiting weigh
flush_lists_lem [] c = (tt, λ f. refl, λ f. refl)
flush_lists_lem (ps ∷ qs) (c, cs) =
    let here = flush_peers_lem ps c in
    let rest = flush_lists_lem qs cs in
    (
      (here.0, rest.0),
      λ f. omega (arith, here.1 f, rest.1 f),
      λ f.
          let a = weigh-append f (waiting_peers ps) (waiting qs) in
          omega (arith, a, here.2 f, rest.2 f),
    )

pub flush_mode_txlist-Keeps : (t : Transmit) → IsTxT t.tx_list → Keeps t (flush_mode_txlist t)
unfolding flush_mode_txlist flush_lists weight
flush_mode_txlist-Keeps t h =
    let l = flush_lists_lem t.tx_list.q_list h.counted in
    let none_left = l.1 each_one in
    record {
      lists = record { counted = l.0; total = sym none_left; int = omega (arith, none_left) };
      weight = λ f.
          let a = weigh-append f t.freed (waiting t.tx_list.q_list) in
          omega (arith, a, l.1 f, l.2 f);
    }
