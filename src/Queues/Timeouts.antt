-- ===== src/Queues/Timeouts.antt =====
-- handle_tx_timeout of tx_msg.c, and the first loop of sprdwl_tx_eachmode_data.
use native.Mathlib.Nat.{mul-le-mul}
use w132d_linux_mainline.Prelude.{
  ℕ, ◌-◌, ◌*◌, ◌/◌, ◌%◌, ◌^◌, ◌≤◌, ◌≡◌, refl, sym, ap, false, List, [], ◌∷◌, ◌++◌, arith, if_cases,
  if_false, length, drop, subst,
}
use w132d_linux_mainline.Prelude.Memory.{length-drop, take-append-drop}
use w132d_linux_mainline.Credit.{is_negative}
use w132d_linux_mainline.Queues.{PeerList, min}
use w132d_linux_mainline.Queues.Taken.{Fits, FitsAll}
use w132d_linux_mainline.Queues.Order.{IsCounted, AllCounted, QueuesCounted, FromFront, FromFronts}
use w132d_linux_mainline.Queues.Handlers.{
  Env, Timed, drop_late, first_late, handle_tx_timeout, Counted, is_positive, count_peers,
  CountedAll, count_queues,
}

-- The frames that are dropped are the first of the list, and the counter is right after it.
pub record Drops (p : PeerList) (t : Timed) : Type 0 where
  pub front : p.head_list ≡ t.dropped ++ t.peer.head_list
  pub counted : IsCounted t.peer

drop_late-Drops : (maxnum : ℕ) (p : PeerList) → IsCounted p → Drops p (drop_late maxnum p)
unfolding drop_late
drop_late-Drops maxnum p c =
    let l = length p.head_list in
    let n = min (p.l_num * p.l_num % 2 ^ 32 / maxnum) p.l_num in
    let small : l * l ≤ 46340 * 46340 = mul-le-mul c.int c.int in
    let e : p.l_num * p.l_num ≡ l * l = ap (λ k. k * k) c.l_num in
    let square : p.l_num * p.l_num % 2 ^ 32 ≡ l * l = omega (arith, small, e) in
    let fits : is_negative (p.l_num * p.l_num % 2 ^ 32) ≡ false = ground (arith, square, small) in
    let rest : length (drop n p.head_list) ≡ l - n = length-drop n p.head_list in
    let some_left : n ≤ p.l_num = ground arith in
    let l_num = c.l_num in
    let int = c.int in
    subst (Drops p) (sym (if_false _ _ fits)) (record {
      front = sym (take-append-drop n p.head_list);
      counted = record {
        l_num = omega (arith, rest, some_left, l_num, int);
        int = omega (arith, rest, int);
      };
    })

pub handle_tx_timeout-Drops :
    (env : Env) (p : PeerList) → IsCounted p → Drops p (handle_tx_timeout env p)
unfolding handle_tx_timeout
handle_tx_timeout-Drops env p c =
    if_cases (Drops p) (first_late env.late p.head_list) (drop_late env.maxnum p)
      (record { timeout = false; dropped = []; peer = p }) (λ late. drop_late-Drops env.maxnum p c)
      (λ early. record { front = refl; counted = c })

pub record Counts (ps : List PeerList) (c : Counted) : Type 0 where
  pub front : FromFront ps c.dropped c.peers
  pub counted : AllCounted c.peers
  pub fits : Fits c.nums c.peers

pub count_peers-Counts :
    (env : Env) (ps : List PeerList) → AllCounted ps → Counts ps (count_peers env ps)
unfolding count_peers
count_peers-Counts env [] c = record { front = refl; counted = tt; fits = tt }
count_peers-Counts env (p ∷ ps) (c, cs) =
    let rest = count_peers env ps in
    let ih = count_peers-Counts env ps cs in
    let timed = handle_tx_timeout env p in
    let d = handle_tx_timeout-Drops env p c in
    let l_num = d.counted.l_num in
    if_cases (Counts (p ∷ ps)) (is_positive p.l_num)
      (record {
        dropped = timed.dropped ++ rest.dropped;
        peers = timed.peer ∷ rest.peers;
        nums = timed.peer.l_num ∷ rest.nums;
      })
      (record { dropped = rest.dropped; peers = p ∷ rest.peers; nums = 0 ∷ rest.nums })
      (λ some. record {
        front = (timed.dropped, rest.dropped, refl, d.front, ih.front);
        counted = (d.counted, ih.counted);
        fits = (omega (arith, l_num), ih.fits);
      })
      (λ none. record {
        front = ([], rest.dropped, refl, refl, ih.front);
        counted = (c, ih.counted);
        fits = (omega arith, ih.fits);
      })

pub record CountsAll (qs : List (List PeerList)) (c : CountedAll) : Type 0 where
  pub front : FromFronts qs c.dropped c.queues
  pub counted : QueuesCounted c.queues
  pub fits : FitsAll c.nums c.queues

pub count_queues-CountsAll :
    (env : Env) (qs : List (List PeerList)) → QueuesCounted qs → CountsAll qs (count_queues env qs)
unfolding count_queues
count_queues-CountsAll env [] c = record { front = refl; counted = tt; fits = tt }
count_queues-CountsAll env (ps ∷ qs) (c, cs) =
    let first = count_peers-Counts env ps c in
    let rest = count_queues-CountsAll env qs cs in
    record {
      front = (
        (count_peers env ps).dropped,
        (count_queues env qs).dropped,
        refl,
        first.front,
        rest.front,
      );
      counted = (first.counted, rest.counted);
      fits = (first.fits, rest.fits);
    }
