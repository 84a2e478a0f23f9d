-- ===== src/Queues/Kept.antt =====
-- What sprdwl_tx_eachmode_data of tx_msg.c keeps: the frames, and the counters of the lists.
use w132d_linux_mainline.Prelude.{
  ℕ, zero, suc, ◌+◌, ◌%◌, ◌^◌, ◌<◌, ◌≡◌, refl, ◌∙◌, sym, Bool, true, false, ◌&&◌, ◌||◌, not, List,
  [], ◌++◌, arith, leb, ltb, ◌==◌, if_cases, length, take, drop, subst,
}
use w132d_linux_mainline.Prelude.Memory.{take-append-drop}
use w132d_linux_mainline.Credit.{
  Granted, frames, enomem, fc_get_send_num, fc_test_send_num, handle_tx_return,
}
use w132d_linux_mainline.Queues.{Buf, PeerList, TxT, cut, atomic_sub, total_of, merge_lists}
use w132d_linux_mainline.Queues.Share.{AtMostHundred}
use w132d_linux_mainline.Queues.Taken.{FitsAll}
use w132d_linux_mainline.Queues.Merge.{merge_lists-exact, merge_lists-RunAll}
use w132d_linux_mainline.Queues.Order.{QueuesCounted, FromFronts, runs_front, runs_counted}
use w132d_linux_mainline.Queues.Weight.{
  weigh, weigh_queues, each_one, weigh-append, weigh_split, weigh-each_one, fronts_weight,
}
use w132d_linux_mainline.Queues.Timeouts.{count_queues-CountsAll}
use w132d_linux_mainline.Queues.Handlers.{
  Env, Transmit, count_queues, intf_tx_list, flush_tosendlist, count_failure, send_granted, send_if,
  handle_to_send_list, after_timeouts, merge, merge_if, tx_eachmode_data,
}

-- The counters of the lists are right, and so is the one of the mode.
pub record IsTxT (l : TxT) : Type 0 where
  pub counted : QueuesCounted l.q_list
  pub total : l.mode_list_num ≡ weigh_queues each_one l.q_list
  pub int : weigh_queues each_one l.q_list < 2 ^ 31

-- The weight of all frames: those that wait, those to be sent, those that are being sent, and those
-- that were freed.
unfoldable pub weight : (Buf → ℕ) → Transmit → ℕ
weight f t =
    weigh_queues f t.tx_list.q_list
    + (weigh f t.to_send_list + (weigh f t.to_free_list + weigh f t.freed))

-- With every weight of the frames the sum is the same, so none is lost or doubled.
pub record Keeps (t t' : Transmit) : Type 0 where
  pub lists : IsTxT t'.tx_list
  pub weight : (f : Buf → ℕ) → weight f t' ≡ weight f t

pub Keeps-trans : {t t' t'' : Transmit} → Keeps t t' → Keeps t' t'' → Keeps t t''
Keeps-trans k l = record { lists = l.lists; weight = λ f. l.weight f ∙ k.weight f }

cut_append : (n : ℕ) (l : List Buf) → (cut n l).0 ++ (cut n l).1 ≡ l
unfolding cut
cut_append n l =
    if_cases (λ (r : List Buf × List Buf). r.0 ++ r.1 ≡ l) (leb n (length l)) (take n l, drop n l)
      ([], l) (λ e. take-append-drop n l) (λ e. refl)

intf_tx_list-Keeps :
    (refused : Bool) (k : ℕ) (t : Transmit) → IsTxT t.tx_list → Keeps t (intf_tx_list refused k t)
unfolding intf_tx_list weight
intf_tx_list-Keeps true k t h = record { lists = h; weight = λ f. refl }
intf_tx_list-Keeps false k t h = record {
  lists = h;
  weight = λ f.
      let parts = cut k t.to_send_list in
      let a = weigh_split f t.to_send_list parts.0 parts.1 (sym (cut_append k t.to_send_list)) in
      let b = weigh-append f t.to_free_list parts.0 in omega (arith, a, b);
}

flush_tosendlist-Keeps : (t : Transmit) → IsTxT t.tx_list → Keeps t (flush_tosendlist t)
unfolding flush_tosendlist weight weigh
flush_tosendlist-Keeps t h = record {
  lists = h;
  weight = λ f. let a = weigh-append f t.freed t.to_send_list in omega (arith, a);
}

-- The same lists
same_lists :
    {t t' : Transmit}
    → IsTxT t.tx_list
    → t'.tx_list ≡ t.tx_list
    → ((f : Buf → ℕ) → weight f t' ≡ weight f t)
    → Keeps t t'
same_lists h e w = record { lists = subst IsTxT (sym e) h; weight = w }

count_failure-Keeps : (t : Transmit) → IsTxT t.tx_list → Keeps t (count_failure t)
unfolding count_failure weight
count_failure-Keeps t h =
    let n = (t.failcount + 1) % 2 ^ 64 in
    if_cases (Keeps t) (ltb 10 n) (flush_tosendlist (record t { failcount = 0 }))
      (record t { failcount = n })
      (λ e.
        let k = flush_tosendlist-Keeps (record t { failcount = 0 }) h in
        record { lists = k.lists; weight = k.weight })
      (λ e. same_lists h refl (λ f. refl))

send_granted-Keeps :
    (env : Env) (k : ℕ) (t : Transmit) → IsTxT t.tx_list → Keeps t (send_granted env k t).1
unfolding send_granted weight
send_granted-Keeps env k t h =
    let marked = record t { xmit_mode = env.mode } in
    let a = same_lists {t' = marked} h refl (λ f. refl) in
    let b = intf_tx_list-Keeps env.refused k marked a.lists in
    let moved = intf_tx_list env.refused k marked in
    let returned = record moved { credits = handle_tx_return env.hw env.refused k moved.credits } in
    let c = same_lists {t' = returned} b.lists refl (λ f. refl) in
    let all = Keeps-trans (Keeps-trans a b) c in
    if_cases (λ (r : Bool × Transmit). Keeps t r.1) env.refused (false, count_failure returned)
      (true, returned) (λ e. Keeps-trans all (count_failure-Keeps returned c.lists)) (λ e. all)

send_if-Keeps :
    (env : Env) (g : Granted) (t : Transmit) → IsTxT t.tx_list → Keeps t (send_if env g t).1
send_if-Keeps env enomem t h = same_lists h refl (λ f. refl)
send_if-Keeps env (frames zero) t h = same_lists h refl (λ f. refl)
send_if-Keeps env (frames (suc k)) t h = send_granted-Keeps env (suc k) t h

pub handle_to_send_list-Keeps :
    (env : Env) (t : Transmit) → IsTxT t.tx_list → Keeps t (handle_to_send_list env t).1
unfolding handle_to_send_list weight
handle_to_send_list-Keeps env t h =
    let n = length t.to_send_list in
    let credit = fc_get_send_num env.hw env.closed env.mode n t.credits.colours in
    let charged = record t { credits = record t.credits { colours = credit.1 } } in
    let a = same_lists {t' = charged} h refl (λ f. refl) in
    if_cases (λ (r : Bool × Transmit). Keeps t r.1) (env.cp_asserted || n == 0) (true, t)
      (send_if env credit.0 charged) (λ e. same_lists h refl (λ f. refl))
      (λ e. Keeps-trans a (send_if-Keeps env credit.0 charged a.lists))

-- After a part of the lists is taken, and the counter of the mode decreased by its length.
taken-IsTxT :
    (l : TxT) (sent : List Buf) (qs : List (List PeerList)) (n : ℕ)
    → IsTxT l
    → FromFronts l.q_list sent qs
    → QueuesCounted qs
    → n ≡ length sent
    → IsTxT (record { q_list = qs; mode_list_num = atomic_sub n l.mode_list_num })
taken-IsTxT l sent qs n h front counted e =
    let a = fronts_weight each_one l.q_list sent qs front in
    let b = weigh-each_one sent in
    let total = h.total in
    let int = h.int in
    record {
      counted = counted;
      total = omega (arith, a, b, e, total, int);
      int = omega (arith, a, int);
    }

after_timeouts-Keeps : (env : Env) (t : Transmit) → IsTxT t.tx_list → Keeps t (after_timeouts env t)
unfolding after_timeouts weight
after_timeouts-Keeps env t h =
    let c = count_queues env t.tx_list.q_list in
    let k = count_queues-CountsAll env t.tx_list.q_list h.counted in
    let n = length c.dropped in
    let a = fronts_weight each_one t.tx_list.q_list c.dropped c.queues k.front in
    let b = weigh-each_one c.dropped in
    let int = h.int in
    record {
      lists =
          taken-IsTxT t.tx_list c.dropped c.queues (n % 2 ^ 32) h k.front k.counted
            (omega (arith, a, b, int));
      weight = λ f.
          let a = fronts_weight f t.tx_list.q_list c.dropped c.queues k.front in
          let b = weigh-append f t.freed c.dropped in omega (arith, a, b);
    }

merge-Keeps :
    (env : Env) (k : ℕ) (nums : List (List ℕ)) (t : Transmit)
    → AtMostHundred env.ratios
    → FitsAll nums t.tx_list.q_list
    → IsTxT t.tx_list
    → Keeps t (merge env k nums t)
unfolding merge weight
merge-Keeps env k nums t ok fits h =
    let m = merge_lists env.ratios k nums t.tx_list.q_list in
    let run = merge_lists-RunAll env.ratios k nums t.tx_list.q_list ok fits in
    let front = runs_front run in
    let exact = merge_lists-exact env.ratios k nums t.tx_list.q_list ok fits in
    record {
      lists =
          taken-IsTxT t.tx_list m.sent m.queues m.taken h front (runs_counted run h.counted)
            (exact.1 ∙ sym exact.0);
      weight = λ f.
          let a = fronts_weight f t.tx_list.q_list m.sent m.queues front in
          let b = weigh-append f t.to_send_list m.sent in omega (arith, a, b);
    }

merge_if-Keeps :
    (env : Env) (g : Granted) (nums : List (List ℕ)) (t : Transmit)
    → AtMostHundred env.ratios
    → FitsAll nums t.tx_list.q_list
    → IsTxT t.tx_list
    → Keeps t (merge_if env g nums t).1
unfolding weight
merge_if-Keeps env enomem nums t ok fits h = same_lists h refl (λ f. refl)
merge_if-Keeps env (frames k) nums t ok fits h =
    let a = merge-Keeps env k nums t ok fits h in
    if_cases (λ (r : Bool × Transmit). Keeps t r.1) (not (total_of nums == 0) && k == 0) (false, t)
      (handle_to_send_list env (merge env k nums t)) (λ e. same_lists h refl (λ f. refl))
      (λ e. Keeps-trans a (handle_to_send_list-Keeps env (merge env k nums t) a.lists))

-- A round for a mode loses no frame and doubles none: each one waits, is to be sent, is being sent or
-- was freed. The counters of the lists and of the mode stay right. The conditions: no ratio is above
-- 100, and the counters were right, with at most 46340 frames in a list, fewer than 2^31 in all.
pub tx_eachmode_data-Keeps :
    (env : Env) (t : Transmit)
    → AtMostHundred env.ratios
    → IsTxT t.tx_list
    → Keeps t (tx_eachmode_data env t).1
unfolding tx_eachmode_data weight after_timeouts
tx_eachmode_data-Keeps env t ok h =
    let c = count_queues-CountsAll env t.tx_list.q_list h.counted in
    let nums = (count_queues env t.tx_list.q_list).nums in
    let timed = after_timeouts env t in
    let test = fc_test_send_num env.hw env.closed env.mode (total_of nums) timed.credits.colours in
    let tested = record timed { credits = record timed.credits { colours = test.1 } } in
    let a = after_timeouts-Keeps env t h in
    let b = same_lists {t' = tested} a.lists refl (λ f. refl) in
    Keeps-trans (Keeps-trans a b) (merge_if-Keeps env test.0 nums tested ok c.fits b.lists)
