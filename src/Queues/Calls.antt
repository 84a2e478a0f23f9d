-- ===== src/Queues/Calls.antt =====
-- The transmit queues of tx_msg.c over any sequence of calls.
use w132d_linux_mainline.Prelude.{
  ℕ, ◌+◌, ◌^◌, ◌<◌, ◌≡◌, ◌∙◌, Bool, List, [], ◌∷◌, some, arith, length,
}
use w132d_linux_mainline.Queues.{Buf, PeerList}
use w132d_linux_mainline.Queues.Share.{AtMostHundred}
use w132d_linux_mainline.Queues.Weight.{weigh}
use w132d_linux_mainline.Queues.Handlers.{Env, Transmit, handle_to_send_list, tx_eachmode_data}
use w132d_linux_mainline.Queues.Flush.{peer_list, queue_data, flush_tx_qoslist, flush_mode_txlist}
use w132d_linux_mainline.Queues.Kept.{
  IsTxT, weight, Keeps, handle_to_send_list-Keeps, tx_eachmode_data-Keeps,
}
use w132d_linux_mainline.Queues.Changes.{
  queue_data-Queues, flush_tx_qoslist-Keeps, flush_mode_txlist-Keeps,
}

-- Any calls for a mode, with the buffers that were queued by them.
pub data Calls : Transmit → List Buf → Transmit → Type 0 where
  no_call : (t : Transmit) → Calls t [] t
  queued :
      (first : Bool) (b : Buf) (i j : ℕ) (p : PeerList) {t t' t'' : Transmit} {bs : List Buf}
      → Calls t bs t'
      → peer_list i j t'.tx_list.q_list ≡ some p
      → length p.head_list < 46340
      → t'.tx_list.mode_list_num + 1 < 2 ^ 31
      → queue_data first b i j t' ≡ some t''
      → Calls t (b ∷ bs) t''
  round :
      (env : Env) {t t' : Transmit} {bs : List Buf}
      → Calls t bs t'
      → AtMostHundred env.ratios
      → Calls t bs (tx_eachmode_data env t').1
  pending :
      (env : Env) {t t' : Transmit} {bs : List Buf}
      → Calls t bs t'
      → Calls t bs (handle_to_send_list env t').1
  flushed :
      (i j : ℕ) (p : PeerList) {t t' t'' : Transmit} {bs : List Buf}
      → Calls t bs t'
      → peer_list i j t'.tx_list.q_list ≡ some p
      → flush_tx_qoslist i j t' ≡ some t''
      → Calls t bs t''
  mode_flushed :
      {t t' : Transmit} {bs : List Buf} → Calls t bs t' → Calls t bs (flush_mode_txlist t')

-- The counters of the lists are right, and each frame that was there or was queued is in one place.
pub record Accounted (t : Transmit) (bs : List Buf) (t' : Transmit) : Type 0 where
  pub lists : IsTxT t'.tx_list
  pub weight : (f : Buf → ℕ) → weight f t' ≡ weight f t + weigh f bs

account :
    {t t' t'' : Transmit} {bs : List Buf} → Accounted t bs t' → Keeps t' t'' → Accounted t bs t''
account a k = record { lists = k.lists; weight = λ f. k.weight f ∙ a.weight f }

-- Whatever is called, and in which order: each frame that is queued waits, is to be sent, is being
-- sent or was freed, and is in no second place; the counter of each list is its length, and the one
-- of the mode the sum of them. The conditions, besides right counters at the start: no list grows
-- past 46340 frames, the lists of a mode stay below 2^31, and no ratio is above 100.
pub Calls-Accounted :
    {t t' : Transmit} {bs : List Buf} → IsTxT t.tx_list → Calls t bs t' → Accounted t bs t'
unfolding weigh
Calls-Accounted h (no_call t) = record { lists = h; weight = λ f. omega arith }
Calls-Accounted h (queued first b i j p {t' = t'} {t'' = t''} calls here room small e) =
    let a = Calls-Accounted h calls in
    let q = queue_data-Queues first b i j p t' t'' a.lists here room small e in
    record { lists = q.lists; weight = λ f. omega (arith, q.weight f, a.weight f) }
Calls-Accounted h (round env {t' = t'} calls ok) =
    let a = Calls-Accounted h calls in account a (tx_eachmode_data-Keeps env t' ok a.lists)
Calls-Accounted h (pending env {t' = t'} calls) =
    let a = Calls-Accounted h calls in account a (handle_to_send_list-Keeps env t' a.lists)
Calls-Accounted h (flushed i j p {t' = t'} {t'' = t''} calls here e) =
    let a = Calls-Accounted h calls in
    account a (flush_tx_qoslist-Keeps i j p t' t'' a.lists here e)
Calls-Accounted h (mode_flushed {t' = t'} calls) =
    let a = Calls-Accounted h calls in account a (flush_mode_txlist-Keeps t' a.lists)
