-- ===== src/Reorder/Loops.antt =====
-- The two sending loops: they end, stay inside the buffer, and leave the window alone.
use w132d_linux_mainline.Prelude.{
  ℕ, zero, suc, ◌+◌, ◌-◌, ◌%◌, ◌^◌, ◌<◌, ◌≤◌, ◌≡◌, ◌⊎◌, refl, ◌∙◌, [], some, false, arith, Returns,
  Returns-bind, Bool-cases, inl, inr, ◌==◌, Returns_mono, ==_iff,
}
use w132d_linux_mainline.Reorder.Types.{Pkt, NodeDesc, Output}
use w132d_linux_mainline.Reorder.Buffer.{
  slot, in_order_from, gap_round, with_gap_from, send_msdu_with_gap,
}
use w132d_linux_mainline.Reorder.Account.{Fits, Kept, slot_total, Kept-step, Kept-Fits}
use w132d_linux_mainline.Reorder.Conserve.{Taken, take_out-Taken}

-- The skbs are kept, and the window stands where it stood.
pub record Swept (q : Output) (d : NodeDesc) (q' : Output) (d' : NodeDesc) : Type 0 where
  pub skbs : Kept [] q d q' d'
  pub start : d'.win_start ≡ d.win_start
  pub limit : d'.win_limit ≡ d.win_limit
  pub tail : d'.win_tail ≡ d.win_tail
  pub size : d'.win_size ≡ d.win_size
  pub fewer : d'.buff_cnt ≤ d.buff_cnt

pub Swept-refl : (q : Output) (d : NodeDesc) → Swept q d q d
Swept-refl q d = record {
  skbs = record { same_skbs = λ a. omega arith; same_size = refl; same_mask = refl };
  start = refl;
  limit = refl;
  tail = refl;
  size = refl;
  fewer = omega arith;
}

pub Swept-trans :
    {q q' q'' : Output} {d d' d'' : NodeDesc}
    → Swept q d q' d'
    → Swept q' d' q'' d''
    → Swept q d q'' d''
Swept-trans s t = record {
  skbs = Kept-step [] s.skbs t.skbs;
  start = t.start ∙ s.start;
  limit = t.limit ∙ s.limit;
  tail = t.tail ∙ s.tail;
  size = t.size ∙ s.size;
  fewer = omega arith;
}

Taken-Swept : {i : ℕ} {q q' : Output} {d d' : NodeDesc} → Taken i q d q' d' → Swept q d q' d'
Taken-Swept t = record {
  skbs = t.skbs;
  start = t.start;
  limit = t.limit;
  tail = t.tail;
  size = t.size;
  fewer = omega (arith, t.cnt);
}

-- The packet of `seq_num` is not complete, or nothing is left.
abbrev pub Drained : NodeDesc → ℕ → Type 0
Drained d seq_num =
    (d.buff_cnt ≡ 0) ⊎ ((p : Pkt) × (slot d seq_num ≡ some p) × (p.desc.last ≡ false))

found :
    (d : NodeDesc) (seq_num : ℕ) → Fits d → Returns (slot d seq_num) (λ p. slot d seq_num ≡ some p)
found d seq_num f = let (p, e) = slot_total d seq_num f in (p, e, e)

taken_lt : {cnt cnt' fuel : ℕ} → (cnt == 0) ≡ false → cnt < suc fuel → cnt' ≡ cnt - 1 → cnt' < fuel
taken_lt e h t = ground arith

pub in_order_from-Swept :
    (fuel seq_num : ℕ) (q : Output) (d : NodeDesc)
    → d.buff_cnt < fuel
    → Fits d
    → Returns (in_order_from fuel seq_num q d) (λ (q', d', s). Swept q d q' d' × Drained d' s)
unfolding in_order_from
in_order_from-Swept zero seq_num q d h f = absurd (omega arith)
in_order_from-Swept (suc fuel) seq_num q d h f = elim (Bool-cases (d.buff_cnt == 0)) [
  | inl e ↦ rw (e, in_order_from) (_, refl, (Swept-refl q d, inl ((==_iff _ _).0 e)))
  | inr e ↦
      rw (e, in_order_from)
        (Returns-bind _ (λ p. slot d seq_num ≡ some p) _ (found d seq_num f)
          (λ p at. elim (Bool-cases p.desc.last) [
            | inr l ↦ rw l (_, refl, (Swept-refl q d, inr (p, at, l)))
            | inl l ↦ rw l (
                Returns-bind _ _ _ (take_out-Taken q d seq_num p at) (λ (q', d') t.
                  Returns_mono
                    (in_order_from-Swept fuel ((seq_num + 1) % 2 ^ 16) q' d' (taken_lt e h t.cnt)
                      (Kept-Fits t.skbs f))
                    (λ out o. (Swept-trans (Taken-Swept t) o.0, o.1))))
          ]))
]

gap_round-Swept :
    (q : Output) (d : NodeDesc) (seq_num : ℕ)
    → Fits d
    → Returns (gap_round q d seq_num) (λ (q', d'). Swept q d q' d')
unfolding gap_round
gap_round-Swept q d seq_num f = elim (Bool-cases (d.buff_cnt == 0)) [
  | inl e ↦ rw e (_, refl, Swept-refl q d)
  | inr e ↦ rw e (
      Returns-bind _ (λ p. slot d seq_num ≡ some p) _ (found d seq_num f)
        (λ p at. elim (Bool-cases (p.desc.msdu_num == 0)) [
          | inl l ↦ rw l (_, refl, Swept-refl q d)
          | inr l ↦ rw l (Returns_mono (take_out-Taken q d seq_num p at) (λ out t. Taken-Swept t))
        ]))
]

with_gap_from-Swept :
    (num seq_num : ℕ) (q : Output) (d : NodeDesc)
    → Fits d
    → Returns (with_gap_from num seq_num q d) (λ (q', d'). Swept q d q' d')
unfolding with_gap_from
with_gap_from-Swept zero seq_num q d f = (_, refl, Swept-refl q d)
with_gap_from-Swept (suc num) seq_num q d f =
    Returns-bind _ _ _ (gap_round-Swept q d seq_num f) (λ (q', d') s.
      Returns_mono (with_gap_from-Swept num ((seq_num + 1) % 2 ^ 16) q' d' (Kept-Fits s.skbs f))
        (λ out o. Swept-trans s o))

-- The loop over a gap ends, faults nowhere, keeps every skb and leaves the window where it is.
pub send_msdu_with_gap-Swept :
    (q : Output) (d : NodeDesc) (last_seqno : ℕ)
    → Fits d
    → Returns (send_msdu_with_gap q d last_seqno) (λ (q', d'). Swept q d q' d')
unfolding send_msdu_with_gap
send_msdu_with_gap-Swept q d last_seqno f = with_gap_from-Swept _ d.win_start q d f
