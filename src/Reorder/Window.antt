-- ===== src/Reorder/Window.antt =====
-- A received frame at an active session: memory safety, the window, and every skb accounted for.
use w132d_linux_mainline.Prelude.{
  ℕ, ◌+◌, ◌<◌, ◌≡◌, refl, ◌∙◌, List, [], ◌∷◌, Option, none, some, Bool, bit_and, arith, count,
  count-append, length-set, Returns, Returns-bind, Returns_mono, if◌then◌else◌,
}
use w132d_linux_mainline.Seqno.{seqno_mod, seqno_add, seqno_sub}
use w132d_linux_mainline.Reorder.Types.{Skb, MsduDesc, Pkt, NodeDesc, Output}
use w132d_linux_mainline.Reorder.Buffer.{slot, joint_msdu, send_msdu_in_order}
use w132d_linux_mainline.Reorder.Process.{
  between_seqlo_seqhi, move_window, insert_pkt, insert_msdu, chain_of,
}
use w132d_linux_mainline.Reorder.Account.{
  buffered-set, Fits, Kept, slot_total, Kept-step, Kept-Fits,
}
use w132d_linux_mainline.Reorder.Loops.{Swept, in_order_from-Swept, send_msdu_with_gap-Swept}

-- The window covers `win_size` sequence numbers from `win_start` on.
pub record Framed (d : NodeDesc) : Type 0 where
  pub fits : Fits d
  pub start_lt : d.win_start < seqno_mod
  pub tail_lt : d.win_tail < seqno_mod
  pub limit_eq : d.win_limit ≡ seqno_add d.win_start (seqno_sub d.win_size 1)

-- The operation keeps the skbs, `input` added, and leaves a window of the same size.
pub record Done (input : List Skb) (q : Output) (d : NodeDesc) (q' : Output) (d' : NodeDesc)
    : Type 0 where
  pub skbs : Kept input q d q' d'
  pub framed : Framed d'
  pub size : d'.win_size ≡ d.win_size

pub between_seqlo_seqhi-Done :
    (q : Output) (d : NodeDesc)
    → Fits d
    → d.win_tail < seqno_mod
    → Returns (between_seqlo_seqhi q d) (λ (q', d'). Done [] q d q' d')
unfolding between_seqlo_seqhi send_msdu_in_order
between_seqlo_seqhi-Done q d f tl =
    Returns-bind _ (λ (q', d', s). Swept q d q' d' × (s < seqno_mod)) _
      (Returns-bind _ _ _ (in_order_from-Swept (d.buff_cnt + 1) d.win_start q d (omega arith) f)
        (λ (q', d', s) o. (_, refl, (o.0, omega arith))))
      (λ (q', d', s) o. (
        _,
        refl,
        record {
          skbs = record {
            same_skbs = o.0.skbs.same_skbs;
            same_size = o.0.skbs.same_size;
            same_mask = o.0.skbs.same_mask;
          };
          framed = record {
            fits = Kept-Fits o.0.skbs f;
            start_lt = o.1;
            tail_lt = omega (arith, o.0.tail);
            limit_eq = refl;
          };
          size = o.0.size;
        },
      ))

pub move_window-Done :
    (q : Output) (d : NodeDesc) (win_start : ℕ)
    → Fits d
    → d.win_tail < seqno_mod
    → Returns (move_window q d win_start) (λ (q', d'). Done [] q d q' d')
unfolding move_window
move_window-Done q d win_start f tl =
    Returns-bind _ _ _ (send_msdu_with_gap-Swept q d win_start f) (λ (q', d') s.
      Returns_mono
        (between_seqlo_seqhi-Done q' (record d' { win_start = win_start }) (Kept-Fits s.skbs f)
          (omega (arith, s.tail)))
        (λ (q'', d'') o. record {
          skbs = Kept-step [] s.skbs (record {
            same_skbs = o.skbs.same_skbs;
            same_size = o.skbs.same_size;
            same_mask = o.skbs.same_mask;
          });
          framed = o.framed;
          size = o.size ∙ s.size;
        }))

-- What `insert_msdu` does: the skb joins the buffer exactly if it returns success.
pub insert_pkt-chain :
    (a : ℕ) (m : MsduDesc) (skb : Option Skb) (p : Pkt)
    → count a (insert_pkt m skb p).1.chain
      ≡ count a p.chain + (if (insert_pkt m skb p).0 then count a (chain_of skb) else 0)
unfolding insert_pkt joint_msdu
insert_pkt-chain a m none p = ground arith
insert_pkt-chain a m (some s) p = ground (arith, count-append a p.chain (s ∷ []))

abbrev pub taken_of : Bool → Option Skb → List Skb
taken_of done skb = if done then chain_of skb else []

pub insert_msdu-Done :
    (q : Output) (m : MsduDesc) (skb : Option Skb) (d : NodeDesc)
    → Framed d
    → Returns (insert_msdu m skb d) (λ (done, d'). Done (taken_of done skb) q d q d')
unfolding insert_msdu
insert_msdu-Done q m skb d w =
    Returns-bind _ (λ p. slot d m.seq_num ≡ some p) _ found
      (λ p at. (
        _,
        refl,
        record {
          skbs = record {
            same_skbs = λ a. ground (
              arith,
              insert_pkt-chain a m skb p,
              buffered-set a d.reorder_buffer i p (insert_pkt m skb p).1 at,
            );
            same_size = length-set _ i _;
            same_mask = refl;
          };
          framed = record {
            fits = omega (arith, length-set d.reorder_buffer i (insert_pkt m skb p).1);
            start_lt = w.start_lt;
            tail_lt = w.tail_lt;
            limit_eq = w.limit_eq;
          };
          size = refl;
        },
      ))
  where
    i : ℕ
    i = bit_and m.seq_num d.index_mask

    found : Returns (slot d m.seq_num) (λ p. slot d m.seq_num ≡ some p)
    found = let (p, e) = slot_total d m.seq_num w.fits in (p, e, e)
