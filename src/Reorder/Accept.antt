-- ===== src/Reorder/Accept.antt =====
-- A frame at the reorder buffer: the window moves, the frame is inserted or refused.
use w132d_linux_mainline.Prelude.{
  ℕ, ◌<◌, refl, ◌∙◌, List, [], ◌∷◌, Option, none, some, Bool, true, false, ◌&&◌, arith, length,
  count-append, ap, Returns, Returns-bind, Returns_mono, Bool-cases, inl, inr, if◌then◌else◌,
}
use w132d_linux_mainline.Seqno.{seqno_mod, seqno_leq, seqno_geq}
use w132d_linux_mainline.Reorder.Types.{Skb, MsduDesc, NodeDesc, Output}
use w132d_linux_mainline.Reorder.Buffer.{send_order_msdu, kfree_skb_list}
use w132d_linux_mainline.Reorder.Process.{
  greater_than_seqhi, free_refused, make_room, accept, reorder_msdu, chain_of,
}
use w132d_linux_mainline.Reorder.Account.{buffered, Kept-step}
use w132d_linux_mainline.Reorder.Conserve.{deliver-Sent}
use w132d_linux_mainline.Reorder.Window.{Framed, Done, move_window-Done, taken_of, insert_msdu-Done}

pub Done-refl : (q : Output) (d : NodeDesc) → Framed d → Done [] q d q d
Done-refl q d w = record {
  skbs = record { same_skbs = λ a. omega arith; same_size = refl; same_mask = refl };
  framed = w;
  size = refl;
}

Done-step :
    (input : List Skb) {q q' q'' : Output} {d d' d'' : NodeDesc}
    → Done [] q d q' d'
    → Done input q' d' q'' d''
    → Done input q d q'' d''
Done-step input o p = record {
  skbs = Kept-step input o.skbs p.skbs;
  framed = p.framed;
  size = p.size ∙ o.size;
}

pub Done-more :
    (input : List Skb) {q q' q'' : Output} {d d' d'' : NodeDesc}
    → Done input q d q' d'
    → Done [] q' d' q'' d''
    → Done input q d q'' d''
Done-more input o p = record {
  skbs = record {
    same_skbs = λ a. omega (arith, o.skbs.same_skbs a, p.skbs.same_skbs a);
    same_size = p.skbs.same_size ∙ o.skbs.same_size;
    same_mask = p.skbs.same_mask ∙ o.skbs.same_mask;
  };
  framed = p.framed;
  size = p.size ∙ o.size;
}

-- The tail of the window is in no part of what is kept.
Done-tail :
    (input : List Skb) {q q' : Output} {d d' : NodeDesc} (t : ℕ)
    → t < seqno_mod
    → Done input q d q' d'
    → Done input q d q' (record d' { win_tail = t })
Done-tail input t h o = record {
  skbs = record {
    same_skbs = o.skbs.same_skbs;
    same_size = o.skbs.same_size;
    same_mask = o.skbs.same_mask;
  };
  framed = record {
    fits = o.framed.fits;
    start_lt = o.framed.start_lt;
    tail_lt = h;
    limit_eq = o.framed.limit_eq;
  };
  size = o.size;
}

Done-choose :
    (input : List Skb) (b : Bool) {q q' : Output} {d d' : NodeDesc} (t : ℕ)
    → t < seqno_mod
    → Done input q d q' d'
    → Done input q d q' (if b then record d' { win_tail = t } else d')
Done-choose input true t h o = Done-tail input t h o
Done-choose input false t h o = o

-- A refused skb is freed, so it is kept too.
Done-refused :
    (done : Bool) (skb : Option Skb) {q q' : Output} {d d' : NodeDesc}
    → Done (taken_of done skb) q d q' d'
    → Done (chain_of skb) q d (if done then q' else free_refused q' skb) d'
unfolding free_refused kfree_skb_list
Done-refused true skb o = o
Done-refused false none o = o
Done-refused false (some s) {q' = q'} o = record {
  skbs = record {
    same_skbs = λ a. omega (arith, o.skbs.same_skbs a, count-append a q'.freed (s ∷ []));
    same_size = o.skbs.same_size;
    same_mask = o.skbs.same_mask;
  };
  framed = o.framed;
  size = o.size;
}

make_room-Done :
    (q : Output) (d : NodeDesc) (seq_num : ℕ)
    → Framed d
    → Returns (make_room q d seq_num) (λ (q', d'). Done [] q d q' d')
unfolding make_room greater_than_seqhi
make_room-Done q d seq_num w = elim (Bool-cases (seqno_leq seq_num d.win_limit)) [
  | inl e ↦ rw e (_, refl, Done-refl q d w)
  | inr e ↦ rw e (move_window-Done q d _ w.fits w.tail_lt)
]

accept-Done :
    (q : Output) (m : MsduDesc) (skb : Option Skb) (d : NodeDesc)
    → Framed d
    → m.seq_num < seqno_mod
    → Returns (accept q m skb d) (λ (done, q', d'). Done (chain_of skb) q d q' d')
unfolding accept
accept-Done q m skb d w h = Returns-bind _ _ _ (insert_msdu-Done q m skb d w) (λ (done, d') p. (
  _,
  refl,
  Done-choose (chain_of skb) (done && seqno_geq m.seq_num d'.win_tail) m.seq_num h
      (Done-refused done skb p),
))

pub reorder_msdu-Done :
    (q : Output) (m : MsduDesc) (skb : Option Skb) (d : NodeDesc)
    → Framed d
    → m.seq_num < seqno_mod
    → Returns (reorder_msdu q m skb d) (λ (done, q', d'). Done (chain_of skb) q d q' d')
unfolding reorder_msdu
reorder_msdu-Done q m skb d w h = elim (Bool-cases (seqno_geq m.seq_num d.win_start)) [
  | inr e ↦ rw e (_, refl, Done-refused false skb (Done-refl q d w))
  | inl e ↦ rw e (
      Returns-bind _ _ _ (make_room-Done q d m.seq_num w) (λ (q', d') o.
        Returns_mono (accept-Done q' m skb d' o.framed h) (λ out p. Done-step (chain_of skb) o p)))
]

pub send_order_msdu-Done :
    (q : Output) (m : MsduDesc) (skb : Option Skb) (d : NodeDesc)
    → Framed d
    → Returns (send_order_msdu q m skb d) (λ (q', d'). Done (chain_of skb) q d q' d')
unfolding send_order_msdu
send_order_msdu-Done q m none d w = (
  _,
  refl,
  record {
    skbs = record { same_skbs = λ a. omega arith; same_size = refl; same_mask = refl };
    framed = record {
      fits = w.fits;
      start_lt = omega arith;
      tail_lt = omega arith;
      limit_eq = omega (arith, w.limit_eq);
    };
    size = refl;
  },
)
send_order_msdu-Done q m (some s) d w = Returns_mono (deliver-Sent q _ _ s []) (λ (q', d') o.
    record {
      skbs = record {
        same_skbs = λ a. omega (arith, o.skbs a, ap (buffered a) o.frame.buffer);
        same_size = ap length o.frame.buffer;
        same_mask = o.frame.mask;
      };
      framed = record {
        fits = omega (arith, o.frame.mask, ap length o.frame.buffer, w.fits);
        start_lt = omega (arith, o.frame.start);
        tail_lt = omega (arith, o.frame.tail);
        limit_eq = omega (arith, o.frame.start, o.frame.limit, o.frame.size, w.limit_eq);
      };
      size = o.frame.size;
    })
