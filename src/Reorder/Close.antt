-- ===== src/Reorder/Close.antt =====
-- The end of a session: every skb goes up or is freed, and the node is unlinked before it is freed.
use w132d_linux_mainline.Prelude.{
  ℕ, zero, suc, ◌+◌, ◌<◌, ◌≤◌, ◌≡◌, inl, inr, refl, ◌∙◌, ap, subst, List, [], ◌∷◌, some, true,
  arith, Returns, Returns-bind, Returns_mono, Bool-cases, ◌==◌, ==_iff, length, get_elem?, set,
  count, count-append, length-set, get_elem?_total, get_elem?-set_self, get_elem?-set_ne,
}
use w132d_linux_mainline.Seqno.{seqno_mod}
use w132d_linux_mainline.Reorder.Types.{Pkt, NodeDesc, Node, Output, zero_pkt}
use w132d_linux_mainline.Reorder.Buffer.{flush_from, flush_reorder_buffer, kfree_skb_list}
use w132d_linux_mainline.Reorder.Account.{buffered, buffered-set, held}
use w132d_linux_mainline.Reorder.Table.{close_buffer, drop_buffer}
use w132d_linux_mainline.Reorder.Window.{Framed, between_seqlo_seqhi-Done}

-- The slots below the index are cleared.
abbrev ClearTo : ℕ → List Pkt → Type 0
ClearTo i buf = (j : ℕ) → j < i → get_elem? buf j ≡ some zero_pkt

buffered-ClearTo : (a : ℕ) (buf : List Pkt) → ClearTo (length buf) buf → buffered a buf ≡ 0
buffered-ClearTo a [] c = refl
buffered-ClearTo a (p ∷ ps) c = omega (
  arith,
  ap (λ (k : Pkt). count a k.chain) (some_inj (c 0 (omega arith))),
  buffered-ClearTo a ps (λ j h. c (suc j) (omega arith)),
)
  where
    some_inj : {x y : Pkt} → some x ≡ some y → x ≡ y
    some_inj e = cc

record Flushed (i : ℕ) (q : Output) (buf : List Pkt) (out : Output × List Pkt) : Type 0 where
  skbs : (a : ℕ) → held a out.0 out.1 ≡ held a q buf
  list : out.0.skb_list ≡ q.skb_list
  clear : ClearTo i out.1
  size : length out.1 ≡ length buf

ClearTo-set :
    (i j : ℕ) (buf : List Pkt)
    → i < length buf
    → ClearTo i buf
    → j ≡ i + 1
    → ClearTo j (set buf i zero_pkt)
ClearTo-set i j buf h c e k lt = elim (Bool-cases (i == k)) [
  | inl y ↦
      subst (λ x. get_elem? (set buf i zero_pkt) x ≡ some zero_pkt) ((==_iff i k).0 y)
        (get_elem?-set_self buf i zero_pkt h)
  | inr y ↦ get_elem?-set_ne buf i k zero_pkt (ground (arith, y)) ∙ c k (ground (arith, y))
]

flush_from-Flushed :
    (n i k : ℕ) (q : Output) (buf : List Pkt)
    → i + n ≡ k
    → k ≤ length buf
    → ClearTo i buf
    → Returns (flush_from n i q buf) (Flushed k q buf)
unfolding flush_from kfree_skb_list
flush_from-Flushed zero i k q buf e h c = (
  _,
  refl,
  record {
    skbs = λ a. refl;
    list = refl;
    clear = subst (λ x. ClearTo x buf) (omega arith) c;
    size = refl;
  },
)
flush_from-Flushed (suc n) i k q buf e h c =
    let (p, ep) = get_elem?_total buf i (omega arith) in
    Returns-bind _ (λ x. get_elem? buf i ≡ some x) _ (p, ep, ep)
      (λ x ex.
        Returns_mono
          (flush_from-Flushed n (i + 1) k (kfree_skb_list q x.chain) (set buf i zero_pkt)
            (omega arith) (omega (arith, length-set buf i zero_pkt))
            (ClearTo-set i (i + 1) buf (omega arith) c refl))
          (λ out o. record {
            skbs = λ a. omega (
              arith,
              o.skbs a,
              count-append a q.freed x.chain,
              buffered-set a buf i x zero_pkt ex,
            );
            list = o.list;
            clear = o.clear;
            size = o.size ∙ length-set buf i zero_pkt;
          }))

-- The mask covers the whole buffer.
abbrev pub IsFull : NodeDesc → Type 0
IsFull d = d.index_mask + 1 ≡ length d.reorder_buffer

-- When an active session ends, each skb of its buffer goes up to the stack or is freed: what was
-- delivered, freed or buffered before is afterwards delivered or freed, just as often.
pub close_buffer-all_out :
    (q : Output) (n : Node)
    → n.active ≡ true
    → IsFull n.rx_ba
    → n.rx_ba.win_tail < seqno_mod
    → Returns
        (close_buffer q n)
        (λ q'. (a : ℕ) → count a q'.skb_list + count a q'.freed ≡ held a q n.rx_ba.reorder_buffer)
unfolding close_buffer flush_reorder_buffer
close_buffer-all_out q n act full tl = simp act (
    Returns-bind _ _ _ (between_seqlo_seqhi-Done q n.rx_ba (omega arith) tl) (λ (q', d') o.
      Returns-bind _
        (λ (q'', d'').
          (a : ℕ) → count a q''.skb_list + count a q''.freed ≡ held a q' d'.reorder_buffer)
        _
        (Returns-bind _ _ _
          (flush_from-Flushed (d'.index_mask + 1) 0 (d'.index_mask + 1) q' d'.reorder_buffer
            (omega arith) (omega (arith, o.framed.fits)) (λ j h. absurd (omega arith)))
          (λ (q'', buf) f. (
            _,
            refl,
            λ a. omega (
              arith,
              f.skbs a,
              f.size,
              buffered-ClearTo a buf (
                  subst (λ x. ClearTo x buf)
                    (omega (arith, f.size, o.skbs.same_size, o.skbs.same_mask)) f.clear),
            ),
          )))
        (λ (q'', d'') f. (_, refl, λ a. omega (arith, f a, o.skbs.same_skbs a)))))

-- The end of a session follows no null pointer and stays inside the buffer, active or not.
pub close_buffer_total :
    (q : Output) (n : Node) → Framed n.rx_ba → Returns (close_buffer q n) (λ q'. Unit {0})
unfolding close_buffer flush_reorder_buffer
close_buffer_total q n w = elim (Bool-cases n.active) [
  | inr act ↦ simp act (_, refl, tt)
  | inl act ↦ simp act (
      Returns-bind _ _ _ (between_seqlo_seqhi-Done q n.rx_ba w.fits w.tail_lt) (λ (q', d') o.
        Returns-bind _ (λ out. Unit {0}) _
          (Returns-bind _ _ _
            (flush_from-Flushed (d'.index_mask + 1) 0 (d'.index_mask + 1) q' d'.reorder_buffer
              (omega arith) (omega (arith, o.framed.fits)) (λ j h. absurd (omega arith)))
            (λ out f. (_, refl, tt)))
          (λ out u. (_, refl, tt))))
]

pub flush_total :
    (q : Output) (d : NodeDesc) → Framed d → Returns (flush_reorder_buffer q d) (λ out. Unit {0})
unfolding flush_reorder_buffer
flush_total q d w =
    Returns-bind _ _ _
      (flush_from-Flushed (d.index_mask + 1) 0 (d.index_mask + 1) q d.reorder_buffer (omega arith)
        (omega (arith, w.fits)) (λ j h. absurd (omega arith)))
      (λ out f. (_, refl, tt))

pub drop_buffer_total :
    (q : Output) (n : Node) → Framed n.rx_ba → Returns (drop_buffer q n) (λ q'. Unit {0})
unfolding drop_buffer flush_reorder_buffer
drop_buffer_total q n w = elim (Bool-cases n.active) [
  | inr act ↦ simp act (_, refl, tt)
  | inl act ↦ simp act (
      Returns-bind _ (λ out. Unit {0}) _
        (Returns-bind _ _ _
          (flush_from-Flushed (n.rx_ba.index_mask + 1) 0 (n.rx_ba.index_mask + 1) q
            n.rx_ba.reorder_buffer (omega arith) (omega (arith, w.fits))
            (λ j h. absurd (omega arith)))
          (λ out f. (_, refl, tt)))
        (λ out u. (_, refl, tt)))
]
