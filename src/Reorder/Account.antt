-- ===== src/Reorder/Account.antt =====
-- Where the skbs of a session are: delivered, freed, or in the reorder buffer.
use w132d_linux_mainline.Prelude.{
  ℕ, zero, suc, ◌+◌, ◌<◌, ◌≡◌, List, [], ◌∷◌, some, bit_and, arith, length, get_elem?, set, count,
  get_elem?_total,
}
use w132d_linux_mainline.Prelude.Bits.{bit_and-le}
use w132d_linux_mainline.Reorder.Types.{Skb, Pkt, NodeDesc, Output}
use w132d_linux_mainline.Reorder.Buffer.{slot}

abbrev pub buffered : ℕ → List Pkt → ℕ
buffered a [] = 0
buffered a (p ∷ ps) = count a p.chain + buffered a ps

pub buffered-set :
    (a : ℕ) (ps : List Pkt) (i : ℕ) (p p' : Pkt)
    → get_elem? ps i ≡ some p
    → buffered a (set ps i p') + count a p.chain ≡ buffered a ps + count a p'.chain
buffered-set a [] i p p' h = ground arith
buffered-set a (x ∷ ps) zero p p' h = ground arith
buffered-set a (x ∷ ps) (suc i) p p' h = omega (arith, buffered-set a ps i p p' h)

-- How often the skb `a` is held: delivered, freed, or in the buffer.
abbrev pub held : ℕ → Output → List Pkt → ℕ
held a q ps = count a q.skb_list + count a q.freed + buffered a ps

-- Every index that the mask lets through is in the buffer.
abbrev pub Fits : NodeDesc → Type 0
Fits d = d.index_mask < length d.reorder_buffer

-- The buffer and its mask keep their sizes, and the skbs are where they were, with `input` added.
pub record Kept (input : List Skb) (q : Output) (d : NodeDesc) (q' : Output) (d' : NodeDesc)
    : Type 0 where
  pub same_skbs : (a : ℕ) → held a q' d'.reorder_buffer ≡ held a q d.reorder_buffer + count a input
  pub same_size : length d'.reorder_buffer ≡ length d.reorder_buffer
  pub same_mask : d'.index_mask ≡ d.index_mask

pub slot_total : (d : NodeDesc) (seq_num : ℕ) → Fits d → (p : Pkt) × (slot d seq_num ≡ some p)
slot_total d seq_num h =
    get_elem?_total d.reorder_buffer (bit_and seq_num d.index_mask)
      (omega (arith, bit_and-le seq_num d.index_mask))

pub Kept-trans :
    (input more : List Skb) {q q' q'' : Output} {d d' d'' : NodeDesc}
    → Kept input q d q' d'
    → Kept more q' d' q'' d''
    → (a : ℕ)
    → held a q'' d''.reorder_buffer ≡ held a q d.reorder_buffer + count a input + count a more
Kept-trans input more k l a = omega (arith, k.same_skbs a, l.same_skbs a)

pub Kept-step :
    (input : List Skb) {q q' q'' : Output} {d d' d'' : NodeDesc}
    → Kept [] q d q' d'
    → Kept input q' d' q'' d''
    → Kept input q d q'' d''
Kept-step input k l = record {
  same_skbs = λ a. omega (arith, k.same_skbs a, l.same_skbs a);
  same_size = omega arith;
  same_mask = omega arith;
}

pub Kept-Fits :
    {input : List Skb} {q q' : Output} {d d' : NodeDesc} → Kept input q d q' d' → Fits d → Fits d'
Kept-Fits k h = omega arith
