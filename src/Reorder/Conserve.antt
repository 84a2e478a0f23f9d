-- ===== src/Reorder/Conserve.antt =====
-- The loops of reorder.c neither lose, double nor invent an skb, and stay inside the buffer.
use w132d_linux_mainline.Prelude.{
  ℕ, ◌+◌, ◌-◌, ◌≡◌, refl, ◌∙◌, List, [], ◌∷◌, some, Bool, true, false, bit_and, arith, length, set,
  count, count-append, length-set, Returns, Returns-bind, ap,
}
use w132d_linux_mainline.Reorder.Types.{Skb, PktDesc, Pkt, NodeDesc, Output, zero_pkt}
use w132d_linux_mainline.Reorder.Buffer.{
  slot, replay_detection, deliver, send_chain, send_reorder_skb, take_out, hand_over,
  reorder_set_skb_list, kfree_skb_list,
}
use w132d_linux_mainline.Reorder.Account.{buffered, buffered-set, Kept}

-- A replay check changes the PN of the session, and nothing else.
pub record SameButPn (d d' : NodeDesc) : Type 0 where
  pub buffer : d'.reorder_buffer ≡ d.reorder_buffer
  pub mask : d'.index_mask ≡ d.index_mask
  pub cnt : d'.buff_cnt ≡ d.buff_cnt
  pub start : d'.win_start ≡ d.win_start
  pub limit : d'.win_limit ≡ d.win_limit
  pub tail : d'.win_tail ≡ d.win_tail
  pub size : d'.win_size ≡ d.win_size

pub replay_detection-SameButPn : (p : PktDesc) (d : NodeDesc) → SameButPn d (replay_detection p d).1
unfolding replay_detection
replay_detection-SameButPn p d = ground arith

-- The chain goes to the stack or is freed, and the session changes in its PN only.
pub record Sent (chain : List Skb) (q : Output) (d : NodeDesc) (out : Output × NodeDesc)
    : Type 0 where
  pub skbs :
      (a : ℕ)
      → count a out.0.skb_list + count a out.0.freed
        ≡ count a q.skb_list + count a q.freed + count a chain
  pub frame : SameButPn d out.1

hand_over-Sent :
    (fresh : Bool) (q : Output) (d d' : NodeDesc) (s : Skb) (r : List Skb)
    → SameButPn d d'
    → Returns (hand_over fresh q d' (s ∷ r)) (Sent (s ∷ r) q d)
unfolding hand_over reorder_set_skb_list kfree_skb_list
hand_over-Sent true q d d' s r f =
    (_, refl, record { skbs = λ a. omega (arith, count-append a q.skb_list (s ∷ r)); frame = f })
hand_over-Sent false q d d' s r f =
    (_, refl, record { skbs = λ a. omega (arith, count-append a q.freed (s ∷ r)); frame = f })

pub deliver-Sent :
    (q : Output) (d : NodeDesc) (p : PktDesc) (s : Skb) (r : List Skb)
    → Returns (deliver q d p (s ∷ r)) (Sent (s ∷ r) q d)
unfolding deliver
deliver-Sent q d p s r = hand_over-Sent _ q d _ s r (replay_detection-SameButPn p d)

pub send_chain-Sent :
    (q : Output) (d : NodeDesc) (chain : List Skb) (p : PktDesc)
    → Returns (send_chain q d (record { chain = chain; desc = p })) (Sent chain q d)
unfolding send_chain
send_chain-Sent q d [] p = (_, refl, record { skbs = λ a. omega arith; frame = ground arith })
send_chain-Sent q d (s ∷ r) p = deliver-Sent q d p s r

-- The packet has left its slot, and its skbs are delivered or freed.
pub record Taken (i : ℕ) (q : Output) (d : NodeDesc) (q' : Output) (d' : NodeDesc) : Type 0 where
  pub skbs : Kept [] q d q' d'
  pub buffer : d'.reorder_buffer ≡ set d.reorder_buffer i zero_pkt
  pub cnt : d'.buff_cnt ≡ d.buff_cnt - 1
  pub start : d'.win_start ≡ d.win_start
  pub limit : d'.win_limit ≡ d.win_limit
  pub tail : d'.win_tail ≡ d.win_tail
  pub size : d'.win_size ≡ d.win_size

pub take_out-Taken :
    (q : Output) (d : NodeDesc) (seq_num : ℕ) (p : Pkt)
    → slot d seq_num ≡ some p
    → Returns (take_out q d seq_num p) (λ (q', d'). Taken (bit_and seq_num d.index_mask) q d q' d')
unfolding take_out send_reorder_skb
take_out-Taken q d seq_num p h =
    Returns-bind _ _ _
      (Returns-bind _ _ (λ (q', d'). Taken i q d q' (record d' { buff_cnt = d'.buff_cnt - 1 }))
        (send_chain-Sent q d p.chain p.desc) (λ out s. (_, refl, cleared out s)))
      (λ out t. (_, refl, t))
  where
    i : ℕ
    i = bit_and seq_num d.index_mask

    cleared :
        (out : Output × NodeDesc)
        → Sent p.chain q d out
        → Taken i q d out.0 (record out.1 {
          reorder_buffer = set out.1.reorder_buffer i zero_pkt;
          buff_cnt = out.1.buff_cnt - 1;
        })
    cleared out s = record {
      skbs = record {
        same_skbs = λ a. omega (
          arith,
          s.skbs a,
          ap (λ b. buffered a (set b i zero_pkt)) s.frame.buffer,
          buffered-set a d.reorder_buffer i p zero_pkt h,
        );
        same_size = ap (λ b. length (set b i zero_pkt)) s.frame.buffer ∙ length-set _ i zero_pkt;
        same_mask = s.frame.mask;
      };
      buffer = ap (λ b. set b i zero_pkt) s.frame.buffer;
      cnt = ap (λ n. n - 1) s.frame.cnt;
      start = s.frame.start;
      limit = s.frame.limit;
      tail = s.frame.tail;
      size = s.frame.size;
    }
