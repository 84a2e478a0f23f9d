-- ===== src/TcpAck/Events.antt =====
-- The other entry points of tcp_ack.c: the start, the timers, the frames received, and the end.
use w132d_linux_mainline.Prelude.{
  ℕ, zero, suc, ◌+◌, ◌≡◌, inl, inr, refl, ◌∙◌, ap, subst, true, false, ◌&&◌, not, List, [], ◌∷◌,
  ◌++◌, map, none, some, ltb, arith, get_elem?, get_elem?-set_self, replicate, count, count-append,
  Bool-cases, Option-cases, Returns,
}
use w132d_linux_mainline.TcpAck.Types.{AckMsg, AckInfo, Manage, tcp_ack_num, max_tcp_ack}
use w132d_linux_mainline.TcpAck.Parse.{Memory, tcp_check_quick_ack}
use w132d_linux_mainline.TcpAck.Slots.{same_flow, tcp_ack_match, is_match}
use w132d_linux_mainline.TcpAck.Slots.Valid.{Matches, Valid, put-Valid, get-bound}
use w132d_linux_mainline.TcpAck.Slots.Turn.{Matched, tcp_ack_match-Matched}
use w132d_linux_mainline.TcpAck.Handle.{slot_timeout, slot_sent}
use w132d_linux_mainline.TcpAck.Filter.{
  drop_list, held_messages, emptied, initial_slot, mark_quick_ack, put, tcp_ack_init,
  tcp_ack_deinit, tcp_ack_timeout, filter_rx_tcp_ack, move_tcpack_msg,
}
use w132d_linux_mainline.TcpAck.Kept.{places, held_messages-set}
use w132d_linux_mainline.TcpAck.Send.{Keeps}

replicate-all : (n : ℕ) (a b : AckInfo) (i : ℕ) → get_elem? (replicate n a) i ≡ some b → a ≡ b
replicate-all zero a b i e = ground arith
replicate-all (suc n) a b zero e = cc
replicate-all (suc n) a b (suc i) e = replicate-all n a b i e

idle-unmatched :
    (n : ℕ) (a : AckInfo) (k : AckMsg) (i : ℕ) → a.busy ≡ false → ¬ Matches (replicate n a) k i
idle-unmatched n a k i idle (b, e, t) =
    let t' : is_match k a ≡ true = ap (is_match k) (replicate-all n a b i e) ∙ t in
    ground (arith, t', idle)

-- After the start the invariant holds, nothing is held, dropped or sent, and the filter is on.
pub tcp_ack_init-Valid :
    (msecs : ℕ → ℕ) (now : ℕ)
    → let m = tcp_ack_init msecs now in Valid m × (m.enable ≡ true) × ((x : ℕ) → places x m ≡ 0)
unfolding tcp_ack_init held_messages
tcp_ack_init-Valid msecs now =
    let a = initial_slot msecs now in
    (
      record {
        size = refl;
        counted = refl;
        free = λ i e.
            let first_slot : 0 ≡ i = cc in
            (a, subst (λ n. get_elem? (replicate tcp_ack_num a) n ≡ some a) first_slot refl, refl);
        distinct = λ k i j p q. absurd (idle-unmatched tcp_ack_num a k i refl p);
      },
      refl,
      λ x. refl,
    )

held_messages-emptied : (xs : List AckInfo) → held_messages (map emptied xs) ≡ []
unfolding held_messages
held_messages-emptied [] = refl
held_messages-emptied (a ∷ xs) = held_messages-emptied xs

-- Turning the filter off drops what was held, all of it and nothing else: no slot holds a message
-- after it, and no message is lost.
pub tcp_ack_deinit-empty :
    (m : Manage)
    → let m' = tcp_ack_deinit m in
      (held_messages m'.ack_info ≡ []) × (m'.enable ≡ false) × ((x : ℕ) → places x m' ≡ places x m)
unfolding tcp_ack_deinit
tcp_ack_deinit-empty m = (
  held_messages-emptied m.ack_info,
  refl,
  λ x.
      let now_empty = ap (count x) (held_messages-emptied m.ack_info) in
      omega (arith, now_empty, count-append x m.dropped (held_messages m.ack_info)),
)

slot_timeout-owner :
    (a : AckInfo) → let b = (slot_timeout a).0 in (b.busy ≡ a.busy) × (b.ack_msg ≡ a.ack_msg)
unfolding slot_timeout
slot_timeout-owner a = (ground arith, ground arith)

slot_timeout-messages :
    (a : AckInfo) (x : ℕ)
    → let r = slot_timeout a in
      count x (drop_list r.0.msgbuf) + count x r.1 ≡ count x (drop_list a.msgbuf)
unfolding slot_timeout
slot_timeout-messages a x = ground arith

-- The timer of a slot: the code does not fault, it keeps the invariant, and what the slot held is
-- still held or is sent.
pub tcp_ack_timeout-Keeps :
    (i : ℕ) (a : AckInfo) (m : Manage)
    → Valid m
    → get_elem? m.ack_info i ≡ some a
    → Returns (tcp_ack_timeout i m) (Keeps [] m)
unfolding tcp_ack_timeout
tcp_ack_timeout-Keeps i a m v e =
    let b = (slot_timeout a).0 in
    let (busy, msg) = slot_timeout-owner a in
    let w = put-Valid m i a b v e busy (λ k. ap (λ y. same_flow y k) msg) in
    rw e (
      _,
      refl,
      record {
        valid = record { size = w.size; counted = w.counted; free = w.free; distinct = w.distinct };
        messages = λ x.
            let slots = held_messages-set x m.ack_info i a b e in
            let sent = count-append x m.transmitted (slot_timeout a).1 in
            omega (arith, slots, sent, slot_timeout-messages a x);
      },
    )

mark_quick_ack-Keeps :
    (k : AckMsg) (m : Manage) → Valid m → Returns (mark_quick_ack k m) (Keeps [] m)
unfolding mark_quick_ack Matched
mark_quick_ack-Keeps k m v = elim (Option-cases (tcp_ack_match m k)) [
  | inl e ↦ rw (e, mark_quick_ack) (_, refl, record { valid = v; messages = λ x. omega arith })
  | inr (i, e) ↦
      let (a, g, t) : Matches m.ack_info k i =
        subst (Matched m.ack_info k) e (tcp_ack_match-Matched m k) in
      let b : AckInfo = record a { psh_flag = true; psh_seq = k.seq } in
      rw (e, mark_quick_ack)
        (rw g (
          _,
          refl,
          record {
            valid = put-Valid m i a b v g refl (λ k'. refl);
            messages =
                λ x. let slots = held_messages-set x m.ack_info i a b g in omega (arith, slots);
          },
        ))
]

-- A received segment that asks for an acknowledgement: the code does not fault, and keeps the
-- invariant and the messages.
pub filter_rx_tcp_ack-Keeps :
    (buf : Memory) (plen : ℕ) (m : Manage)
    → Valid m
    → Returns (filter_rx_tcp_ack buf plen m) (Keeps [] m)
unfolding filter_rx_tcp_ack
filter_rx_tcp_ack-Keeps buf plen m v =
    let same : Returns (some m) (Keeps [] m) =
      (_, refl, record { valid = v; messages = λ x. omega arith }) in
    elim (Bool-cases (m.enable && not (ltb max_tcp_ack plen))) [
      | inl t ↦ rw t (elim (Option-cases (tcp_check_quick_ack buf)) [
        | inl e ↦ rw e same
        | inr (k, e) ↦ rw e (mark_quick_ack-Keeps k m v)
      ])
      | inr t ↦ rw t same
    ]

get-map :
    (f : AckInfo → AckInfo) (xs : List AckInfo) (i : ℕ) (a : AckInfo)
    → get_elem? xs i ≡ some a
    → get_elem? (map f xs) i ≡ some (f a)
get-map f [] i a e = ground arith
get-map f (x ∷ xs) zero a e = cc
get-map f (x ∷ xs) (suc i) a e = get-map f xs i a e

-- A slot that holds a message and no timer, after a message has been sent: as it was in both.
waits_on :
    (sent len i msg : ℕ) (b : AckInfo) (m : Manage)
    → get_elem? m.ack_info i ≡ some b
    → b.msgbuf ≡ some msg
    → b.timer ≡ none
    → (c : AckInfo) × (get_elem? (move_tcpack_msg sent len m).ack_info i ≡ some c)
      × (c.msgbuf ≡ some msg)
      × (c.timer ≡ none)
unfolding move_tcpack_msg slot_sent
waits_on sent len i msg b m e held idle =
    elim (Bool-cases (m.enable && not (ltb max_tcp_ack len))) [
      | inl t ↦ rw t (
        slot_sent sent b,
        get-map (slot_sent sent) m.ack_info i b e,
        ground (arith, held),
        ground (arith, idle),
      )
      | inr t ↦ rw t (b, e, held, idle)
    ]

-- The timer of a slot that has a message on its way.
blocked :
    (a : AckInfo) (msg sent : ℕ)
    → a.msgbuf ≡ some msg
    → a.in_send_msg ≡ some sent
    → ((slot_timeout a).0.msgbuf ≡ some msg) × ((slot_timeout a).0.timer ≡ none)
unfolding slot_timeout
blocked a msg sent held flight = (ground (arith, held, flight), ground (arith, held, flight))

-- A timer that fires while an earlier message of the slot is on its way sets no new timer: when the
-- earlier message has been sent, the slot still holds its message, with no timer pending.
pub timeout_strands :
    (i msg sent len : ℕ) (a : AckInfo) (m : Manage)
    → get_elem? m.ack_info i ≡ some a
    → a.msgbuf ≡ some msg
    → a.in_send_msg ≡ some sent
    → Returns (tcp_ack_timeout i m) (λ m'.
      (b : AckInfo) × (get_elem? (move_tcpack_msg sent len m').ack_info i ≡ some b)
      × (b.msgbuf ≡ some msg)
      × (b.timer ≡ none))
unfolding tcp_ack_timeout
timeout_strands i msg sent len a m e held flight =
    let r = slot_timeout a in
    let m' = record (put m i r.0) { transmitted = m.transmitted ++ r.1 } in
    let (still, idle) = blocked a msg sent held flight in
    let written = get_elem?-set_self m.ack_info i r.0 (get-bound m.ack_info i a e) in
    rw e (m', refl, waits_on sent len i msg r.0 m' written still idle)

-- The timer of a slot that has none.
unblocked :
    (a : AckInfo) (msg : ℕ)
    → a.busy ≡ true
    → a.msgbuf ≡ some msg
    → a.in_send_msg ≡ none
    → let r = slot_timeout a in
      (r.0.msgbuf ≡ none) × (r.0.in_send_msg ≡ some msg) × (r.1 ≡ msg ∷ [])
unfolding slot_timeout
unblocked a msg busy held clear = (
  ground (arith, busy, held, clear),
  ground (arith, busy, held, clear),
  ground (arith, busy, held, clear),
)

-- A timer that fires with nothing on its way: the held message is sent, and the slot holds nothing.
pub timeout_sends :
    (i msg : ℕ) (a : AckInfo) (m : Manage)
    → get_elem? m.ack_info i ≡ some a
    → a.busy ≡ true
    → a.msgbuf ≡ some msg
    → a.in_send_msg ≡ none
    → Returns (tcp_ack_timeout i m) (λ m'.
      (b : AckInfo) × (get_elem? m'.ack_info i ≡ some b)
      × (b.msgbuf ≡ none)
      × (b.in_send_msg ≡ some msg)
      × (m'.transmitted ≡ m.transmitted ++ (msg ∷ [])))
unfolding tcp_ack_timeout
timeout_sends i msg a m e busy held clear =
    let r = slot_timeout a in
    let m' = record (put m i r.0) { transmitted = m.transmitted ++ r.1 } in
    let (empty, flying, out) = unblocked a msg busy held clear in
    let written = get_elem?-set_self m.ack_info i r.0 (get-bound m.ack_info i a e) in
    rw e (m', refl, (r.0, written, empty, flying, ap (λ y. m.transmitted ++ y) out))
