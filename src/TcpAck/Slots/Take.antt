-- ===== src/TcpAck/Slots/Take.antt =====
-- The taking of a slot for a new connection.
use w132d_linux_mainline.Prelude.{
  ℕ, zero, suc, ◌+◌, ◌%◌, ◌^◌, ◌≡◌, ◌⊎◌, inl, inr, refl, ◌∙◌, sym, ap, true, false, not, List, [],
  ◌∷◌, Option, none, some, arith, ◌==◌, length, get_elem?, set, length-set, Bool-cases,
  Option-cases,
}
use w132d_linux_mainline.TcpAck.Types.{AckMsg, AckInfo, Manage, tcp_ack_num}
use w132d_linux_mainline.TcpAck.Slots.{first, same_flow, is_match, take_slot, tcp_ack_alloc_index}
use w132d_linux_mainline.TcpAck.Slots.First.{First, first-First}
use w132d_linux_mainline.TcpAck.Slots.Valid.{
  bit, busy_count, busy_count-le, busy_count-set, get-set, Matches, Free, Valid,
}

-- No slot is left, and nothing changes; or a slot that is not busy is taken.
abbrev pub Taken : Manage → Option ℕ × Manage → Type 0
Taken m r =
    (r ≡ (none, m)) × ((i : ℕ) (a : AckInfo) → get_elem? m.ack_info i ≡ some a → a.busy ≡ true)
    ⊎ (i : ℕ) × Free m.ack_info i × (r ≡ take_slot i m)

all_busy :
    (xs : List AckInfo)
    → busy_count xs ≡ length xs
    → (i : ℕ) (a : AckInfo) → get_elem? xs i ≡ some a
    → a.busy ≡ true
all_busy [] e i a g = ground arith
all_busy (x ∷ xs) e zero a g = ground (arith, e, g, busy_count-le xs)
all_busy (x ∷ xs) e (suc i) a g = all_busy xs (ground (arith, e, busy_count-le xs)) i a g

find_slot-Taken :
    (m : Manage) (o : Option ℕ)
    → First (λ a. not a.busy) m.ack_info o
    → Taken m (elim o [ none ↦ (none, m) | some i ↦ take_slot i m ])
unfolding First
find_slot-Taken m none h = inl (refl, λ i a e. ground (arith, h i a e))
find_slot-Taken m (some i) (a, e, t) = inr (i, (a, e, ground (arith, t)), refl)

-- A slot is found exactly if one is not busy, and it is one that is not busy.
pub tcp_ack_alloc_index-Taken : (m : Manage) → Valid m → Taken m (tcp_ack_alloc_index m)
unfolding tcp_ack_alloc_index
tcp_ack_alloc_index-Taken m v = elim (Bool-cases (m.max_num == tcp_ack_num)) [
  | inl t ↦
      let full = all_busy m.ack_info (ground (arith, t, v.counted, v.size)) in
      rw t (inl (refl, full))
  | inr t ↦ elim (Option-cases m.free_index) [
    | inl e ↦
        simp (t, e)
          (find_slot-Taken m (first (λ a. not a.busy) m.ack_info)
            (first-First (λ a. not a.busy) m.ack_info))
    | inr (i, e) ↦ simp (t, e) (inr (i, v.free i e, refl))
  ]
]

-- Two slots of one connection: where the one matches `k`, so does the other.
same_owner :
    (k k' : AckMsg) (b c : AckInfo)
    → same_flow b.ack_msg k ≡ true
    → is_match k' b ≡ true
    → is_match k' c ≡ true
    → is_match k c ≡ true
unfolding same_flow
same_owner k k' b c same p q = ground (arith, same, p, q)

taken-distinct :
    (xs : List AckInfo) (i : ℕ) (k : AckMsg) (a b : AckInfo)
    → get_elem? xs i ≡ some a
    → ((j : ℕ) → ¬ Matches xs k j)
    → same_flow b.ack_msg k ≡ true
    → ((k' : AckMsg) (j j' : ℕ) → Matches xs k' j → Matches xs k' j' → j ≡ j')
    → (k' : AckMsg) (j j' : ℕ) → Matches (set xs i b) k' j
    → Matches (set xs i b) k' j'
    → j ≡ j'
taken-distinct xs i k a b e fresh same old k' j j' (c, g, t) (c', g', t') =
    elim (get-set xs i j a b c e g) [
      | inl (p, r) ↦ elim (get-set xs i j' a b c' e g') [
        | inl (p', r') ↦ sym p ∙ p'
        | inr (p', g2) ↦
            absurd (fresh j' (c', g2, same_owner k k' b c' same (ap (is_match k') r ∙ t) t'))
      ]
      | inr (p, g1) ↦ elim (get-set xs i j' a b c' e g') [
        | inl (p', r') ↦
            absurd (fresh j (c, g1, same_owner k k' b c same (ap (is_match k') r' ∙ t') t))
        | inr (p', g2) ↦ old k' j j' (c, g1, t) (c', g2, t')
      ]
    ]

-- A connection that had no slot, in the one that it takes.
pub take_slot-Valid :
    (m : Manage) (i : ℕ) (k : AckMsg) (a b : AckInfo)
    → Valid m
    → get_elem? m.ack_info i ≡ some a
    → a.busy ≡ false
    → ((j : ℕ) → ¬ Matches m.ack_info k j)
    → b.busy ≡ true
    → same_flow b.ack_msg k ≡ true
    → Valid (record m {
      free_index = none;
      max_num = (m.max_num + 1) % 2 ^ 32;
      ack_info = set m.ack_info i b;
    })
take_slot-Valid m i k a b v e idle fresh busy same = record {
  size = length-set m.ack_info i b ∙ v.size;
  counted =
      let zero_bit : bit a.busy ≡ 0 = ap bit idle in
      let one_bit : bit b.busy ≡ 1 = ap bit busy in
      let counts = busy_count-set m.ack_info i a b e in
      let bound = busy_count-le (set m.ack_info i b) in
      omega (arith, v.counted, zero_bit, one_bit, counts, bound, length-set m.ack_info i b, v.size);
  free = λ j g. ground arith;
  distinct = taken-distinct m.ack_info i k a b e fresh same v.distinct;
}
