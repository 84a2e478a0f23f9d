-- ===== src/TcpAck/Slots/Turn.antt =====
-- How slots change hands: the invariant over `sprdwl_tcp_ack_update` and over the taking of a slot.
use w132d_linux_mainline.Prelude.{
  ℕ, zero, suc, ◌+◌, ◌-◌, ◌%◌, ◌^◌, ◌≡◌, inl, inr, refl, ◌∙◌, ap, subst, true, false, List, Option,
  none, some, arith, get_elem?, set, length-set, get_elem?-set_self, Bool-cases, Option-cases,
}
use w132d_linux_mainline.TcpAck.Types.{AckMsg, AckInfo, Manage, tcp_ack_num, time_after}
use w132d_linux_mainline.TcpAck.Slots.{
  first, is_match, tcp_ack_match, is_expired, release_slot, release, release_all, tcp_ack_update,
}
use w132d_linux_mainline.TcpAck.Slots.First.{First, first-First}
use w132d_linux_mainline.TcpAck.Slots.Valid.{
  bit, busy_count-le, busy_count-set, get-bound, Matches, Matches-set, Valid,
}

-- What `sprdwl_tcp_ack_match` returns: the slot of the connection, or there is none.
unfoldable pub Matched : List AckInfo → AckMsg → Option ℕ → Type 0
Matched xs k none = (i : ℕ) → ¬ Matches xs k i
Matched xs k (some i) = Matches xs k i

-- The search finds the slot of the connection exactly if there is one.
pub tcp_ack_match-Matched : (m : Manage) (k : AckMsg) → Matched m.ack_info k (tcp_ack_match m k)
unfolding tcp_ack_match Matched First
tcp_ack_match-Matched m k =
    let found = first-First (is_match k) m.ack_info in
    elim (first (is_match k) m.ack_info)
        as (λ o. First (is_match k) m.ack_info o → Matched m.ack_info k o) [
          | none ↦ λ h i (a, e, t). ground (arith, t, h i a e)
          | some i ↦ λ h. h
        ]
      found

abbrev not_busy : AckInfo → AckInfo
not_busy a = record a { busy = false }

-- A slot that has been written is there.
get-written :
    (xs : List AckInfo) (i j : ℕ) (a b : AckInfo)
    → get_elem? xs i ≡ some a
    → i ≡ j
    → get_elem? (set xs i b) j ≡ some b
get-written xs i j a b e p =
    subst (λ n. get_elem? (set xs i b) n ≡ some b) p
      (get_elem?-set_self xs i b (get-bound xs i a e))

released-Valid :
    (i : ℕ) (a : AckInfo) (m : Manage)
    → Valid m
    → get_elem? m.ack_info i ≡ some a
    → a.busy ≡ true
    → Valid (record m {
      free_index = some i;
      max_num = (m.max_num + (2 ^ 32 - 1)) % 2 ^ 32;
      ack_info = set m.ack_info i (not_busy a);
    })
released-Valid i a m v e busy = record {
  size = length-set m.ack_info i (not_busy a) ∙ v.size;
  counted =
      let one : bit a.busy ≡ 1 = ap bit busy in
      let counts = busy_count-set m.ack_info i a (not_busy a) e in
      omega (arith, v.counted, one, counts, busy_count-le m.ack_info, v.size);
  free = λ j g. (not_busy a, get-written m.ack_info i j a (not_busy a) e cc, refl);
  distinct = λ k j j' p q.
      let fewer : is_match k (not_busy a) ≡ true → is_match k a ≡ true = λ t. ground (arith, t) in
      v.distinct k j j' (Matches-set m.ack_info i j a (not_busy a) k e fewer p)
        (Matches-set m.ack_info i j' a (not_busy a) k e fewer q);
}

release_slot-Valid :
    (now i : ℕ) (a : AckInfo) (m : Manage)
    → Valid m
    → get_elem? m.ack_info i ≡ some a
    → Valid (release_slot now i a m)
unfolding release_slot is_expired
release_slot-Valid now i a m v e = elim (Bool-cases (is_expired now a)) [
  | inl t ↦ rw t (released-Valid i a m v e (ground (arith, t)))
  | inr t ↦ rw t v
]

release-Valid : (now i : ℕ) (m : Manage) → Valid m → Valid (release now i m)
unfolding release
release-Valid now i m v = elim (Option-cases (get_elem? m.ack_info i)) [
  | inl e ↦ rw (e, release) v
  | inr (a, e) ↦ rw (e, release) (release_slot-Valid now i a m v e)
]

release_all-Valid : (now n : ℕ) (m : Manage) → Valid m → Valid (release_all now n m)
unfolding release_all
release_all-Valid now zero m v = v
release_all-Valid now (suc n) m v =
    release_all-Valid now n (release now n m) (release-Valid now n m v)

pub tcp_ack_update-Valid : (now : ℕ) (m : Manage) → Valid m → Valid (tcp_ack_update now m)
unfolding tcp_ack_update
tcp_ack_update-Valid now m v =
    let later : Valid (record m { last_time = now }) = record {
      size = v.size;
      counted = v.counted;
      free = v.free;
      distinct = v.distinct;
    } in
    elim (Bool-cases (time_after now ((m.last_time + m.timeout) % 2 ^ 64))) [
      | inl t ↦ rw t (release_all-Valid now tcp_ack_num (record m { last_time = now }) later)
      | inr t ↦ rw t v
    ]
