-- ===== src/TcpAck/Slots/Valid.antt =====
-- The invariant of the slots, and what keeps it.
use w132d_linux_mainline.Prelude.{
  ℕ, zero, suc, ◌+◌, ◌≤◌, ◌<◌, ◌≡◌, ◌≢◌, ◌⊎◌, inl, inr, refl, ◌∙◌, sym, ap, subst, Bool, true,
  false, List, [], ◌∷◌, some, arith, ◌==◌, length, get_elem?, set, length-set, get_elem?-set_self,
  get_elem?-set_ne, Bool-cases,
}
use w132d_linux_mainline.TcpAck.Types.{AckMsg, AckInfo, Manage, tcp_ack_num}
use w132d_linux_mainline.TcpAck.Slots.{same_flow, is_match}

abbrev pub bit : Bool → ℕ
bit true = 1
bit false = 0

abbrev pub busy_count : List AckInfo → ℕ
busy_count [] = 0
busy_count (a ∷ xs) = bit a.busy + busy_count xs

-- The slot `i` belongs to the connection of `k`.
abbrev pub Matches : List AckInfo → AckMsg → ℕ → Type 0
Matches xs k i = (a : AckInfo) × (get_elem? xs i ≡ some a) × (is_match k a ≡ true)

abbrev pub Free : List AckInfo → ℕ → Type 0
Free xs i = (a : AckInfo) × (get_elem? xs i ≡ some a) × (a.busy ≡ false)

-- `max_num` counts the busy slots, `free_index` is a slot that is not busy, and no two slots belong
-- to one connection.
pub record Valid (m : Manage) : Type 0 where
  pub size : length m.ack_info ≡ tcp_ack_num
  pub counted : m.max_num ≡ busy_count m.ack_info
  pub free : (i : ℕ) → m.free_index ≡ some i → Free m.ack_info i
  pub distinct : (k : AckMsg) (i j : ℕ) → Matches m.ack_info k i → Matches m.ack_info k j → i ≡ j

pub busy_count-le : (xs : List AckInfo) → busy_count xs ≤ length xs
busy_count-le [] = omega arith
busy_count-le (a ∷ xs) = ground (arith, busy_count-le xs)

pub busy_count-set :
    (xs : List AckInfo) (i : ℕ) (a b : AckInfo)
    → get_elem? xs i ≡ some a
    → busy_count (set xs i b) + bit a.busy ≡ busy_count xs + bit b.busy
busy_count-set [] i a b e = ground arith
busy_count-set (x ∷ xs) zero a b e = ground arith
busy_count-set (x ∷ xs) (suc i) a b e = omega (arith, busy_count-set xs i a b e)

pub get-bound : (xs : List AckInfo) (i : ℕ) (a : AckInfo) → get_elem? xs i ≡ some a → i < length xs
get-bound [] i a e = ground arith
get-bound (x ∷ xs) zero a e = omega arith
get-bound (x ∷ xs) (suc i) a e = omega (arith, get-bound xs i a e)

-- After a write: the slot that was written, or another one, as it was.
pub get-set :
    (xs : List AckInfo) (i j : ℕ) (a b c : AckInfo)
    → get_elem? xs i ≡ some a
    → get_elem? (set xs i b) j ≡ some c
    → (i ≡ j) × (b ≡ c) ⊎ (i ≢ j) × (get_elem? xs j ≡ some c)
get-set [] i j a b c e g = ground arith
get-set (x ∷ xs) zero zero a b c e g = inl (refl, cc)
get-set (x ∷ xs) zero (suc j) a b c e g = inr (omega arith, g)
get-set (x ∷ xs) (suc i) zero a b c e g = inr (omega arith, g)
get-set (x ∷ xs) (suc i) (suc j) a b c e g = elim (get-set xs i j a b c e g) [
  | inl (p, q) ↦ inl (ap suc p, q)
  | inr (p, q) ↦ inr ((λ r. p (omega arith)), q)
]

-- A slot that matches nothing more than before leaves the matches as they were.
pub Matches-set :
    (xs : List AckInfo) (i j : ℕ) (a b : AckInfo) (k : AckMsg)
    → get_elem? xs i ≡ some a
    → (is_match k b ≡ true → is_match k a ≡ true)
    → Matches (set xs i b) k j
    → Matches xs k j
Matches-set xs i j a b k e h (c, g, t) = elim (get-set xs i j a b c e g) [
  | inl (p, q) ↦ (a, subst (λ n. get_elem? xs n ≡ some a) p e, h (ap (is_match k) q ∙ t))
  | inr (p, q) ↦ (c, q, t)
]

pub Free-set :
    (xs : List AckInfo) (i j : ℕ) (a b : AckInfo)
    → get_elem? xs i ≡ some a
    → b.busy ≡ a.busy
    → Free xs j
    → Free (set xs i b) j
Free-set xs i j a b e h (c, g, t) = elim (Bool-cases (i == j)) [
  | inl p ↦
      let i=j : i ≡ j = ground (arith, p) in
      let same : some a ≡ some c = sym (subst (λ n. get_elem? xs n ≡ some a) i=j e) ∙ g in
      (
        b,
        subst (λ n. get_elem? (set xs i b) n ≡ some b) i=j
            (get_elem?-set_self xs i b (get-bound xs i a e)),
        cc,
      )
  | inr p ↦ (c, get_elem?-set_ne xs i j b (ground (arith, p)) ∙ g, t)
]

-- Writing a slot whose owner stays the same.
pub put-Valid :
    (m : Manage) (i : ℕ) (a b : AckInfo)
    → Valid m
    → get_elem? m.ack_info i ≡ some a
    → b.busy ≡ a.busy
    → ((k : AckMsg) → same_flow b.ack_msg k ≡ same_flow a.ack_msg k)
    → Valid (record m { ack_info = set m.ack_info i b })
put-Valid m i a b v e h s = record {
  size = length-set m.ack_info i b ∙ v.size;
  counted =
      let bits = ap bit h in omega (arith, v.counted, bits, busy_count-set m.ack_info i a b e);
  free = λ j g. Free-set m.ack_info i j a b e h (v.free j g);
  distinct = λ k j j' p q.
      let owner : is_match k b ≡ true → is_match k a ≡ true = λ t. ground (arith, t, h, s k) in
      v.distinct k j j' (Matches-set m.ack_info i j a b k e owner p)
        (Matches-set m.ack_info i j' a b k e owner q);
}
