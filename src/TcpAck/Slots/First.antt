-- ===== src/TcpAck/Slots/First.antt =====
-- The search for a slot: what `sprdwl_tcp_ack_match` finds.
use w132d_linux_mainline.Prelude.{
  ℕ, zero, suc, ◌≡◌, refl, Bool, arith, true, false, List, [], ◌∷◌, Option, none, some, inl, inr,
  get_elem?, Bool-cases,
}
use w132d_linux_mainline.TcpAck.Types.{AckInfo}
use w132d_linux_mainline.TcpAck.Slots.{first}

-- An index at which the test holds, or it holds at none.
unfoldable pub First : (AckInfo → Bool) → List AckInfo → Option ℕ → Type 0
First f xs none = (i : ℕ) (a : AckInfo) → get_elem? xs i ≡ some a → f a ≡ false
First f xs (some i) = (a : AckInfo) × (get_elem? xs i ≡ some a) × (f a ≡ true)

fails_at :
    (f : AckInfo → Bool) (a : AckInfo) (xs : List AckInfo)
    → f a ≡ false
    → ((i : ℕ) (b : AckInfo) → get_elem? xs i ≡ some b → f b ≡ false)
    → (i : ℕ) (b : AckInfo) → get_elem? (a ∷ xs) i ≡ some b
    → f b ≡ false
fails_at f a xs e h zero b g = cc
fails_at f a xs e h (suc i) b g = h i b g

First-next :
    (f : AckInfo → Bool) (a : AckInfo) (xs : List AckInfo) (o : Option ℕ)
    → f a ≡ false
    → First f xs o
    → First f (a ∷ xs) (elim o [ none ↦ none | some i ↦ some (suc i) ])
unfolding First
First-next f a xs none e h = fails_at f a xs e h
First-next f a xs (some i) e h = h

pub first-First : (f : AckInfo → Bool) (xs : List AckInfo) → First f xs (first f xs)
unfolding first First
first-First f [] = λ i a e. ground arith
first-First f (a ∷ xs) = elim (Bool-cases (f a)) [
  | inl e ↦ rw (e, first) (a, refl, e)
  | inr e ↦ rw (e, first) (First-next f a xs (first f xs) e (first-First f xs))
]
