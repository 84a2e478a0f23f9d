-- ===== src/Prelude/Faults.antt =====
-- Code that may fault: `none` is an access through a null or freed pointer, or out of an array.
use mathlib.Core.Path.{◌≡◌, ◌∙◌, ap}
use mathlib.Core.Option.{Option, none, some}

infixl 5 ◌>>=◌
abbrev pub ◌>>=◌ {ℓ κ} : {A : Type ℓ} {B : Type κ} → Option A → (A → Option B) → Option B
none >>= f = none
some a >>= f = f a

-- The code does not fault, and its result has the property.
abbrev pub Returns : {A : Type 0} → Option A → (A → Type 0) → Type 0
Returns {A} m P = (a : A) × (m ≡ some a) × P a

pub Returns-bind :
    {A B : Type 0} (f : A → Option B) (P : A → Type 0) (Q : B → Type 0) {m : Option A}
    → Returns m P
    → ((a : A) → P a → Returns (f a) Q)
    → Returns (m >>= f) Q
Returns-bind f P Q (a, e, p) k = let (b, e', q) = k a p in (b, ap (λ m. m >>= f) e ∙ e', q)

pub Returns_mono :
    {A : Type 0} {m : Option A} {P Q : A → Type 0}
    → Returns m P
    → ((a : A) → P a → Q a)
    → Returns m Q
Returns_mono (a, e, p) k = (a, e, k a p)

pub bind_some :
    {A B : Type 0} → {o : Option A} → {a : A} → (k : A → Option B) → o ≡ some a → (o >>= k) ≡ k a
bind_some k e = ap (λ z. z >>= k) e

pub bind_none : {A B : Type 0} → {o : Option A} → (k : A → Option B) → o ≡ none → (o >>= k) ≡ none
bind_none k e = ap (λ z. z >>= k) e

pub Returns_eq :
    {A : Type 0} {m m' : Option A} (P : A → Type 0) → m ≡ m' → Returns m' P → Returns m P
Returns_eq P e (a, e', p) = (a, e ∙ e', p)
