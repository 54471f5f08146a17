-- ===== src/Common/Results.antt =====
-- `Result<A, E>` and its `?` operator.
use mathlib.Core.Option
use mathlib.Core.Option.{Option, none, some}
use mathlib.Core.Path.{◌≡◌, refl}
use mathlib.Core.Logic.{◌⊎◌, inl, inr}

-- `E` first, so that `Result GraphError` is what a fallible function returns
pub data Result {ℓ κ} (E : Type ℓ) (A : Type κ) : Type (ℓ ⊔ κ) where
  err : E → Result E A
  ok : A → Result E A

infixl 5 ◌>>=◌
abbrev pub ◌>>=◌ {ℓ κ μ} :
    {E : Type ℓ} {A : Type κ} {B : Type μ} (tried : Result E A) (next : A → Result E B) → Result E B
err failure >>= next = err failure
ok value >>= next = next value

module _ {ℓ κ} {E : Type ℓ} {A : Type κ} where
  pub Result-cases : (m : Result E A) → ((a : A) × (m ≡ ok a)) ⊎ ((e : E) × (m ≡ err e))
  Result-cases (err failure) = inr (failure, refl)
  Result-cases (ok value) = inl (value, refl)

  pub >>=-eq-ok {μ} :
      {B : Type μ} (tried : Result E A) (next : A → Result E B) {result : B}
      → (tried >>= next) ≡ ok result
      → (value : A) × (tried ≡ ok value) × (next value ≡ ok result)
  >>=-eq-ok (err failure) next ended = cc
  >>=-eq-ok (ok value) next ended = (value, refl, ended)

pub bind-eq-some {ℓ κ} :
    {A : Type ℓ} {B : Type κ} (o : Option A) (f : A → Option B) {b : B}
    → Option.bind o f ≡ some b
    → (a : A) × (o ≡ some a) × (f a ≡ some b)
unfolding Option.bind
bind-eq-some (some value) next found = (value, refl, found)
bind-eq-some none next found = absurd (cc)
