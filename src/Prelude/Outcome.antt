-- ===== src/Prelude/Outcome.antt =====
-- `Result<T, E>` of the source, with `?` as bind.
use mathlib.Core.Path.{◌≡◌, refl, subst}

pub data Result {ℓ κ} (A : Type ℓ) (E : Type κ) : Type (ℓ ⊔ κ) where
  ok : A → Result A E
  err : E → Result A E

module _ {ℓ κ} {A : Type ℓ} {E : Type κ} where
  infixl 5 ◌>>=◌
  abbrev pub ◌>>=◌ {μ} : {B : Type μ} → Result A E → (A → Result B E) → Result B E
  err e >>= next = err e
  ok x >>= next = next x

  abbrev pub map_ok {μ} : {B : Type μ} → (A → B) → Result A E → Result B E
  map_ok f (ok a) = ok (f a)
  map_ok f (err e) = err e

  abbrev pub map_err {μ} : {F : Type μ} → (E → F) → Result A E → Result A F
  map_err f (ok a) = ok a
  map_err f (err e) = err (f e)

  -- Inversion of a successful bind.
  pub >>=-eq-ok {μ} :
      {B : Type μ} (r : Result A E) (next : A → Result B E) {last : B}
      → (r >>= next) ≡ ok last
      → (x : A) × (r ≡ ok x) × (next x ≡ ok last)
  >>=-eq-ok (err e) next h = cc
  >>=-eq-ok (ok x) next h = (x, refl, h)

  -- What holds of each value that a check lets through holds of the result.
  pub ensures {μ ν} :
      {B : Type μ} (P : B → Type ν) (m : Result A E) (f : A → B) {b : B}
      → ((a : A) → m ≡ ok a → P (f a))
      → (m >>= λ a. ok (f a)) ≡ ok b
      → P b
  ensures P (ok a) f {b} k h = let same : f a ≡ b = cc in subst P same (k a refl)
  ensures P (err e) f k h = cc

  pub map_err-eq-ok {μ} :
      {F : Type μ} (f : E → F) (m : Result A E) {a : A} → map_err f m ≡ ok a → m ≡ ok a
  map_err-eq-ok f (ok b) h = cc
  map_err-eq-ok f (err e) h = cc

  pub ok-injective : {x y : A} → ◌≡◌ {A = Result A E} (ok x) (ok y) → x ≡ y
  ok-injective h = cc
