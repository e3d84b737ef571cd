-- ===== src/Prelude/Optional.antt =====
-- `?` on `Option`, for do blocks, and conversions between options and results.
use mathlib.Core.Path.{◌≡◌, refl}
use mathlib.Core.Option.{Option, none, some}
use keenetic_rci.Prelude.Outcome.{Result, ok, err}

module _ {ℓ} {A : Type ℓ} where
  infixl 5 ◌>>=◌
  abbrev pub ◌>>=◌ {κ} : {B : Type κ} → Option A → (A → Option B) → Option B
  none >>= next = none
  some a >>= next = next a

  -- Inversion of a chain that gives a value.
  pub >>=-eq-some {κ} :
      {B : Type κ} (o : Option A) (next : A → Option B) {last : B}
      → (o >>= next) ≡ some last
      → (a : A) × (o ≡ some a) × (next a ≡ some last)
  >>=-eq-some none next h = cc
  >>=-eq-some (some a) next h = (a, refl, h)

  abbrev pub ok_or {κ} : {E : Type κ} → Option A → E → Result A E
  ok_or none e = err e
  ok_or (some a) e = ok a

  pub ok_or-eq-ok {κ} : {E : Type κ} (o : Option A) (e : E) {a : A} → ok_or o e ≡ ok a → o ≡ some a
  ok_or-eq-ok none e h = cc
  ok_or-eq-ok (some b) e h = cc

  abbrev pub or_else : Option A → Option A → Option A
  or_else none other = other
  or_else (some a) other = some a

  pub some-injective : {x y : A} → ◌≡◌ {A = Option A} (some x) (some y) → x ≡ y
  some-injective h = cc
