-- ===== src/Prelude/Results.antt =====
-- Rust's `Result<A, E>` with the `?` operator as the bind of a `do` block.
use mathlib.Core.Path.{◌≡◌, refl, ap}
use mathlib.Core.Logic.{◌⊎◌, inl, inr}
use mathlib.Core.Bool.{Bool, true, false}
use mathlib.Core.Option.{Option, none, some}
use rbph_website_backend.Prelude.Tests.{if◌then◌else◌}

-- The type of the error comes first, as a chain of `?` keeps it.
pub data Result {ℓ κ} (E : Type ℓ) (A : Type κ) : Type (ℓ ⊔ κ) where
  err : E → Result E A
  ok : A → Result E A

module _ {ℓ κ μ} {E : Type ℓ} {A : Type κ} {B : Type μ} where
  infixl 5 ◌>>=◌
  abbrev pub ◌>>=◌ : Result E A → (A → Result E B) → Result E B
  err reason >>= k = err reason
  ok value >>= k = k value

  -- What a chain that succeeds has gone through.
  pub >>=-eq-ok :
      (r : Result E A) (k : A → Result E B) {b : B}
      → (r >>= k) ≡ ok b
      → (value : A) × (r ≡ ok value) × (k value ≡ ok b)
  >>=-eq-ok (err reason) k p = cc
  >>=-eq-ok (ok value) k p = (value, refl, p)

module _ {ℓ κ μ} {E : Type ℓ} {F : Type κ} {A : Type μ} where
  -- `Result::map_err`.
  abbrev pub map_err : (E → F) → Result E A → Result F A
  map_err change (ok value) = ok value
  map_err change (err reason) = err (change reason)

module _ {ℓ κ} {E : Type ℓ} {A : Type κ} where
  pub Result-cases : (r : Result E A) → ((e : E) × (r ≡ err e)) ⊎ ((a : A) × (r ≡ ok a))
  Result-cases (err e) = inl (e, refl)
  Result-cases (ok a) = inr (a, refl)

  -- The value of a success.
  pub ok-injective : {a b : A} → Path (Result E A) (ok a) (ok b) → a ≡ b
  ok-injective {a = a} h = ap (value_or a) h
    where
      value_or : A → Result E A → A
      value_or default (ok value) = value
      value_or default (err reason) = default

-- What a chain of early returns has gone through: a row that is there, and a test that holds.
module _ {ℓ κ} {A : Type ℓ} {B : Type κ} where
  pub row-eq-some :
      (o : Option A) (k : A → Option B) {b : B}
      → elim o [ none ↦ none | some a ↦ k a ] ≡ some b
      → (a : A) × (o ≡ some a) × (k a ≡ some b)
  row-eq-some none k h = cc
  row-eq-some (some a) k h = (a, refl, h)

module _ {ℓ κ μ} {E : Type ℓ} {A : Type κ} {B : Type μ} where
  pub row-eq-ok :
      (o : Option A) (e : E) (k : A → Result E B) {b : B}
      → elim o [ none ↦ err e | some a ↦ k a ] ≡ ok b
      → (a : A) × (o ≡ some a) × (k a ≡ ok b)
  row-eq-ok none e k h = cc
  row-eq-ok (some a) e k h = (a, refl, h)

module _ {ℓ} {A : Type ℓ} where
  pub if-eq-some :
      (t : Bool) (x : Option A) {a : A}
      → (if t then x else none) ≡ some a
      → (t ≡ true) × (x ≡ some a)
  if-eq-some true x h = (refl, h)
  if-eq-some false x h = cc

module _ {ℓ κ} {E : Type ℓ} {A : Type κ} where
  pub if-eq-ok :
      (t : Bool) (x : Result E A) (e : E) {a : A}
      → (if t then x else err e) ≡ ok a
      → (t ≡ true) × (x ≡ ok a)
  if-eq-ok true x e h = (refl, h)
  if-eq-ok false x e h = cc
