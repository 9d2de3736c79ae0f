-- ===== src/Prelude/Dict.antt =====
-- A `HashMap` as an association list in the order of insertion. The order serves the proofs; the
-- models of the program read it only through the operations.
use Prim.Native.Nat.{ℕ, suc}
use mathlib.Core.Path.{◌≡◌, refl, ap}
use mathlib.Core.Logic.{◌↔◌, inl, inr}
use mathlib.Core.Bool.{Bool, true, false}
use mathlib.Core.Option.{Option, none, some}
use mathlib.Core.List.{List, [], ◌∷◌, ◌++◌}
use native.Mathlib.Omega.{arith}
use rbph_website_backend.Prelude.Tests.{◌==◌ as nat_beq, ==_iff, if◌then◌else◌, Bool-cases}
use rbph_website_backend.Prelude.Text.{Str, str_eq, str_eq_iff}
use rbph_website_backend.Prelude.Lists.{length}

-- Rust's trait `Eq`: the test, and that it decides equality.
pub record Eq {ℓ} (Key : Type ℓ) : Type ℓ where
  pub beq : (left right : Key) → Bool
  pub beq_iff : (left right : Key) → (beq left right ≡ true) ↔ (left ≡ right)

instance abbrev pub text_eq : Eq Str
text_eq = record { beq = str_eq; beq_iff = str_eq_iff }

instance abbrev pub nat_eq : Eq ℕ
nat_eq = record { beq = nat_beq; beq_iff = ==_iff }

module _ {K V : Type 0} where
  abbrev pub keys : List (K × V) → List K
  keys [] = []
  keys ((k, _) ∷ m) = k ∷ keys m

module _ {K V : Type 0} ⦃e : Eq K⦄ where
  unfoldable pub lookup : K → List (K × V) → Option V
  lookup k [] = none
  lookup k ((j, v) ∷ m) = if e.beq j k then some v else lookup k m

  unfoldable pub insert : K → V → List (K × V) → List (K × V)
  insert k v [] = (k, v) ∷ []
  insert k v ((j, w) ∷ m) = if e.beq j k then (k, v) ∷ m else (j, w) ∷ insert k v m

  unfoldable pub remove : K → List (K × V) → List (K × V)
  remove k [] = []
  remove k ((j, w) ∷ m) = let rest = remove k m in if e.beq j k then rest else (j, w) ∷ rest

module _ {K : Type 0} ⦃e : Eq K⦄ where
  abbrev pub NotIn : K → List K → Type 0
  NotIn k [] = Unit
  NotIn k (j ∷ js) = (e.beq j k ≡ false) × NotIn k js

  abbrev pub Distinct : List K → Type 0
  Distinct [] = Unit
  Distinct (k ∷ ks) = NotIn k ks × Distinct ks

  pub beq_refl : (k : K) → e.beq k k ≡ true
  beq_refl k = (e.beq_iff k k).1 refl

  pub beq_sym : (j k : K) → e.beq j k ≡ e.beq k j
  beq_sym j k = ground (arith, e.beq_iff j k, e.beq_iff k j)

  pub Distinct-snoc : (ks : List K) (k : K) → Distinct ks → NotIn k ks → Distinct (ks ++ k ∷ [])
  Distinct-snoc [] k d n = (tt, tt)
  Distinct-snoc (j ∷ ks) k d n = (later ks d.0, Distinct-snoc ks k d.1 n.1)
    where
      later : (l : List K) → NotIn j l → NotIn j (l ++ k ∷ [])
      later [] h = (ground (arith, beq_sym j k), tt)
      later (i ∷ l) h = (h.0, later l h.1)

module _ {K V : Type 0} ⦃e : Eq K⦄ where
  pub lookup-insert :
      (k j : K) (v : V) (m : List (K × V))
      → lookup j (insert k v m) ≡ (if e.beq k j then some v else lookup j m)
  unfolding lookup insert
  lookup-insert k j v [] = refl
  lookup-insert k j v ((i, w) ∷ m) =
      ground (arith, e.beq_iff k j, e.beq_iff i k, e.beq_iff i j, lookup-insert k j v m)

  pub lookup-remove :
      (k j : K) (m : List (K × V))
      → lookup j (remove k m) ≡ (if e.beq k j then none else lookup j m)
  unfolding lookup remove
  lookup-remove k j [] = ground arith
  lookup-remove k j ((i, w) ∷ m) =
      ground (arith, e.beq_iff k j, e.beq_iff i k, e.beq_iff i j, lookup-remove k j m)

  pub NotIn-of_lookup : (k : K) (m : List (K × V)) → lookup k m ≡ none → NotIn k (keys m)
  unfolding lookup
  NotIn-of_lookup k [] h = tt
  NotIn-of_lookup k ((j, v) ∷ m) h = elim (Bool-cases (e.beq j k)) [
    | inl p ↦ cc (rw p at h)
    | inr p ↦ (p, NotIn-of_lookup k m (rw p at h))
  ]

  -- A new key goes behind the others.
  pub insert_new :
      (k : K) (v : V) (m : List (K × V)) → NotIn k (keys m) → insert k v m ≡ m ++ (k, v) ∷ []
  unfolding insert
  insert_new k v [] h = refl
  insert_new k v ((j, w) ∷ m) h = rw h.0 (ap (λ l. (j, w) ∷ l) (insert_new k v m h.1))

  pub remove-NotIn : (k : K) (m : List (K × V)) → NotIn k (keys m) → remove k m ≡ m
  unfolding remove
  remove-NotIn k [] h = refl
  remove-NotIn k ((j, w) ∷ m) h = rw h.0 (ap (λ l. (j, w) ∷ l) (remove-NotIn k m h.1))

  pub remove_first :
      (k : K) (v : V) (m : List (K × V)) → NotIn k (keys m) → remove k ((k, v) ∷ m) ≡ m
  unfolding remove
  remove_first k v m h = rw (beq_refl k) (remove-NotIn k m h)

module _ {K V : Type 0} where
  pub length-keys : (m : List (K × V)) → length (keys m) ≡ length m
  length-keys [] = refl
  length-keys (_ ∷ m) = ap suc (length-keys m)

  pub keys-append : (m n : List (K × V)) → keys (m ++ n) ≡ keys m ++ keys n
  keys-append [] n = refl
  keys-append ((k, _) ∷ m) n = ap (λ l. k ∷ l) (keys-append m n)
