-- ===== src/Expr/Eval/Sets.antt =====
-- What a range of puzzles means: the numbers between its ends, in either order.
use rbph_website_backend.Prelude.{
  ℕ, zero, suc, ◌+◌, ◌-◌, ◌≤◌, ◌<◌, ◌≡◌, ◌↔◌, ◌⊎◌, inl, inr, refl, arith, Bool, true, ◌&&◌, leb,
  all, Bool-cases, leb→le,
}
use rbph_website_backend.Expr.Ast.{PuzzleStates, puzzle_range, GateExpr}
use rbph_website_backend.Expr.Eval.{count_from, range_inclusive, materialize_set, eval_compiled}

-- `i` lies between the ends of a range that may be given in either order.
abbrev pub Between : ℕ → ℕ → ℕ → Type 0
Between a b i = ((a ≤ i) × (i ≤ b)) ⊎ ((b ≤ i) × (i ≤ a))

and_true : (a b : Bool) → (a && b) ≡ true → (a ≡ true) × (b ≡ true)
and_true a b h = ground arith

le_cases : (a i : ℕ) → a ≤ i → (a ≡ i) ⊎ (suc a ≤ i)
le_cases a i h = grind arith

all-count_from :
    (p : ℕ → Bool) (a n : ℕ)
    → all p (count_from a n) ≡ true
    → (i : ℕ) → a ≤ i
    → i < a + n
    → p i ≡ true
unfolding count_from
all-count_from p a zero h i lo hi = absurd (omega arith)
all-count_from p a (suc n) h i lo hi =
    let (first, others) = and_true (p a) (all p (count_from (suc a) n)) h in
    elim (le_cases a i lo) [
      | inl e ↦ rw (← e) first
      | inr lt ↦ all-count_from p (suc a) n others i lt (omega arith)
    ]

all-count_from_of :
    (p : ℕ → Bool) (a n : ℕ)
    → ((i : ℕ) → a ≤ i → i < a + n → p i ≡ true)
    → all p (count_from a n) ≡ true
unfolding count_from
all-count_from_of p a zero h = refl
all-count_from_of p a (suc n) h =
    rw (h a (omega arith) (omega arith))
      (all-count_from_of p (suc a) n λ i lo hi. h i (omega arith) (omega arith))

all-range :
    (p : ℕ → Bool) (a b : ℕ)
    → a ≤ b
    → (all p (range_inclusive a b) ≡ true) ↔ ((i : ℕ) → a ≤ i → i ≤ b → p i ≡ true)
unfolding range_inclusive
all-range p a b le = (
  λ h i lo hi. all-count_from p a (b - a + 1) h i lo (omega arith),
  λ h. all-count_from_of p a (b - a + 1) λ i lo hi. h i lo (omega arith),
)

-- `(all-solved (puzzle-range a b))` holds exactly when every puzzle with a number between the two
-- ends, both included, is solved; the ends may be given in either order.
pub eval_compiled-puzzle_range :
    (state : PuzzleStates) (a b : ℕ)
    → (eval_compiled state (GateExpr.all_solved (puzzle_range a b)) ≡ true)
      ↔ ((i : ℕ) → Between a b i → state.is_solved i ≡ true)
unfolding eval_compiled materialize_set
eval_compiled-puzzle_range state a b = elim (Bool-cases (leb a b)) [
  | inl le ↦
      let q = all-range state.is_solved a b (leb→le a b le) in
      rw le (
        λ h i. elim [
          | inl r ↦ q.0 h i r.0 r.1
          | inr r ↦ q.0 h i (omega (arith, leb→le a b le)) (omega (arith, leb→le a b le))
        ],
        λ h. q.1 λ i lo hi. h i (inl (lo, hi)),
      )
  | inr gt ↦
      let ge : b ≤ a = ground arith in
      let q = all-range state.is_solved b a ge in
      rw gt (
        λ h i. elim [ inl r ↦ q.0 h i (omega arith) (omega arith) | inr r ↦ q.0 h i r.0 r.1 ],
        λ h. q.1 λ i lo hi. h i (inr (lo, hi)),
      )
]
