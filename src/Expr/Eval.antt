-- ===== src/Expr/Eval.antt =====
-- The evaluators of src/expr/ast.rs.
pub mod Cooldown
pub mod Sets
pub mod Monotone
use rbph_website_backend.Prelude.{
  ℕ, zero, suc, ◌+◌, ◌-◌, Str, Bool, true, false, ◌&&◌, ◌||◌, Option, none, some, List, [], ◌∷◌,
  ltb, leb, ◌==◌, if◌then◌else◌, all, any, length,
}
use rbph_website_backend.Prelude
use rbph_website_backend.Expr.Ast.{
  PuzzleRef, RoundRef, PuzzleStates, CmpOp, gt, ge, lt, le, eq, ne, SetExpr, puzzles, puzzle_range,
  round, ValueExpr, solved_count, number, GateExpr, GateExprs, HintDisplayExpr, HintDisplayExprs,
}

unfoldable pub cmp_usize : CmpOp → ℕ → ℕ → Bool
cmp_usize gt lhs rhs = ltb rhs lhs
cmp_usize ge lhs rhs = leb rhs lhs
cmp_usize lt lhs rhs = ltb lhs rhs
cmp_usize le lhs rhs = leb lhs rhs
cmp_usize eq lhs rhs = lhs == rhs
cmp_usize ne lhs rhs = Prelude.not (lhs == rhs)

unfoldable pub resolve_puzzle : PuzzleStates → PuzzleRef → Option ℕ
resolve_puzzle state (PuzzleRef.id id) = some id
resolve_puzzle state (PuzzleRef.slug slug) = state.puzzle_slug slug

unfoldable pub resolve_round : PuzzleStates → RoundRef → Option (List ℕ)
resolve_round state (RoundRef.id id) = state.round_puzzles id
resolve_round state (RoundRef.slug slug) = elim (state.round_slug slug) [
  | none ↦ none
  | some id ↦ state.round_puzzles id
]

-- `collect` into an `Option`: none if one reference is unknown.
unfoldable pub resolve_puzzles : PuzzleStates → List PuzzleRef → Option (List ℕ)
resolve_puzzles state [] = some []
resolve_puzzles state (puzzle ∷ v) = elim (resolve_puzzle state puzzle) [
  | none ↦ none
  | some id ↦ elim (resolve_puzzles state v) [ none ↦ none | some ids ↦ some (id ∷ ids) ]
]

-- The `n` numbers from `a` on.
unfoldable pub count_from : ℕ → ℕ → List ℕ
count_from a zero = []
count_from a (suc n) = a ∷ count_from (suc a) n

-- `(a..=b).collect()` for `a <= b`.
unfoldable pub range_inclusive : ℕ → ℕ → List ℕ
unfolding count_from
range_inclusive a b = count_from a (b - a + 1)

unfoldable pub materialize_set : PuzzleStates → SetExpr → Option (List ℕ)
unfolding resolve_puzzles resolve_puzzle range_inclusive resolve_round
materialize_set state (puzzles v) = resolve_puzzles state v
materialize_set state (puzzle_range a b) =
    some (if leb a b then range_inclusive a b else range_inclusive b a)
materialize_set state (round r) = resolve_round state r

-- `filter(p).count()`.
unfoldable pub count_where : (ℕ → Bool) → List ℕ → ℕ
count_where p [] = 0
count_where p (x ∷ xs) = (if p x then 1 else 0) + count_where p xs

unfoldable pub eval_value : PuzzleStates → ValueExpr → ℕ
unfolding materialize_set count_where
eval_value state (solved_count set) = elim (materialize_set state set) [
  | none ↦ 0
  | some ids ↦ count_where state.is_solved ids
]
eval_value state (number n) = n

-- `is_some_and`.
abbrev pub is_some_and : {A : Type 0} → (A → Bool) → Option A → Bool
is_some_and p none = false
is_some_and p (some a) = p a

unfoldable mutual
  pub eval_compiled : PuzzleStates → GateExpr → Bool
  eval_compiled state GateExpr.true = true
  eval_compiled state GateExpr.false = false
  eval_compiled state (GateExpr.and xs) = eval_all state xs
  eval_compiled state (GateExpr.or xs) = eval_any state xs
  eval_compiled state (GateExpr.not x) = Prelude.not (eval_compiled state x)
  eval_compiled state (GateExpr.solved puzzle) =
      is_some_and state.is_solved (resolve_puzzle state puzzle)
  eval_compiled state (GateExpr.all_solved set) =
      is_some_and (all state.is_solved) (materialize_set state set)
  eval_compiled state (GateExpr.any_solved set) =
      is_some_and (any state.is_solved) (materialize_set state set)
  eval_compiled state GateExpr.game_started = state.game_started
  eval_compiled state (GateExpr.triggered puzzle key) =
      is_some_and (λ id. state.is_triggered id key) (resolve_puzzle state puzzle)
  eval_compiled state (GateExpr.cmp op lhs rhs) =
      cmp_usize op (eval_value state lhs) (eval_value state rhs)

  pub eval_all : PuzzleStates → GateExprs → Bool
  eval_all state GateExprs.nil = true
  eval_all state (GateExprs.cons x xs) = eval_compiled state x && eval_all state xs

  pub eval_any : PuzzleStates → GateExprs → Bool
  eval_any state GateExprs.nil = false
  eval_any state (GateExprs.cons x xs) = eval_compiled state x || eval_any state xs

unfoldable mutual
  pub eval_hint_display_compiled : PuzzleStates → HintDisplayExpr → Bool → Bool → Bool
  eval_hint_display_compiled state (HintDisplayExpr.gate expr) enabled cooled =
      eval_compiled state expr
  eval_hint_display_compiled state (HintDisplayExpr.and exprs) enabled cooled =
      eval_hint_all state exprs enabled cooled
  eval_hint_display_compiled state (HintDisplayExpr.or exprs) enabled cooled =
      eval_hint_any state exprs enabled cooled
  eval_hint_display_compiled state (HintDisplayExpr.not expr) enabled cooled =
      Prelude.not (eval_hint_display_compiled state expr enabled cooled)
  eval_hint_display_compiled state HintDisplayExpr.hint_enabled enabled cooled = enabled
  eval_hint_display_compiled state HintDisplayExpr.hint_cooled_down enabled cooled = cooled

  pub eval_hint_all : PuzzleStates → HintDisplayExprs → Bool → Bool → Bool
  eval_hint_all state HintDisplayExprs.nil enabled cooled = true
  eval_hint_all state (HintDisplayExprs.cons x xs) enabled cooled =
      eval_hint_display_compiled state x enabled cooled && eval_hint_all state xs enabled cooled

  pub eval_hint_any : PuzzleStates → HintDisplayExprs → Bool → Bool → Bool
  eval_hint_any state HintDisplayExprs.nil enabled cooled = false
  eval_hint_any state (HintDisplayExprs.cons x xs) enabled cooled =
      eval_hint_display_compiled state x enabled cooled || eval_hint_any state xs enabled cooled

unfoldable mutual
  pub hint_display_uses_cooldown : HintDisplayExpr → Bool
  hint_display_uses_cooldown (HintDisplayExpr.and exprs) = any_uses_cooldown exprs
  hint_display_uses_cooldown (HintDisplayExpr.or exprs) = any_uses_cooldown exprs
  hint_display_uses_cooldown (HintDisplayExpr.not expr) = hint_display_uses_cooldown expr
  hint_display_uses_cooldown HintDisplayExpr.hint_cooled_down = true
  hint_display_uses_cooldown (HintDisplayExpr.gate _) = false
  hint_display_uses_cooldown HintDisplayExpr.hint_enabled = false

  pub any_uses_cooldown : HintDisplayExprs → Bool
  any_uses_cooldown HintDisplayExprs.nil = false
  any_uses_cooldown (HintDisplayExprs.cons x xs) =
      hint_display_uses_cooldown x || any_uses_cooldown xs
