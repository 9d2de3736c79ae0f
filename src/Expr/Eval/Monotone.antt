-- ===== src/Expr/Eval/Monotone.antt =====
-- Gates without negation stay open while a team makes progress.
use rbph_website_backend.Prelude.{
  ℕ, ◌≤◌, Str, ◌≡◌, refl, arith, Bool, true, false, ◌&&◌, ◌||◌, Option, none, some, List, [], ◌∷◌,
  all, any,
}
use rbph_website_backend.Expr.Ast.{
  PuzzleRef, RoundRef, PuzzleStates, CmpOp, gt, ge, lt, le, SetExpr, puzzles, puzzle_range, round,
  ValueExpr, solved_count, number, GateExpr, GateExprs,
}
use rbph_website_backend.Expr.Eval.{
  cmp_usize, resolve_puzzle, resolve_round, resolve_puzzles, materialize_set, count_where,
  eval_value, is_some_and, eval_compiled, eval_all, eval_any,
}

-- `t` is a later state of the team that `s` shows: the same puzzles and rounds, more progress.
pub record Progress (s t : PuzzleStates) : Type 0 where
  pub solved_stays : (id : ℕ) → s.is_solved id ≡ true → t.is_solved id ≡ true
  pub same_slug : (k : Str) → t.puzzle_slug k ≡ s.puzzle_slug k
  pub same_round_slug : (k : Str) → t.round_slug k ≡ s.round_slug k
  pub same_round : (r : ℕ) → t.round_puzzles r ≡ s.round_puzzles r
  pub started_stays : s.game_started ≡ true → t.game_started ≡ true
  pub triggered_stays : (id : ℕ) (k : Str) → s.is_triggered id k ≡ true → t.is_triggered id k ≡ true

-- A comparison that a growing count cannot falsify: the other side is a number.
abbrev pub IsRising : CmpOp → ValueExpr → ValueExpr → Type 0
IsRising gt _ (number _) = Unit
IsRising ge _ (number _) = Unit
IsRising lt (number _) _ = Unit
IsRising le (number _) _ = Unit
IsRising _ _ _ = ⊥

abbrev mutual
  pub IsPositive : GateExpr → Type 0
  IsPositive (GateExpr.and xs) = AllPositive xs
  IsPositive (GateExpr.or xs) = AllPositive xs
  IsPositive (GateExpr.not _) = ⊥
  IsPositive (GateExpr.cmp op lhs rhs) = IsRising op lhs rhs
  IsPositive _ = Unit

  pub AllPositive : GateExprs → Type 0
  AllPositive GateExprs.nil = Unit
  AllPositive (GateExprs.cons x xs) = IsPositive x × AllPositive xs

count_or_zero : (ℕ → Bool) → Option (List ℕ) → ℕ
count_or_zero f none = 0
count_or_zero f (some ids) = count_where f ids

and_grows :
    (a b c d : Bool)
    → (a ≡ true → c ≡ true)
    → (b ≡ true → d ≡ true)
    → (a && b) ≡ true
    → (c && d) ≡ true
and_grows true true c d f g h = rw (f refl, g refl)
and_grows true false c d f g h = cc
and_grows false b c d f g h = cc

or_grows :
    (a b c d : Bool)
    → (a ≡ true → c ≡ true)
    → (b ≡ true → d ≡ true)
    → (a || b) ≡ true
    → (c || d) ≡ true
or_grows true b c d f g h = rw (f refl)
or_grows false true true d f g h = refl
or_grows false true false d f g h = g refl
or_grows false false c d f g h = cc

module _ {s t : PuzzleStates} (p : Progress s t) where
  same_puzzle : (r : PuzzleRef) → resolve_puzzle t r ≡ resolve_puzzle s r
  unfolding resolve_puzzle
  same_puzzle (PuzzleRef.id i) = refl
  same_puzzle (PuzzleRef.slug k) = p.same_slug k

  same_puzzles : (v : List PuzzleRef) → resolve_puzzles t v ≡ resolve_puzzles s v
  unfolding resolve_puzzles
  same_puzzles [] = refl
  same_puzzles (r ∷ v) = ground (arith, same_puzzle r, same_puzzles v)

  same_slug_round :
      (k : Str) → resolve_round t (RoundRef.slug k) ≡ resolve_round s (RoundRef.slug k)
  unfolding resolve_round
  same_slug_round k i = elim (p.same_round_slug k i) [ none ↦ none | some r ↦ p.same_round r i ]

  same_set : (e : SetExpr) → materialize_set t e ≡ materialize_set s e
  unfolding materialize_set
  same_set (puzzles v) = same_puzzles v
  same_set (puzzle_range a b) = refl
  same_set (round (RoundRef.id r)) = p.same_round r
  same_set (round (RoundRef.slug k)) = same_slug_round k

  count_grows : (ids : List ℕ) → count_where s.is_solved ids ≤ count_where t.is_solved ids
  unfolding count_where
  count_grows [] = omega arith
  count_grows (i ∷ ids) = ground (arith, count_grows ids, p.solved_stays i)

  count_of : (o : Option (List ℕ)) → count_or_zero s.is_solved o ≤ count_or_zero t.is_solved o
  unfolding count_or_zero
  count_of none = omega arith
  count_of (some ids) = count_grows ids

  value_grows : (e : ValueExpr) → eval_value s e ≤ eval_value t e
  unfolding eval_value count_or_zero
  value_grows (number n) = omega arith
  value_grows (solved_count set) = ground (arith, same_set set, count_of (materialize_set s set))

  cmp_grows :
      (op : CmpOp) (lhs rhs : ValueExpr)
      → IsRising op lhs rhs
      → cmp_usize op (eval_value s lhs) (eval_value s rhs) ≡ true
      → cmp_usize op (eval_value t lhs) (eval_value t rhs) ≡ true
  unfolding cmp_usize eval_value
  cmp_grows gt lhs (number n) r h = ground (arith, value_grows lhs)
  cmp_grows ge lhs (number n) r h = ground (arith, value_grows lhs)
  cmp_grows lt (number n) rhs r h = ground (arith, value_grows rhs)
  cmp_grows le (number n) rhs r h = ground (arith, value_grows rhs)
  cmp_grows _ _ _ r h = elim r [ ]

  all_grows : (ids : List ℕ) → all s.is_solved ids ≡ true → all t.is_solved ids ≡ true
  all_grows [] h = refl
  all_grows (i ∷ ids) h = ground (arith, all_grows ids, p.solved_stays i)

  any_grows : (ids : List ℕ) → any s.is_solved ids ≡ true → any t.is_solved ids ≡ true
  any_grows [] h = cc
  any_grows (i ∷ ids) h = ground (arith, any_grows ids, p.solved_stays i)

  some_and_grows :
      {A : Type 0} (f g : A → Bool) (o o' : Option A)
      → o' ≡ o
      → ((a : A) → f a ≡ true → g a ≡ true)
      → is_some_and f o ≡ true
      → is_some_and g o' ≡ true
  some_and_grows f g none o' e fg h = cc
  some_and_grows f g (some a) o' e fg h = rw e (fg a h)

  mutual
    unfolding eval_compiled

    eval_grows : (e : GateExpr) → IsPositive e → eval_compiled s e ≡ true → eval_compiled t e ≡ true
    eval_grows GateExpr.true q h = refl
    eval_grows GateExpr.false q h = cc
    eval_grows GateExpr.game_started q h = p.started_stays h
    eval_grows (GateExpr.and xs) q h = eval_all_grows xs q h
    eval_grows (GateExpr.or xs) q h = eval_any_grows xs q h
    eval_grows (GateExpr.not x) q h = elim q [ ]
    eval_grows (GateExpr.solved r) q h =
        some_and_grows s.is_solved t.is_solved _ _ (same_puzzle r) p.solved_stays h
    eval_grows (GateExpr.all_solved set) q h =
        some_and_grows (all s.is_solved) (all t.is_solved) _ _ (same_set set) all_grows h
    eval_grows (GateExpr.any_solved set) q h =
        some_and_grows (any s.is_solved) (any t.is_solved) _ _ (same_set set) any_grows h
    eval_grows (GateExpr.triggered r k) q h =
        some_and_grows (λ i. s.is_triggered i k) (λ i. t.is_triggered i k) _ _ (same_puzzle r)
          (λ i. p.triggered_stays i k) h
    eval_grows (GateExpr.cmp op lhs rhs) q h = cmp_grows op lhs rhs q h

    eval_all_grows : (xs : GateExprs) → AllPositive xs → eval_all s xs ≡ true → eval_all t xs ≡ true
    eval_all_grows GateExprs.nil q h = refl
    eval_all_grows (GateExprs.cons x xs) q h =
        and_grows _ _ _ _ (eval_grows x q.0) (eval_all_grows xs q.1) h

    eval_any_grows : (xs : GateExprs) → AllPositive xs → eval_any s xs ≡ true → eval_any t xs ≡ true
    eval_any_grows GateExprs.nil q h = cc
    eval_any_grows (GateExprs.cons x xs) q h =
        or_grows _ _ _ _ (eval_grows x q.0) (eval_any_grows xs q.1) h

-- A gate without negation, whose comparisons only ask for at least so many solved puzzles, stays
-- open in every later state of the team.
pub eval_compiled-Progress :
    (s t : PuzzleStates) (e : GateExpr)
    → Progress s t
    → IsPositive e
    → eval_compiled s e ≡ true
    → eval_compiled t e ≡ true
eval_compiled-Progress s t e p q h = eval_grows p e q h
