-- ===== src/Expr/Compiler.antt =====
-- src/expr/compiler.rs: from S-expressions to simplified gates. The match on the head of a form is
-- `gate_form` and its like; the arms are the clauses of `gate_branch` and its like.
pub mod Forms
pub mod Atoms
pub mod Fold
pub mod Meaning
pub mod Accepts
pub mod Simplified
use rbph_website_backend.Prelude.{
  Str, String, codes, str_eq, List, [], ◌∷◌, Result, ok, err, ◌>>=◌, if◌then◌else◌,
}
use rbph_website_backend.Expr.Parser.{RawSexpr, RawSexprs, atom, list, nil, cons}
use rbph_website_backend.Expr.Ast.{
  PuzzleRef, SetExpr, puzzles, puzzle_range, round, ValueExpr, solved_count, number, GateExpr,
  GateExprs, HintDisplayExpr, HintDisplayExprs,
}
use Forms.{SetForm, set_form, GateForm, gate_form, HintForm, hint_form}
use Atoms.{
  CompileError, bad_form, unknown_op, expected_atom, expected_set_expr, expected_value_expr,
  parse_u32, parse_usize, parse_puzzle_ref, parse_round_ref, atom_text, valid_key,
}
use Fold.{
  compile_gate_and, compile_gate_or, negate_gate, compile_hint_and, compile_hint_or, negate_hint,
}

-- The loop over the arguments of `puzzles`.
unfoldable pub parse_puzzle_refs : RawSexprs → Result CompileError (List PuzzleRef)
parse_puzzle_refs nil = ok []
parse_puzzle_refs (cons it items) = do
  id ← parse_puzzle_ref it
  ids ← parse_puzzle_refs items
  ok (id ∷ ids)

unfoldable pub set_branch : SetForm → RawSexprs → Result CompileError SetExpr
unfolding parse_puzzle_refs
set_branch SetForm.puzzles args = do ids ← parse_puzzle_refs args; ok (puzzles ids)
set_branch SetForm.puzzle_range (cons a (cons b nil)) = do
  start ← parse_u32 a
  end ← parse_u32 b
  ok (puzzle_range start end)
set_branch SetForm.puzzle_range _ = err (bad_form "puzzle-range expects 2 args")
set_branch SetForm.round (cons a nil) = do r ← parse_round_ref a; ok (round r)
set_branch SetForm.round _ = err (bad_form "round expects 1 arg")
set_branch SetForm.unknown _ = err expected_set_expr

unfoldable pub compile_set : RawSexpr → Result CompileError SetExpr
unfolding set_branch
compile_set (list nil) = err (bad_form "empty list")
compile_set (list (cons (atom head) args)) = set_branch (set_form head) args
compile_set (list (cons (list _) args)) = err expected_atom
compile_set (atom _) = err expected_set_expr

abbrev value_args : RawSexprs → Result CompileError ValueExpr
value_args (cons a nil) = do set ← compile_set a; ok (solved_count set)
value_args _ = err (bad_form "solved-count expects 1 set arg")

unfoldable pub compile_value : RawSexpr → Result CompileError ValueExpr
unfolding compile_set
compile_value (atom a) = do n ← parse_usize (atom a); ok (number n)
compile_value (list nil) = err (bad_form "empty list")
compile_value (list (cons (atom head) args)) =
    if str_eq head (codes "solved-count") then value_args args else err expected_value_expr
compile_value (list (cons (list _) args)) = err expected_atom

-- The end of the arm of `triggered`.
unfoldable pub triggered_key : RawSexpr → Str → Result CompileError GateExpr
triggered_key a key =
    let puzzle = parse_puzzle_ref a >>= λ p. ok (GateExpr.triggered p key) in
    if valid_key key then puzzle else err (bad_form "invalid trigger key")

-- The arms of `compile_gate`. Those of `and`, `or` and `not` are given the compiled arguments.
unfoldable pub gate_branch :
    Str
    → GateForm
    → RawSexprs
    → Result CompileError GateExprs
    → Result CompileError GateExpr
    → Result CompileError GateExpr
unfolding compile_set compile_value triggered_key
gate_branch head GateForm.true nil many inner = ok GateExpr.true
gate_branch head GateForm.true _ many inner = err (bad_form "true expects 0 arg")
gate_branch head GateForm.false nil many inner = ok GateExpr.false
gate_branch head GateForm.false _ many inner = err (bad_form "false expects 0 arg")
gate_branch head GateForm.and args many inner = do children ← many; ok (compile_gate_and children)
gate_branch head GateForm.or args many inner = do children ← many; ok (compile_gate_or children)
gate_branch head GateForm.not args many inner = inner
gate_branch head GateForm.solved (cons a nil) many inner = do
  puzzle ← parse_puzzle_ref a
  ok (GateExpr.solved puzzle)
gate_branch head GateForm.solved _ many inner = err (bad_form "solved expects 1 arg")
gate_branch head GateForm.all_solved (cons a nil) many inner = do
  set ← compile_set a
  ok (GateExpr.all_solved set)
gate_branch head GateForm.all_solved _ many inner = err (bad_form "all-solved expects 1 set arg")
gate_branch head GateForm.any_solved (cons a nil) many inner = do
  set ← compile_set a
  ok (GateExpr.any_solved set)
gate_branch head GateForm.any_solved _ many inner = err (bad_form "any-solved expects 1 set arg")
gate_branch head GateForm.game_started nil many inner = ok GateExpr.game_started
gate_branch head GateForm.game_started _ many inner = err (bad_form "game-started expects 0 arg")
gate_branch head GateForm.triggered (cons a (cons k nil)) many inner = do
  key ← atom_text k
  triggered_key a key
gate_branch head GateForm.triggered _ many inner = err (bad_form "triggered expects 2 args")
gate_branch head (GateForm.cmp op) (cons a (cons b nil)) many inner = do
  lhs ← compile_value a
  rhs ← compile_value b
  ok (GateExpr.cmp op lhs rhs)
gate_branch head (GateForm.cmp op) _ many inner = err (bad_form "comparison expects 2 args")
gate_branch head GateForm.unknown args many inner = err (unknown_op head)

unfoldable mutual
  pub compile_gate : RawSexpr → Result CompileError GateExpr
  compile_gate (atom _) = err (bad_form "bare atom not allowed")
  compile_gate (list nil) = err (bad_form "empty list")
  compile_gate (list (cons (list _) args)) = err expected_atom
  compile_gate (list (cons (atom head) args)) =
      let many = compile_gates args in
      let inner = compile_gate_not args in gate_branch head (gate_form head) args many inner

  -- `items.iter().map(compile_gate).collect()`: the first error ends it.
  pub compile_gates : RawSexprs → Result CompileError GateExprs
  compile_gates nil = ok GateExprs.nil
  compile_gates (cons item items) = do
    child ← compile_gate item
    children ← compile_gates items
    ok (GateExprs.cons child children)

  -- The arm of `not`.
  pub compile_gate_not : RawSexprs → Result CompileError GateExpr
  compile_gate_not (cons item nil) = do expr ← compile_gate item; ok (negate_gate expr)
  compile_gate_not nil = err (bad_form "not expects 1 arg")
  compile_gate_not (cons item (cons _ _)) = err (bad_form "not expects 1 arg")

-- The arms of `compile_hint_display`; the last one is the gate of the whole form.
unfoldable pub hint_branch :
    HintForm
    → RawSexprs
    → Result CompileError HintDisplayExprs
    → Result CompileError HintDisplayExpr
    → Result CompileError GateExpr
    → Result CompileError HintDisplayExpr
hint_branch HintForm.hint_enabled nil many inner whole = ok HintDisplayExpr.hint_enabled
hint_branch HintForm.hint_enabled _ many inner whole = err (bad_form "hint-enabled expects 0 arg")
hint_branch HintForm.hint_cooled_down nil many inner whole = ok HintDisplayExpr.hint_cooled_down
hint_branch HintForm.hint_cooled_down _ many inner whole =
    err (bad_form "hint-cooled-down expects 0 arg")
hint_branch HintForm.and args many inner whole = do children ← many; ok (compile_hint_and children)
hint_branch HintForm.or args many inner whole = do children ← many; ok (compile_hint_or children)
hint_branch HintForm.not args many inner whole = inner
hint_branch HintForm.other args many inner whole = do g ← whole; ok (HintDisplayExpr.gate g)

unfoldable mutual
  pub compile_hint_display : RawSexpr → Result CompileError HintDisplayExpr
  compile_hint_display (atom _) = err (bad_form "bare atom not allowed")
  compile_hint_display (list nil) = err (bad_form "empty list")
  compile_hint_display (list (cons (list _) args)) = err expected_atom
  compile_hint_display (list (cons (atom head) args)) =
      let many = compile_hints args in
      let inner = compile_hint_not args in
      let whole = compile_gate (list (cons (atom head) args)) in
      hint_branch (hint_form head) args many inner whole

  pub compile_hints : RawSexprs → Result CompileError HintDisplayExprs
  compile_hints nil = ok HintDisplayExprs.nil
  compile_hints (cons item items) = do
    child ← compile_hint_display item
    children ← compile_hints items
    ok (HintDisplayExprs.cons child children)

  pub compile_hint_not : RawSexprs → Result CompileError HintDisplayExpr
  compile_hint_not (cons item nil) = do expr ← compile_hint_display item; ok (negate_hint expr)
  compile_hint_not nil = err (bad_form "not expects 1 arg")
  compile_hint_not (cons item (cons _ _)) = err (bad_form "not expects 1 arg")
