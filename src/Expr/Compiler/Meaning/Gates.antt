-- ===== src/Expr/Compiler/Meaning/Gates.antt =====
-- Folding and flattening keep the meaning of a gate's connectives.
use rbph_website_backend.Prelude.{
  ◌≡◌, refl, ap, ◌∙◌, arith, Bool, true, false, ◌&&◌, ◌||◌, Bool-cases, inl, inr,
}
use rbph_website_backend.Prelude
use rbph_website_backend.Expr.Ast.{PuzzleStates, GateExpr, GateExprs}
use rbph_website_backend.Expr.Eval.{eval_compiled, eval_all, eval_any}
use rbph_website_backend.Expr.Compiler.Fold.{
  append_gates, any_false, any_true, flatten_and, flatten_or, join_and, join_or, compile_gate_and,
  compile_gate_or, negate_gate,
}

module _ (state : PuzzleStates) where
  eval_all-append :
      (xs ys : GateExprs)
      → eval_all state (append_gates xs ys) ≡ (eval_all state xs && eval_all state ys)
  unfolding eval_compiled
  eval_all-append GateExprs.nil ys = refl
  eval_all-append (GateExprs.cons x xs) ys = ground (arith, eval_all-append xs ys)

  eval_any-append :
      (xs ys : GateExprs)
      → eval_any state (append_gates xs ys) ≡ (eval_any state xs || eval_any state ys)
  unfolding eval_compiled
  eval_any-append GateExprs.nil ys = refl
  eval_any-append (GateExprs.cons x xs) ys = ground (arith, eval_any-append xs ys)

  eval_all-any_false : (xs : GateExprs) → any_false xs ≡ true → eval_all state xs ≡ false
  unfolding eval_compiled
  eval_all-any_false GateExprs.nil h = cc
  eval_all-any_false (GateExprs.cons GateExpr.false xs) h = refl
  eval_all-any_false (GateExprs.cons x xs) h = ground (arith, eval_all-any_false xs)

  eval_any-any_true : (xs : GateExprs) → any_true xs ≡ true → eval_any state xs ≡ true
  unfolding eval_compiled
  eval_any-any_true GateExprs.nil h = cc
  eval_any-any_true (GateExprs.cons GateExpr.true xs) h = refl
  eval_any-any_true (GateExprs.cons x xs) h = ground (arith, eval_any-any_true xs)

  eval_all-flatten : (xs : GateExprs) → eval_all state (flatten_and xs) ≡ eval_all state xs
  unfolding eval_compiled flatten_and
  eval_all-flatten GateExprs.nil = refl
  eval_all-flatten (GateExprs.cons GateExpr.true xs) = eval_all-flatten xs
  eval_all-flatten (GateExprs.cons (GateExpr.and ys) xs) =
      eval_all-append ys (flatten_and xs) ∙ rw (eval_all-flatten xs)
  eval_all-flatten (GateExprs.cons x xs) =
      ap (λ b. eval_compiled state x && b) (eval_all-flatten xs)

  eval_any-flatten : (xs : GateExprs) → eval_any state (flatten_or xs) ≡ eval_any state xs
  unfolding eval_compiled flatten_or
  eval_any-flatten GateExprs.nil = refl
  eval_any-flatten (GateExprs.cons GateExpr.false xs) = eval_any-flatten xs
  eval_any-flatten (GateExprs.cons (GateExpr.or ys) xs) =
      eval_any-append ys (flatten_or xs) ∙ rw (eval_any-flatten xs)
  eval_any-flatten (GateExprs.cons x xs) =
      ap (λ b. eval_compiled state x || b) (eval_any-flatten xs)

  eval-join_and : (xs : GateExprs) → eval_compiled state (join_and xs) ≡ eval_all state xs
  unfolding eval_compiled join_and
  eval-join_and GateExprs.nil = refl
  eval-join_and (GateExprs.cons x GateExprs.nil) = ground arith
  eval-join_and (GateExprs.cons x (GateExprs.cons y ys)) = refl

  eval-join_or : (xs : GateExprs) → eval_compiled state (join_or xs) ≡ eval_any state xs
  unfolding eval_compiled join_or
  eval-join_or GateExprs.nil = refl
  eval-join_or (GateExprs.cons x GateExprs.nil) = ground arith
  eval-join_or (GateExprs.cons x (GateExprs.cons y ys)) = refl

  -- The folded conjunction holds exactly when all its children do.
  pub eval-compile_gate_and :
      (xs : GateExprs) → eval_compiled state (compile_gate_and xs) ≡ eval_all state xs
  unfolding compile_gate_and eval_compiled
  eval-compile_gate_and xs = elim (Bool-cases (any_false xs)) [
    | inl h ↦ rw (h, eval_all-any_false xs h)
    | inr h ↦ rw h (eval-join_and (flatten_and xs) ∙ eval_all-flatten xs)
  ]

  pub eval-compile_gate_or :
      (xs : GateExprs) → eval_compiled state (compile_gate_or xs) ≡ eval_any state xs
  unfolding compile_gate_or eval_compiled
  eval-compile_gate_or xs = elim (Bool-cases (any_true xs)) [
    | inl h ↦ rw (h, eval_any-any_true xs h)
    | inr h ↦ rw h (eval-join_or (flatten_or xs) ∙ eval_any-flatten xs)
  ]

  pub eval-negate_gate :
      (e : GateExpr) → eval_compiled state (negate_gate e) ≡ Prelude.not (eval_compiled state e)
  unfolding negate_gate eval_compiled
  eval-negate_gate (GateExpr.not x) = ground arith
  eval-negate_gate _ = refl
