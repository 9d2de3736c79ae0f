-- ===== src/Expr/Compiler/Meaning/Hints.antt =====
-- Folding and flattening keep the meaning of a display condition's connectives.
use rbph_website_backend.Prelude.{
  ◌≡◌, refl, ap, ◌∙◌, arith, Bool, true, false, ◌&&◌, ◌||◌, Bool-cases, inl, inr,
}
use rbph_website_backend.Prelude
use rbph_website_backend.Expr.Ast.{PuzzleStates, GateExpr, HintDisplayExpr, HintDisplayExprs}
use rbph_website_backend.Expr.Eval.{
  eval_compiled, eval_hint_display_compiled, eval_hint_all, eval_hint_any,
}
use rbph_website_backend.Expr.Compiler.Fold.{
  append_hints, any_hint_false, any_hint_true, flatten_hint_and, flatten_hint_or, join_hint_and,
  join_hint_or, compile_hint_and, compile_hint_or, negate_hint,
}

module _ (state : PuzzleStates) (enabled cooled : Bool) where
  eval_hint_all-append :
      (xs ys : HintDisplayExprs)
      → eval_hint_all state (append_hints xs ys) enabled cooled
        ≡ (eval_hint_all state xs enabled cooled && eval_hint_all state ys enabled cooled)
  unfolding eval_hint_display_compiled eval_compiled
  eval_hint_all-append HintDisplayExprs.nil ys = refl
  eval_hint_all-append (HintDisplayExprs.cons x xs) ys = ground (arith, eval_hint_all-append xs ys)

  eval_hint_any-append :
      (xs ys : HintDisplayExprs)
      → eval_hint_any state (append_hints xs ys) enabled cooled
        ≡ (eval_hint_any state xs enabled cooled || eval_hint_any state ys enabled cooled)
  unfolding eval_hint_display_compiled eval_compiled
  eval_hint_any-append HintDisplayExprs.nil ys = refl
  eval_hint_any-append (HintDisplayExprs.cons x xs) ys = ground (arith, eval_hint_any-append xs ys)

  eval_hint_all-any_hint_false :
      (xs : HintDisplayExprs)
      → any_hint_false xs ≡ true
      → eval_hint_all state xs enabled cooled ≡ false
  unfolding eval_hint_display_compiled eval_compiled
  eval_hint_all-any_hint_false HintDisplayExprs.nil h = cc
  eval_hint_all-any_hint_false (HintDisplayExprs.cons (HintDisplayExpr.gate GateExpr.false) xs) h =
      refl
  eval_hint_all-any_hint_false (HintDisplayExprs.cons x xs) h =
      ground (arith, eval_hint_all-any_hint_false xs)

  eval_hint_any-any_hint_true :
      (xs : HintDisplayExprs)
      → any_hint_true xs ≡ true
      → eval_hint_any state xs enabled cooled ≡ true
  unfolding eval_hint_display_compiled eval_compiled
  eval_hint_any-any_hint_true HintDisplayExprs.nil h = cc
  eval_hint_any-any_hint_true (HintDisplayExprs.cons (HintDisplayExpr.gate GateExpr.true) xs) h =
      refl
  eval_hint_any-any_hint_true (HintDisplayExprs.cons x xs) h =
      ground (arith, eval_hint_any-any_hint_true xs)

  eval_hint_all-flatten_hint :
      (xs : HintDisplayExprs)
      → eval_hint_all state (flatten_hint_and xs) enabled cooled
        ≡ eval_hint_all state xs enabled cooled
  unfolding eval_hint_display_compiled eval_compiled flatten_hint_and
  eval_hint_all-flatten_hint HintDisplayExprs.nil = refl
  eval_hint_all-flatten_hint (HintDisplayExprs.cons (HintDisplayExpr.gate GateExpr.true) xs) =
      eval_hint_all-flatten_hint xs
  eval_hint_all-flatten_hint (HintDisplayExprs.cons (HintDisplayExpr.and ys) xs) =
      eval_hint_all-append ys (flatten_hint_and xs) ∙ rw (eval_hint_all-flatten_hint xs)
  eval_hint_all-flatten_hint (HintDisplayExprs.cons x xs) =
      ap (λ b. eval_hint_display_compiled state x enabled cooled && b)
        (eval_hint_all-flatten_hint xs)

  eval_hint_any-flatten_hint :
      (xs : HintDisplayExprs)
      → eval_hint_any state (flatten_hint_or xs) enabled cooled
        ≡ eval_hint_any state xs enabled cooled
  unfolding eval_hint_display_compiled eval_compiled flatten_hint_or
  eval_hint_any-flatten_hint HintDisplayExprs.nil = refl
  eval_hint_any-flatten_hint (HintDisplayExprs.cons (HintDisplayExpr.gate GateExpr.false) xs) =
      eval_hint_any-flatten_hint xs
  eval_hint_any-flatten_hint (HintDisplayExprs.cons (HintDisplayExpr.or ys) xs) =
      eval_hint_any-append ys (flatten_hint_or xs) ∙ rw (eval_hint_any-flatten_hint xs)
  eval_hint_any-flatten_hint (HintDisplayExprs.cons x xs) =
      ap (λ b. eval_hint_display_compiled state x enabled cooled || b)
        (eval_hint_any-flatten_hint xs)

  eval_hint-join_hint_and :
      (xs : HintDisplayExprs)
      → eval_hint_display_compiled state (join_hint_and xs) enabled cooled
        ≡ eval_hint_all state xs enabled cooled
  unfolding eval_hint_display_compiled eval_compiled join_hint_and
  eval_hint-join_hint_and HintDisplayExprs.nil = refl
  eval_hint-join_hint_and (HintDisplayExprs.cons x HintDisplayExprs.nil) = ground arith
  eval_hint-join_hint_and (HintDisplayExprs.cons x (HintDisplayExprs.cons y ys)) = refl

  eval_hint-join_hint_or :
      (xs : HintDisplayExprs)
      → eval_hint_display_compiled state (join_hint_or xs) enabled cooled
        ≡ eval_hint_any state xs enabled cooled
  unfolding eval_hint_display_compiled eval_compiled join_hint_or
  eval_hint-join_hint_or HintDisplayExprs.nil = refl
  eval_hint-join_hint_or (HintDisplayExprs.cons x HintDisplayExprs.nil) = ground arith
  eval_hint-join_hint_or (HintDisplayExprs.cons x (HintDisplayExprs.cons y ys)) = refl

  -- The folded conjunction holds exactly when all its children do.
  pub eval_hint-compile_hint_and :
      (xs : HintDisplayExprs)
      → eval_hint_display_compiled state (compile_hint_and xs) enabled cooled
        ≡ eval_hint_all state xs enabled cooled
  unfolding compile_hint_and eval_hint_display_compiled eval_compiled
  eval_hint-compile_hint_and xs = elim (Bool-cases (any_hint_false xs)) [
    | inl h ↦ rw (h, eval_hint_all-any_hint_false xs h)
    | inr h ↦ rw h (eval_hint-join_hint_and (flatten_hint_and xs) ∙ eval_hint_all-flatten_hint xs)
  ]

  pub eval_hint-compile_hint_or :
      (xs : HintDisplayExprs)
      → eval_hint_display_compiled state (compile_hint_or xs) enabled cooled
        ≡ eval_hint_any state xs enabled cooled
  unfolding compile_hint_or eval_hint_display_compiled eval_compiled
  eval_hint-compile_hint_or xs = elim (Bool-cases (any_hint_true xs)) [
    | inl h ↦ rw (h, eval_hint_any-any_hint_true xs h)
    | inr h ↦ rw h (eval_hint-join_hint_or (flatten_hint_or xs) ∙ eval_hint_any-flatten_hint xs)
  ]

  pub eval_hint-negate_hint :
      (e : HintDisplayExpr)
      → eval_hint_display_compiled state (negate_hint e) enabled cooled
        ≡ Prelude.not (eval_hint_display_compiled state e enabled cooled)
  unfolding negate_hint eval_hint_display_compiled eval_compiled
  eval_hint-negate_hint (HintDisplayExpr.not x) = ground arith
  eval_hint-negate_hint (HintDisplayExpr.gate GateExpr.true) = refl
  eval_hint-negate_hint _ = refl
