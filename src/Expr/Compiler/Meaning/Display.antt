-- ===== src/Expr/Compiler/Meaning/Display.antt =====
-- What an S-expression means as a display condition of a hint, and that the compiled condition
-- evaluates to it.
use rbph_website_backend.Prelude.{
  Str, ◌≡◌, refl, sym, ap, ap₂, ◌∙◌, Bool, true, false, ◌&&◌, ◌||◌, Result, ok, err, ◌>>=◌,
  >>=-eq-ok,
}
use rbph_website_backend.Prelude
use rbph_website_backend.Expr.Parser.{RawSexpr, RawSexprs, atom, list, nil, cons}
use rbph_website_backend.Expr.Ast.{PuzzleStates, GateExpr, HintDisplayExpr, HintDisplayExprs}
use rbph_website_backend.Expr.Eval.{
  eval_compiled, eval_hint_display_compiled, eval_hint_all, eval_hint_any,
}
use rbph_website_backend.Expr.Compiler.Forms.{HintForm, hint_form}
use rbph_website_backend.Expr.Compiler.Atoms.{CompileError}
use rbph_website_backend.Expr.Compiler.Fold.{compile_hint_and, compile_hint_or, negate_hint}
use rbph_website_backend.Expr.Compiler.{
  compile_gate, hint_branch, compile_hint_display, compile_hints, compile_hint_not,
}
use rbph_website_backend.Expr.Compiler.Meaning.{gate_meaning, eval-compile_gate}
use rbph_website_backend.Expr.Compiler.Meaning.Hints.{
  eval_hint-compile_hint_and, eval_hint-compile_hint_or, eval_hint-negate_hint,
}

abbrev hint_form_meaning : HintForm → Bool → Bool → Bool → Bool → Bool → Bool → Bool
hint_form_meaning HintForm.and every some negated enabled cooled whole = every
hint_form_meaning HintForm.or every some negated enabled cooled whole = some
hint_form_meaning HintForm.not every some negated enabled cooled whole = negated
hint_form_meaning HintForm.hint_enabled every some negated enabled cooled whole = enabled
hint_form_meaning HintForm.hint_cooled_down every some negated enabled cooled whole = cooled
hint_form_meaning HintForm.other every some negated enabled cooled whole = whole

unfoldable mutual
  -- Connectives as in a gate, the two facts about the hint, and any other form as a gate.
  pub hint_meaning : PuzzleStates → Bool → Bool → RawSexpr → Bool
  hint_meaning state enabled cooled (list (cons (atom head) args)) =
      let every = every_hint state enabled cooled args in
      let some = some_hint state enabled cooled args in
      let negated = not_hint state enabled cooled args in
      let whole = gate_meaning state (list (cons (atom head) args)) in
      hint_form_meaning (hint_form head) every some negated enabled cooled whole
  hint_meaning state enabled cooled (list (cons (list _) _)) = false
  hint_meaning state enabled cooled (list nil) = false
  hint_meaning state enabled cooled (atom _) = false

  pub every_hint : PuzzleStates → Bool → Bool → RawSexprs → Bool
  every_hint state enabled cooled nil = true
  every_hint state enabled cooled (cons x xs) =
      hint_meaning state enabled cooled x && every_hint state enabled cooled xs

  pub some_hint : PuzzleStates → Bool → Bool → RawSexprs → Bool
  some_hint state enabled cooled nil = false
  some_hint state enabled cooled (cons x xs) =
      hint_meaning state enabled cooled x || some_hint state enabled cooled xs

  pub not_hint : PuzzleStates → Bool → Bool → RawSexprs → Bool
  not_hint state enabled cooled (cons x _) = Prelude.not (hint_meaning state enabled cooled x)
  not_hint state enabled cooled nil = false

module _ (state : PuzzleStates) (enabled cooled : Bool) where
  display : HintDisplayExpr → Bool
  display e = eval_hint_display_compiled state e enabled cooled

  branch-hint :
      (form : HintForm) (args : RawSexprs) (many : Result CompileError HintDisplayExprs)
      (inner : Result CompileError HintDisplayExpr) (whole : Result CompileError GateExpr)
      (every some negated w : Bool) (g : HintDisplayExpr)
      → ((gs : HintDisplayExprs)
          → many ≡ ok gs
          → (eval_hint_all state gs enabled cooled ≡ every)
            × (eval_hint_any state gs enabled cooled ≡ some))
      → ((e : HintDisplayExpr) → inner ≡ ok e → display e ≡ negated)
      → ((e : GateExpr) → whole ≡ ok e → eval_compiled state e ≡ w)
      → hint_branch form args many inner whole ≡ ok g
      → display g ≡ hint_form_meaning form every some negated enabled cooled w
  unfolding hint_branch display eval_hint_display_compiled
  branch-hint HintForm.and args many inner whole every some negated w g hm hi hw h =
      let (gs, m, e) = >>=-eq-ok many _ h in
      let p : compile_hint_and gs ≡ g = cc e in
      rw (← p) (eval_hint-compile_hint_and state enabled cooled gs ∙ (hm gs m).0)
  branch-hint HintForm.or args many inner whole every some negated w g hm hi hw h =
      let (gs, m, e) = >>=-eq-ok many _ h in
      let p : compile_hint_or gs ≡ g = cc e in
      rw (← p) (eval_hint-compile_hint_or state enabled cooled gs ∙ (hm gs m).1)
  branch-hint HintForm.not args many inner whole every some negated w g hm hi hw h = hi g h
  branch-hint HintForm.other args many inner whole every some negated w g hm hi hw h =
      let (e, m, q) = >>=-eq-ok whole _ h in
      let p : HintDisplayExpr.gate e ≡ g = cc q in rw (← p) (hw e m)
  branch-hint HintForm.hint_enabled nil many inner whole every some negated w g hm hi hw h =
      let p : HintDisplayExpr.hint_enabled ≡ g = cc in rw (← p)
  branch-hint HintForm.hint_enabled (cons _ _) many inner whole every some negated w g hm hi hw h =
      cc
  branch-hint HintForm.hint_cooled_down nil many inner whole every some negated w g hm hi hw h =
      let p : HintDisplayExpr.hint_cooled_down ≡ g = cc in rw (← p)
  branch-hint HintForm.hint_cooled_down (cons _ _) many inner whole every some negated w g hm hi hw
        h =
      cc

  mutual
    unfolding compile_hint_display hint_meaning eval_hint_display_compiled display

    display-meaning :
        (s : RawSexpr) (g : HintDisplayExpr)
        → compile_hint_display s ≡ ok g
        → display g ≡ hint_meaning state enabled cooled s
    display-meaning (atom a) g h = cc
    display-meaning (list nil) g h = cc
    display-meaning (list (cons (list xs) args)) g h = cc
    display-meaning (list (cons (atom head) args)) g h =
        branch-hint (hint_form head) args (compile_hints args) (compile_hint_not args)
          (compile_gate (list (cons (atom head) args))) (every_hint state enabled cooled args)
          (some_hint state enabled cooled args) (not_hint state enabled cooled args)
          (gate_meaning state (list (cons (atom head) args))) g (displays-meaning args)
          (not_display-meaning args) (eval-compile_gate state (list (cons (atom head) args))) h

    displays-meaning :
        (xs : RawSexprs) (gs : HintDisplayExprs)
        → compile_hints xs ≡ ok gs
        → (eval_hint_all state gs enabled cooled ≡ every_hint state enabled cooled xs)
          × (eval_hint_any state gs enabled cooled ≡ some_hint state enabled cooled xs)
    displays-meaning nil gs h = let p : HintDisplayExprs.nil ≡ gs = cc in rw (← p) (refl, refl)
    displays-meaning (cons x xs) gs h =
        let (g, hg, h₁) = >>=-eq-ok (compile_hint_display x) _ h in
        let (gs', hs, h₂) = >>=-eq-ok (compile_hints xs) _ h₁ in
        let p : HintDisplayExprs.cons g gs' ≡ gs = cc h₂ in
        let e = display-meaning x g hg in
        let r = displays-meaning xs gs' hs in rw (← p) (ap₂ ◌&&◌ e r.0, ap₂ ◌||◌ e r.1)

    not_display-meaning :
        (xs : RawSexprs) (e : HintDisplayExpr)
        → compile_hint_not xs ≡ ok e
        → display e ≡ not_hint state enabled cooled xs
    not_display-meaning nil e h = cc
    not_display-meaning (cons x nil) e h =
        let (g, hg, h₁) = >>=-eq-ok (compile_hint_display x) _ h in
        let p : negate_hint g ≡ e = cc h₁ in
        rw (← p)
          (eval_hint-negate_hint state enabled cooled g ∙ ap Prelude.not (display-meaning x g hg))
    not_display-meaning (cons x (cons y ys)) e h = cc

-- A compiled display condition is true in exactly the states of the team and the hint in which
-- the S-expression, read form by form, is true.
pub eval-compile_hint_display :
    (state : PuzzleStates) (enabled cooled : Bool) (s : RawSexpr) (g : HintDisplayExpr)
    → compile_hint_display s ≡ ok g
    → eval_hint_display_compiled state g enabled cooled ≡ hint_meaning state enabled cooled s
unfolding display
eval-compile_hint_display = display-meaning
