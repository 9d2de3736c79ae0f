-- ===== src/Expr/Compiler/Meaning.antt =====
-- What an S-expression means as a gate, read form by form, and that the compiled gate evaluates
-- to it.
pub mod Gates
pub mod Hints
pub mod Display
use rbph_website_backend.Prelude.{
  Str, ◌≡◌, refl, sym, ap, ap₂, ◌∙◌, Bool, true, false, ◌&&◌, ◌||◌, Result, ok, err, ◌>>=◌,
  >>=-eq-ok,
}
use rbph_website_backend.Prelude
use rbph_website_backend.Expr.Parser.{RawSexpr, RawSexprs, atom, list, nil, cons}
use rbph_website_backend.Expr.Ast.{
  PuzzleStates, GateExpr, GateExprs, HintDisplayExpr, HintDisplayExprs,
}
use rbph_website_backend.Expr.Eval.{
  eval_compiled, eval_all, eval_any, eval_hint_display_compiled, eval_hint_all, eval_hint_any,
}
use rbph_website_backend.Expr.Compiler.Forms.{GateForm, gate_form, HintForm, hint_form}
use rbph_website_backend.Expr.Compiler.Atoms.{CompileError}
use rbph_website_backend.Expr.Compiler.{
  gate_branch, compile_gate, compile_gates, compile_gate_not, hint_branch, compile_hint_display,
  compile_hints, compile_hint_not,
}
use rbph_website_backend.Expr.Compiler.Fold.{
  compile_gate_and, compile_gate_or, negate_gate, compile_hint_and, compile_hint_or, negate_hint,
}
use Gates.{eval-compile_gate_and, eval-compile_gate_or, eval-negate_gate}

-- A form that is no connective means what it compiles to.
abbrev leaf_meaning : PuzzleStates → Result CompileError GateExpr → Bool
leaf_meaning state (ok g) = eval_compiled state g
leaf_meaning state (err e) = false

abbrev form_meaning : GateForm → Bool → Bool → Bool → Bool → Bool
form_meaning GateForm.and every some negated leaf = every
form_meaning GateForm.or every some negated leaf = some
form_meaning GateForm.not every some negated leaf = negated
form_meaning _ every some negated leaf = leaf

unfoldable mutual
  -- `and` is the conjunction of its arguments, `or` the disjunction, `not` the negation.
  pub gate_meaning : PuzzleStates → RawSexpr → Bool
  gate_meaning state (list (cons (atom head) args)) =
      let every = every_meaning state args in
      let some = some_meaning state args in
      let negated = not_meaning state args in
      let leaf = leaf_meaning state (compile_gate (list (cons (atom head) args))) in
      form_meaning (gate_form head) every some negated leaf
  gate_meaning state (list (cons (list _) _)) = false
  gate_meaning state (list nil) = false
  gate_meaning state (atom _) = false

  pub every_meaning : PuzzleStates → RawSexprs → Bool
  every_meaning state nil = true
  every_meaning state (cons x xs) = gate_meaning state x && every_meaning state xs

  pub some_meaning : PuzzleStates → RawSexprs → Bool
  some_meaning state nil = false
  some_meaning state (cons x xs) = gate_meaning state x || some_meaning state xs

  pub not_meaning : PuzzleStates → RawSexprs → Bool
  not_meaning state (cons x _) = Prelude.not (gate_meaning state x)
  not_meaning state nil = false

-- The arms, from what the arguments compile to.
branch-meaning :
    (state : PuzzleStates) (head : Str) (form : GateForm) (args : RawSexprs)
    (many : Result CompileError GateExprs) (inner : Result CompileError GateExpr)
    (every some negated : Bool) (g : GateExpr)
    → ((gs : GateExprs) → many ≡ ok gs → (eval_all state gs ≡ every) × (eval_any state gs ≡ some))
    → ((e : GateExpr) → inner ≡ ok e → eval_compiled state e ≡ negated)
    → gate_branch head form args many inner ≡ ok g
    → eval_compiled state g
      ≡ form_meaning form every some negated
          (leaf_meaning state (gate_branch head form args many inner))
unfolding gate_branch
branch-meaning state head GateForm.and args many inner every some negated g hm hi h =
    let (gs, m, e) = >>=-eq-ok many _ h in
    let p : compile_gate_and gs ≡ g = cc e in
    rw (← p) (eval-compile_gate_and state gs ∙ (hm gs m).0)
branch-meaning state head GateForm.or args many inner every some negated g hm hi h =
    let (gs, m, e) = >>=-eq-ok many _ h in
    let p : compile_gate_or gs ≡ g = cc e in rw (← p) (eval-compile_gate_or state gs ∙ (hm gs m).1)
branch-meaning state head GateForm.not args many inner every some negated g hm hi h = hi g h
branch-meaning state head _ args many inner every some negated g hm hi h =
    ap (leaf_meaning state) (sym h)

module _ (state : PuzzleStates) where
  mutual
    unfolding compile_gate gate_meaning eval_compiled

    gate-meaning :
        (s : RawSexpr) (g : GateExpr)
        → compile_gate s ≡ ok g
        → eval_compiled state g ≡ gate_meaning state s
    gate-meaning (atom a) g h = cc
    gate-meaning (list nil) g h = cc
    gate-meaning (list (cons (list xs) args)) g h = cc
    gate-meaning (list (cons (atom head) args)) g h =
        branch-meaning state head (gate_form head) args (compile_gates args) (compile_gate_not args)
          (every_meaning state args) (some_meaning state args) (not_meaning state args) g
          (gates-meaning args) (not-meaning args) h

    gates-meaning :
        (xs : RawSexprs) (gs : GateExprs)
        → compile_gates xs ≡ ok gs
        → (eval_all state gs ≡ every_meaning state xs) × (eval_any state gs ≡ some_meaning state xs)
    gates-meaning nil gs h = let p : GateExprs.nil ≡ gs = cc in rw (← p) (refl, refl)
    gates-meaning (cons x xs) gs h =
        let (g, hg, h₁) = >>=-eq-ok (compile_gate x) _ h in
        let (gs', hs, h₂) = >>=-eq-ok (compile_gates xs) _ h₁ in
        let p : GateExprs.cons g gs' ≡ gs = cc h₂ in
        let e = gate-meaning x g hg in
        let r = gates-meaning xs gs' hs in rw (← p) (ap₂ ◌&&◌ e r.0, ap₂ ◌||◌ e r.1)

    not-meaning :
        (xs : RawSexprs) (e : GateExpr)
        → compile_gate_not xs ≡ ok e
        → eval_compiled state e ≡ not_meaning state xs
    not-meaning nil e h = cc
    not-meaning (cons x nil) e h =
        let (g, hg, h₁) = >>=-eq-ok (compile_gate x) _ h in
        let p : negate_gate g ≡ e = cc h₁ in
        rw (← p) (eval-negate_gate state g ∙ ap Prelude.not (gate-meaning x g hg))
    not-meaning (cons x (cons y ys)) e h = cc

-- Compiling folds constants and flattens connectives, and changes no value: a compiled gate is
-- true in exactly the states in which the S-expression, read form by form, is true.
pub eval-compile_gate :
    (state : PuzzleStates) (s : RawSexpr) (g : GateExpr)
    → compile_gate s ≡ ok g
    → eval_compiled state g ≡ gate_meaning state s
eval-compile_gate = gate-meaning
