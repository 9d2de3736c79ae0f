-- ===== src/Expr/Compiler/Accepts.antt =====
-- Which connectives compile: folding hides no error of an argument.
use rbph_website_backend.Prelude.{Str, ◌≡◌, refl, ap, ◌∙◌, ◌↔◌, ◌⊎◌, inl, inr, ok, ◌>>=◌, >>=-eq-ok}
use rbph_website_backend.Expr.Parser.{RawSexpr, RawSexprs, atom, list, nil, cons}
use rbph_website_backend.Expr.Ast.{GateExpr, GateExprs}
use rbph_website_backend.Expr.Compiler.Forms.{GateForm, gate_form}
use rbph_website_backend.Expr.Compiler.Fold.{compile_gate_and, compile_gate_or}
use rbph_website_backend.Expr.Compiler.{gate_branch, compile_gate, compile_gates}

abbrev pub Compiles : RawSexpr → Type 0
Compiles s = (g : GateExpr) × (compile_gate s ≡ ok g)

abbrev pub AllCompile : RawSexprs → Type 0
AllCompile nil = Unit
AllCompile (cons x xs) = Compiles x × AllCompile xs

compile_gates_all : (xs : RawSexprs) (gs : GateExprs) → compile_gates xs ≡ ok gs → AllCompile xs
unfolding compile_gate
compile_gates_all nil gs h = tt
compile_gates_all (cons x xs) gs h =
    let (g, hg, h₁) = >>=-eq-ok (compile_gate x) _ h in
    let (gs', hs, h₂) = >>=-eq-ok (compile_gates xs) _ h₁ in ((g, hg), compile_gates_all xs gs' hs)

compile_gates_of_all :
    (xs : RawSexprs) → AllCompile xs → (gs : GateExprs) × (compile_gates xs ≡ ok gs)
unfolding compile_gate
compile_gates_of_all nil h = (GateExprs.nil, refl)
compile_gates_of_all (cons x xs) ((g, hg), hs) =
    let (gs, e) = compile_gates_of_all xs hs in
    (GateExprs.cons g gs, rw hg (ap (λ r. r >>= λ children. ok (GateExprs.cons g children)) e))

module _ (head : Str) (args : RawSexprs) where
  connective_all :
      (form : GateForm)
      → (form ≡ GateForm.and) ⊎ (form ≡ GateForm.or)
      → gate_form head ≡ form
      → Compiles (list (cons (atom head) args))
      → AllCompile args
  unfolding compile_gate gate_branch
  connective_all form (inl e) f (g, h) =
      let (gs, hs, r) = >>=-eq-ok (compile_gates args) _ (rw (f ∙ e, gate_branch) at h) in
      compile_gates_all args gs hs
  connective_all form (inr e) f (g, h) =
      let (gs, hs, r) = >>=-eq-ok (compile_gates args) _ (rw (f ∙ e, gate_branch) at h) in
      compile_gates_all args gs hs

  connective_of_all :
      (form : GateForm)
      → (form ≡ GateForm.and) ⊎ (form ≡ GateForm.or)
      → gate_form head ≡ form
      → AllCompile args
      → Compiles (list (cons (atom head) args))
  unfolding compile_gate gate_branch
  connective_of_all form (inl e) f h =
      let (gs, hs) = compile_gates_of_all args h in
      (compile_gate_and gs, rw (f ∙ e, gate_branch) (rw hs))
  connective_of_all form (inr e) f h =
      let (gs, hs) = compile_gates_of_all args h in
      (compile_gate_or gs, rw (f ∙ e, gate_branch) (rw hs))

-- A conjunction or disjunction compiles exactly when each of its arguments does, also where a
-- constant argument already decides its value.
pub compile_gate-Compiles :
    (head : Str) (args : RawSexprs)
    → (gate_form head ≡ GateForm.and) ⊎ (gate_form head ≡ GateForm.or)
    → Compiles (list (cons (atom head) args)) ↔ AllCompile args
compile_gate-Compiles head args c = (
  connective_all head args (gate_form head) c refl,
  connective_of_all head args (gate_form head) c refl,
)
