-- ===== src/Expr/Compiler/Simplified.antt =====
-- The normal form of compiled gates.
use rbph_website_backend.Prelude.{
  Str, ◌≡◌, refl, false, Result, ok, err, ◌>>=◌, >>=-eq-ok, Bool-cases, inl, inr,
}
use rbph_website_backend.Expr.Parser.{RawSexpr, RawSexprs, atom, list, nil, cons}
use rbph_website_backend.Expr.Ast.{GateExpr, GateExprs}
use rbph_website_backend.Expr.Compiler.Forms.{GateForm, gate_form}
use rbph_website_backend.Expr.Compiler.Atoms.{CompileError, atom_text, parse_puzzle_ref, valid_key}
use rbph_website_backend.Expr.Compiler.Fold.{
  append_gates, any_false, any_true, flatten_and, flatten_or, join_and, join_or, compile_gate_and,
  compile_gate_or, negate_gate,
}
use rbph_website_backend.Expr.Compiler.{
  gate_branch, triggered_key, compile_set, compile_value, compile_gate, compile_gates,
  compile_gate_not,
}

abbrev pub MaySitInAnd : GateExpr → Type 0
MaySitInAnd GateExpr.true = ⊥
MaySitInAnd GateExpr.false = ⊥
MaySitInAnd (GateExpr.and _) = ⊥
MaySitInAnd _ = Unit

abbrev pub MaySitInOr : GateExpr → Type 0
MaySitInOr GateExpr.true = ⊥
MaySitInOr GateExpr.false = ⊥
MaySitInOr (GateExpr.or _) = ⊥
MaySitInOr _ = Unit

abbrev pub MaySitInNot : GateExpr → Type 0
MaySitInNot GateExpr.true = ⊥
MaySitInNot GateExpr.false = ⊥
MaySitInNot (GateExpr.not _) = ⊥
MaySitInNot _ = Unit

abbrev pub HasTwo : GateExprs → Type 0
HasTwo (GateExprs.cons _ (GateExprs.cons _ _)) = Unit
HasTwo _ = ⊥

abbrev mutual
  -- No constant below the top, no conjunction right inside a conjunction nor a disjunction inside
  -- a disjunction, at least two members in each, and no double negation.
  pub IsSimplified : GateExpr → Type 0
  IsSimplified (GateExpr.and xs) = HasTwo xs × AllInAnd xs
  IsSimplified (GateExpr.or xs) = HasTwo xs × AllInOr xs
  IsSimplified (GateExpr.not x) = MaySitInNot x × IsSimplified x
  IsSimplified _ = Unit

  pub AllInAnd : GateExprs → Type 0
  AllInAnd GateExprs.nil = Unit
  AllInAnd (GateExprs.cons x xs) = MaySitInAnd x × IsSimplified x × AllInAnd xs

  pub AllInOr : GateExprs → Type 0
  AllInOr GateExprs.nil = Unit
  AllInOr (GateExprs.cons x xs) = MaySitInOr x × IsSimplified x × AllInOr xs

abbrev AllSimplified : GateExprs → Type 0
AllSimplified GateExprs.nil = Unit
AllSimplified (GateExprs.cons x xs) = IsSimplified x × AllSimplified xs

AllInAnd-append : (xs ys : GateExprs) → AllInAnd xs → AllInAnd ys → AllInAnd (append_gates xs ys)
AllInAnd-append GateExprs.nil ys h k = k
AllInAnd-append (GateExprs.cons x xs) ys h k = (h.0, h.1, AllInAnd-append xs ys h.2 k)

AllInOr-append : (xs ys : GateExprs) → AllInOr xs → AllInOr ys → AllInOr (append_gates xs ys)
AllInOr-append GateExprs.nil ys h k = k
AllInOr-append (GateExprs.cons x xs) ys h k = (h.0, h.1, AllInOr-append xs ys h.2 k)

flatten_and-AllInAnd :
    (xs : GateExprs) → any_false xs ≡ false → AllSimplified xs → AllInAnd (flatten_and xs)
unfolding flatten_and
flatten_and-AllInAnd GateExprs.nil h s = tt
flatten_and-AllInAnd (GateExprs.cons GateExpr.true xs) h s = flatten_and-AllInAnd xs h s.1
flatten_and-AllInAnd (GateExprs.cons GateExpr.false xs) h s = cc
flatten_and-AllInAnd (GateExprs.cons (GateExpr.and ys) xs) h s =
    AllInAnd-append ys (flatten_and xs) s.0.1 (flatten_and-AllInAnd xs h s.1)
flatten_and-AllInAnd (GateExprs.cons x xs) h s = (tt, s.0, flatten_and-AllInAnd xs h s.1)

flatten_or-AllInOr :
    (xs : GateExprs) → any_true xs ≡ false → AllSimplified xs → AllInOr (flatten_or xs)
unfolding flatten_or
flatten_or-AllInOr GateExprs.nil h s = tt
flatten_or-AllInOr (GateExprs.cons GateExpr.false xs) h s = flatten_or-AllInOr xs h s.1
flatten_or-AllInOr (GateExprs.cons GateExpr.true xs) h s = cc
flatten_or-AllInOr (GateExprs.cons (GateExpr.or ys) xs) h s =
    AllInOr-append ys (flatten_or xs) s.0.1 (flatten_or-AllInOr xs h s.1)
flatten_or-AllInOr (GateExprs.cons x xs) h s = (tt, s.0, flatten_or-AllInOr xs h s.1)

join_and-IsSimplified : (xs : GateExprs) → AllInAnd xs → IsSimplified (join_and xs)
unfolding join_and
join_and-IsSimplified GateExprs.nil h = tt
join_and-IsSimplified (GateExprs.cons x GateExprs.nil) h = h.1
join_and-IsSimplified (GateExprs.cons x (GateExprs.cons y ys)) h = (tt, h)

join_or-IsSimplified : (xs : GateExprs) → AllInOr xs → IsSimplified (join_or xs)
unfolding join_or
join_or-IsSimplified GateExprs.nil h = tt
join_or-IsSimplified (GateExprs.cons x GateExprs.nil) h = h.1
join_or-IsSimplified (GateExprs.cons x (GateExprs.cons y ys)) h = (tt, h)

compile_gate_and-IsSimplified :
    (xs : GateExprs) → AllSimplified xs → IsSimplified (compile_gate_and xs)
unfolding compile_gate_and
compile_gate_and-IsSimplified xs s = elim (Bool-cases (any_false xs)) [
  | inl h ↦ rw h tt
  | inr h ↦ rw h (join_and-IsSimplified (flatten_and xs) (flatten_and-AllInAnd xs h s))
]

compile_gate_or-IsSimplified :
    (xs : GateExprs) → AllSimplified xs → IsSimplified (compile_gate_or xs)
unfolding compile_gate_or
compile_gate_or-IsSimplified xs s = elim (Bool-cases (any_true xs)) [
  | inl h ↦ rw h tt
  | inr h ↦ rw h (join_or-IsSimplified (flatten_or xs) (flatten_or-AllInOr xs h s))
]

negate_gate-IsSimplified : (e : GateExpr) → IsSimplified e → IsSimplified (negate_gate e)
unfolding negate_gate
negate_gate-IsSimplified GateExpr.true s = tt
negate_gate-IsSimplified GateExpr.false s = tt
negate_gate-IsSimplified (GateExpr.not x) s = s.1
negate_gate-IsSimplified e s = (tt, s)

-- The simplified result of a chain.
abbrev Simplifies : Result CompileError GateExpr → Type 0
Simplifies (ok g) = IsSimplified g
Simplifies (err _) = Unit

Simplifies-bind :
    {A : Type 0} (m : Result CompileError A) (f : A → Result CompileError GateExpr)
    → ((a : A) → Simplifies (f a))
    → Simplifies (m >>= f)
Simplifies-bind (ok a) f h = h a
Simplifies-bind (err e) f h = tt

triggered_key-Simplifies : (a : RawSexpr) (key : Str) → Simplifies (triggered_key a key)
unfolding triggered_key
triggered_key-Simplifies a key = elim (Bool-cases (valid_key key)) [
  | inl h ↦ rw h (Simplifies-bind (parse_puzzle_ref a) _ (λ _. tt))
  | inr h ↦ rw h tt
]

branch-Simplifies :
    (head : Str) (form : GateForm) (args : RawSexprs) (many : Result CompileError GateExprs)
    (inner : Result CompileError GateExpr)
    → ((gs : GateExprs) → many ≡ ok gs → AllSimplified gs)
    → Simplifies inner
    → Simplifies (gate_branch head form args many inner)
unfolding gate_branch triggered_key
branch-Simplifies head GateForm.and args (ok gs) inner hm hi =
    compile_gate_and-IsSimplified gs (hm gs refl)
branch-Simplifies head GateForm.and args (err e) inner hm hi = tt
branch-Simplifies head GateForm.or args (ok gs) inner hm hi =
    compile_gate_or-IsSimplified gs (hm gs refl)
branch-Simplifies head GateForm.or args (err e) inner hm hi = tt
branch-Simplifies head GateForm.not args many inner hm hi = hi
branch-Simplifies head GateForm.true nil many inner hm hi = tt
branch-Simplifies head GateForm.true _ many inner hm hi = tt
branch-Simplifies head GateForm.false nil many inner hm hi = tt
branch-Simplifies head GateForm.false _ many inner hm hi = tt
branch-Simplifies head GateForm.game_started nil many inner hm hi = tt
branch-Simplifies head GateForm.game_started _ many inner hm hi = tt
branch-Simplifies head GateForm.solved (cons a nil) many inner hm hi =
    Simplifies-bind (parse_puzzle_ref a) _ (λ _. tt)
branch-Simplifies head GateForm.solved _ many inner hm hi = tt
branch-Simplifies head GateForm.all_solved (cons a nil) many inner hm hi =
    Simplifies-bind (compile_set a) _ (λ _. tt)
branch-Simplifies head GateForm.all_solved _ many inner hm hi = tt
branch-Simplifies head GateForm.any_solved (cons a nil) many inner hm hi =
    Simplifies-bind (compile_set a) _ (λ _. tt)
branch-Simplifies head GateForm.any_solved _ many inner hm hi = tt
branch-Simplifies head GateForm.triggered (cons a (cons k nil)) many inner hm hi =
    Simplifies-bind (atom_text k) _ (triggered_key-Simplifies a)
branch-Simplifies head GateForm.triggered _ many inner hm hi = tt
branch-Simplifies head (GateForm.cmp op) (cons a (cons b nil)) many inner hm hi =
    Simplifies-bind (compile_value a) _ λ _. Simplifies-bind (compile_value b) _ (λ _. tt)
branch-Simplifies head (GateForm.cmp op) _ many inner hm hi = tt
branch-Simplifies head GateForm.unknown _ many inner hm hi = tt

negated :
    (r : Result CompileError GateExpr) → Simplifies r → Simplifies (r >>= λ e. ok (negate_gate e))
negated (ok g) h = negate_gate-IsSimplified g h
negated (err e) h = tt

mutual
  unfolding compile_gate

  gate-Simplifies : (s : RawSexpr) → Simplifies (compile_gate s)
  gate-Simplifies (atom a) = tt
  gate-Simplifies (list nil) = tt
  gate-Simplifies (list (cons (list xs) args)) = tt
  gate-Simplifies (list (cons (atom head) args)) =
      branch-Simplifies head (gate_form head) args (compile_gates args) (compile_gate_not args)
        (gates-AllSimplified args) (not-Simplifies args)

  gates-AllSimplified :
      (xs : RawSexprs) (gs : GateExprs) → compile_gates xs ≡ ok gs → AllSimplified gs
  gates-AllSimplified nil gs h = let p : GateExprs.nil ≡ gs = cc in rw (← p) tt
  gates-AllSimplified (cons x xs) gs h =
      let (g, hg, h₁) = >>=-eq-ok (compile_gate x) _ h in
      let (gs', hs, h₂) = >>=-eq-ok (compile_gates xs) _ h₁ in
      let p : GateExprs.cons g gs' ≡ gs = cc h₂ in
      let one = gate-Simplifies x in rw (← p) (rw hg at one, gates-AllSimplified xs gs' hs)

  not-Simplifies : (xs : RawSexprs) → Simplifies (compile_gate_not xs)
  not-Simplifies nil = tt
  not-Simplifies (cons x nil) = negated (compile_gate x) (gate-Simplifies x)
  not-Simplifies (cons x (cons y ys)) = tt

-- A compiled gate is in normal form: it is a constant or holds none, no conjunction sits right
-- inside a conjunction nor a disjunction inside a disjunction, each has at least two members, and
-- no negation sits right inside a negation.
pub compile_gate-IsSimplified :
    (s : RawSexpr) (g : GateExpr) → compile_gate s ≡ ok g → IsSimplified g
compile_gate-IsSimplified s g h = let r = gate-Simplifies s in rw h at r
