-- ===== src/Expr/Compiler/Fold.antt =====
-- src/expr/compiler.rs: the constant folding and flattening of connectives. The loops push onto
-- `compiled` at its end, so what they build is given here by recursion.
use rbph_website_backend.Prelude.{Bool, true, false, ◌||◌, if◌then◌else◌}
use rbph_website_backend.Expr.Ast.{GateExpr, GateExprs, HintDisplayExpr, HintDisplayExprs}

abbrev pub append_gates : GateExprs → GateExprs → GateExprs
append_gates GateExprs.nil ys = ys
append_gates (GateExprs.cons x xs) ys = GateExprs.cons x (append_gates xs ys)

abbrev pub is_false : GateExpr → Bool
is_false GateExpr.false = true
is_false _ = false

abbrev pub is_true : GateExpr → Bool
is_true GateExpr.true = true
is_true _ = false

abbrev pub any_false : GateExprs → Bool
any_false GateExprs.nil = false
any_false (GateExprs.cons x xs) = is_false x || any_false xs

abbrev pub any_true : GateExprs → Bool
any_true GateExprs.nil = false
any_true (GateExprs.cons x xs) = is_true x || any_true xs

-- `for child in children`: a constant that changes nothing is dropped, a nested list opened.
unfoldable pub flatten_and : GateExprs → GateExprs
flatten_and GateExprs.nil = GateExprs.nil
flatten_and (GateExprs.cons GateExpr.true xs) = flatten_and xs
flatten_and (GateExprs.cons (GateExpr.and ys) xs) = append_gates ys (flatten_and xs)
flatten_and (GateExprs.cons x xs) = GateExprs.cons x (flatten_and xs)

unfoldable pub flatten_or : GateExprs → GateExprs
flatten_or GateExprs.nil = GateExprs.nil
flatten_or (GateExprs.cons GateExpr.false xs) = flatten_or xs
flatten_or (GateExprs.cons (GateExpr.or ys) xs) = append_gates ys (flatten_or xs)
flatten_or (GateExprs.cons x xs) = GateExprs.cons x (flatten_or xs)

-- `match compiled.len()`.
unfoldable pub join_and : GateExprs → GateExpr
join_and GateExprs.nil = GateExpr.true
join_and (GateExprs.cons x GateExprs.nil) = x
join_and (GateExprs.cons x (GateExprs.cons y ys)) =
    GateExpr.and (GateExprs.cons x (GateExprs.cons y ys))

unfoldable pub join_or : GateExprs → GateExpr
join_or GateExprs.nil = GateExpr.false
join_or (GateExprs.cons x GateExprs.nil) = x
join_or (GateExprs.cons x (GateExprs.cons y ys)) =
    GateExpr.or (GateExprs.cons x (GateExprs.cons y ys))

-- `compile_gate_and` and `compile_gate_or` behind the compilation of their items.
unfoldable pub compile_gate_and : GateExprs → GateExpr
unfolding flatten_and join_and
compile_gate_and children =
    if any_false children then GateExpr.false else join_and (flatten_and children)

unfoldable pub compile_gate_or : GateExprs → GateExpr
unfolding flatten_or join_or
compile_gate_or children =
    if any_true children then GateExpr.true else join_or (flatten_or children)

unfoldable pub negate_gate : GateExpr → GateExpr
negate_gate GateExpr.true = GateExpr.false
negate_gate GateExpr.false = GateExpr.true
negate_gate (GateExpr.not inner) = inner
negate_gate expr = GateExpr.not expr

abbrev pub append_hints : HintDisplayExprs → HintDisplayExprs → HintDisplayExprs
append_hints HintDisplayExprs.nil ys = ys
append_hints (HintDisplayExprs.cons x xs) ys = HintDisplayExprs.cons x (append_hints xs ys)

abbrev pub is_hint_false : HintDisplayExpr → Bool
is_hint_false (HintDisplayExpr.gate g) = is_false g
is_hint_false _ = false

abbrev pub is_hint_true : HintDisplayExpr → Bool
is_hint_true (HintDisplayExpr.gate g) = is_true g
is_hint_true _ = false

abbrev pub any_hint_false : HintDisplayExprs → Bool
any_hint_false HintDisplayExprs.nil = false
any_hint_false (HintDisplayExprs.cons x xs) = is_hint_false x || any_hint_false xs

abbrev pub any_hint_true : HintDisplayExprs → Bool
any_hint_true HintDisplayExprs.nil = false
any_hint_true (HintDisplayExprs.cons x xs) = is_hint_true x || any_hint_true xs

unfoldable pub flatten_hint_and : HintDisplayExprs → HintDisplayExprs
flatten_hint_and HintDisplayExprs.nil = HintDisplayExprs.nil
flatten_hint_and (HintDisplayExprs.cons (HintDisplayExpr.gate GateExpr.true) xs) =
    flatten_hint_and xs
flatten_hint_and (HintDisplayExprs.cons (HintDisplayExpr.and ys) xs) =
    append_hints ys (flatten_hint_and xs)
flatten_hint_and (HintDisplayExprs.cons x xs) = HintDisplayExprs.cons x (flatten_hint_and xs)

unfoldable pub flatten_hint_or : HintDisplayExprs → HintDisplayExprs
flatten_hint_or HintDisplayExprs.nil = HintDisplayExprs.nil
flatten_hint_or (HintDisplayExprs.cons (HintDisplayExpr.gate GateExpr.false) xs) =
    flatten_hint_or xs
flatten_hint_or (HintDisplayExprs.cons (HintDisplayExpr.or ys) xs) =
    append_hints ys (flatten_hint_or xs)
flatten_hint_or (HintDisplayExprs.cons x xs) = HintDisplayExprs.cons x (flatten_hint_or xs)

unfoldable pub join_hint_and : HintDisplayExprs → HintDisplayExpr
join_hint_and HintDisplayExprs.nil = HintDisplayExpr.gate GateExpr.true
join_hint_and (HintDisplayExprs.cons x HintDisplayExprs.nil) = x
join_hint_and (HintDisplayExprs.cons x (HintDisplayExprs.cons y ys)) =
    HintDisplayExpr.and (HintDisplayExprs.cons x (HintDisplayExprs.cons y ys))

unfoldable pub join_hint_or : HintDisplayExprs → HintDisplayExpr
join_hint_or HintDisplayExprs.nil = HintDisplayExpr.gate GateExpr.false
join_hint_or (HintDisplayExprs.cons x HintDisplayExprs.nil) = x
join_hint_or (HintDisplayExprs.cons x (HintDisplayExprs.cons y ys)) =
    HintDisplayExpr.or (HintDisplayExprs.cons x (HintDisplayExprs.cons y ys))

unfoldable pub compile_hint_and : HintDisplayExprs → HintDisplayExpr
unfolding flatten_hint_and join_hint_and
compile_hint_and children =
    if any_hint_false children
    then HintDisplayExpr.gate GateExpr.false
    else join_hint_and (flatten_hint_and children)

unfoldable pub compile_hint_or : HintDisplayExprs → HintDisplayExpr
unfolding flatten_hint_or join_hint_or
compile_hint_or children =
    if any_hint_true children
    then HintDisplayExpr.gate GateExpr.true
    else join_hint_or (flatten_hint_or children)

unfoldable pub negate_hint : HintDisplayExpr → HintDisplayExpr
negate_hint (HintDisplayExpr.gate GateExpr.true) = HintDisplayExpr.gate GateExpr.false
negate_hint (HintDisplayExpr.gate GateExpr.false) = HintDisplayExpr.gate GateExpr.true
negate_hint (HintDisplayExpr.not inner) = inner
negate_hint expr = HintDisplayExpr.not expr
