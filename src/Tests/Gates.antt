-- ===== src/Tests/Gates.antt =====
-- The gate language on the inputs of the tests in src/expr/mod.rs.
use rbph_website_backend.Prelude.{
  ℕ, ◌+◌, ◌-◌, ◌≡◌, ◌≢◌, ◌↔◌, refl, inl, arith, Str, codes, true, false, ◌&&◌, none, some, [], ◌∷◌,
  ◌++◌, Result, ok, err, if◌then◌else◌, leb, str_eq, ◌==◌, lookup, drop, length, is_whitespace,
}
use rbph_website_backend.Expr.Tokenizer.{Token, tokenize}
use rbph_website_backend.Expr.Tokenizer.Words.{show}
use rbph_website_backend.Expr.Parser.{
  RawSexpr, RawSexprs, atom, list, nil, cons, ParseError, parse_expr,
}
use rbph_website_backend.Expr.Parser.Print.{print}
use rbph_website_backend.Expr.Parser.Complete.{parse_expr-ne-out_of_fuel}
use rbph_website_backend.Expr.Ast.{
  PuzzleStates, PuzzleRef, SetExpr, ValueExpr, CmpOp, GateExpr, HintDisplayExpr,
}
use rbph_website_backend.Expr.Eval.{
  eval_compiled, eval_value, cmp_usize, eval_hint_display_compiled, hint_display_uses_cooldown,
}
use rbph_website_backend.Expr.Eval.Monotone.{Progress, eval_compiled-Progress}
use rbph_website_backend.Expr.Eval.Cooldown.{eval_hint_display-uses_cooldown}
use rbph_website_backend.Expr.Eval.Sets.{Between, eval_compiled-puzzle_range}
use rbph_website_backend.Expr.Compiler.Atoms.{unknown_op, parse_puzzle_ref}
use rbph_website_backend.Expr.Compiler.Fold.{compile_gate_and}
use rbph_website_backend.Expr.Compiler.{
  gate_branch, hint_branch, compile_gate, compile_hint_display,
}
use rbph_website_backend.Expr.Compiler.Forms.{GateForm, gate_form, hint_form}
use rbph_website_backend.Expr.Compiler.Meaning.{gate_meaning, eval-compile_gate}
use rbph_website_backend.Expr.Compiler.Meaning.Display.{hint_meaning, eval-compile_hint_display}
use rbph_website_backend.Expr.Compiler.Accepts.{Compiles, AllCompile, compile_gate-Compiles}
use rbph_website_backend.Expr.Compiler.Simplified.{IsSimplified, compile_gate-IsSimplified}
use rbph_website_backend.Expr.Cache.{
  ExprError, new, get, insert, compile_cached, compile_cache_capacity, parse,
  compile_gate_expr_uncached,
}
use rbph_website_backend.Expr.Cache.Text.{parse_iff, parse-show-parse}
use rbph_website_backend.Expr.Cache.Fifo.{IsBounded, insert-IsBounded, insert-fifo}
use rbph_website_backend.Expr.Cache.Transparent.{
  IsFaithful, read, write, AllCompiled, compile_cached-eq-compile, new-AllCompiled,
}

-- `TestState`: puzzles 1 to 3 are solved.
abbrev test_state : PuzzleStates
test_state = record {
  is_solved = λ id. leb 1 id && leb id 3;
  solved = 1 ∷ 2 ∷ 3 ∷ [];
  puzzle_slug = λ slug. if str_eq slug (codes "intro") then some 1 else none;
  round_slug = λ slug. if str_eq slug (codes "round-one") then some 1 else none;
  round_puzzles = λ id. if id == 1 then some (1 ∷ 2 ∷ 3 ∷ []) else none;
  game_started = true;
  is_triggered = λ id key. id == 2 && str_eq key (codes "extra-content");
}

abbrev true_form : RawSexpr
true_form = list (cons (atom (codes "true")) nil)

abbrev solved_form : RawSexpr
solved_form = list (cons (atom (codes "solved")) (cons (atom (codes "intro")) nil))

-- (and (true) (solved intro))
abbrev and_form : RawSexpr
and_form = list (cons (atom (codes "and")) (cons true_form (cons solved_form nil)))

abbrev solved_gate : GateExpr
solved_gate = GateExpr.solved (PuzzleRef.slug (codes "intro"))

parse_test : parse (codes "(and (true) (solved intro))") ≡ ok and_form
unfolding parse is_whitespace
parse_test = refl

gate_test : compile_gate_expr_uncached (codes "(and (true) (solved intro))") ≡ ok solved_gate
unfolding compile_gate_expr_uncached is_whitespace gate_form gate_branch parse_puzzle_ref
    compile_gate_and
gate_test = refl

gate_false_test :
    compile_gate_expr_uncached (codes "(and (false) (unknown))")
    ≡ err (ExprError.compile_error (unknown_op (codes "unknown")))
unfolding compile_gate_expr_uncached is_whitespace gate_form gate_branch parse_puzzle_ref
    compile_gate_and
gate_false_test = refl

and_form_compiles : compile_gate and_form ≡ ok solved_gate
unfolding compile_gate gate_form gate_branch parse_puzzle_ref compile_gate_and
and_form_compiles = refl

eval-compile_gate_example : eval_compiled test_state solved_gate ≡ gate_meaning test_state and_form
eval-compile_gate_example = eval-compile_gate test_state and_form solved_gate and_form_compiles

compile_gate-IsSimplified_example : IsSimplified solved_gate
compile_gate-IsSimplified_example = compile_gate-IsSimplified and_form solved_gate and_form_compiles

abbrev and_args : RawSexprs
and_args = cons true_form nil

and_head : gate_form (codes "and") ≡ GateForm.and
unfolding gate_form
and_head = refl

compile_gate-Compiles_example :
    Compiles (list (cons (atom (codes "and")) and_args)) ↔ AllCompile and_args
compile_gate-Compiles_example = compile_gate-Compiles (codes "and") and_args (inl and_head)

-- (hint-enabled)
abbrev enabled_form : RawSexpr
enabled_form = list (cons (atom (codes "hint-enabled")) nil)

enabled_form_compiles : compile_hint_display enabled_form ≡ ok HintDisplayExpr.hint_enabled
unfolding compile_hint_display hint_form hint_branch
enabled_form_compiles = refl

eval-compile_hint_display_example :
    eval_hint_display_compiled test_state HintDisplayExpr.hint_enabled true false
    ≡ hint_meaning test_state true false enabled_form
eval-compile_hint_display_example =
    eval-compile_hint_display test_state true false enabled_form HintDisplayExpr.hint_enabled
      enabled_form_compiles

-- A later state: puzzle 4 is solved too.
abbrev later_state : PuzzleStates
later_state = record test_state { is_solved = λ id. leb 1 id && leb id 4 }

test_state-Progress : Progress test_state later_state
test_state-Progress = record {
  solved_stays = λ id h. ground arith;
  same_slug = λ k. refl;
  same_round_slug = λ k. refl;
  same_round = λ r. refl;
  started_stays = λ h. h;
  triggered_stays = λ id k h. h;
}

-- (ge (solved-count (puzzle-range 1 3)) 3)
abbrev count_gate : GateExpr
count_gate =
    GateExpr.cmp CmpOp.ge (ValueExpr.solved_count (SetExpr.puzzle_range 1 3)) (ValueExpr.number 3)

count_gate_open : eval_compiled test_state count_gate ≡ true
unfolding eval_compiled eval_value cmp_usize
count_gate_open = refl

eval_compiled-Progress_example : eval_compiled later_state count_gate ≡ true
eval_compiled-Progress_example =
    eval_compiled-Progress test_state later_state count_gate test_state-Progress tt count_gate_open

enabled_needs_no_cooldown : hint_display_uses_cooldown HintDisplayExpr.hint_enabled ≡ false
unfolding hint_display_uses_cooldown
enabled_needs_no_cooldown = refl

eval_hint_display-uses_cooldown_example :
    eval_hint_display_compiled test_state HintDisplayExpr.hint_enabled true true
    ≡ eval_hint_display_compiled test_state HintDisplayExpr.hint_enabled true false
eval_hint_display-uses_cooldown_example =
    eval_hint_display-uses_cooldown test_state HintDisplayExpr.hint_enabled true true false
      enabled_needs_no_cooldown

eval_compiled-puzzle_range_example :
    (eval_compiled test_state (GateExpr.all_solved (SetExpr.puzzle_range 3 1)) ≡ true)
    ↔ ((i : ℕ) → Between 3 1 i → test_state.is_solved i ≡ true)
eval_compiled-puzzle_range_example = eval_compiled-puzzle_range test_state 3 1

parse_iff_example :
    (parse (codes "(true)") ≡ ok true_form) ↔ (tokenize (codes "(true)") ≡ print true_form)
parse_iff_example = parse_iff (codes "(true)") true_form

parse-show-parse_example : parse (show (print and_form)) ≡ ok and_form
parse-show-parse_example =
    parse-show-parse (codes "(and (true) (solved intro))") and_form parse_test

parse_expr-ne-out_of_fuel_example :
    parse_expr (Token.lparen ∷ Token.lparen ∷ []) ≢ err ParseError.out_of_fuel
parse_expr-ne-out_of_fuel_example = parse_expr-ne-out_of_fuel (Token.lparen ∷ Token.lparen ∷ [])

-- A compiler for the cache: it gives the number of characters.
abbrev count_chars : Str → Result ExprError ℕ
count_chars s = ok (length s)

new-IsBounded : IsBounded compile_cache_capacity (new ℕ)
unfolding new
new-IsBounded = record { queued = refl; distinct = tt; bounded = omega arith }

insert-IsBounded_example :
    IsBounded compile_cache_capacity (insert (new ℕ) (codes "(true)") (ok 6)).0
insert-IsBounded_example = insert-IsBounded (new ℕ) (codes "(true)") (ok 6) new-IsBounded

new-get : (k : Str) → get (new ℕ) k ≡ none
unfolding new get lookup
new-get k = refl

insert-fifo_example :
    let (cache', result) = insert (new ℕ) (codes "(true)") (ok 6) in
    (result ≡ ok 6)
    × (cache'.insertion_order
        ≡ drop (length (new ℕ).insertion_order + 1 - compile_cache_capacity) (new ℕ).insertion_order
          ++ codes "(true)" ∷ [])
    × (cache'.values
        ≡ drop (length (new ℕ).values + 1 - compile_cache_capacity) (new ℕ).values
          ++ (codes "(true)", ok 6) ∷ [])
insert-fifo_example =
    insert-fifo (new ℕ) (codes "(true)") (ok 6) new-IsBounded (new-get (codes "(true)"))

new-IsFaithful : IsFaithful count_chars (new ℕ)
unfolding new lookup
new-IsFaithful = record { entry = λ k v h. cc }

compile_cached-eq-compile_example :
    IsFaithful count_chars (compile_cached count_chars (new ℕ) (codes "(true)")).0
    × ((compile_cached count_chars (new ℕ) (codes "(true)")).1 ≡ count_chars (codes "(true)"))
compile_cached-eq-compile_example =
    compile_cached-eq-compile count_chars (new ℕ) (codes "(true)") new-IsFaithful

-- Two threads that both miss the same expression.
new-AllCompiled_example :
    AllCompiled count_chars
      (new ℕ)
      (read (codes "a") ∷ read (codes "a") ∷ write (codes "a") ∷ write (codes "a") ∷ [])
new-AllCompiled_example =
    new-AllCompiled count_chars
      (read (codes "a") ∷ read (codes "a") ∷ write (codes "a") ∷ write (codes "a") ∷ [])
