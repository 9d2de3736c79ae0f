-- ===== src/Expr/Cache.antt =====
-- src/expr/mod.rs: `CompileCache`, `parse` and the compile functions, cached and not.
pub mod Fifo
pub mod Transparent
pub mod Text
use rbph_website_backend.Prelude.{
  ℕ, Str, Option, none, some, List, [], ◌∷◌, ◌++◌, Result, ok, err, ◌>>=◌, map_err, length, leb,
  ◌==◌, if◌then◌else◌, lookup, insert as map_insert, remove, text_eq,
}
use rbph_website_backend.Expr.Tokenizer.{tokenize}
use rbph_website_backend.Expr.Parser.{RawSexpr, ParseError, parse_expr}
use rbph_website_backend.Expr.Ast.{PuzzleStates, GateExpr, HintDisplayExpr}
use rbph_website_backend.Expr.Compiler.{compile_gate, compile_hint_display}
use rbph_website_backend.Expr.Compiler.Atoms.{CompileError}

-- The messages of the source are kept as data: what `format!` is given.
pub data ExprError : Type 0 where
  parse_error : ParseError → ExprError
  trailing_tokens : ExprError
  compile_error : CompileError → ExprError

unfoldable pub parse : Str → Result ExprError RawSexpr
unfolding tokenize parse_expr
parse expr = do
  let tokens = tokenize expr
  (sexpr, used) ← map_err parse_error (parse_expr tokens)
  if used == length tokens then ok sexpr else err trailing_tokens

unfoldable pub compile_gate_expr_uncached : Str → Result ExprError GateExpr
unfolding parse compile_gate
compile_gate_expr_uncached expr = do sexpr ← parse expr; map_err compile_error (compile_gate sexpr)

unfoldable pub compile_hint_display_expr_uncached : Str → Result ExprError HintDisplayExpr
unfolding parse compile_hint_display
compile_hint_display_expr_uncached expr = do
  sexpr ← parse expr
  map_err compile_error (compile_hint_display sexpr)

abbrev pub compile_cache_capacity : ℕ
compile_cache_capacity = 4096

pub record CompileCache (T : Type 0) : Type 0 where
  pub values : List (Str × Result ExprError T)
  pub insertion_order : List Str

unfoldable pub new : (T : Type 0) → CompileCache T
new T = record { values = []; insertion_order = [] }

module _ {T : Type 0} where
  unfoldable pub get : CompileCache T → Str → Option (Result ExprError T)
  get cache expression = lookup expression cache.values

  -- The loop of `insert`: the oldest expressions are removed while there is no room. It ends with
  -- the queue, where the source breaks.
  unfoldable pub evict :
      ℕ → List Str → List (Str × Result ExprError T) → List (Str × Result ExprError T) × List Str
  evict capacity [] values = (values, [])
  evict capacity (oldest ∷ order) values =
      let fewer = evict capacity order (remove oldest values) in
      if leb capacity (length values) then fewer else (values, oldest ∷ order)

  -- With the capacity as an argument; the source has the constant.
  unfoldable pub insert_within :
      ℕ → CompileCache T → Str → Result ExprError T → CompileCache T × Result ExprError T
  unfolding evict
  insert_within capacity cache expression compiled = elim (lookup expression cache.values) [
    | some existing ↦ (cache, existing)
    | none ↦
        let (values, order) = evict capacity cache.insertion_order cache.values in
        (
          record {
            values = map_insert expression compiled values;
            insertion_order = order ++ expression ∷ [];
          },
          compiled,
        )
  ]

  unfoldable pub insert :
      CompileCache T → Str → Result ExprError T → CompileCache T × Result ExprError T
  unfolding insert_within
  insert = insert_within compile_cache_capacity

  -- `compile_cached`, run without interruption; `Cache.Transparent` interleaves its two steps.
  unfoldable pub compile_cached :
      (Str → Result ExprError T) → CompileCache T → Str → CompileCache T × Result ExprError T
  unfolding get insert
  compile_cached compile cache expression = elim (get cache expression) [
    | some compiled ↦ (cache, compiled)
    | none ↦ insert cache expression (compile expression)
  ]

unfoldable pub compile_gate_expr :
    CompileCache GateExpr → Str → CompileCache GateExpr × Result ExprError GateExpr
unfolding compile_cached compile_gate_expr_uncached
compile_gate_expr = compile_cached compile_gate_expr_uncached

unfoldable pub compile_hint_display_expr :
    CompileCache HintDisplayExpr
    → Str
    → CompileCache HintDisplayExpr × Result ExprError HintDisplayExpr
unfolding compile_cached compile_hint_display_expr_uncached
compile_hint_display_expr = compile_cached compile_hint_display_expr_uncached
