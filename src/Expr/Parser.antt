-- ===== src/Expr/Parser.antt =====
-- src/expr/parser.rs: `RawSexpr`, `ParseError` and `parse_expr`, which reads tokens by their index.
pub mod Print
pub mod Sound
pub mod Complete
use rbph_website_backend.Prelude.{
  ℕ, zero, suc, ◌+◌, ◌*◌, Str, List, Option, none, some, Result, ok, err, ◌>>=◌, length, get_elem?,
}
use rbph_website_backend.Expr.Tokenizer.{Token}

-- `Vec<RawSexpr>` is the second type of the block.
mutual
  pub data RawSexpr : Type 0 where
    atom : Str → RawSexpr
    list : RawSexprs → RawSexpr

  pub data RawSexprs : Type 0 where
    nil : RawSexprs
    cons : RawSexpr → RawSexprs → RawSexprs

-- `out_of_fuel` is the model's own; `Parser.Sound.parse_expr-ne-out_of_fuel` shows it is not met.
pub data ParseError : Type 0 where
  unexpected_eof unexpected_token unbalanced_paren out_of_fuel : ParseError

-- `Vec::push`.
unfoldable pub push : RawSexprs → RawSexpr → RawSexprs
push nil e = cons e nil
push (cons x xs) e = cons x (push xs e)

-- `parse_at` and its inner `loop`, which calls it for each element of a list.
unfoldable mutual
  pub parse_at : ℕ → ℕ → List Token → Result ParseError (RawSexpr × ℕ)
  parse_at zero index tokens = err out_of_fuel
  parse_at (suc fuel) index tokens = elim (get_elem? tokens index) [
    | none ↦ err unexpected_eof
    | some Token.lparen ↦ parse_items fuel (index + 1) tokens nil
    | some Token.rparen ↦ err unexpected_token
    | some (Token.atom expr) ↦ ok (atom expr, index + 1)
  ]

  pub parse_items : ℕ → ℕ → List Token → RawSexprs → Result ParseError (RawSexpr × ℕ)
  parse_items zero index tokens items = err out_of_fuel
  parse_items (suc fuel) index tokens items = elim (get_elem? tokens index) [
    | none ↦ err unexpected_eof
    | some Token.rparen ↦ ok (list items, index + 1)
    | some _ ↦ parse_at fuel index tokens >>= λ r. parse_items fuel r.1 tokens (push items r.0)
  ]

-- Every call but the first of a loop reads a token more, so this fuel is never used up.
unfoldable pub parse_expr : List Token → Result ParseError (RawSexpr × ℕ)
unfolding parse_at push
parse_expr tokens = parse_at (2 * length tokens + 1) 0 tokens
