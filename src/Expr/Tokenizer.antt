-- ===== src/Expr/Tokenizer.antt =====
-- src/expr/parser.rs: `Token` and `tokenize`.
pub mod Words
use rbph_website_backend.Prelude.{
  ℕ, Str, Bool, List, [], ◌∷◌, ◌++◌, ◌==◌, if◌then◌else◌, is_whitespace,
}

pub data Token : Type 0 where
  lparen rparen : Token
  atom : Str → Token

-- The two buffers of the loop.
pub record Scan : Type 0 where
  pub tokens : List Token
  pub buf : Str

-- `flush`: a non-empty buffer becomes an atom, and the buffer is taken.
unfoldable pub flush : Scan → Scan
flush s = elim s.buf [
  | [] ↦ s
  | c ∷ cs ↦ record { tokens = s.tokens ++ Token.atom (c ∷ cs) ∷ []; buf = [] }
]

unfoldable pub push_token : Token → Scan → Scan
push_token t s = record s { tokens = s.tokens ++ t ∷ [] }

-- One round of the loop over the characters.
unfoldable pub scan_char : ℕ → Scan → Scan
unfolding flush push_token
scan_char c s =
    if c == b'('
    then push_token lparen (flush s)
    else if c == b')'
    then push_token rparen (flush s)
    else if is_whitespace c
    then flush s
    else record s { buf = s.buf ++ c ∷ [] }

unfoldable pub scan : Str → Scan → Scan
scan [] s = s
scan (c ∷ cs) s = scan cs (scan_char c s)

unfoldable pub tokenize : Str → List Token
unfolding scan scan_char
tokenize expr = (flush (scan expr (record { tokens = []; buf = [] }))).tokens
