-- ===== src/Expr/Tokenizer/Words.antt =====
-- What `tokenize` gives, and its inverse: tokens written with a space behind each.
use mathlib.Core.List.{append_assoc, append-nil}
use rbph_website_backend.Prelude.{
  ℕ, Str, ◌≡◌, refl, sym, ap, ◌∙◌, ◌≢◌, arith, Bool, false, ◌||◌, List, [], ◌∷◌, ◌++◌, ◌==◌,
  is_whitespace, Bool-cases, inl, inr,
}
use rbph_website_backend.Expr.Tokenizer.{
  Token, lparen, rparen, Scan, flush, push_token, scan_char, scan, tokenize,
}

-- A character that ends an atom.
unfoldable pub is_delimiter : ℕ → Bool
is_delimiter c = c == b'(' || c == b')' || is_whitespace c

abbrev pub AllWord : Str → Type 0
AllWord [] = Unit
AllWord (c ∷ cs) = (is_delimiter c ≡ false) × AllWord cs

-- An atom that can be read back: it is not empty and has no delimiter.
abbrev pub IsWord : Token → Type 0
IsWord lparen = Unit
IsWord rparen = Unit
IsWord (Token.atom a) = (a ≢ []) × AllWord a

abbrev pub AllWords : List Token → Type 0
AllWords [] = Unit
AllWords (t ∷ ts) = IsWord t × AllWords ts

AllWords-append : (ts : List Token) (t : Token) → AllWords ts → IsWord t → AllWords (ts ++ t ∷ [])
AllWords-append [] t h w = (w, tt)
AllWords-append (u ∷ ts) t h w = (h.0, AllWords-append ts t h.1 w)

AllWord-append : (s : Str) (c : ℕ) → AllWord s → is_delimiter c ≡ false → AllWord (s ++ c ∷ [])
AllWord-append [] c h w = (w, tt)
AllWord-append (d ∷ s) c h w = (h.0, AllWord-append s c h.1 w)

-- The invariant of the loop.
abbrev IsScan : Scan → Type 0
IsScan s = AllWords s.tokens × AllWord s.buf

flush-IsScan :
    (ts : List Token) (b : Str)
    → AllWords ts
    → AllWord b
    → IsScan (flush (record { tokens = ts; buf = b }))
unfolding flush
flush-IsScan ts [] h w = (h, w)
flush-IsScan ts (c ∷ b) h w = (AllWords-append ts _ h ((λ e. cc), w), tt)

push_token-IsScan : (t : Token) (s : Scan) → IsWord t → IsScan s → IsScan (push_token t s)
unfolding push_token
push_token-IsScan t s w h = (AllWords-append s.tokens t h.0 w, h.1)

not_delimiter :
    (c : ℕ)
    → (c == b'(') ≡ false
    → (c == b')') ≡ false
    → is_whitespace c ≡ false
    → is_delimiter c ≡ false
unfolding is_delimiter
not_delimiter c p q w = rw (p, q, w)

scan_char-IsScan : (c : ℕ) (s : Scan) → IsScan s → IsScan (scan_char c s)
unfolding scan_char
scan_char-IsScan c s h = elim (Bool-cases (c == b'(')) [
  | inl p ↦ rw p (push_token-IsScan lparen _ tt (flush-IsScan s.tokens s.buf h.0 h.1))
  | inr p ↦ rw p (elim (Bool-cases (c == b')')) [
    | inl q ↦ rw q (push_token-IsScan rparen _ tt (flush-IsScan s.tokens s.buf h.0 h.1))
    | inr q ↦ rw q (elim (Bool-cases (is_whitespace c)) [
      | inl w ↦ rw w (flush-IsScan s.tokens s.buf h.0 h.1)
      | inr w ↦ rw w (h.0, AllWord-append s.buf c h.1 (not_delimiter c p q w))
    ])
  ])
]

scan-IsScan : (cs : Str) (s : Scan) → IsScan s → IsScan (scan cs s)
unfolding scan
scan-IsScan [] s h = h
scan-IsScan (c ∷ cs) s h = scan-IsScan cs (scan_char c s) (scan_char-IsScan c s h)

-- Every atom of a tokenized text can be read back: none is empty or holds a delimiter.
pub tokenize-AllWords : (expr : Str) → AllWords (tokenize expr)
unfolding tokenize
tokenize-AllWords expr =
    let s = scan expr (record { tokens = []; buf = [] }) in
    let w = scan-IsScan expr (record { tokens = []; buf = [] }) (tt, tt) in
    (flush-IsScan s.tokens s.buf w.0 w.1).0

-- Tokens as text, each with a space behind it.
unfoldable pub show : List Token → Str
show [] = []
show (lparen ∷ ts) = b'(' ∷ b' ' ∷ show ts
show (rparen ∷ ts) = b')' ∷ b' ' ∷ show ts
show (Token.atom a ∷ ts) = a ++ b' ' ∷ show ts

scan-append : (xs ys : Str) (s : Scan) → scan (xs ++ ys) s ≡ scan ys (scan xs s)
unfolding scan
scan-append [] ys s = refl
scan-append (x ∷ xs) ys s = scan-append xs ys (scan_char x s)

scan_char-word :
    (c : ℕ) (ts : List Token) (b : Str)
    → is_delimiter c ≡ false
    → scan_char c (record { tokens = ts; buf = b }) ≡ record { tokens = ts; buf = b ++ c ∷ [] }
unfolding scan_char is_delimiter
scan_char-word c ts b h = ground arith

scan-word :
    (a : Str) (ts : List Token) (b : Str)
    → AllWord a
    → scan a (record { tokens = ts; buf = b }) ≡ record { tokens = ts; buf = b ++ a }
unfolding scan
scan-word [] ts b h = rw append-nil
scan-word (c ∷ a) ts b h =
    rw (scan_char-word c ts b h.0) (scan-word a ts (b ++ c ∷ []) h.1 ∙ rw append_assoc)

-- The atoms that a text ends with, and the space behind them.
scan-atom :
    (a : Str) (ts : List Token)
    → IsWord (Token.atom a)
    → scan (a ++ b' ' ∷ []) (record { tokens = ts; buf = [] })
      ≡ record { tokens = ts ++ Token.atom a ∷ []; buf = [] }
unfolding scan scan_char flush is_whitespace
scan-atom [] ts h = absurd (h.0 refl)
scan-atom (c ∷ a) ts h = rw (scan-append (c ∷ a), scan-word (c ∷ a) ts [] h.1)

scan-show :
    (us ts : List Token)
    → AllWords us
    → scan (show us) (record { tokens = ts; buf = [] }) ≡ record { tokens = ts ++ us; buf = [] }
unfolding scan scan_char flush push_token is_whitespace show
scan-show [] ts h = rw append-nil
scan-show (lparen ∷ us) ts h = scan-show us (ts ++ lparen ∷ []) h.1 ∙ rw append_assoc
scan-show (rparen ∷ us) ts h = scan-show us (ts ++ rparen ∷ []) h.1 ∙ rw append_assoc
scan-show (Token.atom a ∷ us) ts h =
    let start : Scan = record { tokens = ts; buf = [] } in
    ap (λ t. scan t start) (sym (append_assoc a (b' ' ∷ []) (show us)))
    ∙ scan-append (a ++ b' ' ∷ []) (show us) start
    ∙ ap (scan (show us)) (scan-atom a ts h.0)
    ∙ scan-show us (ts ++ Token.atom a ∷ []) h.1
    ∙ rw append_assoc

-- Tokens that are written as text, each with a space behind it, are read back unchanged.
pub tokenize-show : (ts : List Token) → AllWords ts → tokenize (show ts) ≡ ts
unfolding tokenize flush
tokenize-show ts h = ap (λ s. (flush s).tokens) (scan-show ts [] h)
