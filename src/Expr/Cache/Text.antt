-- ===== src/Expr/Cache/Text.antt =====
-- From text to S-expressions: `parse` accepts exactly the texts whose tokens spell one expression.
use mathlib.Core.List.{append-nil}
use rbph_website_backend.Prelude.{
  ℕ, Str, ◌≡◌, ◌↔◌, refl, sym, ap, ◌∙◌, List, [], ◌∷◌, ◌++◌, Result, ok, err, ◌>>=◌, map_err,
  length, drop, ◌==◌, ==_iff, if◌then◌else◌, Bool-cases, inl, inr,
}
use rbph_website_backend.Expr.Tokenizer.{Token, tokenize}
use rbph_website_backend.Expr.Tokenizer.Words.{AllWords, show, tokenize-show, tokenize-AllWords}
use rbph_website_backend.Expr.Parser.{RawSexpr, ParseError, parse_expr}
use rbph_website_backend.Expr.Parser.Print.{print}
use rbph_website_backend.Expr.Parser.Sound.{parse_expr_sound}
use rbph_website_backend.Expr.Parser.Complete.{parse_expr_complete}
use rbph_website_backend.Expr.Cache.{ExprError, parse_error, trailing_tokens, parse}

drop-length : {A : Type 0} (xs : List A) → drop (length xs) xs ≡ []
drop-length [] = refl
drop-length (x ∷ xs) = drop-length xs

-- The end of `parse`, from what `parse_expr` returned.
finish : List Token → Result ParseError (RawSexpr × ℕ) → Result ExprError RawSexpr
finish ts r =
    map_err parse_error r >>= λ q. if q.1 == length ts then ok q.0 else err trailing_tokens

finish-eq-ok :
    (ts : List Token) (r : Result ParseError (RawSexpr × ℕ)) (e : RawSexpr)
    → finish ts r ≡ ok e
    → r ≡ ok (e, length ts)
unfolding finish
finish-eq-ok ts (err x) e h = cc
finish-eq-ok ts (ok (s, used)) e h = elim (Bool-cases (used == length ts)) [
  | inl all ↦ cc (rw all at h, (==_iff used (length ts)).0 all)
  | inr some_left ↦ cc (rw some_left at h)
]

parse-spells : (expr : Str) (e : RawSexpr) → parse expr ≡ ok e → tokenize expr ≡ print e
unfolding parse finish
parse-spells expr e h =
    let ts = tokenize expr in
    let r = finish-eq-ok ts (parse_expr ts) e h in
    parse_expr_sound ts e (length ts) r
    ∙ ap (λ l. print e ++ l) (drop-length ts)
    ∙ append-nil (print e)

spells-parse : (expr : Str) (e : RawSexpr) → tokenize expr ≡ print e → parse expr ≡ ok e
unfolding parse finish
spells-parse expr e h =
    let read = parse_expr_complete e [] in
    let same = append-nil (print e) in
    ap (λ ts. finish ts (parse_expr ts)) h
    ∙ ap (finish (print e)) (ap parse_expr (sym same) ∙ read)
    ∙ rw ((==_iff (length (print e)) (length (print e))).1 refl)

-- A text parses to an expression exactly when its tokens are those of the expression, no more
-- and no fewer.
pub parse_iff : (expr : Str) (e : RawSexpr) → (parse expr ≡ ok e) ↔ (tokenize expr ≡ print e)
parse_iff expr e = (parse-spells expr e, spells-parse expr e)

-- An expression whose atoms can be read back is parsed from its own text.
pub parse-show : (e : RawSexpr) → AllWords (print e) → parse (show (print e)) ≡ ok e
parse-show e h = spells-parse (show (print e)) e (tokenize-show (print e) h)

-- A parsed expression can be written out and parsed again: its atoms can all be read back.
pub parse-show-parse :
    (expr : Str) (e : RawSexpr) → parse expr ≡ ok e → parse (show (print e)) ≡ ok e
parse-show-parse expr e h =
    parse-show e (let w = tokenize-AllWords expr in rw (parse-spells expr e h) at w)
