-- ===== src/Expr/Parser/Sound.antt =====
-- What the parser returns: the tokens that it read are those of the expression.
use mathlib.Core.List.{append_assoc}
use rbph_website_backend.Prelude.{
  ℕ, zero, suc, ◌+◌, ◌<◌, ◌≡◌, refl, sym, ap, ◌∙◌, arith, List, ◌∷◌, ◌++◌, Option, none, some, ok,
  ◌>>=◌, >>=-eq-ok, get_elem?, drop, drop-get_elem?,
}
use rbph_website_backend.Expr.Tokenizer.{Token}
use rbph_website_backend.Expr.Parser.{
  RawSexpr, RawSexprs, atom, list, nil, cons, push, parse_at, parse_items, parse_expr,
}
use rbph_website_backend.Expr.Parser.Print.{
  print, print_items, append_items, append_items-push, append_items-nil,
}

-- A token at `i` was consumed, up to `j`, and spells `e`.
abbrev Reads : List Token → ℕ → RawSexpr × ℕ → Type 0
Reads ts i (e, j) = (drop i ts ≡ print e ++ drop j ts) × (i < j)

abbrev ReadsItems : List Token → ℕ → RawSexprs → RawSexpr × ℕ → Type 0
ReadsItems ts i items (e, j) =
    (xs : RawSexprs) × (e ≡ list (append_items items xs))
    × (drop i ts ≡ print_items xs ++ Token.rparen ∷ drop j ts)
    × (i < j)

module _ (f i : ℕ) (ts : List Token) where
  at_token :
      (o : Option Token) (r : RawSexpr × ℕ)
      → get_elem? ts i ≡ o
      → (parse_items f (i + 1) ts nil ≡ ok r → ReadsItems ts (i + 1) nil r)
      → parse_at (suc f) i ts ≡ ok r
      → Reads ts i r
  unfolding parse_at print append_items
  at_token none r g ih h = cc (rw (g, parse_at) at h)
  at_token (some Token.rparen) r g ih h = cc (rw (g, parse_at) at h)
  at_token (some (Token.atom a)) r g ih h =
      let p : ◌≡◌ {A = RawSexpr × ℕ} (atom a, i + 1) r = cc (rw (g, parse_at) at h) in
      rw (← p) (drop-get_elem? ts i _ g, omega arith)
  at_token (some Token.lparen) r g ih h =
      let (xs, e, d, lt) = ih (rw (g, parse_at) at h) in
      rw e (drop-get_elem? ts i _ g ∙ ap (λ l. Token.lparen ∷ l) (d ∙ rw append_assoc), omega arith)

  -- One element of a list, and the rest of the list.
  at_element :
      (items : RawSexprs) (r : RawSexpr × ℕ)
      → ((q : RawSexpr × ℕ) → parse_at f i ts ≡ ok q → Reads ts i q)
      → ((q : RawSexpr × ℕ)
          → parse_items f q.1 ts (push items q.0) ≡ ok r
          → ReadsItems ts q.1 (push items q.0) r)
      → (parse_at f i ts >>= λ q. parse_items f q.1 ts (push items q.0)) ≡ ok r
      → ReadsItems ts i items r
  unfolding print
  at_element items r ih ihs h =
      let (q, hq, hr) = >>=-eq-ok (parse_at f i ts) _ h in
      let (dq, lq) = ih q hq in
      let (xs, e, d, lt) = ihs q hr in
      (
        cons q.0 xs,
        e ∙ ap list (append_items-push items q.0 xs),
        dq ∙ ap (λ l. print q.0 ++ l) d ∙ sym (append_assoc (print q.0) _ _),
        omega arith,
      )

  at_items :
      (o : Option Token) (items : RawSexprs) (r : RawSexpr × ℕ)
      → get_elem? ts i ≡ o
      → ((q : RawSexpr × ℕ) → parse_at f i ts ≡ ok q → Reads ts i q)
      → ((q : RawSexpr × ℕ)
          → parse_items f q.1 ts (push items q.0) ≡ ok r
          → ReadsItems ts q.1 (push items q.0) r)
      → parse_items (suc f) i ts items ≡ ok r
      → ReadsItems ts i items r
  unfolding parse_at print append_items
  at_items none items r g ih ihs h = cc (rw (g, parse_items) at h)
  at_items (some Token.rparen) items r g ih ihs h =
      let p : ◌≡◌ {A = RawSexpr × ℕ} (list items, i + 1) r = cc (rw (g, parse_items) at h) in
      rw (← p) (nil, ap list (sym (append_items-nil items)), drop-get_elem? ts i _ g, omega arith)
  at_items (some Token.lparen) items r g ih ihs h =
      at_element items r ih ihs (rw (g, parse_items) at h)
  at_items (some (Token.atom a)) items r g ih ihs h =
      at_element items r ih ihs (rw (g, parse_items) at h)

mutual
  unfolding parse_at

  parse_at-Reads :
      (f i : ℕ) (ts : List Token) (r : RawSexpr × ℕ) → parse_at f i ts ≡ ok r → Reads ts i r
  parse_at-Reads zero i ts r h = cc
  parse_at-Reads (suc f) i ts r h =
      at_token f i ts (get_elem? ts i) r refl (parse_items-Reads f (i + 1) ts nil r) h

  parse_items-Reads :
      (f i : ℕ) (ts : List Token) (items : RawSexprs) (r : RawSexpr × ℕ)
      → parse_items f i ts items ≡ ok r
      → ReadsItems ts i items r
  parse_items-Reads zero i ts items r h = cc
  parse_items-Reads (suc f) i ts items r h =
      at_items f i ts (get_elem? ts i) items r refl (parse_at-Reads f i ts)
        (λ q. parse_items-Reads f q.1 ts (push items q.0) r) h

pub parse_at_sound :
    (f i : ℕ) (ts : List Token) (e : RawSexpr) (j : ℕ)
    → parse_at f i ts ≡ ok (e, j)
    → (drop i ts ≡ print e ++ drop j ts) × (i < j)
parse_at_sound f i ts e j h = parse_at-Reads f i ts (e, j) h

-- What `parse_expr` accepts is spelled by the tokens that it used: those of the expression that
-- it returns, followed by the tokens from the returned index on.
pub parse_expr_sound :
    (ts : List Token) (e : RawSexpr) (used : ℕ)
    → parse_expr ts ≡ ok (e, used)
    → ts ≡ print e ++ drop used ts
unfolding parse_expr
parse_expr_sound ts e used h = (parse_at_sound _ 0 ts e used h).0
