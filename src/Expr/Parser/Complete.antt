-- ===== src/Expr/Parser/Complete.antt =====
-- The parser reads every expression that is spelled, and its fuel is always enough.
use mathlib.Core.List.{append_assoc}
use rbph_website_backend.Prelude.{
  ℕ, zero, suc, ◌+◌, ◌*◌, ◌-◌, ◌<◌, ◌≤◌, ◌≡◌, ◌≢◌, refl, sym, ap, ◌∙◌, arith, List, [], ◌∷◌, ◌++◌,
  Option, none, some, Result, ok, err, ◌>>=◌, length, get_elem?, drop, get_elem?-drop, get_elem?-lt,
  length-append, drop-drop, drop-append,
}
use rbph_website_backend.Expr.Tokenizer.{Token}
use rbph_website_backend.Expr.Parser.{
  RawSexpr, RawSexprs, atom, list, nil, cons, push, ParseError, out_of_fuel, parse_at, parse_items,
  parse_expr,
}
use rbph_website_backend.Expr.Parser.Print.{
  print, print_items, append_items, append_items-push, append_items-nil,
}
use rbph_website_backend.Expr.Parser.Sound.{parse_at_sound}

print-nonempty : (e : RawSexpr) → 0 < length (print e)
unfolding print
print-nonempty (atom a) = omega arith
print-nonempty (list xs) = omega arith

-- What follows a prefix.
drop-after :
    (ts p rest : List Token) (i : ℕ) → drop i ts ≡ p ++ rest → drop (i + length p) ts ≡ rest
drop-after ts p rest i h =
    sym (drop-drop ts i (length p)) ∙ ap (drop (length p)) h ∙ drop-append p rest

-- The loop goes on at the first token of an element.
items_element :
    (e : RawSexpr) (f i : ℕ) (ts rest : List Token) (items : RawSexprs)
    → drop i ts ≡ print e ++ rest
    → parse_items (suc f) i ts items
      ≡ (parse_at f i ts >>= λ r. parse_items f r.1 ts (push items r.0))
unfolding parse_at print
items_element (atom a) f i ts rest items h = rw (get_elem?-drop ts _ i _ h, parse_items)
items_element (list xs) f i ts rest items h = rw (get_elem?-drop ts _ i _ h, parse_items)

ok_at :
    {e e' : RawSexpr} {i j : ℕ}
    → e ≡ e'
    → i ≡ j
    → ◌≡◌ {A = Result ParseError (RawSexpr × ℕ)} (ok (e, i)) (ok (e', j))
ok_at p q = cc

mutual
  unfolding parse_at print append_items

  parse_at-reads :
      (e : RawSexpr) (f i : ℕ) (ts rest : List Token)
      → drop i ts ≡ print e ++ rest
      → 2 * length (print e) ≤ f
      → parse_at f i ts ≡ ok (e, i + length (print e))
  parse_at-reads (atom a) zero i ts rest h le = absurd (omega arith)
  parse_at-reads (atom a) (suc f) i ts rest h le = rw (get_elem?-drop ts _ i _ h, parse_at)
  parse_at-reads (list xs) zero i ts rest h le = absurd (omega arith)
  parse_at-reads (list xs) (suc f) i ts rest h le =
      let size = length-append (print_items xs) (Token.rparen ∷ []) in
      let after =
        drop-after ts (Token.lparen ∷ []) ((print_items xs ++ Token.rparen ∷ []) ++ rest) i h
        ∙ append_assoc (print_items xs) (Token.rparen ∷ []) rest in
      rw (get_elem?-drop ts _ i _ h, parse_at)
        (parse_items-reads xs f (i + 1) ts rest nil after (omega (arith, size))
          ∙ ok_at refl (omega (arith, size)))

  parse_items-reads :
      (xs : RawSexprs) (f i : ℕ) (ts rest : List Token) (items : RawSexprs)
      → drop i ts ≡ print_items xs ++ Token.rparen ∷ rest
      → 2 * length (print_items xs) + 1 ≤ f
      → parse_items f i ts items
        ≡ ok (list (append_items items xs), i + length (print_items xs) + 1)
  parse_items-reads nil zero i ts rest items h le = absurd (omega arith)
  parse_items-reads nil (suc f) i ts rest items h le =
      rw (get_elem?-drop ts _ i _ h, parse_items)
        (ok_at (ap list (sym (append_items-nil items))) (omega arith))
  parse_items-reads (cons x xs) zero i ts rest items h le = absurd (omega arith)
  parse_items-reads (cons x xs) (suc f) i ts rest items h le =
      let more = print_items xs ++ Token.rparen ∷ rest in
      let here = h ∙ append_assoc (print x) (print_items xs) (Token.rparen ∷ rest) in
      let size = length-append (print x) (print_items xs) in
      let one = parse_at-reads x f i ts more here (omega (arith, size, print-nonempty x)) in
      items_element x f i ts more items here
      ∙ ap (λ r. r >>= λ q. parse_items f q.1 ts (push items q.0)) one
      ∙ parse_items-reads xs f (i + length (print x)) ts rest (push items x)
          (drop-after ts (print x) more i here) (omega (arith, size, print-nonempty x))
      ∙ ok_at (ap list (append_items-push items x xs)) (omega (arith, size))

-- Every expression is read from its tokens, whatever tokens follow, and the returned index
-- points right behind them.
pub parse_expr_complete :
    (e : RawSexpr) (rest : List Token) → parse_expr (print e ++ rest) ≡ ok (e, length (print e))
unfolding parse_expr
parse_expr_complete e rest =
    parse_at-reads e _ 0 (print e ++ rest) rest refl (omega (arith, length-append (print e) rest))
    ∙ ok_at refl (omega arith)

-- The element that the loop reads either fails or moves the index on.
element-ne-out_of_fuel :
    (f i : ℕ) (ts : List Token) (items : RawSexprs)
    → parse_at f i ts ≢ err out_of_fuel
    → ((e : RawSexpr) (j : ℕ) → i < j → parse_items f j ts (push items e) ≢ err out_of_fuel)
    → (parse_at f i ts >>= λ r. parse_items f r.1 ts (push items r.0)) ≢ err out_of_fuel
element-ne-out_of_fuel f i ts items no_at no_items = go (parse_at f i ts) refl
  where
    go :
        (r : Result ParseError (RawSexpr × ℕ))
        → parse_at f i ts ≡ r
        → (r >>= λ q. parse_items f q.1 ts (push items q.0)) ≢ err out_of_fuel
    go (err e) p h = no_at (p ∙ h)
    go (ok (e, j)) p h = no_items e j (parse_at_sound f i ts e j p).1 h

items-ne-out_of_fuel :
    (f i : ℕ) (ts : List Token) (items : RawSexprs) (o : Option Token)
    → get_elem? ts i ≡ o
    → (i < length ts
        → (parse_at f i ts >>= λ r. parse_items f r.1 ts (push items r.0)) ≢ err out_of_fuel)
    → parse_items (suc f) i ts items ≢ err out_of_fuel
unfolding parse_at
items-ne-out_of_fuel f i ts items none g more h = cc (rw (g, parse_items) at h)
items-ne-out_of_fuel f i ts items (some Token.rparen) g more h = cc (rw (g, parse_items) at h)
items-ne-out_of_fuel f i ts items (some Token.lparen) g more h =
    more (get_elem?-lt ts i _ g) (rw (g, parse_items) at h)
items-ne-out_of_fuel f i ts items (some (Token.atom a)) g more h =
    more (get_elem?-lt ts i _ g) (rw (g, parse_items) at h)

at-ne-out_of_fuel :
    (f i : ℕ) (ts : List Token) (o : Option Token)
    → get_elem? ts i ≡ o
    → (i < length ts → parse_items f (i + 1) ts nil ≢ err out_of_fuel)
    → parse_at (suc f) i ts ≢ err out_of_fuel
unfolding parse_at
at-ne-out_of_fuel f i ts none g more h = cc (rw (g, parse_at) at h)
at-ne-out_of_fuel f i ts (some Token.rparen) g more h = cc (rw (g, parse_at) at h)
at-ne-out_of_fuel f i ts (some Token.lparen) g more h =
    more (get_elem?-lt ts i _ g) (rw (g, parse_at) at h)
at-ne-out_of_fuel f i ts (some (Token.atom a)) g more h = cc (rw (g, parse_at) at h)

mutual
  parse_at-fuel :
      (f i : ℕ) (ts : List Token)
      → 0 < f
      → 2 * (length ts - i) ≤ f
      → parse_at f i ts ≢ err out_of_fuel
  parse_at-fuel zero i ts pos le = absurd (omega arith)
  parse_at-fuel (suc f) i ts pos le =
      at-ne-out_of_fuel f i ts (get_elem? ts i) refl
        λ lt. parse_items-fuel f (i + 1) ts nil (omega arith)

  parse_items-fuel :
      (f i : ℕ) (ts : List Token) (items : RawSexprs)
      → 2 * (length ts - i) + 1 ≤ f
      → parse_items f i ts items ≢ err out_of_fuel
  parse_items-fuel zero i ts items le = absurd (omega arith)
  parse_items-fuel (suc f) i ts items le =
      items-ne-out_of_fuel f i ts items (get_elem? ts i) refl λ lt.
        element-ne-out_of_fuel f i ts items (parse_at-fuel f i ts (omega arith) (omega arith))
          λ e j ij. parse_items-fuel f j ts (push items e) (omega arith)

-- The parser ends by itself on every list of tokens: it returns an expression or one of the
-- errors of the source.
pub parse_expr-ne-out_of_fuel : (ts : List Token) → parse_expr ts ≢ err out_of_fuel
unfolding parse_expr
parse_expr-ne-out_of_fuel ts = parse_at-fuel _ 0 ts (omega arith) (omega arith)
