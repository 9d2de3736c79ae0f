-- ===== src/Expr/Parser/Print.antt =====
-- The tokens of an S-expression: the specification of the parser.
use rbph_website_backend.Prelude.{List, [], ◌∷◌, ◌++◌, ◌≡◌, refl}
use rbph_website_backend.Expr.Tokenizer.{Token}
use rbph_website_backend.Expr.Parser.{RawSexpr, RawSexprs, atom, list, nil, cons, push}

unfoldable mutual
  pub print : RawSexpr → List Token
  print (atom a) = Token.atom a ∷ []
  print (list xs) = Token.lparen ∷ (print_items xs ++ Token.rparen ∷ [])

  pub print_items : RawSexprs → List Token
  print_items nil = []
  print_items (cons x xs) = print x ++ print_items xs

-- Appending, and what it does to tokens.
unfoldable pub append_items : RawSexprs → RawSexprs → RawSexprs
append_items nil ys = ys
append_items (cons x xs) ys = cons x (append_items xs ys)

pub append_items-push :
    (xs : RawSexprs) (e : RawSexpr) (ys : RawSexprs)
    → append_items (push xs e) ys ≡ append_items xs (cons e ys)
unfolding append_items push
append_items-push nil e ys = refl
append_items-push (cons x xs) e ys = cc (append_items-push xs e ys)

pub append_items-nil : (xs : RawSexprs) → append_items xs nil ≡ xs
unfolding append_items
append_items-nil nil = refl
append_items-nil (cons x xs) = cc (append_items-nil xs)
