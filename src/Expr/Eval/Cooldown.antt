-- ===== src/Expr/Eval/Cooldown.antt =====
-- What `hint_display_uses_cooldown` promises.
use rbph_website_backend.Prelude.{◌≡◌, refl, ap, arith, Bool, true, false, ◌||◌, ◌&&◌}
use rbph_website_backend.Prelude
use rbph_website_backend.Expr.Ast.{PuzzleStates, HintDisplayExpr, HintDisplayExprs}
use rbph_website_backend.Expr.Eval.{
  eval_hint_display_compiled, eval_hint_all, eval_hint_any, hint_display_uses_cooldown,
  any_uses_cooldown,
}

or_false : (a b : Bool) → (a || b) ≡ false → (a ≡ false) × (b ≡ false)
or_false a b h = ground arith

module _ (state : PuzzleStates) (enabled c d : Bool) where
  mutual
    unfolding eval_hint_display_compiled hint_display_uses_cooldown

    same_display :
        (e : HintDisplayExpr)
        → hint_display_uses_cooldown e ≡ false
        → eval_hint_display_compiled state e enabled c
          ≡ eval_hint_display_compiled state e enabled d
    same_display (HintDisplayExpr.gate g) h = refl
    same_display (HintDisplayExpr.and xs) h = same_all xs h
    same_display (HintDisplayExpr.or xs) h = same_any xs h
    same_display (HintDisplayExpr.not x) h = ap Prelude.not (same_display x h)
    same_display HintDisplayExpr.hint_enabled h = refl
    same_display HintDisplayExpr.hint_cooled_down h = cc

    same_all :
        (xs : HintDisplayExprs)
        → any_uses_cooldown xs ≡ false
        → eval_hint_all state xs enabled c ≡ eval_hint_all state xs enabled d
    same_all HintDisplayExprs.nil h = refl
    same_all (HintDisplayExprs.cons x xs) h =
        let (hx, hs) = or_false _ _ h in rw (same_display x hx, same_all xs hs)

    same_any :
        (xs : HintDisplayExprs)
        → any_uses_cooldown xs ≡ false
        → eval_hint_any state xs enabled c ≡ eval_hint_any state xs enabled d
    same_any HintDisplayExprs.nil h = refl
    same_any (HintDisplayExprs.cons x xs) h =
        let (hx, hs) = or_false _ _ h in rw (same_display x hx, same_any xs hs)

-- A display condition that `hint_display_uses_cooldown` reports as free of the cooldown has one
-- value, whether or not the hint has cooled down.
pub eval_hint_display-uses_cooldown :
    (state : PuzzleStates) (e : HintDisplayExpr) (enabled c d : Bool)
    → hint_display_uses_cooldown e ≡ false
    → eval_hint_display_compiled state e enabled c ≡ eval_hint_display_compiled state e enabled d
eval_hint_display-uses_cooldown state e enabled c d = same_display state enabled c d e
