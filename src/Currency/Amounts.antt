-- ===== src/Currency/Amounts.antt =====
-- src/db/team.rs: one lock, cost or gain keeps an amount between two bounds.
use rbph_website_backend.Prelude.{
  zero, suc, checked_i64, subst, some, true, ◌≡◌, sym, ◌∙◌, inl, inr, Bool-cases, Option-cases, ok,
  >>=-eq-ok, ok-injective, and_split, arith, ℤ, pos, negsuc, eqℤ, leℤ, ltℤ, minℤ, maxℤ, ◌+ℤ◌, diff,
  negate, within, leℤ-refl, leℤ-trans, ltℤ_not,
}
use rbph_website_backend.Submit.Rows.{Currency, TeamCurrency, GameFeature}
use rbph_website_backend.Submit.Guards.{bigint, accrued, current_amount}
use rbph_website_backend.Currency.{CurrencyCostChange, currency_cost_change, stored_amount}
use rbph_website_backend.Currency.Bounds.{
  currency_cost_change-granted, checked_i64-eq, clamp-within, min-le,
}

within-make : (low high x : ℤ) → leℤ low x ≡ true → leℤ x high ≡ true → within low high x ≡ true
unfolding within
within-make low high x h k = ground arith

within-parts :
    (low high x : ℤ) → within low high x ≡ true → (leℤ low x ≡ true) × (leℤ x high ≡ true)
unfolding within
within-parts low high x h = and_split (leℤ low x) (leℤ x high) h

min-within : (low x y : ℤ) → leℤ low x ≡ true → leℤ low y ≡ true → leℤ low (minℤ x y) ≡ true
unfolding minℤ
min-within low x y h k = ground arith

max-above : (x y z : ℤ) → leℤ z x ≡ true → leℤ z (maxℤ x y) ≡ true
unfolding maxℤ
max-above x y z h = ground (arith, leℤ-trans z x y)

max-below : (x y z : ℤ) → leℤ x z ≡ true → leℤ y z ≡ true → leℤ (maxℤ x y) z ≡ true
unfolding maxℤ
max-below x y z h k = ground arith

min-right : (x y : ℤ) → leℤ (minℤ x y) y ≡ true
unfolding minℤ
min-right x y = ground (arith, leℤ-refl y)

bigint-eq : (x y : ℤ) → bigint x ≡ ok y → x ≡ y
unfolding bigint
bigint-eq x y h = elim (Option-cases (checked_i64 x)) [
  | inl p ↦ cc (rw p at h)
  | inr (v, p) ↦ (checked_i64-eq x v p).0 ∙ ok-injective (rw p at h)
]

-- What a team has now, with its growth, stays between the bounds.
pub current_amount-within :
    (low high now current : ℤ) (gf : GameFeature) (c : Currency) (tc : TeamCurrency)
    → leℤ low (pos 0) ≡ true
    → leℤ c.max_amount high ≡ true
    → within low high tc.amount ≡ true
    → current_amount now gf c tc ≡ ok current
    → within low high current ≡ true
unfolding current_amount
current_amount-within low high now current gf c tc below above inside h =
    let (l, r) = within-parts low high tc.amount inside in
    elim (Bool-cases (eqℤ gf.state (pos 1))) [
      | inl grows ↦
          let (grown, _, k) =
            >>=-eq-ok (accrued now c tc)
              (λ x. bigint (maxℤ (minℤ tc.amount (pos 0)) (minℤ x c.max_amount))) (rw grows at h) in
          let least = minℤ tc.amount (pos 0) in
          let most = minℤ grown c.max_amount in
          let same = bigint-eq (maxℤ least most) current k in
          rw (← same) (
            within-make low high (maxℤ least most)
              (max-above least most low (min-within low tc.amount (pos 0) l below))
              (max-below least most high
                (leℤ-trans least tc.amount high (min-le tc.amount (pos 0)) r)
                (leℤ-trans most c.max_amount high (min-right grown c.max_amount) above)))
      | inr still ↦
          let same : tc.amount ≡ current = ok-injective (rw still at h) in rw (← same) inside
    ]

leℤ-take : (x a : ℤ) → leℤ (pos 0) a ≡ true → leℤ (x +ℤ negate a) x ≡ true
unfolding leℤ ◌+ℤ◌ negate diff
leℤ-take (pos x) (pos zero) h = ground arith
leℤ-take (pos x) (pos (suc a)) h = ground arith
leℤ-take (negsuc x) (pos zero) h = ground arith
leℤ-take (negsuc x) (pos (suc a)) h = ground arith
leℤ-take x (negsuc a) h = cc

leℤ-give : (x a : ℤ) → leℤ a (pos 0) ≡ true → leℤ x (x +ℤ negate a) ≡ true
unfolding leℤ ◌+ℤ◌ negate diff
leℤ-give (pos x) (pos zero) h = ground arith
leℤ-give (pos x) (pos (suc a)) h = ground arith
leℤ-give (negsuc x) (pos zero) h = ground arith
leℤ-give (negsuc x) (pos (suc a)) h = ground arith
leℤ-give (pos x) (negsuc a) h = ground arith
leℤ-give (negsuc x) (negsuc a) h = ground arith

-- A cost that is granted keeps the amount between the bounds, also where it is a debt.
pub granted-within :
    (low high c m a : ℤ) (change : CurrencyCostChange)
    → leℤ low (pos 0) ≡ true
    → leℤ m high ≡ true
    → within low high c ≡ true
    → currency_cost_change c m a ≡ some change
    → within low high change.next_amount ≡ true
granted-within low high c m a change below above inside h =
    let next = change.next_amount in
    let (l, r) = within-parts low high c inside in
    let (taken, _, no_debt, no_excess) = currency_cost_change-granted c m a change h in
    let lower : leℤ low next ≡ true = elim (Bool-cases (ltℤ (pos 0) a)) [
      | inl p ↦ leℤ-trans low (pos 0) next below (ltℤ_not next (pos 0) (rw p at no_debt))
      | inr p ↦
          leℤ-trans low c next l
            (subst (λ x. leℤ c x ≡ true) (sym taken) (leℤ-give c a (ltℤ_not (pos 0) a p)))
    ] in
    let upper : leℤ next high ≡ true = elim (Bool-cases (ltℤ a (pos 0))) [
      | inl p ↦ leℤ-trans next m high (ltℤ_not m next (rw p at no_excess)) above
      | inr p ↦
          leℤ-trans next c high
            (subst (λ x. leℤ x c ≡ true) (sym taken) (leℤ-take c a (ltℤ_not a (pos 0) p))) r
    ] in
    within-make low high next lower upper

pub stored-within :
    (low high c m d s : ℤ)
    → leℤ low (pos 0) ≡ true
    → leℤ m high ≡ true
    → within low high c ≡ true
    → stored_amount c m d ≡ some s
    → within low high s ≡ true
unfolding stored_amount
stored-within low high c m d s below above inside h =
    let (l, _) = within-parts low high c inside in
    let (at_least, at_most) = clamp-within (minℤ c (pos 0)) m _ s h in
    within-make low high s
      (leℤ-trans low (minℤ c (pos 0)) s (min-within low c (pos 0) l below) at_least)
      (leℤ-trans s m high at_most above)
