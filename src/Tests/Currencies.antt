-- ===== src/Tests/Currencies.antt =====
-- Costs, gains and roles on concrete inputs.
use rbph_website_backend.Prelude.{
  List, [], ◌∷◌, map, some, true, false, not, ◌&&◌, ◌||◌, ◌≡◌, refl, ℤ, pos, negsuc, leℤ, negate,
  within, i64_min, i64_max,
}
use rbph_website_backend.Currency.{CurrencyCostChange, currency_cost_change, stored_amount}
use rbph_website_backend.Submit.Rows.{Db}
use rbph_website_backend.Tests.Fixtures.{db, coins, purse}
use rbph_website_backend.Currency.Calls.{
  Call, cost_call, add_call, run, AllWithin, CoversMaxima, run-AllWithin,
}
use rbph_website_backend.Currency.Bounds.{currency_cost_change-refund, stored_amount-gain}
use rbph_website_backend.Model.User.{
  moderator, user, admin, root, is_root, is_admin, role_eq, can_change_role,
}
use rbph_website_backend.Model.Roles.{can_change_role-protected}

abbrev change : CurrencyCostChange
change = record { next_amount = pos 3; delta = negsuc 6 }

granted : currency_cost_change (pos 10) (pos 20) (pos 7) ≡ some change
unfolding currency_cost_change
granted = refl

-- A team with a debt of three.
abbrev indebted : Db
indebted = record db { team_currencies = record purse { amount = negsuc 2 } ∷ [] }

abbrev lowest : ℤ → ℤ → ℤ
lowest team_id currency_id = negsuc 2

abbrev highest : ℤ → ℤ → ℤ
highest team_id currency_id = coins.max_amount

abbrev calls : List Call
calls =
    cost_call (pos 5) (pos 7) (pos 9) (pos 1)
    ∷ cost_call (pos 5) (pos 7) (pos 9) (pos 0)
    ∷ add_call (pos 6) (pos 7) (pos 9) (pos 8)
    ∷ cost_call (pos 7) (pos 7) (pos 9) (pos 4)
    ∷ []

amount_after : map (λ tc. tc.amount) (run calls indebted).team_currencies ≡ pos 1 ∷ []
unfolding run
amount_after = refl

lowest_below : (t k : ℤ) → leℤ (lowest t k) (pos 0) ≡ true
unfolding leℤ
lowest_below t k = refl

highest_covers : CoversMaxima highest indebted
unfolding leℤ
highest_covers t = refl

indebted_within : AllWithin lowest highest indebted
unfolding within
indebted_within = refl

run-AllWithin_example : AllWithin lowest highest (run calls indebted)
run-AllWithin_example =
    run-AllWithin lowest highest lowest_below calls indebted highest_covers indebted_within

in_range : (within i64_min i64_max (pos 10) ≡ true) × (within i64_min i64_max (pos 7) ≡ true)
unfolding within
in_range = (refl, refl)

ordered :
    (leℤ (pos 0) (pos 10) ≡ true)
    × (leℤ (pos 10) (pos 20) ≡ true)
    × (leℤ (pos 10) i64_max ≡ true)
    × (leℤ (pos 0) (pos 30) ≡ true)
unfolding leℤ
ordered = (refl, refl, refl, refl)

currency_cost_change-refund_example :
    currency_cost_change (pos 3) (pos 20) (negate (pos 7))
    ≡ some (record { next_amount = pos 10; delta = pos 7 })
currency_cost_change-refund_example =
    currency_cost_change-refund (pos 10) (pos 20) (pos 7) change in_range.0 in_range.1 ordered.0
      ordered.1 granted

stored_amount-gain_example :
    (s : ℤ) × (stored_amount (pos 10) (pos 20) (pos 30) ≡ some s)
    × (leℤ (pos 10) s ≡ true)
    × (leℤ s (pos 20) ≡ true)
stored_amount-gain_example =
    stored_amount-gain (pos 10) (pos 20) (pos 30) ordered.2 ordered.1 ordered.3

may_change : can_change_role admin (some user) moderator ≡ true
unfolding can_change_role
may_change = refl

roles_differ : role_eq user moderator ≡ false
unfolding role_eq
roles_differ = refl

can_change_role-protected_example :
    (role_eq user root ≡ false)
    × (role_eq moderator root ≡ false)
    × (is_root admin || (not (is_admin user) && not (is_admin moderator)) ≡ true)
can_change_role-protected_example =
    can_change_role-protected admin user moderator may_change roles_differ
