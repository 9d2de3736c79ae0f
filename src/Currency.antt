-- ===== src/Currency.antt =====
-- src/db/team.rs: costs and gains of a team's currencies, and the boundaries of staff adjustments.
pub mod Bounds
pub mod Amounts
pub mod Locked
pub mod Calls
use rbph_website_backend.Prelude.{
  Str, Option, none, some, List, ◌∷◌, Bool, true, false, ◌&&◌, ◌||◌, Result, ok, err, ◌>>=◌,
  if◌then◌else◌, ℤ, pos, eqℤ, ltℤ, leℤ, minℤ, maxℤ, ◌+ℤ◌, ◌-ℤ◌, negate, checked_i64, saturate_i64,
}
use rbph_website_backend.Submit.Rows.{
  Currency, TeamCurrency, GameFeature, Event, currency_cost, currency_added, Db, select, update,
}
use rbph_website_backend.Submit.Guards.{Stop, of_team_currency, is_currency_feature, current_amount}
use rbph_website_backend.Submit.Penalties.{penalty_rows}
use rbph_website_backend.Submit.Judging.{log_event}

pub data StrictCurrencyBoundary : Type 0 where
  overflow : StrictCurrencyBoundary
  above_max : StrictCurrencyBoundary
  next : ℤ → StrictCurrencyBoundary

unfoldable pub strict_currency_next : ℤ → ℤ → ℤ → StrictCurrencyBoundary
unfolding checked_i64 ltℤ ◌+ℤ◌
strict_currency_next current max delta = elim (checked_i64 (current +ℤ delta)) [
  | none ↦ overflow
  | some sum ↦ if ltℤ max sum then above_max else next sum
]

pub record CurrencyCostChange : Type 0 where
  pub next_amount : ℤ
  pub delta : ℤ

-- The refusals of `currency_cost_change` on a sum that fits.
unfoldable pub cost_within : ℤ → ℤ → ℤ → ℤ → Option CurrencyCostChange
unfolding ltℤ
cost_within max amount delta next_amount =
    if (ltℤ (pos 0) amount && ltℤ next_amount (pos 0))
      || (ltℤ amount (pos 0) && ltℤ max next_amount)
    then none
    else some (record { next_amount = next_amount; delta = delta })

-- `?` on an `Option`.
abbrev pub and_then : {A B : Type 0} → Option A → (A → Option B) → Option B
and_then none k = none
and_then (some a) k = k a

unfoldable pub currency_cost_change : ℤ → ℤ → ℤ → Option CurrencyCostChange
unfolding checked_i64 cost_within negate ◌+ℤ◌
currency_cost_change current max amount = and_then (checked_i64 (negate amount)) (λ delta.
    and_then (checked_i64 (current +ℤ delta))
      (λ next_amount. cost_within max amount delta next_amount))

-- `CurrencyRuntimeRow`, with what the statements use.
pub record CurrencyRuntimeRow : Type 0 where
  pub id : ℤ
  pub game_id : ℤ
  pub current_amount : ℤ
  pub max_amount : ℤ

-- `lock_currency_runtime_conn`: the join with the currency feature of the game.
unfoldable pub lock_currency_runtime : ℤ → ℤ → ℤ → Db → Result Stop (Option CurrencyRuntimeRow)
unfolding penalty_rows select current_amount eqℤ
lock_currency_runtime now team_id currency_id db = elim (penalty_rows team_id currency_id db) [
  | none ↦ ok none
  | some (tc, c) ↦ elim (select (is_currency_feature c.game_id) db.features) [
    | none ↦ ok none
    | some gf ↦ do
      current ← current_amount now gf c tc
      ok (
          some (record {
            id = c.id;
            game_id = c.game_id;
            current_amount = current;
            max_amount = c.max_amount;
          }))
  ]
]

-- `UPDATE rb_team_currency SET amount = …, utime_at = NOW()`.
unfoldable pub set_amount : ℤ → ℤ → ℤ → ℤ → Db → Db
unfolding update eqℤ
set_amount now team_id currency_id amount db = record db {
  team_currencies =
      update (of_team_currency team_id currency_id)
        (λ row. record row { amount = amount; utime_at = now }) db.team_currencies;
}

unfoldable pub cost_currency_locked : ℤ → ℤ → CurrencyRuntimeRow → ℤ → Db → Db × Bool
unfolding currency_cost_change set_amount log_event
cost_currency_locked now team_id row amount db =
    elim (currency_cost_change row.current_amount row.max_amount amount) [
      | none ↦ (db, false)
      | some change ↦ (
        log_event (currency_cost team_id row.id change.delta row.current_amount change.next_amount)
            (set_amount now team_id row.id change.next_amount db),
        true,
      )
    ]

-- `cost_currency_conn` on the row that was locked, if there is one.
unfoldable pub cost_found : ℤ → ℤ → Option CurrencyRuntimeRow → ℤ → Db → Db × Bool
unfolding cost_currency_locked
cost_found now team_id none amount db = (db, false)
cost_found now team_id (some row) amount db = cost_currency_locked now team_id row amount db

unfoldable pub cost_currency_conn : ℤ → ℤ → ℤ → ℤ → Db → Result Stop (Db × Bool)
unfolding lock_currency_runtime cost_found
cost_currency_conn now team_id currency_id amount db = do
  found ← lock_currency_runtime now team_id currency_id db
  ok (cost_found now team_id found amount db)

-- The amount that a gain stores. `clamp` panics where its bounds cross: none.
unfoldable pub clamp : ℤ → ℤ → ℤ → Option ℤ
unfolding leℤ maxℤ minℤ
clamp low high x = if leℤ low high then some (maxℤ low (minℤ x high)) else none

unfoldable pub stored_amount : ℤ → ℤ → ℤ → Option ℤ
unfolding clamp saturate_i64 minℤ ◌+ℤ◌
stored_amount current max delta = clamp (minℤ current (pos 0)) max (saturate_i64 (current +ℤ delta))

unfoldable pub add_currency_locked : ℤ → ℤ → CurrencyRuntimeRow → ℤ → Db → Option (Db × ℤ)
unfolding stored_amount set_amount log_event ◌-ℤ◌
add_currency_locked now team_id row delta db =
    elim (stored_amount row.current_amount row.max_amount delta) [
      | none ↦ none
      | some stored ↦
          let actual_growth = stored -ℤ row.current_amount in
          some (
            log_event (currency_added team_id row.id actual_growth row.current_amount stored)
                (set_amount now team_id row.id stored db),
            actual_growth,
          )
    ]

-- `add_currency_conn` on the row that was locked, if there is one, and the growth it answers.
unfoldable pub with_growth : Option (Db × ℤ) → Option (Db × Option ℤ)
with_growth none = none
with_growth (some (stored, growth)) = some (stored, some growth)

unfoldable pub add_found : ℤ → ℤ → Option CurrencyRuntimeRow → ℤ → Db → Option (Db × Option ℤ)
unfolding with_growth add_currency_locked
add_found now team_id none delta db = some (db, none)
add_found now team_id (some row) delta db =
    with_growth (add_currency_locked now team_id row delta db)

-- Inside the result, none is the panic of `clamp`.
unfoldable pub add_currency_conn : ℤ → ℤ → ℤ → ℤ → Db → Result Stop (Option (Db × Option ℤ))
unfolding lock_currency_runtime add_found
add_currency_conn now team_id currency_id delta db = do
  found ← lock_currency_runtime now team_id currency_id db
  ok (add_found now team_id found delta db)
