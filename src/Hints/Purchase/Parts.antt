-- ===== src/Hints/Purchase/Parts.antt =====
-- src/db/puzzle.rs: the steps of the transaction of `purchase_hint`, taken apart.
use rbph_website_backend.Prelude.{
  Option, none, some, List, Bool, Result, ok, map_err, >>=-eq-ok, ok-injective, ℤ, ◌-ℤ◌, ◌∷◌,
  within, checked_i64, i64_min, i64_max, ◌≡◌, refl, sym, ap, ◌∙◌, inl, inr, Bool-cases,
  Option-cases,
}
use rbph_website_backend.Submit.Rows.{
  Hint, Team, Trigger, Event, Currency, TeamCurrency, hint_purchased, Db, select, update,
}
use rbph_website_backend.Submit.Guards.{bigint, of_team_currency}
use rbph_website_backend.Submit.Judging.{mark_team_dirty, log_event}
use rbph_website_backend.Hints.Show.{RbHintTeamStateShowData}
use rbph_website_backend.Hints.Offer.{Exit, Purchase, exit_of, is_failed, is_hint, covered}
use rbph_website_backend.Hints.Purchase.{
  HintServices, take, pay, or_insufficient, result_of, upsert_hint, insert_hint_triggers,
  store_hint_triggers, buy,
}

bigint-same : (x y : ℤ) → map_err exit_of (bigint x) ≡ ok y → x ≡ y
unfolding bigint checked_i64
bigint-same x y h = elim (Bool-cases (within i64_min i64_max x)) [
  | inl fits ↦ ok-injective (rw fits at h)
  | inr too_big ↦ cc (rw too_big at h)
]

row-of :
    (found : Option (Currency × ℤ)) (row : Currency × ℤ)
    → or_insufficient found ≡ ok row
    → found ≡ some row
row-of none row h = cc
row-of (some x) row h = ap some (ok-injective h)

-- What `take` has found and written.
pub take-parts :
    (now t currency_id cost : ℤ) (db after : Db) (ids : Option (ℤ × ℤ × ℤ))
    → take now t currency_id cost db ≡ ok (after, ids)
    → (k : Currency) × (before : ℤ) × (covered now t currency_id cost db ≡ ok (some (k, before)))
      × (after ≡ record db {
        team_currencies =
            update
              (of_team_currency t k.id)
              (λ row. record row { utime_at = now; amount = before -ℤ cost })
              db.team_currencies;
      })
unfolding take
take-parts now t currency_id cost db after ids taken =
    let (found, is_found, h₁) = >>=-eq-ok (covered now t currency_id cost db) _ taken in
    let ((k, before), has_row, h₂) = >>=-eq-ok (or_insufficient found) _ h₁ in
    let (left, is_left, h₃) = >>=-eq-ok (map_err exit_of (bigint (before -ℤ cost))) _ h₂ in
    (
      k,
      before,
      is_found ∙ ap (λ x. ok x) (row-of found (k, before) has_row),
      ap (λ x. x.0) (sym (ok-injective h₃))
          ∙ ap
              (λ left. record db {
                team_currencies =
                    update (of_team_currency t k.id)
                      (λ row. record row { utime_at = now; amount = left }) db.team_currencies;
              })
              (sym (bigint-same (before -ℤ cost) left is_left)),
    )

pub pay-take :
    (now t : ℤ) (h : Hint) (db : Db) (currency_id : ℤ)
    → h.cost_id ≡ some currency_id
    → pay now t h db ≡ take now t currency_id h.cost_amount db
unfolding pay
pay-take now t h db currency_id costs = rw (costs, pay) refl

-- What a payment changes of a database.
pub pay-frame :
    (now t : ℤ) (h : Hint) (db after : Db) (ids : Option (ℤ × ℤ × ℤ))
    → pay now t h db ≡ ok (after, ids)
    → (rows : List TeamCurrency) × (after ≡ record db { team_currencies = rows })
unfolding pay
pay-frame now t h db after ids paid = elim (Option-cases h.cost_id) [
  | inl free ↦
      let same : Path (Result Exit (Db × Option (ℤ × ℤ × ℤ))) (ok (db, none)) (ok (after, ids)) =
        sym (rw (free, pay) refl) ∙ paid in
      (db.team_currencies, ap (λ x. x.0) (sym (ok-injective same)))
  | inr (currency_id, costs) ↦
      let (k, before, _, same) =
        take-parts now t currency_id h.cost_amount db after ids
          (sym (pay-take now t h db currency_id costs) ∙ paid) in
      (_, same)
]

store_hint_triggers-frame :
    (t : ℤ) (h : Hint) (db : Db)
    → (rows : List Trigger) × (teams : List Team) × ((store_hint_triggers t h db).0
        ≡ record db { triggers = rows; teams = teams })
unfolding store_hint_triggers mark_team_dirty
store_hint_triggers-frame t h db =
    let (rows, inserted) = insert_hint_triggers t h.puzzle_id h.id h.triggers db.triggers in
    elim (Bool-cases inserted) [
      | inl new ↦ (rows, (mark_team_dirty t db).teams, rw new refl)
      | inr old ↦ (rows, db.teams, rw old refl)
    ]

-- What the transaction has paid and written.
pub buy-parts :
    {B E : Type 0} (services : HintServices B E) (call : Purchase) (t : ℤ) (h : Hint)
    (db bought : Db) (result : RbHintTeamStateShowData) (inserted : Bool)
    → buy services call t h db ≡ ok (bought, result, inserted)
    → (paid : Db) × (ids : Option (ℤ × ℤ × ℤ)) × (pay call.begin_at t h db ≡ ok (paid, ids))
      × (rows : List Trigger) × (teams : List Team) × (log : List Event) × (bought ≡ record paid {
        team_hints = upsert_hint t h.id paid.team_hints;
        triggers = rows;
        teams = teams;
        event_log = log;
      })
unfolding buy log_event
buy-parts services call t h db bought result inserted sold =
    let ((paid, ids), is_paid, h₁) = >>=-eq-ok (pay call.begin_at t h db) _ sold in
    let unlocked = record paid { team_hints = upsert_hint t h.id paid.team_hints } in
    let (answer, _, h₂) = >>=-eq-ok (result_of (select (is_hint h.id) unlocked.hints)) _ h₁ in
    let (_, _, h₃) =
      >>=-eq-ok (map_err is_failed (services.invalidate_team_hints t h.puzzle_id)) _ h₂ in
    let (rows, teams, same) = store_hint_triggers-frame t h unlocked in
    (
      paid,
      ids,
      is_paid,
      rows,
      teams,
      hint_purchased t call.user_id h.id ids ∷ paid.event_log,
      ap (λ x. x.0) (sym (ok-injective h₃))
          ∙ ap
              (λ (d : Db). record d {
                event_log = hint_purchased t call.user_id h.id ids ∷ d.event_log;
              })
              same,
    )
