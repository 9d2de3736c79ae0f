-- ===== src/Hints/Purchase.antt =====
-- src/db/puzzle.rs: `purchase_hint`, behind the offer: the backend, the transaction and the unlocks.
pub mod Parts
pub mod Sales
pub mod Once
pub mod Debt
use rbph_website_backend.Prelude.{
  Str, codes, Option, none, some, List, [], ◌∷◌, Bool, true, false, not, ◌&&◌, ◌||◌, Result, ok,
  err, ◌>>=◌, map_err, any, if◌then◌else◌, str_eq, ℤ, pos, eqℤ, leℤ, minℤ, ◌-ℤ◌, ◌*ℤ◌,
}
use rbph_website_backend.Judge.{RbInternalError, sql, other}
use rbph_website_backend.Submit.Rows.{
  Team, Member, Puzzle, Round, Hint, TeamHint, Trigger, Currency, TeamCurrency, hint_purchased, Db,
  select, update,
}
use rbph_website_backend.Submit.Guards.{
  Stop, returned, failed, bigint, accrued, is_team, has_id, of_team_currency,
}
use rbph_website_backend.Submit.Judging.{mark_team_dirty, log_event, same_trigger}
use rbph_website_backend.Submit.Context.{is_some}
use rbph_website_backend.Submit.Penalties.{penalty_rows}
use rbph_website_backend.Unlock.{unlock_new_puzzles}
use rbph_website_backend.Unlock.States.{team_gate_state}
use rbph_website_backend.Hints.{
  hint_purchase_available, of_team_hint, is_purchased, accessible_from, is_enabled, cooldown_start,
}
use rbph_website_backend.Hints.Refresh.{refresh_team_hint_states}
use rbph_website_backend.Hints.Offer.{
  Purchase, Exit, is_insufficient, is_unavailable, is_failed, exit_of, is_hint, target, covered,
  offer,
}
use rbph_website_backend.Hints.Show.{RbHintTeamStateShowData, content_of}

-- What the handler calls of the puzzle's backend, `B` with its events `E`, and of the cache. The
-- function runs for a team and a hint, with the row of the currency and its amount.
pub record HintServices (B E : Type 0) : Type 0 where
  pub get_backend : Db → ℤ → Result RbInternalError (Option B)
  pub enabled : B → Bool
  pub export_enabled : B → Str → Bool
  pub execute_hint_purchase :
      Db → B → Str → ℤ → Hint → Option (Currency × ℤ) → Db × Result RbInternalError (List E)
  pub invalidate_team_hints : ℤ → ℤ → Result RbInternalError Bool

pub data PurchaseHintResult (E : Type 0) : Type 0 where
  insufficient : PurchaseHintResult E
  unavailable : PurchaseHintResult E
  purchased :
      (result : RbHintTeamStateShowData) (unlocks : List ℤ) (content_changed : Bool)
      (backend_events : List E)
      → PurchaseHintResult E

-- `let Some(currency) = … else { return Ok(PurchaseHintResult::Insufficient) }`.
abbrev pub or_insufficient : Option (Currency × ℤ) → Result Exit (Currency × ℤ)
or_insufficient none = err is_insufficient
or_insufficient (some row) = ok row

-- The hint's row in the answer.
abbrev pub result_of : Option Hint → Result Exit RbHintTeamStateShowData
result_of none = err (is_failed (sql (codes "RowNotFound")))
result_of (some row) = ok (content_of row)

-- The statement on the row of the currency, with the amounts of its event.
unfoldable pub take : ℤ → ℤ → ℤ → ℤ → Db → Result Exit (Db × Option (ℤ × ℤ × ℤ))
unfolding covered update bigint eqℤ ◌-ℤ◌
take now t currency_id cost db = do
  found ← covered now t currency_id cost db
  (k, before) ← or_insufficient found
  after ← map_err exit_of (bigint (before -ℤ cost))
  ok (
    record db {
      team_currencies =
          update (of_team_currency t k.id) (λ row. record row { utime_at = now; amount = after })
            db.team_currencies;
    },
    some (k.id, before, after),
  )

-- The cost, in the transaction.
unfoldable pub pay : ℤ → ℤ → Hint → Db → Result Exit (Db × Option (ℤ × ℤ × ℤ))
unfolding take
pay now t h db = elim h.cost_id [
  | none ↦ ok (db, none)
  | some currency_id ↦ take now t currency_id h.cost_amount db
]

-- `INSERT INTO rb_team_hint … ON CONFLICT (team_id, hint_id) DO UPDATE SET unlocked = TRUE`.
unfoldable pub upsert_hint : ℤ → ℤ → List TeamHint → List TeamHint
unfolding update eqℤ
upsert_hint t h rows =
    if any (of_team_hint t h) rows
    then update (of_team_hint t h) (λ row. record row { unlocked = true }) rows
    else record { team_id = t; hint_id = h; unlocked = true } ∷ rows

-- `INSERT INTO rb_team_puzzle_trigger … ON CONFLICT DO NOTHING`, of a hint.
unfoldable pub insert_hint_triggers : ℤ → ℤ → ℤ → List Str → List Trigger → List Trigger × Bool
unfolding eqℤ
insert_hint_triggers t puzzle_id hint_id [] rows = (rows, false)
insert_hint_triggers t puzzle_id hint_id (key ∷ keys) rows =
    let row : Trigger = record {
      team_id = t;
      puzzle_id = puzzle_id;
      trigger_key = key;
      source_submission_id = none;
      source_hint_id = some hint_id;
    } in
    let taken = any (same_trigger row) rows in
    let (stored, inserted) =
      insert_hint_triggers t puzzle_id hint_id keys (if taken then rows else row ∷ rows) in
    (stored, not taken || inserted)

unfoldable pub store_hint_triggers : ℤ → Hint → Db → Db × Bool
unfolding insert_hint_triggers mark_team_dirty
store_hint_triggers t h db =
    let (rows, inserted) = insert_hint_triggers t h.puzzle_id h.id h.triggers db.triggers in
    let stored = record db { triggers = rows } in
    (if inserted then mark_team_dirty t stored else stored, inserted)

module _ {B E : Type 0} (services : HintServices B E) where
  -- The call of the backend's function, where the hint has one.
  unfoldable pub run_backend :
      ℤ → Hint → Option (Currency × ℤ) → Db → Db × Result RbInternalError (List E)
  run_backend t h currency db = elim h.backend_function [
    | none ↦ (db, ok [])
    | some name ↦ elim (services.get_backend db h.puzzle_id) [
      | err e ↦ (db, err e)
      | ok none ↦ (db, err (other (codes "hint backend function not found")))
      | ok (some backend) ↦
          if not (services.enabled backend) || not (services.export_enabled backend name)
          then (db, err (other (codes "hint backend function not callable")))
          else services.execute_hint_purchase db backend name t h currency
    ]
  ]

  -- From `begin` to `commit`.
  unfoldable pub buy : Purchase → ℤ → Hint → Db → Result Exit (Db × RbHintTeamStateShowData × Bool)
  unfolding pay upsert_hint select store_hint_triggers log_event eqℤ
  buy call t h db = do
    (paid, currency) ← pay call.begin_at t h db
    let unlocked = record paid { team_hints = upsert_hint t h.id paid.team_hints }
    result ← result_of (select (is_hint h.id) unlocked.hints)
    let (stored, inserted) = store_hint_triggers t h unlocked
    let logged = log_event (hint_purchased t call.user_id h.id currency) stored
    _ ← map_err is_failed (services.invalidate_team_hints t h.puzzle_id)
    ok (logged, result, inserted)

  -- What ends the handler.
  abbrev pub answer : Exit → Result RbInternalError (PurchaseHintResult E)
  answer is_insufficient = ok insufficient
  answer is_unavailable = ok unavailable
  answer (is_failed e) = err e

  -- What follows the commit.
  unfoldable pub after_purchase :
      Purchase
      → ℤ
      → Db
      → RbHintTeamStateShowData
      → Bool
      → List E
      → Db × Result RbInternalError (PurchaseHintResult E)
  unfolding unlock_new_puzzles refresh_team_hint_states
  after_purchase call t db result false events = (db, ok (purchased result [] false events))
  after_purchase call t db result true events =
      let (opened, unlocks) = unlock_new_puzzles call.unlock_at db t in
      elim unlocks [
        | err e ↦ (opened, err e)
        | ok ids ↦ (
          refresh_team_hint_states call.unlock_at opened t none,
          ok (purchased result ids true events),
        )
      ]

  -- From the refresh of the hint on.
  unfoldable pub purchase_refreshed :
      Purchase → Db → Db × Result RbInternalError (PurchaseHintResult E)
  unfolding offer run_backend buy after_purchase
  purchase_refreshed call db = elim (offer call db) [
    | err exit ↦ (db, answer exit)
    | ok (t, h, currency) ↦
        let (ran, events) = run_backend t h currency db in
        elim events [
          | err e ↦ (ran, err e)
          | ok list ↦ elim (buy call t h ran) [
            | err exit ↦ (ran, answer exit)
            | ok (bought, result, inserted) ↦ after_purchase call t bought result inserted list
          ]
        ]
  ]

  unfoldable pub purchase_hint : Purchase → Db → Db × Result RbInternalError (PurchaseHintResult E)
  unfolding target refresh_team_hint_states purchase_refreshed
  purchase_hint call db = elim (target call.user_id call.hint_id db) [
    | none ↦ (db, ok unavailable)
    | some (t, puzzle_id) ↦
        purchase_refreshed call (refresh_team_hint_states call.refresh_at db t (some puzzle_id))
  ]
