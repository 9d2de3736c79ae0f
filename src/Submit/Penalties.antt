-- ===== src/Submit/Penalties.antt =====
-- src/db/puzzle.rs: the arm of `Fail`: currency penalties and cooldowns.
use rbph_website_backend.Prelude.{
  codes, Option, none, some, List, [], ◌∷◌, ◌++◌, true, Result, ok, err, ◌>>=◌, if◌then◌else◌, ℤ,
  pos, eqℤ, minℤ, ◌+ℤ◌, ◌-ℤ◌, ◌*ℤ◌, negate, saturate_i64, within, i32_min, i32_max, i64_min,
}
use rbph_website_backend.Model.Game.{RbPuzzlePenaltyType, fixed_time, linear_time, currency}
use rbph_website_backend.Judge.{json, sql}
use rbph_website_backend.Submit.Rows.{
  PenaltyRule, Currency, TeamCurrency, CurrencyPenaltyShowData, currency_penalty, Db, select,
  update,
}
use rbph_website_backend.Submit.Guards.{
  Stop, failed, or_fail, bigint, has_id, of_team_puzzle, failures, accrued, of_team_currency,
}
use rbph_website_backend.Submit.Judging.{log_event}
use rbph_website_backend.Submit.Context.{Ctx, Locals}

-- `-amount` on an `i64` of a release build.
abbrev wrapping_neg : ℤ → ℤ
wrapping_neg x = if eqℤ x i64_min then i64_min else negate x

-- The rows of the penalty's query: `rb_team_currency` joined with `rb_currency`.
unfoldable pub penalty_rows : ℤ → ℤ → Db → Option (TeamCurrency × Currency)
unfolding select eqℤ
penalty_rows team_id currency_id db =
    elim (select (of_team_currency team_id currency_id) db.team_currencies) [
      | none ↦ none
      | some tc ↦ elim (select (λ k. eqℤ k.id currency_id) db.currencies) [
        | none ↦ none
        | some k ↦ some (tc, k)
      ]
    ]

-- The statement of a currency penalty and its event.
unfoldable pub charge_rows :
    Ctx → ℤ → Locals → Db → Option (TeamCurrency × Currency) → Result Stop (Db × Locals)
unfolding update accrued bigint minℤ log_event eqℤ ◌-ℤ◌ negate
charge_rows c amount locals db none = ok (db, locals)
charge_rows c amount locals db (some (tc, k)) = do
  grown ← accrued c.now k tc
  before ← bigint (minℤ grown k.max_amount)
  after ← bigint (before -ℤ amount)
  let penalty : CurrencyPenaltyShowData = record {
    currency_id = k.id;
    name = k.cname;
    prec = k.prec;
    amount = amount;
  }
  let charged = record db {
    team_currencies =
        update (of_team_currency c.team_id k.id)
          (λ row. record row { utime_at = c.now; amount = after }) db.team_currencies;
  }
  ok (
    log_event (currency_penalty k.id c.submit_id (wrapping_neg amount) before after) charged,
    record locals { currency_updated = true; penalties = locals.penalties ++ penalty ∷ [] },
  )

unfoldable pub charge : Ctx → ℤ → ℤ → Locals → Db → Result Stop (Db × Locals)
unfolding penalty_rows charge_rows
charge c currency_id amount locals db =
    charge_rows c amount locals db (penalty_rows c.team_id currency_id db)

-- One penalty rule, by its type and its arguments.
unfoldable pub apply_penalty :
    Ctx → ℤ → RbPuzzlePenaltyType → List ℤ → Locals → Db → Result Stop (Db × Locals)
unfolding charge saturate_i64 within ◌*ℤ◌
apply_penalty c failure_count fixed_time (x ∷ _) locals db =
    ok (db, record locals { cooldown_seconds = some x })
apply_penalty c failure_count linear_time (x ∷ _) locals db =
    ok (db, record locals { cooldown_seconds = some (saturate_i64 (x *ℤ failure_count)) })
apply_penalty c failure_count currency (currency_id ∷ amount ∷ _) locals db =
    if within i32_min i32_max currency_id
    then charge c currency_id amount locals db
    else ok (db, locals)
apply_penalty c failure_count _ _ locals db = ok (db, locals)

unfoldable pub apply_penalties :
    Ctx → ℤ → List PenaltyRule → Locals → Db → Result Stop (Db × Locals)
unfolding apply_penalty
apply_penalties c failure_count [] locals db = ok (db, locals)
apply_penalties c failure_count (rule ∷ rules) locals db = do
  (db', locals') ← apply_penalty c failure_count rule.rtype rule.args locals db
  apply_penalties c failure_count rules locals' db'

-- `UPDATE rb_team_puzzle SET cooldown_till = … RETURNING cooldown_till`, where some rule set one.
unfoldable pub set_cooldown : Ctx → Option ℤ → Locals → Db → Result Stop (Db × Locals)
unfolding update select eqℤ ◌+ℤ◌ ◌*ℤ◌
set_cooldown c none locals db = ok (db, locals)
set_cooldown c (some time) locals db = do
  _ ←
      or_fail (sql (codes "RowNotFound"))
        (select (of_team_puzzle c.team_id c.puzzle_id) db.team_puzzles)
  let till = some (c.now +ℤ time *ℤ pos 1000000)
  ok (
    record db {
      team_puzzles =
          update (of_team_puzzle c.team_id c.puzzle_id) (λ tp. record tp { cooldown_till = till })
            db.team_puzzles;
    },
    record locals { cooldown_till = till },
  )

-- The arm of `Fail`.
unfoldable pub on_fail : Ctx → Locals → Db → Result Stop (Db × Locals)
unfolding select failures apply_penalties set_cooldown eqℤ
on_fail c locals db = do
  p ← or_fail (sql (codes "RowNotFound")) (select (has_id c.puzzle_id) db.puzzles)
  let failure_count = pos (failures c.team_id c.puzzle_id db)
  rules ← elim p.penalty [ err message ↦ err (failed (json message)) | ok rules ↦ ok rules ]
  (db', locals') ← apply_penalties c failure_count rules locals db
  set_cooldown c locals'.cooldown_seconds locals' db'
