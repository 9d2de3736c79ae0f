-- ===== src/Hints/Offer.antt =====
-- src/db/puzzle.rs: the part of `purchase_hint` before the backend and the transaction: whose hint it
-- is, whether it is for sale, and whether the team can pay. Each query has its own time.
pub mod Granted
use rbph_website_backend.Prelude.{
  Str, codes, Option, none, some, List, [], ◌∷◌, Bool, true, false, not, ◌&&◌, ◌||◌, Result, ok,
  err, ◌>>=◌, map_err, any, if◌then◌else◌, str_eq, ℤ, pos, eqℤ, leℤ, minℤ, ◌-ℤ◌, ◌*ℤ◌,
}
use rbph_website_backend.Judge.{RbInternalError, sql, other}
use rbph_website_backend.Submit.Rows.{
  Team, Member, Puzzle, Round, Hint, TeamHint, Trigger, Currency, TeamCurrency, hint_purchased, Db,
  select, update,
}
use rbph_website_backend.Submit.Guards.{
  Stop, returned, failed, bigint, accrued, is_team, has_id, of_team_currency,
}
use rbph_website_backend.Submit.Judging.{mark_team_dirty, log_event, same_trigger}
use rbph_website_backend.Submit.Context.{is_some}
use rbph_website_backend.Submit.Penalties.{penalty_rows}
use rbph_website_backend.Unlock.{unlock_new_puzzles}
use rbph_website_backend.Unlock.States.{team_gate_state}
use rbph_website_backend.Hints.{
  hint_purchase_available, of_team_hint, is_purchased, accessible_from, is_enabled, cooldown_start,
}
use rbph_website_backend.Hints.Refresh.{refresh_team_hint_states}

-- The user's call, with the times of its queries.
pub record Purchase : Type 0 where
  pub user_id : ℤ
  pub hint_id : ℤ
  pub refresh_at : ℤ
  pub read_at : ℤ
  pub check_at : ℤ
  pub begin_at : ℤ
  pub unlock_at : ℤ

-- How a step ends the handler early.
pub data Exit : Type 0 where
  is_insufficient : Exit
  is_unavailable : Exit
  is_failed : RbInternalError → Exit

-- The statements on amounts only fail.
abbrev pub exit_of : Stop → Exit
exit_of (returned refusal) = is_unavailable
exit_of (failed e) = is_failed e

-- The team of the user in the game of the hint.
abbrev pub is_member : ℤ → ℤ → Member → Bool
is_member user_id game_id m = eqℤ m.user_id user_id && eqℤ m.game_id game_id

abbrev pub is_hint : ℤ → Hint → Bool
is_hint hint_id h = eqℤ h.id hint_id

unfoldable pub target : ℤ → ℤ → Db → Option (ℤ × ℤ)
unfolding select eqℤ
target user_id hint_id db = elim (select (is_hint hint_id) db.hints) [
  | none ↦ none
  | some h ↦ elim (select (has_id h.puzzle_id) db.puzzles) [
    | none ↦ none
    | some p ↦ elim (select (is_member user_id p.game_id) db.members) [
      | none ↦ none
      | some m ↦ some (m.team_id, h.puzzle_id)
    ]
  ]
]

-- `cooldown_start <= NOW() - cooldown`.
abbrev pub has_cooled : ℤ → ℤ → Option ℤ → Bool
has_cooled now cooldown none = false
has_cooled now cooldown (some start) = leℤ start (now -ℤ cooldown *ℤ pos 1000000)

-- The `WHERE` of the query of `info`.
unfoldable pub is_for_sale : ℤ → ℤ → Hint → Db → Bool
unfolding accessible_from is_purchased is_enabled cooldown_start leℤ ◌-ℤ◌ ◌*ℤ◌
is_for_sale now t h db = elim (accessible_from now t h db) [
  | none ↦ false
  | some from ↦
      not (is_purchased t h.id db)
      && is_enabled t h db
      && has_cooled now h.cooldown (cooldown_start t h from db)
]

-- The joins of the query of `info` but for the team: the member's team and the hint.
unfoldable pub owner : ℤ → ℤ → Db → Option (ℤ × Hint)
unfolding select eqℤ
owner user_id hint_id db = elim (select (is_hint hint_id) db.hints) [
  | none ↦ none
  | some h ↦ elim (select (has_id h.puzzle_id) db.puzzles) [
    | none ↦ none
    | some p ↦ elim (select (λ r. eqℤ r.id p.round_id) db.rounds) [
      | none ↦ none
      | some r ↦ elim (select (is_member user_id r.game_id) db.members) [
        | none ↦ none
        | some m ↦ some (m.team_id, h)
      ]
    ]
  ]
]

-- The row of `info`.
unfoldable pub info : ℤ → ℤ → ℤ → Db → Option (ℤ × Hint)
unfolding owner select is_for_sale eqℤ
info now user_id hint_id db = elim (owner user_id hint_id db) [
  | none ↦ none
  | some (t, h) ↦
      if is_some (select (is_team t) db.teams) && is_for_sale now t h db then some (t, h) else none
]

-- The row that has the amount, with the amount; none where a cost is not covered.
unfoldable pub covered : ℤ → ℤ → ℤ → ℤ → Db → Result Exit (Option (Currency × ℤ))
unfolding penalty_rows accrued bigint minℤ leℤ
covered now t currency_id cost db = elim (penalty_rows t currency_id db) [
  | none ↦ ok none
  | some (tc, k) ↦ do
    grown ← map_err exit_of (accrued now k tc)
    amount ← map_err exit_of (bigint (minℤ grown k.max_amount))
    ok (if leℤ cost (pos 0) || leℤ cost amount then some (k, amount) else none)
]

-- The check before the backend runs: none where the hint costs nothing.
unfoldable pub precheck : ℤ → ℤ → Hint → Db → Result Exit (Option (Currency × ℤ))
unfolding covered
precheck now t h db = elim h.cost_id [
  | none ↦ ok none
  | some currency_id ↦ do
    found ← covered now t currency_id h.cost_amount db
    elim found [ none ↦ err is_insufficient | some row ↦ ok (some row) ]
]

-- The hint that is sold, and the row of its cost.
unfoldable pub offer : Purchase → Db → Result Exit (ℤ × Hint × Option (Currency × ℤ))
unfolding info team_gate_state hint_purchase_available precheck
offer call db = elim (info call.read_at call.user_id call.hint_id db) [
  | none ↦ err is_unavailable
  | some (t, h) ↦ elim (team_gate_state t db) [
    | none ↦ err is_unavailable
    | some state ↦
        if hint_purchase_available h.display_condition state true true
        then (do currency ← precheck call.check_at t h db; ok (t, h, currency))
        else err is_unavailable
  ]
]
