-- ===== src/Submit/Guards.antt =====
-- src/db/puzzle.rs: what `submit_answer` asks before it takes an answer.
use rbph_website_backend.Prelude.{
  ℕ, codes, Option, none, some, List, [], ◌∷◌, Bool, true, false, not, ◌&&◌, Result, ok, err, ◌>>=◌,
  if◌then◌else◌, ℤ, pos, eqℤ, leℤ, ltℤ, minℤ, maxℤ, ◌+ℤ◌, ◌-ℤ◌, ◌*ℤ◌, floor_div, checked_i64,
  within, i32_max, i32_min,
}
use rbph_website_backend.Judge.{RbInternalError, sql}
use rbph_website_backend.Submit.Rows.{
  PuzzleSubmitRequirement, Team, Puzzle, TeamPuzzle, Submission, Currency, TeamCurrency,
  GameFeature, Db, select, count,
}

-- The answers of `submit_answer` that undo the transaction.
pub data Refusal : Type 0 where
  locked : Refusal
  duplicate : Refusal
  invalid : Refusal
  not_found : Refusal

-- How the handler ends early: by `return Ok(…)` or by `?`.
pub data Stop : Type 0 where
  returned : Refusal → Stop
  failed : RbInternalError → Stop

abbrev pub or_fail : {A : Type 0} → RbInternalError → Option A → Result Stop A
or_fail e none = err (failed e)
or_fail e (some a) = ok a

-- A number that SQL casts or adds up to a BIGINT or an INT.
unfoldable pub bigint : ℤ → Result Stop ℤ
unfolding checked_i64
bigint x = or_fail (sql (codes "bigint out of range")) (checked_i64 x)

unfoldable pub int4 : ℤ → Result Stop ℤ
unfolding within
int4 x =
    if within i32_min i32_max x then ok x else err (failed (sql (codes "integer out of range")))

-- The keys of the rows.
abbrev pub has_id : ℤ → Puzzle → Bool
has_id puzzle_id p = eqℤ p.id puzzle_id

abbrev pub is_team : ℤ → Team → Bool
is_team team_id t = eqℤ t.id team_id

abbrev pub of_team_puzzle : ℤ → ℤ → TeamPuzzle → Bool
of_team_puzzle team_id puzzle_id tp = eqℤ tp.team_id team_id && eqℤ tp.puzzle_id puzzle_id

-- The submissions that count against the limit.
abbrev pub is_failure : ℤ → ℤ → Submission → Bool
is_failure team_id puzzle_id s =
    eqℤ s.team_id team_id && eqℤ s.puzzle_id puzzle_id && eqℤ s.saction (pos 0) && not s.ignored

unfoldable pub failures : ℤ → ℤ → Db → ℕ
unfolding count eqℤ
failures team_id puzzle_id db = count (is_failure team_id puzzle_id) db.submissions

-- The row of the access query: none where a join has no partner.
unfoldable pub access : ℤ → ℤ → ℤ → Db → Option Bool
unfolding select leℤ eqℤ
access now team_id puzzle_id db = elim (select (of_team_puzzle team_id puzzle_id) db.team_puzzles) [
  | none ↦ none
  | some tp ↦ elim (select (is_team team_id) db.teams) [
    | none ↦ none
    | some t ↦ elim (select (has_id puzzle_id) db.puzzles) [
      | none ↦ none
      | some p ↦ elim p.release_at [
        | none ↦ none
        | some release_at ↦ some (leℤ (pos 0) tp.state && leℤ release_at now && not t.is_banned)
      ]
    ]
  ]
]

abbrev pub is_over : ℤ → Option ℤ → Bool
is_over now none = true
is_over now (some till) = leℤ till now

-- The limit on submissions: the puzzle's, and what the team has more.
unfoldable pub below_limit : Option ℤ → ℤ → ℕ → Result Stop Bool
unfolding int4 ltℤ ◌+ℤ◌
below_limit none extra failed_submissions = ok true
below_limit (some max_submit) extra failed_submissions = do
  limit ← int4 (max_submit +ℤ extra)
  ok (ltℤ (pos failed_submissions) limit)

unfoldable pub has_attempt : ℤ → ℤ → Puzzle → TeamPuzzle → Db → Result Stop Bool
unfolding failures below_limit
has_attempt team_id puzzle_id p tp db =
    below_limit p.max_submit tp.max_submit (failures team_id puzzle_id db)

-- The query `allowed`.
unfoldable pub allowed : ℤ → ℤ → ℤ → Db → Result Stop Bool
unfolding select has_attempt leℤ eqℤ
allowed now team_id puzzle_id db = do
  let no_row = sql (codes "RowNotFound")
  tp ← or_fail no_row (select (of_team_puzzle team_id puzzle_id) db.team_puzzles)
  p ← or_fail no_row (select (has_id puzzle_id) db.puzzles)
  if is_over now tp.cooldown_till then has_attempt team_id puzzle_id p tp db else ok false

-- The amount with its growth in whole minutes.
unfoldable pub accrued : ℤ → Currency → TeamCurrency → Result Stop ℤ
unfolding bigint ◌+ℤ◌ ◌-ℤ◌ ◌*ℤ◌ floor_div
accrued now c tc = do
  growth ← bigint (c.growth +ℤ tc.growth)
  ok (tc.amount +ℤ floor_div (now -ℤ tc.utime_at) 60000000 *ℤ growth)

abbrev pub of_team_currency : ℤ → ℤ → TeamCurrency → Bool
of_team_currency team_id currency_id tc = eqℤ tc.team_id team_id && eqℤ tc.currency_id currency_id

-- `rb_game_feature` with feature_type = 4.
abbrev pub is_currency_feature : ℤ → GameFeature → Bool
is_currency_feature game_id gf = eqℤ gf.game_id game_id && eqℤ gf.feature_type (pos 4)

unfoldable pub current_amount : ℤ → GameFeature → Currency → TeamCurrency → Result Stop ℤ
unfolding accrued bigint minℤ maxℤ eqℤ
current_amount now gf c tc =
    if eqℤ gf.state (pos 1)
    then (do
      grown ← accrued now c tc
      bigint (maxℤ (minℤ tc.amount (pos 0)) (minℤ grown c.max_amount)))
    else ok tc.amount

-- One requirement of `submit_requirements_conn`: false where the query has no row.
unfoldable pub requirement_met : ℤ → ℤ → ℤ → Db → PuzzleSubmitRequirement → Result Stop Bool
unfolding select current_amount leℤ eqℤ
requirement_met now team_id game_id db requirement =
    elim (select (of_team_currency team_id requirement.currency_id) db.team_currencies) [
      | none ↦ ok false
      | some tc ↦
          elim (select (λ c. eqℤ c.id requirement.currency_id && eqℤ c.game_id game_id)
            db.currencies) [
              | none ↦ ok false
              | some c ↦ elim (select (is_currency_feature game_id) db.features) [
                | none ↦ ok false
                | some gf ↦ do
                  current ← current_amount now gf c tc
                  ok (leℤ requirement.minimum current)
              ]
            ]
    ]

unfoldable pub submit_requirements_conn :
    ℤ → ℤ → ℤ → Db → List PuzzleSubmitRequirement → Result Stop Bool
unfolding requirement_met
submit_requirements_conn now team_id game_id db [] = ok true
submit_requirements_conn now team_id game_id db (requirement ∷ requirements) = do
  met ← requirement_met now team_id game_id db requirement
  if met then submit_requirements_conn now team_id game_id db requirements else ok false
