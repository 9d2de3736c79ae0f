-- ===== src/Submit/Transaction/Admission.antt =====
-- src/db/puzzle.rs: `submit_answer`: its request and answer, what its transaction starts from, and
-- how a judged answer is settled. The functions that the model leaves open are the fields of
-- `Services`.
use rbph_website_backend.Prelude.{
  ℕ, Str, codes, Option, none, some, List, [], ◌∷◌, Bool, true, false, Result, ok, err, ◌>>=◌,
  map_err, if◌then◌else◌, ℤ, eqℤ,
}
use rbph_website_backend.Model.Game.{action_to_i16, is_fail}
use rbph_website_backend.Judge.{RbInternalError, sql, other, JudgeRule, JudgeResult, value_to_judge}
use rbph_website_backend.Submit.Rows.{
  PuzzleSubmitRequirement, Puzzle, CurrencyPenaltyShowData, Event, submission_judged, Db, select,
}
use rbph_website_backend.Submit.Guards.{
  Refusal, locked, not_found, Stop, returned, failed, or_fail, has_id, access, allowed,
  submit_requirements_conn,
}
use rbph_website_backend.Submit.Judging.{
  ExecuteJudge, stored_ignored, record_verdict, store_triggers, log_event,
}
use rbph_website_backend.Submit.Context.{Ctx, Locals}
use rbph_website_backend.Submit.Outcome.{on_action}

-- `submit_answer`'s arguments: `req_team_id` of the user, and the time of the transaction.
pub record Request : Type 0 where
  pub req_team_id : Result RbInternalError (Option ℤ)
  pub user_id : ℤ
  pub puzzle_id : ℤ
  pub answer : Str
  pub now : ℤ

-- What the handler calls, the database behind the call first where it writes: the lower case of a character, the runtime of a custom judge with its
-- events `E`, and after the commit the board, the unlocks, the hints, and the state `S` and
-- currencies `K` that it shows.
pub record Services (E S K : Type 0) : Type 0 where
  pub to_lowercase : ℕ → List ℕ
  pub execute_judge : ExecuteJudge E
  pub update_team : Db → ℤ → Db × Result RbInternalError Bool
  pub unlock_new_puzzles : Db → ℤ → Db × Result RbInternalError (List ℤ)
  pub refresh_team_hint_states : Db → ℤ → Db × Result RbInternalError Bool
  pub get_puzzle_team_state : Db → ℤ → ℤ → Result RbInternalError S
  pub get_currency_info : Db → ℤ → Result RbInternalError (List K)

-- `SubmitAnswerResult::Ok`, with the fields of its `SubmitStateUpdate`.
pub record Accepted (E S K : Type 0) : Type 0 where
  pub result : JudgeResult
  pub solved : Bool
  pub unlocks : List ℤ
  pub cooldown_till : Option ℤ
  pub state : S
  pub currency : List K
  pub currency_penalty : List CurrencyPenaltyShowData
  pub content_changed : Bool
  pub backend_events : List E

-- What the transaction leaves to the code behind the commit.
pub record Committed (E : Type 0) : Type 0 where
  pub db : Db
  pub team_id : ℤ
  pub puzzle_id : ℤ
  pub result : JudgeResult
  pub rules : List JudgeRule
  pub locals : Locals
  pub trigger_inserted : Bool
  pub backend_events : List E

abbrev pub fail_with : {A : Type 0} → Result RbInternalError A → Result Stop A
fail_with r = map_err failed r

-- A guard: the handler returns where the test is false.
abbrev pub require : Bool → Refusal → Result Stop Bool
require true refusal = ok true
require false refusal = err (returned refusal)

-- `let Some(access) = access else { … }`.
abbrev pub found : Option Bool → Result Stop Bool
found none = err (returned not_found)
found (some access) = ok access

abbrev pub is_empty : Str → Bool
is_empty [] = true
is_empty (_ ∷ _) = false

-- The requirements, where they do not parse the puzzle is locked.
abbrev pub parsed :
    Result Str (List PuzzleSubmitRequirement) → Result Stop (List PuzzleSubmitRequirement)
parsed (err message) = err (returned locked)
parsed (ok requirements) = ok requirements

abbrev pub has_rules : List JudgeRule → Bool
has_rules [] = false
has_rules (_ ∷ _) = true

-- The consequences that a failure adds to the event `submission.judged` of its submission.
unfoldable pub add_consequences : Option ℤ → List CurrencyPenaltyShowData → ℤ → Event → Event
unfolding eqℤ
add_consequences seconds penalties submit_id (submission_judged id action result ignored more) =
    if eqℤ id submit_id
    then submission_judged id action result ignored (some (seconds, penalties))
    else submission_judged id action result ignored more
add_consequences seconds penalties submit_id event = event

abbrev add_to_log : Option ℤ → List CurrencyPenaltyShowData → ℤ → List Event → List Event
add_to_log seconds penalties submit_id [] = []
add_to_log seconds penalties submit_id (event ∷ log) =
    add_consequences seconds penalties submit_id event ∷ add_to_log seconds penalties submit_id log

unfoldable pub log_consequences : Ctx → JudgeResult → Locals → Db → Db
unfolding add_consequences
log_consequences c result locals db =
    if is_fail result.action
    then record db {
      event_log = add_to_log locals.cooldown_seconds locals.penalties c.submit_id db.event_log;
    }
    else db

abbrev pub first_locals : Bool → Locals
first_locals trigger_inserted = record {
  content_changed = trigger_inserted;
  solved = false;
  do_unlock = false;
  cooldown_till = none;
  cooldown_seconds = none;
  currency_updated = false;
  penalties = [];
}

-- What follows the verdict in the transaction.
unfoldable pub settle : Ctx → JudgeResult → Db → Result Stop (Db × Locals × Bool)
unfolding record_verdict store_triggers log_event on_action log_consequences
settle c result db = do
  let verdict = record_verdict c.submit_id result db
  let (stored, inserted) = store_triggers c.team_id c.puzzle_id c.submit_id result verdict
  let judged =
      log_event
        (submission_judged c.submit_id (action_to_i16 result.action) result.result
          (stored_ignored result) none)
        stored
  (acted, locals) ← on_action c result.action (first_locals inserted) judged
  ok (log_consequences c result locals acted, locals, inserted)

-- The puzzle's row and its rules, where the team may submit now.
unfoldable pub admit : (ℕ → List ℕ) → Request → Db → Result Stop (ℤ × Puzzle × List JudgeRule)
unfolding select access allowed submit_requirements_conn value_to_judge eqℤ
admit to_lowercase req db = do
  team ← fail_with req.req_team_id
  team_id ← or_fail (other (codes "Require team_id")) team
  accessible ← found (access req.now team_id req.puzzle_id db)
  _ ← require accessible locked
  can_submit ← allowed req.now team_id req.puzzle_id db
  _ ← require can_submit locked
  p ← or_fail (sql (codes "RowNotFound")) (select (has_id req.puzzle_id) db.puzzles)
  rules ← fail_with (value_to_judge to_lowercase p.judge)
  _ ← require (has_rules rules) locked
  requirements ← parsed p.submit_requirements
  met ← submit_requirements_conn req.now team_id p.game_id db requirements
  _ ← require met locked
  ok (team_id, p, rules)
