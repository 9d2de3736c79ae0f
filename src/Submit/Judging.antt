-- ===== src/Submit/Judging.antt =====
-- src/db/puzzle.rs: the part of `submit_answer` that judges: the loop over the rules, the row of the
-- submission, its triggers and its event.
use rbph_website_backend.Prelude.{
  Str, codes, Option, none, some, List, [], ◌∷◌, ◌++◌, Bool, true, false, not, ◌&&◌, ◌||◌, Result,
  ok, err, ◌>>=◌, any, if◌then◌else◌, str_eq, ℤ, pos, negsuc, eqℤ, ◌+ℤ◌,
}
use rbph_website_backend.Model.Game.{action_to_i16, is_error}
use rbph_website_backend.Judge.{
  RbInternalError, other, JudgeRule, JudgeResult, JudgeBackendOutput, result_of_output, is_type,
  decide, text_is, any_invalid_key,
}
use rbph_website_backend.Submit.Rows.{Submission, Trigger, Event, Db, update}
use rbph_website_backend.Submit.Guards.{Stop, returned, failed, duplicate, is_team}

-- The call of `execute_judge_conn` for a custom rule and the reads of its context, in the
-- transaction: the function's name, and the row of the submission. A backend's events are `E`.
abbrev pub ExecuteJudge : Type 0 → Type 0
ExecuteJudge E =
    Db → Str → Submission → Result RbInternalError (Db × List E × Option JudgeBackendOutput)

-- The index rb_idx_submission_team_puzzle_norm: one row that is not ignored.
abbrev pub same_answer : Submission → Submission → Bool
same_answer row s =
    eqℤ s.team_id row.team_id
    && eqℤ s.puzzle_id row.puzzle_id
    && str_eq s.norm_answer row.norm_answer
    && not s.ignored

-- `INSERT INTO rb_submission … ON CONFLICT DO NOTHING`, with the defaults of the table.
unfoldable pub new_submission : ℤ → ℤ → ℤ → ℤ → Str → Str → Db → Submission
new_submission now team_id user_id puzzle_id user_answer norm_answer db = record {
  id = db.next_submission;
  team_id = team_id;
  user_id = user_id;
  puzzle_id = puzzle_id;
  user_answer = user_answer;
  norm_answer = norm_answer;
  saction = negsuc 0;
  sresult = none;
  real_answer = none;
  ignored = false;
  ctime_at = now;
}

unfoldable pub insert_submission : Submission → Db → Result Stop Db
unfolding eqℤ ◌+ℤ◌
insert_submission row db =
    if any (same_answer row) db.submissions
    then err (returned duplicate)
    else ok (record db {
      submissions = row ∷ db.submissions;
      next_submission = db.next_submission +ℤ pos 1;
    })

module _ {E : Type 0} (execute_judge : ExecuteJudge E) (submit_row : Submission) where
  -- A custom rule's function: without its name it is an error.
  unfoldable pub run_function :
      Db × List E → Option Str → Result RbInternalError ((Db × List E) × Option JudgeBackendOutput)
  run_function (db, backend_events) none = err (other (codes "custom judge function is missing"))
  run_function (db, backend_events) (some backend_name) = do
    (db', events, value) ← execute_judge db backend_name submit_row
    ok ((db', backend_events ++ events), value)

  unfoldable pub run_custom :
      Db × List E → JudgeRule → Result RbInternalError ((Db × List E) × Option JudgeBackendOutput)
  unfolding run_function
  run_custom s rule = run_function s rule.function

  -- The loop of `submit_answer`; `result` is what it has when no rule breaks it.
  unfoldable pub judge_loop :
      Db × List E
      → JudgeResult
      → List JudgeRule
      → Result RbInternalError ((Db × List E) × JudgeResult)
  unfolding run_custom decide result_of_output
  judge_loop s result [] = ok (s, result)
  judge_loop s result (rule ∷ rules) =
      if is_type rule.rtype (codes "exact")
      then (if text_is rule.text submit_row.norm_answer
          then ok (s, decide rule)
          else judge_loop s result rules)
      else if is_type rule.rtype (codes "custom")
      then (elim (run_custom s rule) [
        | err e ↦ err e
        | ok (s', some output) ↦ ok (s', result_of_output output)
        | ok (s', none) ↦ judge_loop s' result rules
      ])
      else if is_type rule.rtype (codes "all")
      then ok (s, decide rule)
      else judge_loop s result rules

-- A key that no statement may store ends the transaction.
unfoldable pub check_triggers : JudgeResult → Result Stop JudgeResult
unfolding any_invalid_key
check_triggers result =
    if any_invalid_key result.triggers
    then err (failed (other (codes "judge returned an invalid trigger key")))
    else ok result

-- What is stored as `ignored`.
unfoldable pub stored_ignored : JudgeResult → Bool
stored_ignored result = result.ignored || is_error result.action

-- `UPDATE rb_submission SET saction = …`.
unfoldable pub with_verdict : JudgeResult → Submission → Submission
unfolding stored_ignored action_to_i16
with_verdict result s = record s {
  saction = action_to_i16 result.action;
  sresult = result.result;
  real_answer = result.answer;
  ignored = stored_ignored result;
}

unfoldable pub record_verdict : ℤ → JudgeResult → Db → Db
unfolding update with_verdict eqℤ
record_verdict submit_id result db = record db {
  submissions = update (λ s. eqℤ s.id submit_id) (with_verdict result) db.submissions;
}

abbrev pub same_trigger : Trigger → Trigger → Bool
same_trigger x y =
    eqℤ x.team_id y.team_id && eqℤ x.puzzle_id y.puzzle_id && str_eq x.trigger_key y.trigger_key

-- `INSERT INTO rb_team_puzzle_trigger … ON CONFLICT DO NOTHING` with the rows that are new.
unfoldable pub insert_triggers : ℤ → ℤ → ℤ → List Str → List Trigger → List Trigger × Bool
unfolding eqℤ
insert_triggers team_id puzzle_id submit_id [] rows = (rows, false)
insert_triggers team_id puzzle_id submit_id (key ∷ keys) rows =
    let row : Trigger = record {
      team_id = team_id;
      puzzle_id = puzzle_id;
      trigger_key = key;
      source_submission_id = some submit_id;
      source_hint_id = none;
    } in
    let taken = any (same_trigger row) rows in
    let (stored, inserted) =
      insert_triggers team_id puzzle_id submit_id keys (if taken then rows else row ∷ rows) in
    (stored, not taken || inserted)

-- `db::content::mark_team_dirty_conn`.
unfoldable pub mark_team_dirty : ℤ → Db → Db
unfolding update eqℤ
mark_team_dirty team_id db = record db {
  teams = update (is_team team_id) (λ t. record t { content_blocks_dirty = true }) db.teams;
}

-- `db::event_log::insert_conn`.
unfoldable pub log_event : Event → Db → Db
log_event event db = record db { event_log = event ∷ db.event_log }

abbrev is_nil : List Str → Bool
is_nil [] = true
is_nil (_ ∷ _) = false

-- The answers whose triggers are stored.
unfoldable pub has_triggers : JudgeResult → Bool
has_triggers result =
    not result.ignored && not (is_error result.action) && not (is_nil result.triggers)

abbrev pub put_triggers : ℤ → Db → List Trigger × Bool → Db × Bool
put_triggers team_id db (rows, true) =
    (mark_team_dirty team_id (record db { triggers = rows }), true)
put_triggers team_id db (rows, false) = (record db { triggers = rows }, false)

-- The triggers of an answer, and whether one of them is new.
unfoldable pub store_triggers : ℤ → ℤ → ℤ → JudgeResult → Db → Db × Bool
unfolding has_triggers insert_triggers
store_triggers team_id puzzle_id submit_id result db =
    if has_triggers result
    then put_triggers team_id db
        (insert_triggers team_id puzzle_id submit_id result.triggers db.triggers)
    else (db, false)
