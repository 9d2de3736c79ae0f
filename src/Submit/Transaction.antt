-- ===== src/Submit/Transaction.antt =====
-- src/db/puzzle.rs: `submit_answer` as a whole: its transaction, and what follows the commit.
mod Admission
unfoldable pub use Admission.*
use rbph_website_backend.Prelude.{
  codes, List, [], ◌∷◌, Bool, true, false, not, ◌||◌, Result, ok, err, ◌>>=◌, any, if◌then◌else◌, ℤ,
}
use rbph_website_backend.Model.Game.{side_effect, is_start_game}
use rbph_website_backend.Judge.{RbInternalError, no_match, is_type, normalize_answer}
use rbph_website_backend.Submit.Rows.{Db}
use rbph_website_backend.Submit.Guards.{Refusal, invalid, Stop, returned, failed}
use rbph_website_backend.Submit.Judging.{
  new_submission, insert_submission, judge_loop, check_triggers,
}
use rbph_website_backend.Submit.Context.{Ctx}

module _ {E S K : Type 0} (services : Services E S K) where
  -- From `begin` to `commit`.
  unfoldable pub transaction : Request → Db → Result Stop (Committed E)
  unfolding normalize_answer admit new_submission insert_submission judge_loop check_triggers settle
  transaction req db = do
    let norm_answer = normalize_answer services.to_lowercase req.answer
    _ ← require (not (is_empty norm_answer)) invalid
    (team_id, p, rules) ← admit services.to_lowercase req db
    let row = new_submission req.now team_id req.user_id req.puzzle_id req.answer norm_answer db
    inserted ← insert_submission row db
    ((judged_db, events), verdict) ←
        fail_with (judge_loop services.execute_judge row (inserted, []) no_match rules)
    result ← check_triggers verdict
    let c : Ctx = record {
      now = req.now;
      team_id = team_id;
      user_id = req.user_id;
      puzzle_id = req.puzzle_id;
      puzzle = p;
      submit_id = row.id;
      submit_ctime_at = row.ctime_at;
    }
    (settled, locals, trigger_inserted) ← settle c result judged_db
    ok (record {
      db = settled;
      team_id = team_id;
      puzzle_id = req.puzzle_id;
      result = result;
      rules = rules;
      locals = locals;
      trigger_inserted = trigger_inserted;
      backend_events = events;
    })

  -- The end of a call that runs behind the commit: an error ends the handler, but undoes nothing.
  abbrev pub and_then :
      {A B : Type 0}
      → Db × Result RbInternalError A
      → (Db → A → Db × Result RbInternalError B)
      → Db × Result RbInternalError B
  and_then (db, err e) k = (db, err e)
  and_then (db, ok a) k = k db a

  abbrev is_nil : List ℤ → Bool
  is_nil [] = true
  is_nil (_ ∷ _) = false

  -- The answer of the handler, with the reads that show the new state.
  unfoldable pub shown : Committed E → List ℤ → Db → Result RbInternalError (Accepted E S K)
  shown done unlocks db =
      let has_custom_judge = any (λ rule. is_type rule.rtype (codes "custom")) done.rules in
      do
        state ← services.get_puzzle_team_state db done.team_id done.puzzle_id
        currency ←
            if done.locals.currency_updated || is_start_game done.result.action || has_custom_judge
            then services.get_currency_info db done.team_id
            else ok []
        ok (record {
          result = done.result;
          solved = done.locals.solved;
          unlocks = unlocks;
          cooldown_till = done.locals.cooldown_till;
          state = state;
          currency = currency;
          currency_penalty = done.locals.penalties;
          content_changed = done.locals.content_changed || not (is_nil unlocks);
          backend_events = done.backend_events;
        })

  -- From `commit` to the end.
  unfoldable pub after_commit : Committed E → Db × Result RbInternalError (Accepted E S K)
  unfolding side_effect shown
  after_commit done =
      let locals = done.locals in
      let team_id = done.team_id in
      let do_unlock = locals.do_unlock || done.trigger_inserted in
      and_then
        (if side_effect done.result.action
          then services.update_team done.db team_id
          else (done.db, ok true))
        (λ db _.
          and_then (if do_unlock then services.unlock_new_puzzles db team_id else (db, ok []))
            (λ db unlocks.
              and_then
                (if do_unlock then services.refresh_team_hint_states db team_id else (db, ok true))
                (λ db _. (db, shown done unlocks db))))

-- `SubmitAnswerResult`.
pub data SubmitAnswerResult (E S K : Type 0) : Type 0 where
  accepted : Accepted E S K → SubmitAnswerResult E S K
  refused : Refusal → SubmitAnswerResult E S K

-- The handler on a database: without a commit nothing of the transaction stays.
unfoldable pub submit_answer :
    {E S K : Type 0}
    → Services E S K
    → Request
    → Db
    → Db × Result RbInternalError (SubmitAnswerResult E S K)
unfolding transaction after_commit
submit_answer services req db = elim (transaction services req db) [
  | err stop ↦ (db, elim stop [ returned r ↦ ok (refused r) | failed e ↦ err e ])
  | ok done ↦
      let (after, answer) = after_commit services done in
      (after, elim answer [ err e ↦ err e | ok a ↦ ok (accepted a) ])
]
