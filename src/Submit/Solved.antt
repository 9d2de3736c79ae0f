-- ===== src/Submit/Solved.antt =====
-- src/db/puzzle.rs: a puzzle that a team has solved stays solved.
use rbph_website_backend.Prelude.{
  List, [], Bool, true, false, ok, >>=-eq-ok, ok-injective, ℤ, none, ◌≡◌, refl, ap, inl, inr,
  Bool-cases,
}
use rbph_website_backend.Model.Game.{action_to_i16, is_fail}
use rbph_website_backend.Judge.{JudgeResult, no_match}
use rbph_website_backend.Submit.Rows.{Trigger, submission_judged, Db}
use rbph_website_backend.Submit.Judging.{
  insert_triggers, has_triggers, put_triggers, store_triggers, record_verdict, mark_team_dirty,
  log_event, stored_ignored,
}
use rbph_website_backend.Submit.Context.{Ctx, Locals}
use rbph_website_backend.Submit.Outcome.{on_action}
use rbph_website_backend.Submit.Frame.{is_solved, on_action-Keeps}
use rbph_website_backend.Submit.Transaction.{
  Request, Services, Committed, first_locals, log_consequences, settle, transaction,
}
use rbph_website_backend.Submit.Attempts.{KeepsTables, judge_loop-Frame, insert_submission-rows}
use rbph_website_backend.Submit.Commits.{Commits, steps, transaction-Commits}

put_triggers-team_puzzles :
    (t : ℤ) (a : Db) (rows : List Trigger × Bool)
    → (put_triggers t a rows).0.team_puzzles ≡ a.team_puzzles
unfolding mark_team_dirty
put_triggers-team_puzzles t a (rows, true) = refl
put_triggers-team_puzzles t a (rows, false) = refl

store_triggers-team_puzzles :
    (t p s : ℤ) (result : JudgeResult) (a : Db)
    → (store_triggers t p s result a).0.team_puzzles ≡ a.team_puzzles
unfolding store_triggers
store_triggers-team_puzzles t p s result a = elim (Bool-cases (has_triggers result)) [
  | inl c ↦ rw c (put_triggers-team_puzzles t a (insert_triggers t p s result.triggers a.triggers))
  | inr c ↦ rw c refl
]

log_consequences-team_puzzles :
    (c : Ctx) (result : JudgeResult) (l : Locals) (a : Db)
    → (log_consequences c result l a).team_puzzles ≡ a.team_puzzles
unfolding log_consequences
log_consequences-team_puzzles c result l a = elim (Bool-cases (is_fail result.action)) [
  | inl p ↦ rw p refl
  | inr p ↦ rw p refl
]

settle-solved :
    (c : Ctx) (result : JudgeResult) (a b : Db) (l : Locals) (i : Bool) (t q : ℤ)
    → is_solved t q a ≡ true
    → settle c result a ≡ ok (b, l, i)
    → is_solved t q b ≡ true
unfolding settle log_event record_verdict is_solved
settle-solved c result a b l i t q v h =
    let verdict = record_verdict c.submit_id result a in
    let stored = store_triggers c.team_id c.puzzle_id c.submit_id result verdict in
    let event =
      submission_judged c.submit_id (action_to_i16 result.action) result.result
        (stored_ignored result) none in
    let ((acted, locals), e, k) =
      >>=-eq-ok (on_action c result.action (first_locals stored.1) (log_event event stored.0)) _
        h in
    let p = ap (λ x. x.0.team_puzzles) (ok-injective k) in
    let frame =
      on_action-Keeps c result.action (first_locals stored.1) (log_event event stored.0) acted
        locals e in
    let before : is_solved t q (log_event event stored.0) ≡ true =
      rw (store_triggers-team_puzzles c.team_id c.puzzle_id c.submit_id result verdict) v in
    rw (← p, log_consequences-team_puzzles c result locals acted) (frame.3 t q before)

module _ {E S K : Type 0} (services : Services E S K) where
  Commits-solved :
      (req : Request) (db : Db) (done : Committed E) (t q : ℤ)
      → KeepsTables services.execute_judge
      → is_solved t q db ≡ true
      → Commits services req db done
      → is_solved t q done.db ≡ true
  unfolding is_solved
  Commits-solved req db done t q keeps v
        (steps _ p rules inserted judged verdict locals _ row r a b c d e f) =
      let rows = insert_submission-rows row db inserted b in
      let frame =
        judge_loop-Frame services.execute_judge keeps row (inserted, []) no_match rules judged
          verdict c in
      let before : is_solved t q inserted ≡ true = rw rows.3 v in
      settle-solved _ verdict judged.0 done.db locals _ t q (frame.3 t q before) e

  -- When a submission is committed, with judge backends that change no submission, no trigger and no
  -- solved puzzle, every puzzle that some team had solved is still solved by that team, whatever the
  -- verdict.
  pub transaction-keeps_solved :
      KeepsTables services.execute_judge
      → (req : Request) (db : Db) (done : Committed E) (t q : ℤ) → is_solved t q db ≡ true
      → transaction services req db ≡ ok done
      → is_solved t q done.db ≡ true
  transaction-keeps_solved keeps req db done t q v h =
      Commits-solved req db done t q keeps v (transaction-Commits services req db done h)
