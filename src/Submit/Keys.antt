-- ===== src/Submit/Keys.antt =====
-- src/db/puzzle.rs: the triggers that a submission stores.
use rbph_website_backend.Prelude.{
  Str, List, [], ◌∷◌, Bool, true, false, ok, >>=-eq-ok, ok-injective, all, any, ℤ, some, none, ◌≡◌,
  refl, ap, inl, inr, Bool-cases,
}
use rbph_website_backend.Model.Game.{action_to_i16, is_fail}
use rbph_website_backend.Judge.{JudgeResult, no_match, valid_trigger_key, any_invalid_key}
use rbph_website_backend.Submit.Rows.{Trigger, submission_judged, Db}
use rbph_website_backend.Submit.Judging.{
  same_trigger, insert_triggers, has_triggers, put_triggers, store_triggers, record_verdict,
  mark_team_dirty, log_event, stored_ignored,
}
use rbph_website_backend.Submit.Context.{Ctx, Locals}
use rbph_website_backend.Submit.Outcome.{on_action}
use rbph_website_backend.Submit.Frame.{on_action-Keeps}
use rbph_website_backend.Submit.Transaction.{
  Request, Services, Committed, first_locals, log_consequences, settle, transaction,
}
use rbph_website_backend.Submit.Attempts.{KeepsTables, judge_loop-Frame, insert_submission-rows}
use rbph_website_backend.Submit.Commits.{Commits, steps, transaction-Commits}

-- Every key that is stored is one that a gate may name.
abbrev pub HasValidKeys : List Trigger → Type 0
HasValidKeys rows = all (λ row. valid_trigger_key row.trigger_key) rows ≡ true

insert_triggers-valid :
    (t p s : ℤ) (keys : List Str) (rows : List Trigger)
    → any_invalid_key keys ≡ false
    → HasValidKeys rows
    → HasValidKeys (insert_triggers t p s keys rows).0
unfolding insert_triggers any_invalid_key
insert_triggers-valid t p s [] rows k h = h
insert_triggers-valid t p s (key ∷ keys) rows k h = elim (Bool-cases (valid_trigger_key key)) [
  | inr v ↦ cc (rw v at k)
  | inl v ↦ elim (Bool-cases (any (same_trigger row) rows)) [
    | inl taken ↦ rw taken (insert_triggers-valid t p s keys rows (rw v at k) h)
    | inr taken ↦ rw taken (insert_triggers-valid t p s keys (row ∷ rows) (rw v at k) (rw v h))
  ]
]
  where
    row : Trigger
    row = record {
      team_id = t;
      puzzle_id = p;
      trigger_key = key;
      source_submission_id = some s;
      source_hint_id = none;
    }

put_triggers-triggers :
    (t : ℤ) (a : Db) (stored : List Trigger × Bool)
    → (put_triggers t a stored).0.triggers ≡ stored.0
unfolding mark_team_dirty
put_triggers-triggers t a (rows, true) = refl
put_triggers-triggers t a (rows, false) = refl

store_triggers-valid :
    (t p s : ℤ) (result : JudgeResult) (a : Db)
    → any_invalid_key result.triggers ≡ false
    → HasValidKeys a.triggers
    → HasValidKeys (store_triggers t p s result a).0.triggers
unfolding store_triggers
store_triggers-valid t p s result a k h = elim (Bool-cases (has_triggers result)) [
  | inl c ↦
      rw (c, put_triggers-triggers t a (insert_triggers t p s result.triggers a.triggers))
        (insert_triggers-valid t p s result.triggers a.triggers k h)
  | inr c ↦ rw c h
]

log_consequences-triggers :
    (c : Ctx) (result : JudgeResult) (l : Locals) (a : Db)
    → (log_consequences c result l a).triggers ≡ a.triggers
unfolding log_consequences
log_consequences-triggers c result l a = elim (Bool-cases (is_fail result.action)) [
  | inl p ↦ rw p refl
  | inr p ↦ rw p refl
]

settle-valid :
    (c : Ctx) (result : JudgeResult) (a b : Db) (l : Locals) (t : Bool)
    → any_invalid_key result.triggers ≡ false
    → HasValidKeys a.triggers
    → settle c result a ≡ ok (b, l, t)
    → HasValidKeys b.triggers
unfolding settle log_event record_verdict
settle-valid c result a b l t keys v h =
    let verdict = record_verdict c.submit_id result a in
    let stored = store_triggers c.team_id c.puzzle_id c.submit_id result verdict in
    let event =
      submission_judged c.submit_id (action_to_i16 result.action) result.result
        (stored_ignored result) none in
    let ((acted, locals), e, k) =
      >>=-eq-ok (on_action c result.action (first_locals stored.1) (log_event event stored.0)) _
        h in
    let p = ap (λ x. x.0.triggers) (ok-injective k) in
    let frame =
      on_action-Keeps c result.action (first_locals stored.1) (log_event event stored.0) acted
        locals e in
    rw (← p, log_consequences-triggers c result locals acted, frame.2)
      (store_triggers-valid c.team_id c.puzzle_id c.submit_id result verdict keys v)

module _ {E S K : Type 0} (services : Services E S K) where
  Commits-valid :
      (req : Request) (db : Db) (done : Committed E)
      → KeepsTables services.execute_judge
      → HasValidKeys db.triggers
      → Commits services req db done
      → HasValidKeys done.db.triggers
  Commits-valid req db done keeps v
        (steps _ p rules inserted judged verdict locals _ row r a b c d e f) =
      let rows = insert_submission-rows row db inserted b in
      let frame =
        judge_loop-Frame services.execute_judge keeps row (inserted, []) no_match rules judged
          verdict c in
      settle-valid _ verdict judged.0 done.db locals _ d (rw (frame.2, rows.2) v) e

  -- When a submission is committed, with judge backends that change no submission, no trigger and no
  -- solved puzzle, a database whose triggers all have valid keys has only such triggers again.
  pub transaction-HasValidKeys :
      KeepsTables services.execute_judge
      → (req : Request) (db : Db) (done : Committed E) → HasValidKeys db.triggers
      → transaction services req db ≡ ok done
      → HasValidKeys done.db.triggers
  transaction-HasValidKeys keeps req db done v h =
      Commits-valid req db done keeps v (transaction-Commits services req db done h)
