-- ===== src/Submit/Commits.antt =====
-- src/db/puzzle.rs: the steps of a transaction that commits.
use rbph_website_backend.Prelude.{
  List, [], Bool, false, not, Result, ok, err, >>=-eq-ok, ok-injective, ℤ, ◌≡◌, refl, sym, ap, ◌∙◌,
  inl, inr, Bool-cases,
}
use rbph_website_backend.Judge.{
  RbInternalError, JudgeRule, JudgeResult, no_match, any_invalid_key, normalize_answer,
}
use rbph_website_backend.Submit.Rows.{Puzzle, Submission, Db}
use rbph_website_backend.Submit.Guards.{invalid}
use rbph_website_backend.Submit.Judging.{
  new_submission, insert_submission, judge_loop, check_triggers,
}
use rbph_website_backend.Submit.Context.{Ctx, Locals}
use rbph_website_backend.Submit.Transaction.{
  Request, Services, Committed, fail_with, is_empty, settle, admit, transaction,
}
use rbph_website_backend.Submit.Limit.{require-true}

-- The steps of a transaction that commits, from the checks to the verdict.
pub data Commits {E S K : Type 0} (services : Services E S K) (req : Request) (db : Db)
    (done : Committed E) : Type 0 where
  steps :
      (t : ℤ) (p : Puzzle) (rules : List JudgeRule) (inserted : Db) (judged : Db × List E)
      (verdict : JudgeResult) (locals : Locals) (trigger_inserted : Bool) (row : Submission)
      → row
        ≡ new_submission req.now t req.user_id req.puzzle_id req.answer
            (normalize_answer services.to_lowercase req.answer)
            db
      → admit services.to_lowercase req db ≡ ok (t, p, rules)
      → insert_submission row db ≡ ok inserted
      → judge_loop services.execute_judge row (inserted, []) no_match rules ≡ ok (judged, verdict)
      → any_invalid_key verdict.triggers ≡ false
      → settle
          (record {
            now = req.now;
            team_id = t;
            user_id = req.user_id;
            puzzle_id = req.puzzle_id;
            puzzle = p;
            submit_id = row.id;
            submit_ctime_at = row.ctime_at;
          })
          verdict
          judged.0
        ≡ ok (done.db, locals, trigger_inserted)
      → done.team_id ≡ t
      → Commits services req db done

fail_with-ok : {A : Type 0} (r : Result RbInternalError A) (a : A) → fail_with r ≡ ok a → r ≡ ok a
fail_with-ok (ok b) a h = let p : b ≡ a = cc h in ap ok p
fail_with-ok (err e) a h = cc h

check_triggers-ok :
    (v r : JudgeResult) → check_triggers v ≡ ok r → (any_invalid_key v.triggers ≡ false) × (v ≡ r)
unfolding check_triggers
check_triggers-ok v r h = elim (Bool-cases (any_invalid_key v.triggers)) [
  | inl p ↦ cc (rw p at h)
  | inr p ↦ (p, cc (rw p at h))
]

module _ {E S K : Type 0} (services : Services E S K) where
  pub transaction-Commits :
      (req : Request) (db : Db) (done : Committed E)
      → transaction services req db ≡ ok done
      → Commits services req db done
  unfolding transaction
  transaction-Commits req db done h =
      let norm_answer = normalize_answer services.to_lowercase req.answer in
      let (_, h₁) = require-true (not (is_empty norm_answer)) invalid _ _ h in
      let ((t, p, rules), a, h₂) = >>=-eq-ok (admit services.to_lowercase req db) _ h₁ in
      let row = new_submission req.now t req.user_id req.puzzle_id req.answer norm_answer db in
      let (inserted, b, h₃) = >>=-eq-ok (insert_submission row db) _ h₂ in
      let ((judged, verdict), c, h₄) =
        >>=-eq-ok (fail_with (judge_loop services.execute_judge row (inserted, []) no_match rules))
          _ h₃ in
      let (result, d, h₅) = >>=-eq-ok (check_triggers verdict) _ h₄ in
      let c₁ : Ctx = record {
        now = req.now;
        team_id = t;
        user_id = req.user_id;
        puzzle_id = req.puzzle_id;
        puzzle = p;
        submit_id = row.id;
        submit_ctime_at = row.ctime_at;
      } in
      let ((settled, locals, trigger_inserted), e, h₆) =
        >>=-eq-ok (settle c₁ result judged.0) _ h₅ in
      let end = ok-injective h₆ in
      let (keys, v) = check_triggers-ok verdict result d in
      steps t p rules inserted judged verdict locals trigger_inserted row refl a b
        (fail_with-ok _ _ c) keys
        ((λ i. settle c₁ (v i) judged.0) ∙ e ∙ ap (λ x. ok (x.db, locals, trigger_inserted)) end)
        (sym (ap (λ x. x.team_id) end))
