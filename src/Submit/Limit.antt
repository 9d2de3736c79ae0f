-- ===== src/Submit/Limit.antt =====
-- src/db/puzzle.rs: the checks that a submission has passed, and the rows that settling it keeps.
use rbph_website_backend.Prelude.{
  ℕ, codes, Option, none, some, List, Bool, true, false, Result, ok, >>=-eq-ok, ok-injective, ◌>>=◌,
  ℤ, pos, ltℤ, ◌+ℤ◌, within, i32_min, i32_max, ◌≡◌, refl, sym, ap, ◌∙◌, inl, inr, Bool-cases,
}
use rbph_website_backend.Model.Game.{action_to_i16, is_fail}
use rbph_website_backend.Judge.{RbInternalError, sql, other, JudgeRule, JudgeResult, value_to_judge}
use rbph_website_backend.Submit.Rows.{Trigger, Puzzle, TeamPuzzle, submission_judged, Db, select}
use rbph_website_backend.Submit.Guards.{
  Refusal, locked, Stop, or_fail, int4, below_limit, has_id, of_team_puzzle, failures, has_attempt,
  is_over, access, allowed, submit_requirements_conn,
}
use rbph_website_backend.Submit.Judging.{
  stored_ignored, record_verdict, insert_triggers, has_triggers, put_triggers, store_triggers,
  mark_team_dirty, log_event,
}
use rbph_website_backend.Submit.Context.{Ctx, Locals}
use rbph_website_backend.Submit.Outcome.{on_action}
use rbph_website_backend.Submit.Frame.{on_action-Keeps}
use rbph_website_backend.Submit.Transaction.{
  Request, fail_with, require, found, parsed, has_rules, first_locals, log_consequences, settle,
  admit,
}

put_triggers-submissions :
    (t : ℤ) (a : Db) (rows : List Trigger × Bool)
    → (put_triggers t a rows).0.submissions ≡ a.submissions
unfolding mark_team_dirty
put_triggers-submissions t a (rows, true) = refl
put_triggers-submissions t a (rows, false) = refl

store_triggers-submissions :
    (t p s : ℤ) (result : JudgeResult) (a : Db)
    → (store_triggers t p s result a).0.submissions ≡ a.submissions
unfolding store_triggers
store_triggers-submissions t p s result a = elim (Bool-cases (has_triggers result)) [
  | inl c ↦ rw c (put_triggers-submissions t a (insert_triggers t p s result.triggers a.triggers))
  | inr c ↦ rw c refl
]

log_consequences-submissions :
    (c : Ctx) (result : JudgeResult) (l : Locals) (a : Db)
    → (log_consequences c result l a).submissions ≡ a.submissions
unfolding log_consequences
log_consequences-submissions c result l a = elim (Bool-cases (is_fail result.action)) [
  | inl p ↦ rw p refl
  | inr p ↦ rw p refl
]

-- What settles a verdict changes the submissions by the verdict only.
pub settle-submissions :
    (c : Ctx) (result : JudgeResult) (a b : Db) (l : Locals) (t : Bool)
    → settle c result a ≡ ok (b, l, t)
    → b.submissions ≡ (record_verdict c.submit_id result a).submissions
unfolding settle log_event
settle-submissions c result a b l t h =
    let verdict = record_verdict c.submit_id result a in
    let stored = store_triggers c.team_id c.puzzle_id c.submit_id result verdict in
    let event =
      submission_judged c.submit_id (action_to_i16 result.action) result.result
        (stored_ignored result) none in
    let ((acted, locals), e, k) =
      >>=-eq-ok (on_action c result.action (first_locals stored.1) (log_event event stored.0)) _
        h in
    let p : log_consequences c result locals acted ≡ b = cc k in
    rw (← p) (
      log_consequences-submissions c result locals acted
      ∙ (on_action-Keeps c result.action (first_locals stored.1) (log_event event stored.0) acted
          locals e).0
      ∙ store_triggers-submissions c.team_id c.puzzle_id c.submit_id result verdict)

pub require-true :
    {B : Type 0} (test : Bool) (r : Refusal) (k : Bool → Result Stop B) (b : B)
    → (require test r >>= k) ≡ ok b
    → (test ≡ true) × (k true ≡ ok b)
require-true true r k b h = (refl, h)
require-true false r k b h = cc h

below_limit-lt :
    (m extra : ℤ) (n : ℕ) → below_limit (some m) extra n ≡ ok true → ltℤ (pos n) (m +ℤ extra) ≡ true
unfolding below_limit int4
below_limit-lt m extra n h = elim (Bool-cases (within i32_min i32_max (m +ℤ extra))) [
  | inl p ↦ cc (rw p at h)
  | inr p ↦ cc (rw p at h)
]

or_fail-ok :
    {A : Type 0} (x : RbInternalError) (o : Option A) (a : A) → or_fail x o ≡ ok a → o ≡ some a
or_fail-ok x none a h = cc h
or_fail-ok x (some b) a h = cc h

-- A team that is allowed to submit has an attempt left.
pub allowed-lt :
    (now t q : ℤ) (db : Db) (tp : TeamPuzzle) (p : Puzzle) (m : ℤ)
    → select (of_team_puzzle t q) db.team_puzzles ≡ some tp
    → select (has_id q) db.puzzles ≡ some p
    → p.max_submit ≡ some m
    → allowed now t q db ≡ ok true
    → ltℤ (pos (failures t q db)) (m +ℤ tp.max_submit) ≡ true
unfolding allowed has_attempt
allowed-lt now t q db tp p m e e' em h =
    let no_row = sql (codes "RowNotFound") in
    let (tp₁, k₁, h₁) =
      >>=-eq-ok (or_fail no_row (select (of_team_puzzle t q) db.team_puzzles)) _ h in
    let (p₁, k₂, h₂) = >>=-eq-ok (or_fail no_row (select (has_id q) db.puzzles)) _ h₁ in
    let a : tp₁ ≡ tp =
      cc (or_fail-ok no_row (select (of_team_puzzle t q) db.team_puzzles) tp₁ k₁, e) in
    let b : p₁ ≡ p = cc (or_fail-ok no_row (select (has_id q) db.puzzles) p₁ k₂, e') in
    elim (Bool-cases (is_over now tp₁.cooldown_till)) [
      | inl o ↦
          let l : below_limit p₁.max_submit tp₁.max_submit (failures t q db) ≡ ok true =
            rw o at h₂ in
          let l' : below_limit (some m) tp.max_submit (failures t q db) ≡ ok true =
            (λ i.
              below_limit ((sym em ∙ sym (ap (λ x. x.max_submit) b)) i) (sym a i).max_submit
                (failures t q db))
            ∙ l in
          below_limit-lt m tp.max_submit (failures t q db) l'
      | inr o ↦ cc (rw o at h₂)
    ]

-- What a request that is admitted went through.
pub admit-allowed :
    (f : ℕ → List ℕ) (req : Request) (db : Db) (t : ℤ) (p : Puzzle) (rules : List JudgeRule)
    → admit f req db ≡ ok (t, p, rules)
    → (allowed req.now t req.puzzle_id db ≡ ok true)
      × (select (has_id req.puzzle_id) db.puzzles ≡ some p)
unfolding admit
admit-allowed f req db t p rules h =
    let no_row = sql (codes "RowNotFound") in
    let (team, _, h₁) = >>=-eq-ok (fail_with req.req_team_id) _ h in
    let (team_id, _, h₂) = >>=-eq-ok (or_fail (other (codes "Require team_id")) team) _ h₁ in
    let (accessible, _, h₃) = >>=-eq-ok (found (access req.now team_id req.puzzle_id db)) _ h₂ in
    let (_, h₄) = require-true accessible locked _ _ h₃ in
    let (can_submit, a, h₅) = >>=-eq-ok (allowed req.now team_id req.puzzle_id db) _ h₄ in
    let (b, h₆) = require-true can_submit locked _ _ h₅ in
    let (p₁, c, h₇) = >>=-eq-ok (or_fail no_row (select (has_id req.puzzle_id) db.puzzles)) _ h₆ in
    let (rules₁, _, h₈) = >>=-eq-ok (fail_with (value_to_judge f p₁.judge)) _ h₇ in
    let (_, h₉) = require-true (has_rules rules₁) locked _ _ h₈ in
    let (requirements, _, h₁₀) = >>=-eq-ok (parsed p₁.submit_requirements) _ h₉ in
    let (met, _, h₁₁) =
      >>=-eq-ok (submit_requirements_conn req.now team_id p₁.game_id db requirements) _ h₁₀ in
    let (_, h₁₂) = require-true met locked _ _ h₁₁ in
    let same = ok-injective h₁₂ in
    let same_team : team_id ≡ t = ap (λ x. x.0) same in
    let same_puzzle : p₁ ≡ p = ap (λ x. x.1) same in
    (
      (λ i. allowed req.now (sym same_team i) req.puzzle_id db) ∙ a ∙ ap ok b,
      or_fail-ok no_row (select (has_id req.puzzle_id) db.puzzles) p₁ c ∙ ap some same_puzzle,
    )
