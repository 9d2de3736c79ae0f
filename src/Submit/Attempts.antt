-- ===== src/Submit/Attempts.antt =====
-- src/db/puzzle.rs: the limit on failing submissions, through the whole transaction.
use rbph_website_backend.Prelude.{
  suc, ◌≤◌, Str, codes, Option, none, some, List, [], ◌∷◌, Bool, true, false, Result, ok, >>=-eq-ok,
  any, all, ℤ, pos, negsuc, diff, eqℤ, ltℤ, ◌+ℤ◌, eqℤ_refl, ◌≡◌, refl, ap, ◌∙◌, inl, inr,
  Bool-cases, arith, if◌then◌else◌,
}
use rbph_website_backend.Judge.{
  RbInternalError, JudgeRule, JudgeResult, JudgeBackendOutput, is_type, text_is, decide,
  result_of_output,
}
use rbph_website_backend.Judge.Rules.{outcomes}
use rbph_website_backend.Submit.Rows.{Submission, Db, count, update}
use rbph_website_backend.Submit.Guards.{Stop, is_failure, failures}
use rbph_website_backend.Submit.Judging.{
  ExecuteJudge, insert_submission, same_answer, run_function, run_custom, judge_loop,
  record_verdict, with_verdict,
}
use rbph_website_backend.Submit.Frame.{Frame, Frame-refl, Frame-trans}

-- The sequence of the submissions is ahead of their keys.
abbrev pub IsFresh : Db → Type 0
IsFresh db = all (λ s. ltℤ s.id db.next_submission) db.submissions ≡ true

ltℤ-next : (x : ℤ) → ltℤ x (x +ℤ pos 1) ≡ true
unfolding ltℤ ◌+ℤ◌ diff
ltℤ-next (pos a) = ground arith
ltℤ-next (negsuc a) = ground arith

ltℤ-weaken : (x y : ℤ) → ltℤ x y ≡ true → ltℤ x (y +ℤ pos 1) ≡ true
unfolding ltℤ ◌+ℤ◌ diff
ltℤ-weaken (pos a) (pos b) h = ground arith
ltℤ-weaken (pos a) (negsuc b) h = cc
ltℤ-weaken (negsuc a) (pos b) h = ground arith
ltℤ-weaken (negsuc a) (negsuc b) h = ground arith

ltℤ_ne : (x y : ℤ) → ltℤ x y ≡ true → eqℤ x y ≡ false
unfolding ltℤ eqℤ
ltℤ_ne (pos a) (pos b) h = ground arith
ltℤ_ne (pos a) (negsuc b) h = refl
ltℤ_ne (negsuc a) (pos b) h = refl
ltℤ_ne (negsuc a) (negsuc b) h = ground arith

module _ (next : ℤ) where
  all-weaken :
      (rows : List Submission)
      → all (λ s. ltℤ s.id next) rows ≡ true
      → all (λ s. ltℤ s.id (next +ℤ pos 1)) rows ≡ true
  all-weaken [] h = refl
  all-weaken (s ∷ rows) h = ground (arith, ltℤ-weaken s.id next, all-weaken rows)

  -- An update by a key that no row has.
  update_none :
      (f : Submission → Submission) (rows : List Submission)
      → all (λ s. ltℤ s.id next) rows ≡ true
      → update (λ s. eqℤ s.id next) f rows ≡ rows
  unfolding update
  update_none f [] h = refl
  update_none f (s ∷ rows) h = elim (Bool-cases (ltℤ s.id next)) [
    | inl p ↦ rw (ltℤ_ne s.id next p) (ap (λ l. s ∷ l) (update_none f rows (rw p at h)))
    | inr p ↦ cc (rw p at h)
  ]

module _ {E : Type 0} (execute_judge : ExecuteJudge E) where
  -- A backend of a judge works on its store and on the currencies only.
  abbrev pub KeepsTables : Type 0
  KeepsTables =
      (db : Db) (name : Str) (row : Submission) (db' : Db) (events : List E)
      (value : Option JudgeBackendOutput)
      → execute_judge db name row ≡ ok (db', events, value)
      → Frame db db'

  module _ (keeps : KeepsTables) (row : Submission) where
    run_function-Frame :
        (s : Db × List E) (o : Option Str) (s' : Db × List E) (value : Option JudgeBackendOutput)
        → run_function execute_judge row s o ≡ ok (s', value)
        → Frame s.0 s'.0
    unfolding run_function
    run_function-Frame s none s' value h = cc h
    run_function-Frame (db, events) (some name) s' value h =
        let ((db₁, events₁, value₁), e, k) = >>=-eq-ok (execute_judge db name row) _ h in
        let p : db₁ ≡ s'.0 = cc k in rw (← p) (keeps db name row db₁ events₁ value₁ e)

    stops :
        (s t s' : Db × List E) (v r : JudgeResult)
        → Frame s.0 t.0
        → Path (Result RbInternalError ((Db × List E) × JudgeResult)) (ok (t, v)) (ok (s', r))
        → Frame s.0 s'.0
    stops s t s' v r f h = let p : t ≡ s' = cc h in rw (← p) f

    pub judge_loop-Frame :
        (s : Db × List E) (result : JudgeResult) (rules : List JudgeRule) (s' : Db × List E)
        (r : JudgeResult)
        → judge_loop execute_judge row s result rules ≡ ok (s', r)
        → Frame s.0 s'.0
    unfolding judge_loop run_custom
    judge_loop-Frame s result [] s' r h = stops s s s' result r (Frame-refl s.0) h
    judge_loop-Frame s result (rule ∷ rules) s' r h =
        elim (Bool-cases (is_type rule.rtype (codes "exact"))) [
          | inl e ↦ elim (Bool-cases (text_is rule.text row.norm_answer)) [
            | inl m ↦ stops s s s' (decide rule) r (Frame-refl s.0) (rw (e, m) at h)
            | inr m ↦ judge_loop-Frame s result rules s' r (rw (e, m) at h)
          ]
          | inr e ↦ elim (Bool-cases (is_type rule.rtype (codes "custom"))) [
            | inl c ↦ elim (outcomes (run_function execute_judge row s rule.function)) [
              | inl (x, o) ↦ cc (rw (e, c, o) at h)
              | inr (inl (t, o)) ↦
                  Frame-trans s.0 t.0 s'.0 (run_function-Frame s rule.function t none o)
                    (judge_loop-Frame t result rules s' r (rw (e, c, o) at h))
              | inr (inr (t, output, o)) ↦
                  stops s t s' (result_of_output output) r
                    (run_function-Frame s rule.function t (some output) o) (rw (e, c, o) at h)
            ]
            | inr c ↦ elim (Bool-cases (is_type rule.rtype (codes "all"))) [
              | inl a ↦ stops s s s' (decide rule) r (Frame-refl s.0) (rw (e, c, a) at h)
              | inr a ↦ judge_loop-Frame s result rules s' r (rw (e, c, a) at h)
            ]
          ]
        ]

-- A submission is a new row in front.
pub insert_submission-rows :
    (row : Submission) (a b : Db)
    → insert_submission row a ≡ ok b
    → (b.submissions ≡ row ∷ a.submissions)
      × (b.next_submission ≡ a.next_submission +ℤ pos 1)
      × (b.triggers ≡ a.triggers)
      × (b.team_puzzles ≡ a.team_puzzles)
unfolding insert_submission
insert_submission-rows row a b h = elim (Bool-cases (any (same_answer row) a.submissions)) [
  | inl q ↦ cc (rw q at h)
  | inr q ↦ inserted (rw q at h)
]
  where
    stored : Db
    stored = record a {
      submissions = row ∷ a.submissions;
      next_submission = a.next_submission +ℤ pos 1;
    }

    inserted :
        Path (Result Stop Db) (ok stored) (ok b)
        → (b.submissions ≡ row ∷ a.submissions)
          × (b.next_submission ≡ a.next_submission +ℤ pos 1)
          × (b.triggers ≡ a.triggers)
          × (b.team_puzzles ≡ a.team_puzzles)
    inserted e = let p : stored ≡ b = cc e in rw (← p) (refl, refl, refl, refl)

count_head-le :
    (p : Submission → Bool) (s : Submission) (rows : List Submission)
    → count p (s ∷ rows) ≤ suc (count p rows)
unfolding count
count_head-le p s rows = elim (Bool-cases (p s)) [
  | inl q ↦ rw q (omega arith)
  | inr q ↦ rw q (omega arith)
]

-- The verdict touches the new row only.
pub record_verdict-rows :
    (result : JudgeResult) (row : Submission) (a b : Db)
    → all (λ s. ltℤ s.id row.id) a.submissions ≡ true
    → b.submissions ≡ row ∷ a.submissions
    → (record_verdict row.id result b).submissions ≡ with_verdict result row ∷ a.submissions
unfolding record_verdict update
record_verdict-rows result row a b fresh e =
    ap (update (λ s. eqℤ s.id row.id) (with_verdict result)) e ∙ (λ i.
      (if eqℤ_refl row.id i then with_verdict result row else row)
      ∷ update_none row.id (with_verdict result) a.submissions fresh i)

-- So it adds one failure at most.
pub record_verdict-failures :
    (t p : ℤ) (result : JudgeResult) (row : Submission) (a b : Db)
    → all (λ s. ltℤ s.id row.id) a.submissions ≡ true
    → b.submissions ≡ row ∷ a.submissions
    → failures t p (record_verdict row.id result b) ≤ suc (failures t p a)
unfolding failures
record_verdict-failures t p result row a b fresh e =
    rw (record_verdict-rows result row a b fresh e)
      (count_head-le (is_failure t p) (with_verdict result row) a.submissions)
