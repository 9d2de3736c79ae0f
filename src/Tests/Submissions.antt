-- ===== src/Tests/Submissions.antt =====
-- Answers judged and submitted: a puzzle with one exact rule, a limit and penalties.
use rbph_website_backend.Prelude.{
  ℕ, ◌≡◌, ◌↔◌, refl, ap, codes, true, false, none, some, List, [], ◌∷◌, ◌++◌, Result, ok, err,
  ok-injective, Option, String, all, is_whitespace, pos, negsuc, eqℤ, leℤ, ◌+ℤ◌,
}
use rbph_website_backend.Judge.{
  JudgeRule, JudgeBackendOutput, RbInternalError, decide, no_match, judge_by_rules, value_to_judge,
  normalize_answer, normalize_rule, valid_trigger_key,
}
use rbph_website_backend.Judge.Rules.{
  Judged, judge_by_rules-Judged, value_to_judge-keys, value_to_judge-accepts, HasValidTriggers,
  valid_trigger_key-eq-valid_key, normalize_answer_spaced,
}
use rbph_website_backend.Expr.Compiler.Atoms.{valid_key}
use rbph_website_backend.Submit.Rows.{Submission, Db, select}
use rbph_website_backend.Tests.Fixtures.{services, no_backend, rule, puzzle, team_puzzle, purse, db}
use rbph_website_backend.Submit.Guards.{Stop, has_id, of_team_puzzle, failures}
use rbph_website_backend.Submit.Judging.{run_custom, judge_loop}
use rbph_website_backend.Submit.Transaction.{Request, Committed, first_locals, transaction}
use rbph_website_backend.Submit.Frame.{Frame-refl, is_solved}
use rbph_website_backend.Submit.Attempts.{KeepsTables}
use rbph_website_backend.Submit.Agreement.{judge_loop-eq-judge_by_rules}
use rbph_website_backend.Submit.Bound.{transaction-within_limit}
use rbph_website_backend.Submit.Solved.{transaction-keeps_solved}
use rbph_website_backend.Submit.Keys.{HasValidKeys, transaction-HasValidKeys}

abbrev request : String → Request
request answer = record {
  req_team_id = ok (some (pos 7));
  user_id = pos 3;
  puzzle_id = pos 5;
  answer = codes answer;
  now = pos 120000000;
}

keeps : KeepsTables no_backend
keeps db name row db' events value h =
    let p : db ≡ db' = ap (λ x. x.0) (ok-injective h) in rw (← p) (Frame-refl db)

-- What a transaction commits.
abbrev committed : Result Stop (Committed ℕ) → Committed ℕ
committed (ok done) = done
committed (err _) = record {
  db = db;
  team_id = pos 0;
  puzzle_id = pos 0;
  result = no_match;
  rules = [];
  locals = first_locals false;
  trigger_inserted = false;
  backend_events = [];
}

abbrev wrong : Committed ℕ
wrong = committed (transaction services (request "x y") db)

wrong_commits : transaction services (request "x y") db ≡ ok wrong
unfolding transaction
wrong_commits = refl

-- Two minutes of growth, less the penalty; one failure; the cooldown a minute from now.
wrong_test :
    (wrong.db.team_currencies ≡ record purse { amount = pos 9; utime_at = pos 120000000 } ∷ [])
    × (failures (pos 7) (pos 5) wrong.db ≡ 1)
    × (wrong.locals.cooldown_till ≡ some (pos 180000000))
unfolding transaction failures
wrong_test = (refl, refl, refl)

found_puzzle : select (has_id (pos 5)) db.puzzles ≡ some puzzle
unfolding select eqℤ
found_puzzle = refl

found_row : select (of_team_puzzle (pos 7) (pos 5)) db.team_puzzles ≡ some team_puzzle
unfolding select eqℤ
found_row = refl

transaction-within_limit_example :
    leℤ (pos (failures (pos 7) (pos 5) wrong.db)) (pos 2 +ℤ pos 1) ≡ true
unfolding transaction
transaction-within_limit_example =
    transaction-within_limit services keeps (request "x y") db wrong puzzle team_puzzle (pos 2) refl
      wrong_commits found_puzzle refl found_row

abbrev right : Committed ℕ
right = committed (transaction services (request "a b") db)

right_commits : transaction services (request "a b") db ≡ ok right
unfolding transaction
right_commits = refl

right_test : (right.locals.solved ≡ true) × (right.trigger_inserted ≡ true)
unfolding transaction
right_test = (refl, refl)

transaction-HasValidKeys_example : HasValidKeys right.db.triggers
transaction-HasValidKeys_example =
    transaction-HasValidKeys services keeps (request "a b") db right refl right_commits

-- The submission's loop on this rule.
abbrev row : Submission
row = record {
  id = pos 1;
  team_id = pos 7;
  user_id = pos 3;
  puzzle_id = pos 5;
  user_answer = codes "ab";
  norm_answer = codes "ab";
  saction = negsuc 0;
  sresult = none;
  real_answer = none;
  ignored = false;
  ctime_at = pos 0;
}

judge_loop-eq-judge_by_rules_example :
    judge_loop no_backend row (db, []) no_match (rule ∷ [])
    ≡ judge_by_rules (run_custom no_backend row) (db, []) (rule ∷ []) (codes "ab")
judge_loop-eq-judge_by_rules_example =
    judge_loop-eq-judge_by_rules no_backend row (db, []) (rule ∷ [])

abbrev executor : ℕ → JudgeRule → Result RbInternalError (ℕ × Option JudgeBackendOutput)
executor s _ = ok (s, none)

decides : judge_by_rules executor 0 (rule ∷ []) (codes "ab") ≡ ok (0, decide rule)
unfolding judge_by_rules
decides = refl

judge_by_rules-Judged_example : Judged executor (codes "ab") 0 (rule ∷ []) 0 (decide rule)
judge_by_rules-Judged_example =
    judge_by_rules-Judged executor (codes "ab") 0 0 (rule ∷ []) (decide rule) decides

abbrev accepted_rules : List JudgeRule
accepted_rules = normalize_rule (λ c. c ∷ []) rule ∷ []

accepted : value_to_judge (λ c. c ∷ []) (ok (rule ∷ [])) ≡ ok accepted_rules
unfolding value_to_judge
accepted = refl

value_to_judge-keys_example : HasValidTriggers accepted_rules
value_to_judge-keys_example =
    value_to_judge-keys (λ c. c ∷ []) (ok (rule ∷ [])) accepted_rules accepted

value_to_judge-accepts_example :
    ((rules : List JudgeRule) × (value_to_judge (λ c. c ∷ []) (ok (rule ∷ [])) ≡ ok rules))
    ↔ HasValidTriggers (rule ∷ [])
value_to_judge-accepts_example = value_to_judge-accepts (λ c. c ∷ []) (rule ∷ [])

spaces : all is_whitespace (codes " ") ≡ true
unfolding is_whitespace
spaces = refl

normalize_answer_spaced_example :
    normalize_answer (λ c. c ∷ []) (codes "a" ++ codes " " ++ codes "b")
    ≡ normalize_answer (λ c. c ∷ []) (codes "a" ++ codes "b")
normalize_answer_spaced_example =
    normalize_answer_spaced (λ c. c ∷ []) (codes "a") (codes " ") (codes "b") spaces

valid_trigger_key-eq-valid_key_example : valid_trigger_key (codes "k1") ≡ valid_key (codes "k1")
valid_trigger_key-eq-valid_key_example = valid_trigger_key-eq-valid_key (codes "k1")

-- The same team has solved another puzzle.
abbrev solved_before : Db
solved_before = record db {
  team_puzzles =
      team_puzzle
      ∷ record team_puzzle { puzzle_id = pos 6; state = pos 1; solve_at = some (pos 1) }
      ∷ [];
}

abbrev after_wrong : Committed ℕ
after_wrong = committed (transaction services (request "x y") solved_before)

after_wrong_commits : transaction services (request "x y") solved_before ≡ ok after_wrong
unfolding transaction
after_wrong_commits = refl

was_solved : is_solved (pos 7) (pos 6) solved_before ≡ true
unfolding is_solved
was_solved = refl

transaction-keeps_solved_example : is_solved (pos 7) (pos 6) after_wrong.db ≡ true
transaction-keeps_solved_example =
    transaction-keeps_solved services keeps (request "x y") solved_before after_wrong (pos 7)
      (pos 6) was_solved after_wrong_commits
