-- ===== src/Submit/Agreement.antt =====
-- src/db/puzzle.rs and src/game/judge.rs: both loops over the rules.
use rbph_website_backend.Prelude.{
  codes, none, some, List, [], ◌∷◌, ok, err, ◌≡◌, refl, if◌then◌else◌,
}
use rbph_website_backend.Judge.{
  JudgeRule, result_of_output, is_type, decide, no_match, text_is, judge_by_rules,
}
use rbph_website_backend.Submit.Rows.{Submission, Db}
use rbph_website_backend.Submit.Judging.{ExecuteJudge, run_custom, judge_loop}

module _ {E : Type 0} (execute_judge : ExecuteJudge E) (submit_row : Submission) where
  -- A submission is judged as `judge_by_rules` judges its normal form, with the custom rules run in
  -- the transaction.
  pub judge_loop-eq-judge_by_rules :
      (s : Db × List E) (rules : List JudgeRule)
      → judge_loop execute_judge submit_row s no_match rules
        ≡ judge_by_rules (run_custom execute_judge submit_row) s rules submit_row.norm_answer
  unfolding judge_loop judge_by_rules
  judge_loop-eq-judge_by_rules s [] = refl
  judge_loop-eq-judge_by_rules s (rule ∷ rules) = λ i.
      if is_type rule.rtype (codes "exact")
      then (if text_is rule.text submit_row.norm_answer
          then ok (s, decide rule)
          else judge_loop-eq-judge_by_rules s rules i)
      else if is_type rule.rtype (codes "custom")
      then (elim (run_custom execute_judge submit_row s rule) [
        | err e ↦ err e
        | ok (s', some output) ↦ ok (s', result_of_output output)
        | ok (s', none) ↦ judge_loop-eq-judge_by_rules s' rules i
      ])
      else if is_type rule.rtype (codes "all")
      then ok (s, decide rule)
      else judge_loop-eq-judge_by_rules s rules i
