-- ===== src/Submit/Frame.antt =====
-- src/db/puzzle.rs: what the steps behind the verdict leave alone.
use rbph_website_backend.Prelude.{
  eqℤ, arith, ◌&&◌, Bool, codes, Option, none, some, List, [], ◌∷◌, Bool, true, false, Result, ok,
  err, >>=-eq-ok, any, ℤ, pos, minℤ, within, i32_min, i32_max, ◌-ℤ◌, ◌≡◌, refl, ◌∙◌, inl, inr,
  Bool-cases, Option-cases,
}
use rbph_website_backend.Model.Game.{
  RbJudgeAction, RbPuzzlePenaltyType, fixed_time, linear_time, currency, no_penalty,
}
use rbph_website_backend.Judge.{sql, json}
use rbph_website_backend.Submit.Rows.{
  PenaltyRule, TeamPuzzle, TeamCurrency, Currency, Db, select, update,
}
use rbph_website_backend.Submit.Guards.{
  Stop, failed, of_team_puzzle, is_team, has_id, failures, is_currency_feature, or_fail, accrued,
  bigint,
}
use rbph_website_backend.Submit.Judging.{log_event, mark_team_dirty}
use rbph_website_backend.Submit.Context.{Ctx, Locals}
use rbph_website_backend.Submit.Penalties.{
  charge, charge_rows, penalty_rows, apply_penalty, apply_penalties, set_cooldown, on_fail,
}
use rbph_website_backend.Submit.Outcome.{
  is_unsolved, close_puzzle_tickets, set_finished, set_solved, on_correct, on_start_game, on_action,
}

-- The team has solved the puzzle.
unfoldable pub is_solved : ℤ → ℤ → Db → Bool
unfolding eqℤ
is_solved t q db = any (λ tp. of_team_puzzle t q tp && eqℤ tp.state (pos 1)) db.team_puzzles

-- The submissions, their sequence and the triggers are as they were, and what was solved is solved.
abbrev pub Frame : Db → Db → Type 0
Frame a b =
    (b.submissions ≡ a.submissions)
    × (b.next_submission ≡ a.next_submission)
    × (b.triggers ≡ a.triggers)
    × ((t q : ℤ) → is_solved t q a ≡ true → is_solved t q b ≡ true)

pub Frame-refl : (a : Db) → Frame a a
Frame-refl a = (refl, refl, refl, λ t q h. h)

pub Frame-trans : (a b c : Db) → Frame a b → Frame b c → Frame a c
Frame-trans a b c (p, q, r, s) (p', q', r', s') =
    (p' ∙ p, q' ∙ q, r' ∙ r, λ t i h. s' t i (s t i h))

any-update :
    (p w : TeamPuzzle → Bool) (f : TeamPuzzle → TeamPuzzle) (rows : List TeamPuzzle)
    → ((row : TeamPuzzle) → p row ≡ true → p (f row) ≡ true)
    → any p rows ≡ true
    → any p (update w f rows) ≡ true
unfolding update
any-update p w f [] keeps h = h
any-update p w f (row ∷ rows) keeps h = elim (Bool-cases (w row)) [
  | inl v ↦ rw v (ground (arith, keeps row, any-update p w f rows keeps))
  | inr v ↦ rw v (ground (arith, any-update p w f rows keeps))
]

-- A step that ends well keeps the frame.
abbrev pub Keeps : Db → Result Stop (Db × Locals) → Type 0
Keeps a r = (b : Db) (locals : Locals) → r ≡ ok (b, locals) → Frame a b

-- A step that gives a known database.
keeps_same :
    (a x b : Db) (l l' : Locals)
    → Path (Result Stop (Db × Locals)) (ok (x, l)) (ok (b, l'))
    → Frame a x
    → Frame a b
keeps_same a x b l l' h f = let p : x ≡ b = cc h in rw (← p) f

charge_rows-Keeps :
    (c : Ctx) (amount : ℤ) (locals : Locals) (a : Db) (rows : Option (TeamCurrency × Currency))
    → Keeps a (charge_rows c amount locals a rows)
unfolding charge_rows log_event is_solved
charge_rows-Keeps c amount locals a none b l h = keeps_same a a b locals l h (Frame-refl a)
charge_rows-Keeps c amount locals a (some (tc, k)) b l h =
    let (grown, _, h₁) = >>=-eq-ok (accrued c.now k tc) _ h in
    let (before, _, h₂) = >>=-eq-ok (bigint (minℤ grown k.max_amount)) _ h₁ in
    let (after, _, h₃) = >>=-eq-ok (bigint (before -ℤ amount)) _ h₂ in
    keeps_same a _ b _ l h₃ (refl, refl, refl, λ t q s. s)

apply_penalty-Keeps :
    (c : Ctx) (n : ℤ) (type : RbPuzzlePenaltyType) (args : List ℤ) (locals : Locals) (a : Db)
    → Keeps a (apply_penalty c n type args locals a)
unfolding apply_penalty charge
apply_penalty-Keeps c n no_penalty args locals a b l h = keeps_same a a b locals l h (Frame-refl a)
apply_penalty-Keeps c n fixed_time [] locals a b l h = keeps_same a a b locals l h (Frame-refl a)
apply_penalty-Keeps c n fixed_time (_ ∷ _) locals a b l h = keeps_same a a b _ l h (Frame-refl a)
apply_penalty-Keeps c n linear_time [] locals a b l h = keeps_same a a b locals l h (Frame-refl a)
apply_penalty-Keeps c n linear_time (_ ∷ _) locals a b l h = keeps_same a a b _ l h (Frame-refl a)
apply_penalty-Keeps c n currency [] locals a b l h = keeps_same a a b locals l h (Frame-refl a)
apply_penalty-Keeps c n currency (_ ∷ []) locals a b l h =
    keeps_same a a b locals l h (Frame-refl a)
apply_penalty-Keeps c n currency (k ∷ amount ∷ _) locals a b l h =
    elim (Bool-cases (within i32_min i32_max k)) [
      | inl p ↦ charge_rows-Keeps c amount locals a (penalty_rows c.team_id k a) b l (rw p at h)
      | inr p ↦ keeps_same a a b locals l (rw p at h) (Frame-refl a)
    ]

apply_penalties-Keeps :
    (c : Ctx) (n : ℤ) (rules : List PenaltyRule) (locals : Locals) (a : Db)
    → Keeps a (apply_penalties c n rules locals a)
unfolding apply_penalties
apply_penalties-Keeps c n [] locals a b l h = keeps_same a a b locals l h (Frame-refl a)
apply_penalties-Keeps c n (rule ∷ rules) locals a b l h =
    let ((a', l'), e, h') = >>=-eq-ok (apply_penalty c n rule.rtype rule.args locals a) _ h in
    Frame-trans a a' b (apply_penalty-Keeps c n rule.rtype rule.args locals a a' l' e)
      (apply_penalties-Keeps c n rules l' a' b l h')

set_cooldown-Keeps :
    (c : Ctx) (seconds : Option ℤ) (locals : Locals) (a : Db)
    → Keeps a (set_cooldown c seconds locals a)
unfolding set_cooldown is_solved
set_cooldown-Keeps c none locals a b l h = keeps_same a a b locals l h (Frame-refl a)
set_cooldown-Keeps c (some time) locals a b l h =
    let (_, _, h') =
      >>=-eq-ok
        (or_fail (sql (codes "RowNotFound"))
          (select (of_team_puzzle c.team_id c.puzzle_id) a.team_puzzles))
        _ h in
    keeps_same a _ b _ l h'
      (refl, refl, refl, λ t q s. any-update _ _ _ a.team_puzzles (λ row e. e) s)

on_fail-Keeps : (c : Ctx) (locals : Locals) (a : Db) → Keeps a (on_fail c locals a)
unfolding on_fail
on_fail-Keeps c locals a b l h =
    let no_row = sql (codes "RowNotFound") in
    let (p, _, h₁) = >>=-eq-ok (or_fail no_row (select (has_id c.puzzle_id) a.puzzles)) _ h in
    let (rules, _, h₂) =
      >>=-eq-ok (elim p.penalty [ err message ↦ err (failed (json message)) | ok rules ↦ ok rules ])
        _ h₁ in
    let n = pos (failures c.team_id c.puzzle_id a) in
    let ((a', l'), e, h₃) = >>=-eq-ok (apply_penalties c n rules locals a) _ h₂ in
    Frame-trans a a' b (apply_penalties-Keeps c n rules locals a a' l' e)
      (set_cooldown-Keeps c l'.cooldown_seconds l' a' b l h₃)

on_start_game-Keeps : (c : Ctx) (locals : Locals) (a : Db) → Keeps a (on_start_game c locals a)
unfolding on_start_game mark_team_dirty log_event is_solved
on_start_game-Keeps c locals a b l h =
    let no_row = sql (codes "RowNotFound") in
    let (feature, _, h₁) =
      >>=-eq-ok (or_fail no_row (select (is_currency_feature c.puzzle.game_id) a.features)) _ h in
    let (team, _, h₂) = >>=-eq-ok (or_fail no_row (select (is_team c.team_id) a.teams)) _ h₁ in
    elim (Option-cases team.start_at) [
      | inl p ↦ keeps_same a _ b _ l (rw p at h₂) (refl, refl, refl, λ t q s. s)
      | inr (at, p) ↦ keeps_same a _ b _ l (rw p at h₂) (refl, refl, refl, λ t q s. s)
    ]

set_solved-keeps :
    (c : Ctx) (a : Db) (t q : ℤ) → is_solved t q a ≡ true → is_solved t q (set_solved c a) ≡ true
unfolding set_solved is_solved
set_solved-keeps c a t q h =
    any-update _ (λ x. is_unsolved c.team_id c.puzzle_id x)
      (λ x. record x { state = pos 1; solve_at = some c.now }) a.team_puzzles
      (λ row e. ground (arith, e)) h

on_correct-Frame :
    (c : Ctx) (finishes : Bool) (locals : Locals) (a : Db)
    → Frame a (on_correct c finishes locals a).0
unfolding on_correct set_solved set_finished mark_team_dirty log_event close_puzzle_tickets
    is_solved
on_correct-Frame c true locals a =
    elim (Bool-cases (any (is_unsolved c.team_id c.puzzle_id) a.team_puzzles)) [
      | inl p ↦ rw p (refl, refl, refl, set_solved-keeps c a)
      | inr p ↦ rw p (refl, refl, refl, set_solved-keeps c a)
    ]
on_correct-Frame c false locals a =
    elim (Bool-cases (any (is_unsolved c.team_id c.puzzle_id) a.team_puzzles)) [
      | inl p ↦ rw p (refl, refl, refl, set_solved-keeps c a)
      | inr p ↦ rw p (refl, refl, refl, set_solved-keeps c a)
    ]

pub on_action-Keeps :
    (c : Ctx) (action : RbJudgeAction) (locals : Locals) (a : Db)
    → Keeps a (on_action c action locals a)
unfolding on_action
on_action-Keeps c RbJudgeAction.correct locals a b l h =
    keeps_same a _ b _ l h (on_correct-Frame c false locals a)
on_action-Keeps c RbJudgeAction.finish_game locals a b l h =
    keeps_same a _ b _ l h (on_correct-Frame c true locals a)
on_action-Keeps c RbJudgeAction.start_game locals a b l h = on_start_game-Keeps c locals a b l h
on_action-Keeps c RbJudgeAction.fail locals a b l h = on_fail-Keeps c locals a b l h
on_action-Keeps c RbJudgeAction.error locals a b l h = keeps_same a a b _ l h (Frame-refl a)
on_action-Keeps c RbJudgeAction.pending locals a b l h = keeps_same a a b _ l h (Frame-refl a)
on_action-Keeps c RbJudgeAction.milestone locals a b l h = keeps_same a a b _ l h (Frame-refl a)
on_action-Keeps c RbJudgeAction.easter_egg locals a b l h = keeps_same a a b _ l h (Frame-refl a)
on_action-Keeps c RbJudgeAction.invalid locals a b l h = keeps_same a a b _ l h (Frame-refl a)
