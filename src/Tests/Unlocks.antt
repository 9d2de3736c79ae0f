-- ===== src/Tests/Unlocks.antt =====
-- Unlocks of a team that has solved the puzzle of a gate, and its hints.
use rbph_website_backend.Prelude.{
  ℕ, ◌≡◌, refl, codes, true, false, none, some, [], ◌∷◌, ◌||◌, ok, pos, eqℤ, leℤ, is_whitespace,
}
use rbph_website_backend.Expr.Compiler.{gate_branch}
use rbph_website_backend.Expr.Compiler.Forms.{gate_form}
use rbph_website_backend.Expr.Compiler.Atoms.{parse_puzzle_ref}
use rbph_website_backend.Expr.Compiler.Fold.{negate_gate}
use rbph_website_backend.Expr.Eval.{eval_compiled, resolve_puzzle}
use rbph_website_backend.Submit.Rows.{Puzzle, Db, select}
use rbph_website_backend.Judge.{no_match}
use rbph_website_backend.Model.Game.{correct}
use rbph_website_backend.Submit.Transaction.{Accepted, Committed, first_locals, after_commit}
use rbph_website_backend.Unlock.Submitted.{with_unlocks, after_commit-is_closed}
use rbph_website_backend.Submit.Guards.{is_team}
use rbph_website_backend.Tests.Fixtures.{services, puzzle, team, team_puzzle, db}
use rbph_website_backend.Unlock.{gate_of, unlock_new_puzzles}
use rbph_website_backend.Unlock.States.{
  states_is_solved, puzzle_states, unlock_states, team_gate_state,
}
use rbph_website_backend.Unlock.Opening.{has_row, is_open}
use rbph_website_backend.Unlock.Closed.{
  is_closed, unlock_new_puzzles-has_row, unlock_new_puzzles-is_closed,
  unlock_new_puzzles-idempotent,
}
use rbph_website_backend.Unlock.Gates.{fits, team_gate_state-unlock_states}

-- The second puzzle opens when the first is solved, the third never.
abbrev gated : Puzzle
gated = record puzzle {
  id = pos 6;
  unlock_cond = some (codes "(solved 5)");
  slug = some (codes "s");
}

abbrev shut : Puzzle
shut = record puzzle { id = pos 8; unlock_cond = some (codes "(not (solved 5))") }

abbrev solved_db : Db
solved_db = record db {
  rounds = record { id = pos 2; slug = some (codes "r"); game_id = pos 1; puzzle = none } ∷ [];
  puzzles = puzzle ∷ gated ∷ shut ∷ [];
  team_puzzles = record team_puzzle { state = pos 1; solve_at = some (pos 1) } ∷ [];
}

opens_the_second : (unlock_new_puzzles (pos 9) solved_db (pos 7)).1 ≡ ok (pos 6 ∷ [])
unfolding unlock_new_puzzles is_whitespace gate_branch gate_form parse_puzzle_ref resolve_puzzle
    negate_gate
opens_the_second = refl

the_team : select (is_team (pos 7)) solved_db.teams ≡ some team
unfolding select eqℤ
the_team = refl

unlock_new_puzzles-has_row_example :
    has_row (pos 7) (pos 6) (unlock_new_puzzles (pos 9) solved_db (pos 7)).0.team_puzzles
    ≡ (has_row (pos 7) (pos 6) solved_db.team_puzzles || is_open team solved_db (pos 6))
unlock_new_puzzles-has_row_example =
    unlock_new_puzzles-has_row (pos 9) (pos 7) (pos 6) solved_db team the_team

unlock_new_puzzles-is_closed_example :
    is_closed (pos 7) (unlock_new_puzzles (pos 9) solved_db (pos 7)).0 ≡ true
unlock_new_puzzles-is_closed_example = unlock_new_puzzles-is_closed (pos 9) (pos 7) solved_db

was_open : is_closed (pos 7) solved_db ≡ false
unfolding is_closed unlock_states gate_of is_whitespace gate_branch gate_form parse_puzzle_ref
    states_is_solved eval_compiled resolve_puzzle puzzle_states
was_open = refl

unlock_new_puzzles-idempotent_example :
    unlock_new_puzzles (pos 12) (unlock_new_puzzles (pos 9) solved_db (pos 7)).0 (pos 7)
    ≡ ((unlock_new_puzzles (pos 9) solved_db (pos 7)).0, ok [])
unlock_new_puzzles-idempotent_example =
    unlock_new_puzzles-idempotent (pos 9) (pos 12) (pos 7) solved_db

tables_fit : fits solved_db ≡ true
unfolding select leℤ eqℤ
tables_fit = refl

team_gate_state-unlock_states_example :
    team_gate_state (pos 7) solved_db ≡ some (unlock_states team solved_db)
team_gate_state-unlock_states_example =
    team_gate_state-unlock_states (pos 7) solved_db team tables_fit the_team

-- A submission that solved the first puzzle.
abbrev done : Committed ℕ
done = record {
  db = solved_db;
  team_id = pos 7;
  puzzle_id = pos 5;
  result = record no_match { action = correct };
  rules = [];
  locals = record (first_locals false) { solved = true; do_unlock = true };
  trigger_inserted = false;
  backend_events = [];
}

abbrev answer : Accepted ℕ ℕ ℕ
answer = record {
  result = record no_match { action = correct };
  solved = true;
  unlocks = pos 6 ∷ [];
  cooldown_till = none;
  state = 0;
  currency = [];
  currency_penalty = [];
  content_changed = true;
  backend_events = [];
}

answered : (after_commit (with_unlocks (pos 9) services) done).1 ≡ ok answer
unfolding after_commit unlock_new_puzzles is_whitespace gate_branch gate_form parse_puzzle_ref
    resolve_puzzle negate_gate
answered = refl

after_commit-is_closed_example :
    is_closed (pos 7) (after_commit (with_unlocks (pos 9) services) done).0 ≡ true
after_commit-is_closed_example = after_commit-is_closed services (pos 9) done answer refl answered
