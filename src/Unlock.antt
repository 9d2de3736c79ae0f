-- ===== src/Unlock.antt =====
-- src/db/puzzle.rs: `unlock_new_puzzles`, which opens puzzles by the gates of src/expr.
pub mod States
pub mod Opening
pub mod Closed
pub mod Gates
pub mod Submitted
use rbph_website_backend.Prelude.{
  Str, Option, none, some, List, [], ◌∷◌, Bool, true, false, not, ◌&&◌, Result, ok, err, any,
  if◌then◌else◌, ℤ, pos, eqℤ,
}
use rbph_website_backend.Expr.Ast.{GateExpr}
use rbph_website_backend.Expr.Cache.{ExprError, compile_gate_expr_uncached}
use rbph_website_backend.Expr.Eval.{eval_compiled}
use rbph_website_backend.Judge.{RbInternalError}
use rbph_website_backend.Submit.Rows.{Team, Puzzle, Round, TeamPuzzle, puzzle_unlocked, Db, select}
use rbph_website_backend.Submit.Guards.{is_team, has_id, of_team_puzzle}
use rbph_website_backend.Submit.Judging.{mark_team_dirty, log_event}
use rbph_website_backend.Unlock.States.{
  RbPuzzleStates, puzzle_states, states_is_solved, unlock_states, puzzle_rows, u32_or_zero,
}

-- The gate of a puzzle: none where it has no condition, or one that does not compile.
unfoldable pub gate_of : Option Str → Option GateExpr
unfolding compile_gate_expr_uncached
gate_of none = none
gate_of (some unlock_cond) = elim (compile_gate_expr_uncached unlock_cond) [
  | ok gate ↦ some gate
  | err error ↦ none
]

-- `conds`, from the loop over the puzzles.
unfoldable pub conds_of : List (Puzzle × Round) → List (ℤ × GateExpr)
unfolding gate_of
conds_of [] = []
conds_of ((p, _) ∷ rows) =
    let rest = conds_of rows in
    elim (gate_of p.unlock_cond) [ none ↦ rest | some gate ↦ (p.id, gate) ∷ rest ]

-- The test of the loop over `conds`.
unfoldable pub is_due : RbPuzzleStates → ℤ × GateExpr → Bool
unfolding states_is_solved puzzle_states u32_or_zero eval_compiled
is_due state (id, gate) =
    not (states_is_solved state (u32_or_zero id)) && eval_compiled (puzzle_states state) gate

unfoldable pub unlocks_of : RbPuzzleStates → List (ℤ × GateExpr) → List ℤ
unfolding is_due
unlocks_of state [] = []
unlocks_of state (cond ∷ conds) =
    let rest = unlocks_of state conds in if is_due state cond then cond.0 ∷ rest else rest

-- A row with the defaults of the table.
abbrev pub new_row : ℤ → ℤ → ℤ → TeamPuzzle
new_row now team_id puzzle_id = record {
  team_id = team_id;
  puzzle_id = puzzle_id;
  state = pos 0;
  max_submit = pos 0;
  ctime_at = now;
  solve_at = none;
  cooldown_till = none;
}

-- `INSERT INTO rb_team_puzzle … ON CONFLICT DO NOTHING RETURNING puzzle_id`.
unfoldable pub insert_unlocks : ℤ → ℤ → List ℤ → List TeamPuzzle → List TeamPuzzle × List ℤ
unfolding eqℤ
insert_unlocks now team_id [] rows = (rows, [])
insert_unlocks now team_id (id ∷ ids) rows =
    let taken = any (of_team_puzzle team_id id) rows in
    let (stored, inserted) =
      insert_unlocks now team_id ids (if taken then rows else new_row now team_id id ∷ rows) in
    (stored, if taken then inserted else id ∷ inserted)

abbrev pub round_of : ℤ → List Puzzle → ℤ
round_of id puzzles = elim (select (has_id id) puzzles) [ none ↦ pos 0 | some p ↦ p.round_id ]

-- The event of each puzzle that was inserted.
unfoldable pub log_unlocks : ℤ → List ℤ → Db → Db
unfolding select log_event eqℤ
log_unlocks team_id [] db = db
log_unlocks team_id (id ∷ ids) db =
    log_unlocks team_id ids (log_event (puzzle_unlocked team_id id (round_of id db.puzzles)) db)

abbrev pub is_nil : List ℤ → Bool
is_nil [] = true
is_nil (_ ∷ _) = false

-- The unlocks of a team, from the state on.
unfoldable pub store_unlocks : ℤ → ℤ → List ℤ → Db → Db × List ℤ
unfolding insert_unlocks mark_team_dirty log_unlocks
store_unlocks now team_id unlocks db =
    let (rows, inserted) = insert_unlocks now team_id unlocks db.team_puzzles in
    let stored = record db { team_puzzles = rows } in
    (
      log_unlocks team_id inserted
          (if is_nil inserted then stored else mark_team_dirty team_id stored),
      inserted,
    )

unfoldable pub due_unlocks : Team → Db → List ℤ
unfolding unlock_states conds_of unlocks_of puzzle_rows
due_unlocks team db =
    unlocks_of (unlock_states team db) (conds_of (puzzle_rows team.game_id db.rounds db.puzzles))

unfoldable pub unlock_new_puzzles : ℤ → Db → ℤ → Db × Result RbInternalError (List ℤ)
unfolding select due_unlocks store_unlocks eqℤ
unlock_new_puzzles now db team_id = elim (select (is_team team_id) db.teams) [
  | none ↦ (db, ok [])
  | some team ↦
      let (after, inserted) = store_unlocks now team.id (due_unlocks team db) db in
      (after, ok inserted)
]
