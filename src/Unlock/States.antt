-- ===== src/Unlock/States.antt =====
-- src/db/puzzle.rs: `RbPuzzleStates`, what a gate sees of a team, and the two places that build it:
-- `unlock_new_puzzles` and `team_gate_state_conn`. The lists of rounds and of puzzles of a database
-- stand in the order of the queries.
use rbph_website_backend.Prelude.{
  ℕ, Str, Option, none, some, List, [], ◌∷◌, ◌++◌, Bool, false, ◌&&◌, any, leb, if◌then◌else◌,
  str_eq, text_eq, nat_eq, lookup, insert, ℤ, pos, negsuc, eqℤ, leℤ, i32_max,
}
use rbph_website_backend.Expr.Ast.{PuzzleStates}
use rbph_website_backend.Submit.Rows.{Team, Puzzle, Round, TeamPuzzle, Trigger, Db, select}
use rbph_website_backend.Submit.Guards.{is_team}
use rbph_website_backend.Submit.Context.{is_some}

pub record RbPuzzleStates : Type 0 where
  pub solved : List ℤ
  pub puzzle_slugs : List (Str × ℕ)
  pub round_slugs : List (Str × ℕ)
  pub round_puzzles : List (ℕ × List ℕ)
  pub triggers : List (ℤ × Str)
  pub game_started : Bool

-- `i32::try_from` of a u32 and `u32::try_from` of an i32.
unfoldable pub i32_or_max : ℕ → ℤ
i32_or_max id = if leb id 2147483647 then pos id else i32_max

unfoldable pub to_u32 : ℤ → Option ℕ
to_u32 (pos n) = some n
to_u32 (negsuc n) = none

unfoldable pub u32_or_zero : ℤ → ℕ
u32_or_zero (pos n) = n
u32_or_zero (negsuc n) = 0

abbrev u32_all : List ℤ → List ℕ
u32_all [] = []
u32_all (id ∷ ids) = u32_or_zero id ∷ u32_all ids

-- The fields of the `impl PuzzleStates`.
unfoldable pub states_is_solved : RbPuzzleStates → ℕ → Bool
unfolding eqℤ i32_or_max
states_is_solved s id = any (λ x. eqℤ x (i32_or_max id)) s.solved

unfoldable pub puzzle_states : RbPuzzleStates → PuzzleStates
unfolding states_is_solved lookup eqℤ i32_or_max u32_or_zero
puzzle_states s = record {
  is_solved = λ id. states_is_solved s id;
  solved = u32_all s.solved;
  puzzle_slug = λ slug. lookup slug s.puzzle_slugs;
  round_slug = λ slug. lookup slug s.round_slugs;
  round_puzzles = λ id. lookup id s.round_puzzles;
  game_started = s.game_started;
  is_triggered = λ id key. any (λ x. eqℤ x.0 (i32_or_max id) && str_eq x.1 key) s.triggers;
}

-- `tp.state >= 1` of the team.
unfoldable pub solved_ids : ℤ → List TeamPuzzle → List ℤ
unfolding eqℤ leℤ
solved_ids team_id [] = []
solved_ids team_id (tp ∷ rows) =
    let rest = solved_ids team_id rows in
    if eqℤ tp.team_id team_id && leℤ (pos 1) tp.state then tp.puzzle_id ∷ rest else rest

unfoldable pub team_triggers : ℤ → List Trigger → List (ℤ × Str)
unfolding eqℤ
team_triggers team_id [] = []
team_triggers team_id (x ∷ rows) =
    let rest = team_triggers team_id rows in
    if eqℤ x.team_id team_id then (x.puzzle_id, x.trigger_key) ∷ rest else rest

-- The rows of `rb_puzzle` joined with `rb_round`, of the rounds of the game.
unfoldable pub puzzle_rows : ℤ → List Round → List Puzzle → List (Puzzle × Round)
unfolding select eqℤ
puzzle_rows game_id rounds [] = []
puzzle_rows game_id rounds (p ∷ puzzles) =
    let rest = puzzle_rows game_id rounds puzzles in
    elim (select (λ r. eqℤ r.id p.round_id) rounds) [
      | none ↦ rest
      | some r ↦ if eqℤ r.game_id game_id then (p, r) ∷ rest else rest
    ]

abbrev add_slug : Option Str → ℕ → List (Str × ℕ) → List (Str × ℕ)
add_slug none id slugs = slugs
add_slug (some slug) id slugs = insert slug id slugs

-- The loop over the rounds.
unfoldable pub round_slugs_of : ℤ → List Round → List (Str × ℕ) → List (Str × ℕ)
unfolding insert u32_or_zero eqℤ
round_slugs_of game_id [] slugs = slugs
round_slugs_of game_id (r ∷ rounds) slugs =
    round_slugs_of game_id rounds
      (if eqℤ r.game_id game_id then add_slug r.slug (u32_or_zero r.id) slugs else slugs)

-- `row.round_puzzle_id != Some(row_id)`.
abbrev is_meta : Option ℤ → ℤ → Bool
is_meta none id = false
is_meta (some puzzle) id = eqℤ puzzle id

-- `entry(round).or_default().push(id)`.
abbrev push_puzzle : ℕ → ℕ → List (ℕ × List ℕ) → List (ℕ × List ℕ)
push_puzzle round id m = insert round (or_default (lookup round m) ++ id ∷ []) m
  where
    or_default : Option (List ℕ) → List ℕ
    or_default none = []
    or_default (some ids) = ids

-- The loop over the puzzles of `unlock_new_puzzles`, for the slugs and for the rounds.
unfoldable pub puzzle_slugs_of : List (Puzzle × Round) → List (Str × ℕ) → List (Str × ℕ)
unfolding insert u32_or_zero
puzzle_slugs_of [] slugs = slugs
puzzle_slugs_of ((p, _) ∷ rows) slugs =
    puzzle_slugs_of rows (add_slug p.slug (u32_or_zero p.id) slugs)

unfoldable pub round_puzzles_of : List (Puzzle × Round) → List (ℕ × List ℕ) → List (ℕ × List ℕ)
unfolding lookup insert u32_or_zero eqℤ
round_puzzles_of [] m = m
round_puzzles_of ((p, r) ∷ rows) m =
    round_puzzles_of rows (
      if is_meta r.puzzle p.id
      then m
      else push_puzzle (u32_or_zero p.round_id) (u32_or_zero p.id) m)

-- The state that `unlock_new_puzzles` builds.
unfoldable pub unlock_states : Team → Db → RbPuzzleStates
unfolding solved_ids team_triggers puzzle_rows round_slugs_of puzzle_slugs_of round_puzzles_of
unlock_states team db =
    let rows = puzzle_rows team.game_id db.rounds db.puzzles in
    record {
      solved = solved_ids team.id db.team_puzzles;
      puzzle_slugs = puzzle_slugs_of rows [];
      round_slugs = round_slugs_of team.game_id db.rounds [];
      round_puzzles = round_puzzles_of rows [];
      triggers = team_triggers team.id db.triggers;
      game_started = is_some team.start_at;
    }

-- The rows of the query of `team_gate_state_conn`, which asks for the game of the puzzle.
unfoldable pub gate_rows : ℤ → List Round → List Puzzle → List (Puzzle × Round)
unfolding select eqℤ
gate_rows game_id rounds [] = []
gate_rows game_id rounds (p ∷ puzzles) =
    let rest = gate_rows game_id rounds puzzles in
    elim (select (λ r. eqℤ r.id p.round_id) rounds) [
      | none ↦ rest
      | some r ↦ if eqℤ p.game_id game_id then (p, r) ∷ rest else rest
    ]

-- Its loops pass over a number that is no u32.
abbrev add_slug_u32 : Option Str → Option ℕ → List (Str × ℕ) → List (Str × ℕ)
add_slug_u32 slug none slugs = slugs
add_slug_u32 slug (some id) slugs = add_slug slug id slugs

unfoldable pub gate_round_slugs : ℤ → List Round → List (Str × ℕ) → List (Str × ℕ)
unfolding insert to_u32 eqℤ
gate_round_slugs game_id [] slugs = slugs
gate_round_slugs game_id (r ∷ rounds) slugs =
    gate_round_slugs game_id rounds
      (if eqℤ r.game_id game_id then add_slug_u32 r.slug (to_u32 r.id) slugs else slugs)

unfoldable pub gate_puzzle_slugs : List (Puzzle × Round) → List (Str × ℕ) → List (Str × ℕ)
unfolding insert to_u32
gate_puzzle_slugs [] slugs = slugs
gate_puzzle_slugs ((p, _) ∷ rows) slugs =
    gate_puzzle_slugs rows (add_slug_u32 p.slug (to_u32 p.id) slugs)

abbrev push_puzzle_u32 : Option ℕ → Option ℕ → List (ℕ × List ℕ) → List (ℕ × List ℕ)
push_puzzle_u32 none id m = m
push_puzzle_u32 (some round) none m = m
push_puzzle_u32 (some round) (some id) m = push_puzzle round id m

unfoldable pub gate_round_puzzles : List (Puzzle × Round) → List (ℕ × List ℕ) → List (ℕ × List ℕ)
unfolding lookup insert to_u32 eqℤ
gate_round_puzzles [] m = m
gate_round_puzzles ((p, r) ∷ rows) m =
    gate_round_puzzles rows
      (if is_meta r.puzzle p.id then m else push_puzzle_u32 (to_u32 p.round_id) (to_u32 p.id) m)

-- `team_gate_state_conn`: none where there is no such team.
unfoldable pub team_gate_state : ℤ → Db → Option RbPuzzleStates
unfolding select solved_ids team_triggers gate_rows gate_round_slugs gate_puzzle_slugs
    gate_round_puzzles
team_gate_state team_id db = elim (select (is_team team_id) db.teams) [
  | none ↦ none
  | some team ↦
      let rows = gate_rows team.game_id db.rounds db.puzzles in
      some (record {
        solved = solved_ids team_id db.team_puzzles;
        puzzle_slugs = gate_puzzle_slugs rows [];
        round_slugs = gate_round_slugs team.game_id db.rounds [];
        round_puzzles = gate_round_puzzles rows [];
        triggers = team_triggers team_id db.triggers;
        game_started = is_some team.start_at;
      })
]
