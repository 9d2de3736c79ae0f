-- ===== src/Unlock/Gates.antt =====
-- src/db/puzzle.rs: the state for the gates of hints, of `team_gate_state_conn`, against the state
-- for the gates of puzzles, of `unlock_new_puzzles`.
use rbph_website_backend.Prelude.{
  ℕ, Str, none, some, List, [], ◌∷◌, Bool, true, ◌&&◌, all, and_split, ℤ, pos, negsuc, eqℤ, eqℤ_iff,
  leℤ, ◌≡◌, refl, inl, inr, Bool-cases, Option-cases,
}
use rbph_website_backend.Submit.Rows.{Team, Puzzle, Round, Db, select}
use rbph_website_backend.Submit.Rows.Queries.{select-holds}
use rbph_website_backend.Submit.Guards.{is_team}
use rbph_website_backend.Unlock.States.{
  to_u32, u32_or_zero, puzzle_rows, gate_rows, round_slugs_of, gate_round_slugs, puzzle_slugs_of,
  gate_puzzle_slugs, round_puzzles_of, gate_round_puzzles, unlock_states, team_gate_state,
}

-- The key of the round that `rb_puzzle` names, where there is one, agrees on the game.
abbrev same_game : List Round → Puzzle → Bool
same_game rounds p = elim (select (λ r. eqℤ r.id p.round_id) rounds) [
  | none ↦ true
  | some r ↦ eqℤ r.game_id p.game_id
]

abbrev is_serial : ℤ → Bool
is_serial id = leℤ (pos 0) id

-- What the tables keep: serial numbers, and a puzzle is of the game of its round.
abbrev pub fits : Db → Bool
fits db =
    all (λ r. is_serial r.id) db.rounds
    && all (λ p. is_serial p.id && is_serial p.round_id && same_game db.rounds p) db.puzzles

serial-to_u32 : (id : ℤ) → is_serial id ≡ true → to_u32 id ≡ some (u32_or_zero id)
unfolding to_u32 u32_or_zero leℤ
serial-to_u32 (pos n) h = refl
serial-to_u32 (negsuc n) h = cc

gate_rows-same :
    (game : ℤ) (rounds : List Round) (puzzles : List Puzzle)
    → all (λ p. is_serial p.id && is_serial p.round_id && same_game rounds p) puzzles ≡ true
    → gate_rows game rounds puzzles ≡ puzzle_rows game rounds puzzles
unfolding gate_rows puzzle_rows
gate_rows-same game rounds [] h = refl
gate_rows-same game rounds (p ∷ puzzles) h =
    let (one, rest) = and_split _ _ h in
    let same = (and_split (is_serial p.id && is_serial p.round_id) (same_game rounds p) one).1 in
    elim (Option-cases (select (λ r. eqℤ r.id p.round_id) rounds)) [
      | inl no_round ↦
          rw (no_round, gate_rows, puzzle_rows) (gate_rows-same game rounds puzzles rest)
      | inr (r, of_round) ↦
          rw
            (
              of_round,
              gate_rows,
              puzzle_rows,
              gate_rows-same game rounds puzzles rest,
              (eqℤ_iff r.game_id p.game_id).0 (rw (of_round, same_game) at same),
            )
            refl
    ]

gate_round_slugs-same :
    (game : ℤ) (rounds : List Round) (slugs : List (Str × ℕ))
    → all (λ r. is_serial r.id) rounds ≡ true
    → gate_round_slugs game rounds slugs ≡ round_slugs_of game rounds slugs
unfolding gate_round_slugs round_slugs_of
gate_round_slugs-same game [] slugs h = refl
gate_round_slugs-same game (r ∷ rounds) slugs h =
    let (one, rest) = and_split _ _ h in
    rw (serial-to_u32 r.id one) (gate_round_slugs-same game rounds _ rest)

abbrev serial_row : Puzzle × Round → Bool
serial_row (p, _) = is_serial p.id && is_serial p.round_id

puzzle_rows-serial :
    (game : ℤ) (rounds : List Round) (puzzles : List Puzzle)
    → all (λ p. is_serial p.id && is_serial p.round_id && same_game rounds p) puzzles ≡ true
    → all serial_row (puzzle_rows game rounds puzzles) ≡ true
unfolding puzzle_rows
puzzle_rows-serial game rounds [] h = refl
puzzle_rows-serial game rounds (p ∷ puzzles) h =
    let (one, rest) = and_split _ _ h in
    let serial = and_split (is_serial p.id && is_serial p.round_id) (same_game rounds p) one in
    elim (Option-cases (select (λ r. eqℤ r.id p.round_id) rounds)) [
      | inl no_round ↦ rw (no_round, puzzle_rows) (puzzle_rows-serial game rounds puzzles rest)
      | inr (r, of_round) ↦ elim (Bool-cases (eqℤ r.game_id game)) [
        | inl mine ↦
            rw (of_round, puzzle_rows, mine, serial.0) (puzzle_rows-serial game rounds puzzles rest)
        | inr other ↦
            rw (of_round, puzzle_rows, other) (puzzle_rows-serial game rounds puzzles rest)
      ]
    ]

gate_puzzle_slugs-same :
    (rows : List (Puzzle × Round)) (slugs : List (Str × ℕ))
    → all serial_row rows ≡ true
    → gate_puzzle_slugs rows slugs ≡ puzzle_slugs_of rows slugs
unfolding gate_puzzle_slugs puzzle_slugs_of
gate_puzzle_slugs-same [] slugs h = refl
gate_puzzle_slugs-same ((p, _) ∷ rows) slugs h =
    let (one, rest) = and_split _ _ h in
    rw (serial-to_u32 p.id (and_split _ _ one).0) (gate_puzzle_slugs-same rows _ rest)

gate_round_puzzles-same :
    (rows : List (Puzzle × Round)) (m : List (ℕ × List ℕ))
    → all serial_row rows ≡ true
    → gate_round_puzzles rows m ≡ round_puzzles_of rows m
unfolding gate_round_puzzles round_puzzles_of
gate_round_puzzles-same [] m h = refl
gate_round_puzzles-same ((p, r) ∷ rows) m h =
    let (one, rest) = and_split _ _ h in
    let serial = and_split _ _ one in
    rw (serial-to_u32 p.id serial.0, serial-to_u32 p.round_id serial.1)
      (gate_round_puzzles-same rows _ rest)

-- Where the numbers of the tables are serial and each puzzle is of the game of its round, the state
-- that `team_gate_state_conn` builds for the gates of hints is the one that `unlock_new_puzzles`
-- builds for the gates of puzzles, although the queries and the conversions differ.
pub team_gate_state-unlock_states :
    (t : ℤ) (db : Db) (team : Team)
    → fits db ≡ true
    → select (is_team t) db.teams ≡ some team
    → team_gate_state t db ≡ some (unlock_states team db)
unfolding team_gate_state unlock_states
team_gate_state-unlock_states t db team h of_team =
    let (rounds, puzzles) = and_split _ _ h in
    let rows = puzzle_rows-serial team.game_id db.rounds db.puzzles puzzles in
    let same = (eqℤ_iff team.id t).0 (select-holds (is_team t) db.teams of_team) in
    rw
      (
        of_team,
        team_gate_state,
        same,
        gate_rows-same team.game_id db.rounds db.puzzles puzzles,
        gate_round_slugs-same team.game_id db.rounds [] rounds,
        gate_puzzle_slugs-same _ [] rows,
        gate_round_puzzles-same _ [] rows,
      )
      refl
