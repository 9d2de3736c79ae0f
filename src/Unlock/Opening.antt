-- ===== src/Unlock/Opening.antt =====
-- src/db/puzzle.rs: what `unlock_new_puzzles` opens: its rows, one by one.
use rbph_website_backend.Prelude.{
  or_right, none, some, List, [], ◌∷◌, Bool, true, false, not, ◌&&◌, ◌||◌, any, if◌then◌else◌, ℤ,
  eqℤ, eqℤ_iff, eqℤ_refl, leℤ, ◌≡◌, refl, sym, ◌∙◌, inl, inr, Bool-cases, Option-cases, arith,
}
use rbph_website_backend.Expr.Eval.{eval_compiled}
use rbph_website_backend.Submit.Rows.{Team, Puzzle, Round, TeamPuzzle, Event, puzzle_unlocked, Db}
use rbph_website_backend.Submit.Guards.{of_team_puzzle}
use rbph_website_backend.Submit.Judging.{log_event}
use rbph_website_backend.Unlock.States.{
  RbPuzzleStates, puzzle_states, states_is_solved, unlock_states, puzzle_rows, u32_or_zero,
  solved_ids,
}
use rbph_website_backend.Unlock.{
  gate_of, conds_of, is_due, unlocks_of, new_row, insert_unlocks, log_unlocks, round_of,
}

-- The team has a row for the puzzle: it is accessible or locked by hand.
abbrev pub has_row : ℤ → ℤ → List TeamPuzzle → Bool
has_row t q rows = any (of_team_puzzle t q) rows

abbrev pub is_in : ℤ → List ℤ → Bool
is_in q ids = any (λ id. eqℤ id q) ids

-- The gate of the puzzle is open, and the team has not solved it.
abbrev pub opens : RbPuzzleStates → Puzzle → Bool
opens state p = elim (gate_of p.unlock_cond) [
  | none ↦ false
  | some gate ↦
      not (states_is_solved state (u32_or_zero p.id)) && eval_compiled (puzzle_states state) gate
]

-- The puzzle with this number is one of the game, and it opens.
abbrev pub is_open : Team → Db → ℤ → Bool
is_open team db q =
    any (λ row. eqℤ row.0.id q && opens (unlock_states team db) row.0)
      (puzzle_rows team.game_id db.rounds db.puzzles)

-- The puzzles that are inserted are those that open.
pub unlocks_of-is_in :
    (state : RbPuzzleStates) (q : ℤ) (rows : List (Puzzle × Round))
    → is_in q (unlocks_of state (conds_of rows))
      ≡ any (λ row. eqℤ row.0.id q && opens state row.0) rows
unfolding unlocks_of conds_of is_due
unlocks_of-is_in state q [] = refl
unlocks_of-is_in state q ((p, r) ∷ rows) = elim (Option-cases (gate_of p.unlock_cond)) [
  | inl no_gate ↦
      rw (no_gate, unlocks_of, conds_of, opens)
        (unlocks_of-is_in state q rows
          ∙ no_more (eqℤ p.id q) (any (λ row. eqℤ row.0.id q && opens state row.0) rows))
  | inr (gate, has_gate) ↦
      rw (has_gate, unlocks_of, conds_of, opens)
        (due
          (not (states_is_solved state (u32_or_zero p.id))
            && eval_compiled (puzzle_states state) gate)
          (unlocks_of-is_in state q rows))
]
  where
    no_more : (a b : Bool) → b ≡ (a && false || b)
    no_more a b = ground arith

    due :
        (b : Bool)
        → is_in q (unlocks_of state (conds_of rows))
          ≡ any (λ row. eqℤ row.0.id q && opens state row.0) rows
        → is_in q (
            if b then p.id ∷ unlocks_of state (conds_of rows) else unlocks_of state (conds_of rows))
          ≡ (eqℤ p.id q && b || any (λ row. eqℤ row.0.id q && opens state row.0) rows)
    due b ih = ground arith

module _ (now t : ℤ) where
  -- The rows afterwards are the rows before and those of the list.
  pub insert_unlocks-has_row :
      (q : ℤ) (ids : List ℤ) (rows : List TeamPuzzle)
      → has_row t q (insert_unlocks now t ids rows).0 ≡ (has_row t q rows || is_in q ids)
  unfolding insert_unlocks
  insert_unlocks-has_row q [] rows = or_false (has_row t q rows)
    where
      or_false : (a : Bool) → a ≡ (a || false)
      or_false a = ground arith
  insert_unlocks-has_row q (id ∷ ids) rows = elim (Bool-cases (has_row t id rows)) [
    | inl taken ↦ rw taken (
        insert_unlocks-has_row q ids rows
        ∙ absorbs (has_row t q rows) (is_in q ids) (eqℤ id q) (same taken))
    | inr free ↦ rw free (
        insert_unlocks-has_row q ids (new_row now t id ∷ rows)
        ∙ rw (eqℤ_refl t) (shift (eqℤ id q) (has_row t q rows) (is_in q ids)))
  ]
    where
      same : has_row t id rows ≡ true → eqℤ id q ≡ true → has_row t q rows ≡ true
      same taken e = rw (sym ((eqℤ_iff id q).0 e)) taken

      absorbs : (a b c : Bool) → (c ≡ true → a ≡ true) → (a || b) ≡ (a || (c || b))
      absorbs true b c h = refl
      absorbs false b false h = refl
      absorbs false b true h = cc (h refl)

      shift : (c a b : Bool) → (c || a || b) ≡ (a || (c || b))
      shift c a b = ground arith

  -- The new rows are not solved.
  pub insert_unlocks-solved_ids :
      (u : ℤ) (ids : List ℤ) (rows : List TeamPuzzle)
      → solved_ids u (insert_unlocks now t ids rows).0 ≡ solved_ids u rows
  unfolding insert_unlocks solved_ids leℤ
  insert_unlocks-solved_ids u [] rows = refl
  insert_unlocks-solved_ids u (id ∷ ids) rows = elim (Bool-cases (has_row t id rows)) [
    | inl taken ↦ rw taken (insert_unlocks-solved_ids u ids rows)
    | inr free ↦
        rw free (insert_unlocks-solved_ids u ids (new_row now t id ∷ rows) ∙ unsolved (eqℤ t u))
  ]
    where
      unsolved :
          (a : Bool)
          → (if a && false then id ∷ solved_ids u rows else solved_ids u rows) ≡ solved_ids u rows
      unsolved true = refl
      unsolved false = refl

  -- Where every puzzle has its row, nothing is inserted.
  pub insert_unlocks-all :
      (ids : List ℤ) (rows : List TeamPuzzle)
      → ((q : ℤ) → is_in q ids ≡ true → has_row t q rows ≡ true)
      → insert_unlocks now t ids rows ≡ (rows, [])
  unfolding insert_unlocks
  insert_unlocks-all [] rows h = refl
  insert_unlocks-all (id ∷ ids) rows h =
      rw (h id (first (eqℤ_refl id)))
        (rw (insert_unlocks-all ids rows (λ q in_ids. h q (or_right (eqℤ id q) in_ids))) refl)
    where
      first : eqℤ id id ≡ true → is_in id (id ∷ ids) ≡ true
      first e = rw e refl

-- What the unlocks of a team change of the database.
pub log_unlocks-frame :
    (t : ℤ) (ids : List ℤ) (db : Db)
    → (log : List Event) × (log_unlocks t ids db ≡ record db { event_log = log })
unfolding log_unlocks log_event
log_unlocks-frame t [] db = (db.event_log, refl)
log_unlocks-frame t (id ∷ ids) db =
    log_unlocks-frame t ids (log_event (puzzle_unlocked t id (round_of id db.puzzles)) db)
