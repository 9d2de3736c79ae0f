-- ===== src/Unlock/Closed.antt =====
-- src/db/puzzle.rs: the state of the unlocks of a team behind `unlock_new_puzzles`.
use rbph_website_backend.Prelude.{
  Option-cases, none, some, List, [], Bool, true, false, ◌||◌, or_right, ◌&&◌, not, subst, subst⁻¹,
  all, some, ok, any, if◌then◌else◌, ℤ, eqℤ, eqℤ_iff, ◌≡◌, refl, sym, ap, ◌∙◌, inl, inr, Bool-cases,
}
use rbph_website_backend.Submit.Rows.{TeamPuzzle, Team, Db, Event, select, update}
use rbph_website_backend.Submit.Rows.Queries.{select-update, select-holds, all-of_keys, keys-of_all}
use rbph_website_backend.Submit.Guards.{is_team}
use rbph_website_backend.Submit.Judging.{mark_team_dirty}
use rbph_website_backend.Unlock.States.{unlock_states, puzzle_rows}
use rbph_website_backend.Unlock.{
  insert_unlocks, is_nil, log_unlocks, store_unlocks, due_unlocks, unlock_new_puzzles,
}
use rbph_website_backend.Unlock.Opening.{
  insert_unlocks-solved_ids, has_row, opens, is_in, is_open, unlocks_of-is_in,
  insert_unlocks-has_row, insert_unlocks-solved_ids, insert_unlocks-all, log_unlocks-frame,
}

abbrev dirty : Team → Team
dirty row = record row { content_blocks_dirty = true }

-- The rows of the teams afterwards.
abbrev dirty_teams : ℤ → Bool → List Team → List Team
dirty_teams t unchanged teams = if unchanged then teams else update (is_team t) dirty teams

store_unlocks-db :
    (now t : ℤ) (ids : List ℤ) (db : Db)
    → (log : List Event) × ((store_unlocks now t ids db).0 ≡ record db {
      team_puzzles = (insert_unlocks now t ids db.team_puzzles).0;
      teams = dirty_teams t (is_nil (insert_unlocks now t ids db.team_puzzles).1) db.teams;
      event_log = log;
    })
unfolding store_unlocks mark_team_dirty
store_unlocks-db now t ids db =
    let (rows, inserted) = insert_unlocks now t ids db.team_puzzles in
    let stored = record db { team_puzzles = rows } in
    elim (Bool-cases (is_nil inserted)) [
      | inl none_new ↦
          let (log, same) = log_unlocks-frame t inserted stored in (log, rw none_new same)
      | inr some_new ↦
          let (log, same) = log_unlocks-frame t inserted (mark_team_dirty t stored) in
          (log, rw some_new same)
    ]

-- All the rows of a team that the function may read afterwards.
pub unlock_new_puzzles-db :
    (now t : ℤ) (db : Db) (team : Team)
    → select (is_team t) db.teams ≡ some team
    → unlock_new_puzzles now db t ≡ (
      (store_unlocks now team.id (due_unlocks team db) db).0,
      ok (store_unlocks now team.id (due_unlocks team db) db).1,
    )
unfolding unlock_new_puzzles
unlock_new_puzzles-db now t db team h = rw (h, unlock_new_puzzles) refl

absent_unchanged :
    (now t : ℤ) (db : Db)
    → select (is_team t) db.teams ≡ none
    → (unlock_new_puzzles now db t).0 ≡ db
unfolding unlock_new_puzzles
absent_unchanged now t db absent = rw (absent, unlock_new_puzzles) refl

due_unlocks-is_in :
    (team : Team) (db : Db) (q : ℤ) → is_in q (due_unlocks team db) ≡ is_open team db q
unfolding due_unlocks
due_unlocks-is_in team db q =
    unlocks_of-is_in (unlock_states team db) q (puzzle_rows team.game_id db.rounds db.puzzles)

-- After `unlock_new_puzzles` of a team that exists, the team has a row for a puzzle exactly if it had
-- one before, or the puzzle is one of its game whose gate is open and which it has not solved.
pub unlock_new_puzzles-has_row :
    (now t q : ℤ) (db : Db) (team : Team)
    → select (is_team t) db.teams ≡ some team
    → has_row team.id q (unlock_new_puzzles now db t).0.team_puzzles
      ≡ (has_row team.id q db.team_puzzles || is_open team db q)
unlock_new_puzzles-has_row now t q db team h =
    let (log, stored) = store_unlocks-db now team.id (due_unlocks team db) db in
    rw (unlock_new_puzzles-db now t db team h) (
      rw stored (
        rw (← due_unlocks-is_in team db q)
          (insert_unlocks-has_row now team.id q (due_unlocks team db) db.team_puzzles)))

-- The row of the team is the one before, but for its flag.
select-dirty :
    (t : ℤ) (teams : List Team) (team : Team)
    → select (is_team t) teams ≡ some team
    → (same : Bool)
    → (b : Bool) × (select (is_team t) (dirty_teams t same teams)
        ≡ some (record team { content_blocks_dirty = b }))
select-dirty t teams team h true = (team.content_blocks_dirty, h)
select-dirty t teams team h false = (true, select-update (is_team t) dirty (λ row. refl) teams h)

-- Every puzzle that opens has its row.
unfoldable pub is_closed : ℤ → Db → Bool
unfolding select eqℤ puzzle_rows unlock_states
is_closed t db = elim (select (is_team t) db.teams) [
  | none ↦ true
  | some team ↦
      all (λ row. not (opens (unlock_states team db) row.0) || has_row t row.0.id db.team_puzzles)
        (puzzle_rows team.game_id db.rounds db.puzzles)
]

is_closed-team :
    (t : ℤ) (db : Db) (team : Team)
    → select (is_team t) db.teams ≡ some team
    → is_closed t db
      ≡ all
          (λ row. not (opens (unlock_states team db) row.0) || has_row t row.0.id db.team_puzzles)
          (puzzle_rows team.game_id db.rounds db.puzzles)
unfolding is_closed
is_closed-team t db team h = rw (h, is_closed) refl

module _ (now : ℤ) (db : Db) (team : Team) (h : select (is_team team.id) db.teams ≡ some team) where
  -- Behind the function, for a team that is there.
  opened-is_closed : is_closed team.id (unlock_new_puzzles now db team.id).0 ≡ true
  unfolding unlock_states
  opened-is_closed =
      let ids = due_unlocks team db in
      let (rows, inserted) = insert_unlocks now team.id ids db.team_puzzles in
      let (log, stored) = store_unlocks-db now team.id ids db in
      let (b, h') = select-dirty team.id db.teams team h (is_nil inserted) in
      let after : Db = record db {
        team_puzzles = rows;
        teams = dirty_teams team.id (is_nil inserted) db.teams;
        event_log = log;
      } in
      rw (unlock_new_puzzles-db now team.id db team h, stored)
        (is_closed-team team.id after (record team { content_blocks_dirty = b }) h'
          ∙ all-of_keys (λ row. row.0.id) (λ row. opens (unlock_states team after) row.0)
              (λ q. has_row team.id q rows) (puzzle_rows team.game_id db.rounds db.puzzles)
              (λ q opening.
                insert_unlocks-has_row now team.id q ids db.team_puzzles
                ∙ or_right (has_row team.id q db.team_puzzles) (
                    due_unlocks-is_in team db q
                    ∙ ap
                        (λ state.
                          any (λ row. eqℤ row.0.id q && opens state row.0)
                            (puzzle_rows team.game_id db.rounds db.puzzles))
                        (ap (λ solved. record (unlock_states team db) { solved = solved })
                          (sym (insert_unlocks-solved_ids now team.id team.id ids db.team_puzzles)))
                    ∙ opening)))

  -- Where nothing is to be opened it changes nothing.
  unlock_closed : is_closed team.id db ≡ true → unlock_new_puzzles now db team.id ≡ (db, ok [])
  unfolding store_unlocks log_unlocks
  unlock_closed closed = rw (unlock_new_puzzles-db now team.id db team h) (
      rw
        (insert_unlocks-all now team.id (due_unlocks team db) db.team_puzzles (λ q in_ids.
          keys-of_all (λ row. row.0.id) (λ row. opens (unlock_states team db) row.0)
            (λ i. has_row team.id i db.team_puzzles) (puzzle_rows team.game_id db.rounds db.puzzles)
            (sym (is_closed-team team.id db team h) ∙ closed) q
            (sym (due_unlocks-is_in team db q) ∙ in_ids)))
        refl)

-- The properties for any number: of a team that is there, or not.
module _ (now t : ℤ) (db : Db) where
  at_team :
      (P : ℤ → Type 0)
      → (select (is_team t) db.teams ≡ none → P t)
      → ((team : Team) → select (is_team team.id) db.teams ≡ some team → P team.id)
      → P t
  at_team P absent present = elim (Option-cases (select (is_team t) db.teams)) [
    | inl no_team ↦ absent no_team
    | inr (team, h) ↦
        let same = (eqℤ_iff team.id t).0 (select-holds (is_team t) db.teams h) in
        subst P same (present team (subst⁻¹ (λ i. select (is_team i) db.teams ≡ some team) same h))
  ]

  -- After `unlock_new_puzzles`, whatever the database held, every puzzle of the team's game whose
  -- gate is open and which the team has not solved has a row of the team.
  pub unlock_new_puzzles-is_closed : is_closed t (unlock_new_puzzles now db t).0 ≡ true
  unfolding unlock_new_puzzles is_closed
  unlock_new_puzzles-is_closed =
      at_team (λ i. is_closed i (unlock_new_puzzles now db i).0 ≡ true)
        (λ absent. rw (absent, unlock_new_puzzles) (rw (absent, is_closed) refl))
        (opened-is_closed now db)

  unlock_new_puzzles-closed : is_closed t db ≡ true → unlock_new_puzzles now db t ≡ (db, ok [])
  unfolding unlock_new_puzzles
  unlock_new_puzzles-closed =
      at_team (λ i. is_closed i db ≡ true → unlock_new_puzzles now db i ≡ (db, ok []))
        (λ absent closed. rw (absent, unlock_new_puzzles) refl) (unlock_closed now db)

-- A second call of `unlock_new_puzzles` for the same team, at any later time, opens nothing and
-- leaves the database as the first call left it: its rows, its flags and its events.
pub unlock_new_puzzles-idempotent :
    (now later t : ℤ) (db : Db)
    → unlock_new_puzzles later (unlock_new_puzzles now db t).0 t
      ≡ ((unlock_new_puzzles now db t).0, ok [])
unlock_new_puzzles-idempotent now later t db =
    unlock_new_puzzles-closed later t (unlock_new_puzzles now db t).0
      (unlock_new_puzzles-is_closed now t db)

-- What unlocking changes of a database.
pub unlock_new_puzzles-frame :
    (now t : ℤ) (db : Db)
    → (rows : List TeamPuzzle) × (teams : List Team) × (log : List Event) × ((unlock_new_puzzles now
          db t).0
        ≡ record db { team_puzzles = rows; teams = teams; event_log = log })
unlock_new_puzzles-frame now t db =
    at_team now t db
      (λ i.
        (rows : List TeamPuzzle) × (teams : List Team) × (log : List Event) × ((unlock_new_puzzles
            now db i).0
          ≡ record db { team_puzzles = rows; teams = teams; event_log = log }))
      (λ absent. (db.team_puzzles, db.teams, db.event_log, absent_unchanged now t db absent))
      (λ team h.
        let ids = due_unlocks team db in
        let (rows, inserted) = insert_unlocks now team.id ids db.team_puzzles in
        let (log, stored) = store_unlocks-db now team.id ids db in
        (
          rows,
          dirty_teams team.id (is_nil inserted) db.teams,
          log,
          rw (unlock_new_puzzles-db now team.id db team h) stored,
        ))
