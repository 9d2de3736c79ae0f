-- ===== src/Teams/Sound/Steps.antt =====
-- src/db/team.rs: every operation on teams and members as a step, and what any sequence of them keeps.
use rbph_website_backend.Prelude.{
  Str, Option, none, some, Bool, true, false, not, ◌&&◌, any, str_eq, if◌then◌else◌, ℤ, eqℤ_iff,
  ◌≡◌, refl, subst⁻¹, inl, inr, Option-cases,
}
use rbph_website_backend.Submit.Rows.{Team, Event, Game, Db, select, member_left, member_kicked}
use rbph_website_backend.Submit.Rows.Queries.{select-holds}
use rbph_website_backend.Submit.Guards.{is_team}
use rbph_website_backend.Submit.Judging.{log_event}
use rbph_website_backend.Submit.Context.{is_some}
use rbph_website_backend.Unlock.States.{RbPuzzleStates}
use rbph_website_backend.Hints.Refresh.{store_new_states, refresh_team_hint_enablements}
use rbph_website_backend.Teams.{
  TeamServices, RbTeamPutData, is_game, of_team, of_member, has_key, team_open, is_full,
  insert_member, join, init_team_puzzles, duplicate_team_name_exists, insert_team, user_create,
}
use rbph_website_backend.Teams.Changes.{
  UserUpdateData, unlocked_team, remove_member, leave, kick_member, promote_member, delete_team,
  disband, captain_team, name_refused, set_fields, store_fields, user_update,
}
use rbph_website_backend.Teams.Sound.{in_game, Sound}
use rbph_website_backend.Teams.Sound.Inserts.{join-SoundTables, create-SoundTables}
use rbph_website_backend.Teams.Sound.Removals.{
  leave-SoundTables, disband-SoundTables, promote-SoundTables, change-SoundTables,
}

-- One branch or the other keeps what both keep.
either :
    {A : Type 0} (b : Bool) (x y : Db × A)
    → (b ≡ true → Sound x.0)
    → (b ≡ false → Sound y.0)
    → Sound (if b then x else y).0
either true x y one other = one refl
either false x y one other = other refl

by_id :
    (team_id : ℤ) (t : Team) (db : Db)
    → select (is_team team_id) db.teams ≡ some t
    → select (is_team t.id) db.teams ≡ some t
by_id team_id t db found =
    subst⁻¹ (λ i. select (is_team i) db.teams ≡ some t)
      ((eqℤ_iff t.id team_id).0 (select-holds (is_team team_id) db.teams found)) found

-- The refresh of the hints writes another table.
store_new_states-Sound :
    (now t : ℤ) (puzzle_id : Option ℤ) (db : Db) (state : Option RbPuzzleStates)
    → Sound db
    → Sound (store_new_states now t puzzle_id db state)
unfolding store_new_states
store_new_states-Sound now t puzzle_id db none sound = sound
store_new_states-Sound now t puzzle_id db (some state) sound = sound

insert_team-Sound :
    (now u : ℤ) (data' : RbTeamPutData) (db : Db)
    → Sound db
    → any (in_game u data'.game_id) db.members ≡ false
    → Sound (insert_team now u data' db)
unfolding insert_team init_team_puzzles log_event refresh_team_hint_enablements
insert_team-Sound now u data' db sound free =
    store_new_states-Sound now db.next_team none _ _
      (create-SoundTables u data' db.teams db.members db.games db.next_team sound free)

module _ (services : TeamServices) where
  insert_member-Sound :
      (t : Team) (u : ℤ) (g : Game) (db : Db)
      → Sound db
      → select (is_team t.id) db.teams ≡ some t
      → select (is_game t.game_id) db.games ≡ some g
      → is_full g.max_members t.id db ≡ false
      → Sound (insert_member services t u db).0
  unfolding insert_member log_event
  insert_member-Sound t u g db sound of_team_row of_game room =
      either (any (has_key t.id u t.game_id) db.members) _ _ (λ _. sound)
        (join-SoundTables t u g db sound of_team_row of_game room)

  join-Sound :
      (team_id user_id : ℤ) (password : Str) (db : Db)
      → Sound db
      → Sound (join services team_id user_id password db).0
  unfolding join
  join-Sound team_id user_id password db sound =
      elim (Option-cases (select (is_team team_id) db.teams)) [
        | inl no_team ↦ rw (no_team, join) sound
        | inr (t, found) ↦
            rw (found, join)
              (either (not (team_open t.game_id db)) _ _ (λ _. sound)
                λ _.
                  either t.is_banned _ _ (λ _. sound)
                    λ _.
                      either (not (str_eq t.pass password)) _ _ (λ _. sound)
                        λ _. elim (Option-cases (select (is_game t.game_id) db.games)) [
                          | inl no_game ↦ rw no_game sound
                          | inr (g, of_game) ↦ rw of_game (
                              either (is_full g.max_members t.id db) _ _ (λ _. sound)
                                λ room.
                                  insert_member-Sound t user_id g db sound
                                    (by_id team_id t db found) of_game room)
                        ])
      ]

  user_create-Sound :
      (now user_id : ℤ) (data' : RbTeamPutData) (db : Db)
      → Sound db
      → Sound (user_create services now user_id data' db).0
  unfolding user_create
  user_create-Sound now user_id data' db sound =
      elim (Option-cases (select (is_game data'.game_id) db.games)) [
        | inl no_game ↦ rw (no_game, user_create) sound
        | inr (g, of_game) ↦
            rw (of_game, user_create)
              (either (not (team_open data'.game_id db)) _ _ (λ _. sound)
                λ _.
                  either
                    (not g.allow_duplicate_names
                      && duplicate_team_name_exists services data'.game_id data'.name none db)
                    _ _ (λ _. sound)
                    λ _.
                      either (any (in_game user_id data'.game_id) db.members) _ _ (λ _. sound)
                        (insert_team-Sound now user_id data' db sound))
      ]

  remove_member-Sound :
      (team_id user_id : ℤ) (event : ℤ → ℤ → ℤ → Event) (db : Db)
      → Sound db
      → Sound (remove_member services team_id user_id event db).0
  unfolding remove_member log_event
  remove_member-Sound team_id user_id event db sound =
      elim (Option-cases (unlocked_team team_id db)) [
        | inl no_team ↦ rw (no_team, remove_member) sound
        | inr (t, found) ↦
            rw (found, remove_member)
              (either (any (of_member team_id user_id) db.members) _ _
                (λ _.
                  leave-SoundTables (of_member team_id user_id) db.teams db.members db.games
                    db.next_team sound)
                (λ _. sound))
      ]

  promote_member-Sound :
      (team_id user_id : ℤ) (db : Db)
      → Sound db
      → Sound (promote_member services team_id user_id db).0
  unfolding promote_member log_event
  promote_member-Sound team_id user_id db sound =
      elim (Option-cases (select (of_member team_id user_id) db.members)) [
        | inl no_member ↦ rw (no_member, promote_member) sound
        | inr (m, found) ↦
            rw (found, promote_member)
              (promote-SoundTables team_id user_id db.teams db.members db.games db.next_team sound)
      ]

  disband-Sound : (team_id : ℤ) (db : Db) → Sound db → Sound (disband services team_id db).0
  unfolding disband delete_team log_event
  disband-Sound team_id db sound = elim (Option-cases (unlocked_team team_id db)) [
    | inl no_team ↦ rw (no_team, disband) sound
    | inr (t, found) ↦
        rw (found, disband)
          (either (any (of_team team_id) db.members) _ _
            (λ _. disband-SoundTables team_id db.teams db.members db.games db.next_team sound)
            (λ _. sound))
  ]

  store_fields-Sound :
      (game_id user_id : ℤ) (data' : UserUpdateData) (team_id : ℤ) (db : Db)
      → Sound db
      → Sound (store_fields services game_id user_id data' team_id db).0
  unfolding store_fields log_event
  store_fields-Sound game_id user_id data' team_id db sound =
      either (not (is_some data'.name) && not (is_some data'.pass) && not (is_some data'.bio)) _ _
        (λ _. sound)
        (λ _.
          change-SoundTables (is_team team_id) (set_fields data') db.teams db.members db.games
            db.next_team (λ x. refl) (λ x. refl) sound)

  user_update-Sound :
      (game_id user_id : ℤ) (data' : UserUpdateData) (db : Db)
      → Sound db
      → Sound (user_update services game_id user_id data' db).0
  unfolding user_update
  user_update-Sound game_id user_id data' db sound =
      elim (Option-cases (select (is_game game_id) db.games)) [
        | inl no_game ↦ rw (no_game, user_update) sound
        | inr (g, of_game) ↦ elim (Option-cases (captain_team game_id user_id db)) [
          | inl no_team ↦ rw (of_game, user_update, no_team) sound
          | inr (t, of_captain) ↦ elim (Option-cases (name_refused services g t data'.name db)) [
            | inl taken ↦
                rw (of_game, user_update, of_captain, taken)
                  (store_fields-Sound game_id user_id data' t.id db sound)
            | inr (refusal, refuses) ↦ rw (of_game, user_update, of_captain, refuses) sound
          ]
        ]
      ]

  -- A call of one of the operations.
  pub data Step : Db → Db → Type 0 where
    joins :
        (team_id user_id : ℤ) (password : Str) (db : Db)
        → Step db (join services team_id user_id password db).0
    creates :
        (now user_id : ℤ) (data' : RbTeamPutData) (db : Db)
        → Step db (user_create services now user_id data' db).0
    leaves : (team_id user_id : ℤ) (db : Db) → Step db (leave services team_id user_id db).0
    kicks : (team_id user_id : ℤ) (db : Db) → Step db (kick_member services team_id user_id db).0
    promotes :
        (team_id user_id : ℤ) (db : Db) → Step db (promote_member services team_id user_id db).0
    disbands : (team_id : ℤ) (db : Db) → Step db (disband services team_id db).0
    updates :
        (game_id user_id : ℤ) (data' : UserUpdateData) (db : Db)
        → Step db (user_update services game_id user_id data' db).0

  -- Any sequence of calls.
  pub data Reachable : Db → Db → Type 0 where
    start : (db : Db) → Reachable db db
    next : (a b c : Db) → Step a b → Reachable b c → Reachable a c

  Step-Sound : (a b : Db) → Step a b → Sound a → Sound b
  unfolding leave kick_member
  Step-Sound a b (joins team_id user_id password db) = join-Sound team_id user_id password db
  Step-Sound a b (creates now user_id data' db) = user_create-Sound now user_id data' db
  Step-Sound a b (leaves team_id user_id db) = remove_member-Sound team_id user_id member_left db
  Step-Sound a b (kicks team_id user_id db) = remove_member-Sound team_id user_id member_kicked db
  Step-Sound a b (promotes team_id user_id db) = promote_member-Sound team_id user_id db
  Step-Sound a b (disbands team_id db) = disband-Sound team_id db
  Step-Sound a b (updates game_id user_id data' db) = user_update-Sound game_id user_id data' db

  -- Whatever sequence of joins, foundings, departures, kicks, promotions, disbandings and changes of
  -- a team is called, refused or not: from a database in which each team has one captain at most
  -- and no more members than its game lets it have, each user stands in a team once and in one
  -- team of a game, and the sequence of numbers is past the teams, it leads to another such one.
  pub Reachable-Sound : (a b : Db) → Reachable a b → Sound a → Sound b
  Reachable-Sound _ _ (start db) sound = sound
  Reachable-Sound _ _ (next a b c step rest) sound =
      Reachable-Sound b c rest (Step-Sound a b step sound)
