-- ===== src/Teams.antt =====
-- src/db/team.rs: who is in which team: `join`, `user_create`, `leave`, `disband`, `kick_member`,
-- `promote_member` and `user_update`. A user's row is not modelled, and a number of the sequence
-- that a transaction takes and gives up is given to the next one.
pub mod Changes
pub mod Counts
pub mod Sound
use rbph_website_backend.Prelude.{
  Str, codes, Option, none, some, List, [], ◌∷◌, Bool, true, false, not, ◌&&◌, ◌||◌, Result, ok,
  err, any, str_eq, if◌then◌else◌, ℤ, pos, eqℤ, ltℤ, ◌+ℤ◌,
}
use rbph_website_backend.Judge.{RbInternalError, sql, other}
use rbph_website_backend.Submit.Rows.{
  Team, Member, Game, Puzzle, Round, TeamPuzzle, GameFeature, Ticket, Event, member_joined,
  member_left, member_kicked, member_promoted, team_created, team_updated, team_disbanded, Db,
  select, count, update, delete,
}
use rbph_website_backend.Submit.Guards.{is_team}
use rbph_website_backend.Submit.Judging.{log_event}
use rbph_website_backend.Submit.Context.{is_some}
use rbph_website_backend.Unlock.{insert_unlocks}
use rbph_website_backend.Unlock.States.{puzzle_rows}
use rbph_website_backend.Hints.Refresh.{refresh_team_hint_enablements}

-- What the operations call: `LOWER(BTRIM(…))` of the database, and the caches behind a commit.
pub record TeamServices : Type 0 where
  pub normalized : Str → Str
  pub invalidate_team_info : ℤ → Result RbInternalError Bool
  pub remove_team_info : ℤ → Result RbInternalError Bool

abbrev pub is_game : ℤ → Game → Bool
is_game game_id g = eqℤ g.id game_id

abbrev pub of_team : ℤ → Member → Bool
of_team team_id m = eqℤ m.team_id team_id

abbrev pub of_member : ℤ → ℤ → Member → Bool
of_member team_id user_id m = eqℤ m.team_id team_id && eqℤ m.user_id user_id

-- `COALESCE((SELECT gf.state = 1 …), TRUE)` of the feature that lets teams form.
unfoldable pub team_open : ℤ → Db → Bool
unfolding select eqℤ
team_open game_id db =
    elim (select (λ gf. eqℤ gf.game_id game_id && eqℤ gf.feature_type (pos 0)) db.features) [
      | none ↦ true
      | some gf ↦ eqℤ gf.state (pos 1)
    ]

-- The keys of `rb_team_member`: the primary key, and the user in the game.
abbrev pub has_key : ℤ → ℤ → ℤ → Member → Bool
has_key team_id user_id game_id m =
    of_member team_id user_id m || eqℤ m.user_id user_id && eqℤ m.game_id game_id

abbrev pub new_member : ℤ → ℤ → ℤ → Bool → Member
new_member team_id user_id game_id is_captain = record {
  team_id = team_id;
  user_id = user_id;
  game_id = game_id;
  is_captain = is_captain;
}

-- What a call answers behind its commit, where the cache may fail.
abbrev pub answered : {A : Type 0} → A → Result RbInternalError Bool → Result RbInternalError A
answered a (ok _) = ok a
answered a (err e) = err e

pub data TeamJoinResult : Type 0 where
  not_found : TeamJoinResult
  not_open : TeamJoinResult
  wrong_pwd : TeamJoinResult
  team_full : TeamJoinResult
  banned : TeamJoinResult
  to_many : TeamJoinResult
  joined : TeamJoinResult

-- `member_count >= max_members`.
unfoldable pub is_full : Option ℤ → ℤ → Db → Bool
unfolding count eqℤ ltℤ
is_full none team_id db = false
is_full (some max_members) team_id db =
    not (ltℤ (pos (count (of_team team_id) db.members)) max_members)

-- The insert of `join`: a row with one of the keys is an error.
unfoldable pub insert_member :
    TeamServices → Team → ℤ → Db → Db × Result RbInternalError TeamJoinResult
unfolding eqℤ log_event
insert_member services t user_id db =
    if any (has_key t.id user_id t.game_id) db.members
    then (db, err (sql (codes "duplicate key value violates unique constraint")))
    else (
      log_event (member_joined t.game_id t.id user_id)
          (record db { members = new_member t.id user_id t.game_id false ∷ db.members }),
      answered joined (services.invalidate_team_info t.id),
    )

unfoldable pub join : TeamServices → ℤ → ℤ → Str → Db → Db × Result RbInternalError TeamJoinResult
unfolding select team_open is_full insert_member eqℤ
join services team_id user_id password db = elim (select (is_team team_id) db.teams) [
  | none ↦ (db, ok not_found)
  | some t ↦
      if not (team_open t.game_id db)
      then (db, ok not_open)
      else if t.is_banned
      then (db, ok banned)
      else if not (str_eq t.pass password)
      then (db, ok wrong_pwd)
      else elim (select (is_game t.game_id) db.games) [
        | none ↦ (db, err (other (codes "Game not found")))
        | some g ↦
            if is_full g.max_members t.id db
            then (db, ok team_full)
            else insert_member services t user_id db
      ]
]

pub record RbTeamPutData : Type 0 where
  pub name : Str
  pub pass : Str
  pub bio : Str
  pub game_id : ℤ

pub data TeamCreateResult : Type 0 where
  not_open : TeamCreateResult
  to_many : TeamCreateResult
  name_conflict : TeamCreateResult
  created : ℤ → TeamCreateResult

-- `($3::INT IS NULL OR id <> $3)`.
abbrev is_other : Option ℤ → ℤ → Bool
is_other none id = true
is_other (some exclude_team_id) id = not (eqℤ id exclude_team_id)

unfoldable pub duplicate_team_name_exists : TeamServices → ℤ → Str → Option ℤ → Db → Bool
unfolding eqℤ
duplicate_team_name_exists services game_id name exclude_team_id db =
    any
      (λ t.
        eqℤ t.game_id game_id
        && str_eq (services.normalized t.name) (services.normalized name)
        && is_other exclude_team_id t.id)
      db.teams

abbrev no_condition : List (Puzzle × Round) → List ℤ
no_condition [] = []
no_condition ((p, _) ∷ rows) =
    let rest = no_condition rows in if is_some p.unlock_cond then rest else p.id ∷ rest

-- The puzzles of the game that have no condition are open from the start.
unfoldable pub init_team_puzzles : ℤ → ℤ → ℤ → Db → Db
unfolding puzzle_rows insert_unlocks
init_team_puzzles now team_id game_id db = record db {
  team_puzzles =
      (insert_unlocks now team_id (no_condition (puzzle_rows game_id db.rounds db.puzzles))
        db.team_puzzles).0;
}

abbrev pub new_team : ℤ → RbTeamPutData → Team
new_team id data' = record {
  id = id;
  game_id = data'.game_id;
  name = data'.name;
  pass = data'.pass;
  bio = data'.bio;
  is_banned = false;
  is_locked = false;
  start_at = none;
  finish_at = none;
  content_blocks_dirty = true;
}

-- The inserts of `user_create` and what follows them.
unfoldable pub insert_team : ℤ → ℤ → RbTeamPutData → Db → Db
unfolding ◌+ℤ◌ init_team_puzzles log_event refresh_team_hint_enablements
insert_team now user_id data' db =
    let id = db.next_team in
    let inserted = record db {
      teams = new_team id data' ∷ db.teams;
      next_team = id +ℤ pos 1;
      members = new_member id user_id data'.game_id true ∷ db.members;
    } in
    refresh_team_hint_enablements now
      (log_event (team_created data'.game_id id user_id data'.name)
        (init_team_puzzles now id data'.game_id inserted))
      id none

unfoldable pub user_create : TeamServices → ℤ → ℤ → RbTeamPutData → Db → Db × TeamCreateResult
unfolding select team_open duplicate_team_name_exists insert_team eqℤ
user_create services now user_id data' db = elim (select (is_game data'.game_id) db.games) [
  | none ↦ (db, TeamCreateResult.not_open)
  | some g ↦
      if not (team_open data'.game_id db)
      then (db, TeamCreateResult.not_open)
      else if not g.allow_duplicate_names
          && duplicate_team_name_exists services data'.game_id data'.name none db
      then (db, name_conflict)
      else if any (λ m. eqℤ m.user_id user_id && eqℤ m.game_id data'.game_id) db.members
      then (db, TeamCreateResult.to_many)
      else (insert_team now user_id data' db, created db.next_team)
]
