-- ===== src/Teams/Changes.antt =====
-- src/db/team.rs: how a team changes: `leave`, `kick_member`, `promote_member`, `disband` and
-- `user_update`.
use rbph_website_backend.Prelude.{
  Str, Option, none, some, List, Bool, true, false, not, ◌&&◌, Result, ok, any, str_eq,
  if◌then◌else◌, ℤ, eqℤ,
}
use rbph_website_backend.Judge.{RbInternalError}
use rbph_website_backend.Submit.Rows.{
  Team, Game, Ticket, TicketOperation, Event, member_left, member_kicked, member_promoted,
  team_updated, team_disbanded, Db, select, update, delete,
}
use rbph_website_backend.Submit.Guards.{is_team}
use rbph_website_backend.Submit.Judging.{log_event}
use rbph_website_backend.Submit.Context.{is_some}
use rbph_website_backend.Teams.{
  TeamServices, is_game, of_team, of_member, answered, duplicate_team_name_exists,
}

-- The team of `WHERE … AND t.id = tm.team_id AND NOT t.is_locked`.
unfoldable pub unlocked_team : ℤ → Db → Option Team
unfolding select eqℤ
unlocked_team team_id db = elim (select (is_team team_id) db.teams) [
  | none ↦ none
  | some t ↦ if t.is_locked then none else some t
]

-- `DELETE FROM rb_team_member … RETURNING t.game_id`, and the event in a statement of its own.
unfoldable pub remove_member :
    TeamServices → ℤ → ℤ → (ℤ → ℤ → ℤ → Event) → Db → Db × Result RbInternalError Bool
unfolding unlocked_team delete log_event eqℤ
remove_member services team_id user_id event db = elim (unlocked_team team_id db) [
  | none ↦ (db, ok false)
  | some t ↦
      if any (of_member team_id user_id) db.members
      then (
        log_event (event t.game_id team_id user_id)
            (record db { members = delete (of_member team_id user_id) db.members }),
        answered true (services.invalidate_team_info team_id),
      )
      else (db, ok false)
]

unfoldable pub leave : TeamServices → ℤ → ℤ → Db → Db × Result RbInternalError Bool
unfolding remove_member
leave services team_id user_id db = remove_member services team_id user_id member_left db

unfoldable pub kick_member : TeamServices → ℤ → ℤ → Db → Db × Result RbInternalError Bool
unfolding remove_member
kick_member services team_id user_id db = remove_member services team_id user_id member_kicked db

unfoldable pub promote_member : TeamServices → ℤ → ℤ → Db → Db × Result RbInternalError Bool
unfolding select update log_event eqℤ
promote_member services team_id user_id db = elim (select (of_member team_id user_id) db.members) [
  | none ↦ (db, ok false)
  | some target ↦ (
    log_event (member_promoted target.game_id team_id user_id) (record db {
      members =
          update (of_team team_id) (λ m. record m { is_captain = eqℤ m.user_id user_id })
            db.members;
    }),
    answered true (services.invalidate_team_info team_id),
  )
]

-- A ticket's operations go with it.
abbrev without_ticket : List Ticket → TicketOperation → Bool
without_ticket tickets operation = not (any (λ x. eqℤ x.id operation.ticket_id) tickets)

-- `DELETE FROM rb_team`, with the rows that go by `ON DELETE CASCADE`.
unfoldable pub delete_team : ℤ → Db → Db
unfolding delete eqℤ
delete_team team_id db =
    let tickets = delete (λ row. eqℤ row.team_id team_id) db.tickets in
    record db {
      teams = delete (is_team team_id) db.teams;
      members = delete (of_team team_id) db.members;
      team_puzzles = delete (λ row. eqℤ row.team_id team_id) db.team_puzzles;
      submissions = delete (λ row. eqℤ row.team_id team_id) db.submissions;
      triggers = delete (λ row. eqℤ row.team_id team_id) db.triggers;
      team_hints = delete (λ row. eqℤ row.team_id team_id) db.team_hints;
      hint_enables = delete (λ row. eqℤ row.team_id team_id) db.hint_enables;
      hint_visibilities = delete (λ row. eqℤ row.team_id team_id) db.hint_visibilities;
      team_currencies = delete (λ row. eqℤ row.team_id team_id) db.team_currencies;
      tickets = tickets;
      ticket_operations = delete (without_ticket tickets) db.ticket_operations;
    }

unfoldable pub disband : TeamServices → ℤ → Db → Db × Result RbInternalError Bool
unfolding unlocked_team delete_team log_event eqℤ
disband services team_id db = elim (unlocked_team team_id db) [
  | none ↦ (db, ok false)
  | some t ↦
      if any (of_team team_id) db.members
      then (
        log_event (team_disbanded t.game_id team_id) (delete_team team_id db),
        answered true (services.remove_team_info t.game_id),
      )
      else (db, ok false)
]

pub record UserUpdateData : Type 0 where
  pub name : Option Str
  pub pass : Option Str
  pub bio : Option Str

pub data UserUpdateResult : Type 0 where
  bad : UserUpdateResult
  name_conflict : UserUpdateResult
  updated : UserUpdateResult

-- `current`: the team of which the user is captain.
unfoldable pub captain_team : ℤ → ℤ → Db → Option Team
unfolding select eqℤ
captain_team game_id user_id db =
    elim (select (λ m. eqℤ m.user_id user_id && eqℤ m.game_id game_id && m.is_captain) db.members) [
      | none ↦ none
      | some m ↦ select (is_team m.team_id) db.teams
    ]

abbrev or_old : Option Str → Str → Str
or_old none old = old
or_old (some new) old = new

abbrev pub set_fields : UserUpdateData → Team → Team
set_fields data' t = record t {
  name = or_old data'.name t.name;
  pass = or_old data'.pass t.pass;
  bio = or_old data'.bio t.bio;
}

-- The `UPDATE` of the fields that are given, and what follows it.
unfoldable pub store_fields :
    TeamServices → ℤ → ℤ → UserUpdateData → ℤ → Db → Db × Result RbInternalError UserUpdateResult
unfolding update log_event eqℤ
store_fields services game_id user_id data' team_id db =
    if not (is_some data'.name) && not (is_some data'.pass) && not (is_some data'.bio)
    then (db, ok bad)
    else (
      log_event
          (team_updated game_id team_id user_id (is_some data'.name) (is_some data'.pass)
            (is_some data'.bio))
          (record db { teams = update (is_team team_id) (set_fields data') db.teams }),
      answered updated (services.invalidate_team_info team_id),
    )

-- Whether a new name is refused: none where it is taken as it is.
unfoldable pub name_refused : TeamServices → Game → Team → Option Str → Db → Option UserUpdateResult
unfolding duplicate_team_name_exists
name_refused services g t none db = none
name_refused services g t (some name) db =
    if t.is_locked
    then some bad
    else if not (str_eq (services.normalized t.name) (services.normalized name))
        && not g.allow_duplicate_names
        && duplicate_team_name_exists services g.id name (some t.id) db
    then some name_conflict
    else none

unfoldable pub user_update :
    TeamServices → ℤ → ℤ → UserUpdateData → Db → Db × Result RbInternalError UserUpdateResult
unfolding select captain_team name_refused store_fields eqℤ
user_update services game_id user_id data' db = elim (select (is_game game_id) db.games) [
  | none ↦ (db, ok bad)
  | some g ↦ elim (captain_team game_id user_id db) [
    | none ↦ (db, ok bad)
    | some t ↦ elim (name_refused services g t data'.name db) [
      | some refusal ↦ (db, ok refusal)
      | none ↦ store_fields services game_id user_id data' t.id db
    ]
  ]
]
