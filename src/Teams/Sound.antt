-- ===== src/Teams/Sound.antt =====
-- src/db/team.rs: what holds of the teams and their members, whatever is called.
pub mod Inserts
pub mod Removals
pub mod Steps
use rbph_website_backend.Prelude.{
  ℕ, ◌≤◌, Option, none, some, List, Bool, true, false, ◌&&◌, ◌||◌, all, leb, if◌then◌else◌, ℤ, pos,
  eqℤ, leℤ, ltℤ, ◌≡◌,
}
use rbph_website_backend.Submit.Rows.{Team, Member, Game, Db, select, count}
use rbph_website_backend.Submit.Guards.{is_team}
use rbph_website_backend.Teams.{is_game, of_team, of_member}

abbrev pub captain_of : ℤ → Member → Bool
captain_of t m = eqℤ m.team_id t && m.is_captain

abbrev pub in_game : ℤ → ℤ → Member → Bool
in_game user_id game_id m = eqℤ m.user_id user_id && eqℤ m.game_id game_id

-- `max_members` of a game, and of the team's game.
unfoldable pub game_max : List Game → ℤ → Option ℤ
unfolding select eqℤ
game_max games game_id = elim (select (is_game game_id) games) [
  | none ↦ none
  | some g ↦ g.max_members
]

unfoldable pub max_of : ℤ → List Team → List Game → Option ℤ
unfolding select game_max eqℤ
max_of t teams games = elim (select (is_team t) teams) [
  | none ↦ none
  | some team ↦ game_max games team.game_id
]

-- Who founds a team is in it whatever the maximum.
unfoldable pub fits : Option ℤ → ℕ → Bool
unfolding leℤ
fits none n = true
fits (some max) n = leb n 1 || leℤ (pos n) max

-- A team has one captain at most, a user stands in a team once, and in one team of a game.
abbrev pub Few : List Member → Type 0
Few rows =
    ((t : ℤ) → count (captain_of t) rows ≤ 1)
    × ((t u : ℤ) → count (of_member t u) rows ≤ 1)
    × ((u g : ℤ) → count (in_game u g) rows ≤ 1)

-- No team is larger than its game lets it be.
abbrev pub Sizes : List Team → List Member → List Game → Type 0
Sizes teams rows games = (t : ℤ) → fits (max_of t teams games) (count (of_team t) rows) ≡ true

-- The sequence is past the numbers that are in use.
abbrev pub Fresh : List Team → List Member → ℤ → Type 0
Fresh teams rows next =
    (all (λ m. ltℤ m.team_id next) rows ≡ true) × (all (λ t. ltℤ t.id next) teams ≡ true)

abbrev pub SoundTables : List Team → List Member → List Game → ℤ → Type 0
SoundTables teams rows games next = (Few rows) × (Sizes teams rows games) × (Fresh teams rows next)

abbrev pub Sound : Db → Type 0
Sound db = SoundTables db.teams db.members db.games db.next_team
