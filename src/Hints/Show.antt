-- ===== src/Hints/Show.antt =====
-- src/db/puzzle.rs: what a team sees of a puzzle's hints: `get_hints_show_for_team`,
-- `get_hints_team_state` and `next_hint_cooldown`.
pub mod Offered
use rbph_website_backend.Prelude.{
  Str, Option, none, some, List, [], ◌∷◌, Bool, true, false, not, ◌&&◌, ◌||◌, any, if◌then◌else◌, ℤ,
  pos, eqℤ, ltℤ, minℤ,
}
use rbph_website_backend.Submit.Rows.{Hint, Db, select}
use rbph_website_backend.Submit.Context.{is_some}
use rbph_website_backend.Unlock.States.{RbPuzzleStates}
use rbph_website_backend.Hints.{
  hint_field_visible, is_purchased, accessible_from, is_enabled, cooldown_until, cooldown_complete,
}
use rbph_website_backend.Hints.Refresh.{load_team_gate_state_once, refresh_team_hint_states_conn}

-- A row of the query, with the columns of the hint as they are stored.
pub record RbHintShowRow : Type 0 where
  pub hint : Hint
  pub purchased : Bool
  pub enabled : Bool
  pub cooldown_complete : Bool
  pub cooldown_until : Option ℤ

pub record RbHintShowData : Type 0 where
  pub id : ℤ
  pub title : Option Str
  pub cooldown : ℤ
  pub enabled : Bool
  pub cooldown_until : Option ℤ
  pub cost_id : Option ℤ
  pub cost_amount : ℤ

unfoldable pub show_row : ℤ → ℤ → Db → Hint → ℤ → RbHintShowRow
unfolding is_purchased is_enabled cooldown_until cooldown_complete
show_row now t db h from =
    let till = cooldown_until t h from db in
    record {
      hint = h;
      purchased = is_purchased t h.id db;
      enabled = is_enabled t h db;
      cooldown_complete = cooldown_complete now till;
      cooldown_until = till;
    }

unfoldable pub show_rows : ℤ → ℤ → ℤ → Db → List Hint → List RbHintShowRow
unfolding accessible_from show_row eqℤ
show_rows now t puzzle_id db [] = []
show_rows now t puzzle_id db (h ∷ hints) =
    let rest = show_rows now t puzzle_id db hints in
    if eqℤ h.puzzle_id puzzle_id
    then elim (accessible_from now t h db) [
      | none ↦ rest
      | some from ↦ show_row now t db h from ∷ rest
    ]
    else rest

-- The test of `needs_state`.
abbrev pub asks_state : RbHintShowRow → Bool
asks_state row =
    not row.purchased
    && (is_some row.hint.display_condition || is_some row.hint.title_display_condition)

-- The test of the `filter`.
unfoldable pub is_shown : Option RbPuzzleStates → RbHintShowRow → Bool
unfolding hint_field_visible
is_shown state row =
    hint_field_visible row.hint.display_condition true state row.purchased row.enabled
      row.cooldown_complete

-- The function of the `map`.
unfoldable pub show_data : Option RbPuzzleStates → RbHintShowRow → RbHintShowData
unfolding hint_field_visible
show_data state row = record {
  id = row.hint.id;
  title =
      if hint_field_visible row.hint.title_display_condition row.cooldown_complete state
        row.purchased row.enabled row.cooldown_complete
      then some row.hint.title
      else row.hint.hidden_title;
  cooldown = row.hint.cooldown;
  enabled = row.enabled;
  cooldown_until = row.cooldown_until;
  cost_id = row.hint.cost_id;
  cost_amount = row.hint.cost_amount;
}

unfoldable pub shown_hints : Option RbPuzzleStates → List RbHintShowRow → List RbHintShowData
unfolding is_shown show_data
shown_hints state [] = []
shown_hints state (row ∷ rows) =
    let rest = shown_hints state rows in
    if is_shown state row then show_data state row ∷ rest else rest

unfoldable pub get_hints_show_for_team : ℤ → Db → ℤ → ℤ → Db × List RbHintShowData
unfolding refresh_team_hint_states_conn show_rows load_team_gate_state_once shown_hints
get_hints_show_for_team now db t puzzle_id =
    let (db', state, loaded) = refresh_team_hint_states_conn now db t (some puzzle_id) none false in
    let rows = show_rows now t puzzle_id db' db'.hints in
    let state' =
      if any asks_state rows then (load_team_gate_state_once t db' state loaded).0 else state in
    (db', shown_hints state' rows)

-- The contents of the hints that the team has bought.
pub record RbHintTeamStateShowData : Type 0 where
  pub id : ℤ
  pub title : Str
  pub content : Str

abbrev pub content_of : Hint → RbHintTeamStateShowData
content_of h = record { id = h.id; title = h.title; content = h.content }

unfoldable pub get_hints_team_state : ℤ → Db → ℤ → ℤ → List Hint → List RbHintTeamStateShowData
unfolding is_purchased accessible_from eqℤ
get_hints_team_state now db t puzzle_id [] = []
get_hints_team_state now db t puzzle_id (h ∷ hints) =
    let rest = get_hints_team_state now db t puzzle_id hints in
    if eqℤ h.puzzle_id puzzle_id && is_purchased t h.id db && is_some (accessible_from now t h db)
    then content_of h ∷ rest
    else rest

-- `MIN` over the rows that have a later end.
abbrev min_later : ℤ → Option ℤ → Option ℤ → Option ℤ
min_later now none least = least
min_later now (some till) none = if ltℤ now till then some till else none
min_later now (some till) (some least) = if ltℤ now till then some (minℤ till least) else some least

unfoldable pub next_hint_cooldown : ℤ → Db → ℤ → ℤ → List Hint → Option ℤ
unfolding is_purchased accessible_from cooldown_until eqℤ ltℤ minℤ
next_hint_cooldown now db t puzzle_id [] = none
next_hint_cooldown now db t puzzle_id (h ∷ hints) =
    let rest = next_hint_cooldown now db t puzzle_id hints in
    if eqℤ h.puzzle_id puzzle_id && not (is_purchased t h.id db)
    then elim (accessible_from now t h db) [
      | none ↦ rest
      | some from ↦ min_later now (cooldown_until t h from db) rest
    ]
    else rest
