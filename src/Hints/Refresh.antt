-- ===== src/Hints/Refresh.antt =====
-- src/db/puzzle.rs: `refresh_team_hint_states_conn` and `refresh_team_hint_enablements_conn`, which
-- record when a team's hints are enabled and displayed.
pub mod Kept
use rbph_website_backend.Prelude.{
  Str, Option, none, some, List, [], ◌∷◌, Bool, true, false, not, ◌&&◌, ◌||◌, any, if◌then◌else◌, ℤ,
  pos, eqℤ, leℤ,
}
use rbph_website_backend.Expr.Ast.{GateExpr}
use rbph_website_backend.Expr.Eval.{eval_compiled}
use rbph_website_backend.Submit.Rows.{Hint, HintEnable, HintVisibility, Db, select, update}
use rbph_website_backend.Submit.Context.{is_some}
use rbph_website_backend.Unlock.{gate_of}
use rbph_website_backend.Unlock.States.{RbPuzzleStates, puzzle_states, team_gate_state}
use rbph_website_backend.Hints.{
  hint_display_condition_met, of_hint_enable, of_hint_visibility, is_purchased, enabled_at,
  displayed_at, title_displayed_at, accessible_from, is_enabled,
}

-- `($2::INT IS NULL OR h.puzzle_id = $2)`.
abbrev pub for_puzzle : Option ℤ → Hint → Bool
for_puzzle none h = true
for_puzzle (some puzzle_id) h = eqℤ h.puzzle_id puzzle_id

-- The columns of the query of `refresh_team_hint_states_conn`.
unfoldable pub display_pending : ℤ → Hint → Db → Bool
unfolding eqℤ displayed_at
display_pending t h db = eqℤ h.cooldown_origin (pos 2) && not (is_some (displayed_at t h.id db))

unfoldable pub title_display_pending : ℤ → Hint → Db → Bool
unfolding eqℤ title_displayed_at
title_display_pending t h db =
    eqℤ h.cooldown_origin (pos 3) && not (is_some (title_displayed_at t h.id db))

-- Its `WHERE`.
unfoldable pub is_pending : ℤ → ℤ → Option ℤ → Db → Hint → Bool
unfolding enabled_at display_pending title_display_pending is_purchased accessible_from eqℤ
is_pending now t puzzle_id db h =
    (is_some h.enable_cond && not (is_some (enabled_at t h.id db))
      || display_pending t h db
      || title_display_pending t h db)
    && not (is_purchased t h.id db)
    && is_some (accessible_from now t h db)
    && for_puzzle puzzle_id h

-- The condition of a hint holds.
unfoldable pub gate_met : RbPuzzleStates → Option Str → Bool
unfolding gate_of puzzle_states eval_compiled
gate_met state condition = elim (gate_of condition) [
  | none ↦ false
  | some gate ↦ eval_compiled (puzzle_states state) gate
]

unfoldable pub newly_enabled : RbPuzzleStates → ℤ → Db → Hint → Bool
unfolding is_enabled gate_met
newly_enabled state t db h = not (is_enabled t h db) && gate_met state h.enable_cond

-- Whether the hint is displayed now, and by its own condition or by that of its title.
unfoldable pub newly_displayed : RbPuzzleStates → ℤ → Db → Hint → Option Bool
unfolding is_enabled newly_enabled display_pending title_display_pending hint_display_condition_met
newly_displayed state t db h =
    let enabled = is_enabled t h db || newly_enabled state t db h in
    if display_pending t h db
    then (if hint_display_condition_met h.display_condition true (some state) enabled false
        then some true
        else none)
    else if title_display_pending t h db
    then (if hint_display_condition_met h.title_display_condition false (some state) enabled false
        then some false
        else none)
    else none

-- `INSERT INTO rb_team_hint_enable … ON CONFLICT DO NOTHING`.
unfoldable pub insert_enable : ℤ → ℤ → ℤ → List HintEnable → List HintEnable
unfolding eqℤ
insert_enable now t h rows =
    if any (of_hint_enable t h) rows
    then rows
    else record { team_id = t; hint_id = h; enabled_at = now } ∷ rows

-- `COALESCE(old, EXCLUDED)`.
abbrev pub or_else : Option ℤ → Option ℤ → Option ℤ
or_else (some at) other = some at
or_else none other = other

abbrev when : Bool → ℤ → Option ℤ
when true now = some now
when false now = none

-- The `SET` of the conflict.
abbrev pub add_time : ℤ → Bool → HintVisibility → HintVisibility
add_time now displayed row = record row {
  displayed_at = or_else row.displayed_at (when displayed now);
  title_displayed_at = or_else row.title_displayed_at (when (not displayed) now);
}

-- `INSERT INTO rb_team_hint_visibility … ON CONFLICT (team_id, hint_id) DO UPDATE`.
unfoldable pub upsert_visibility : ℤ → ℤ → ℤ → Bool → List HintVisibility → List HintVisibility
unfolding eqℤ update
upsert_visibility now t h displayed rows =
    if any (of_hint_visibility t h) rows
    then update (of_hint_visibility t h) (add_time now displayed) rows
    else record {
      team_id = t;
      hint_id = h;
      displayed_at = when displayed now;
      title_displayed_at = when (not displayed) now;
    }
      ∷ rows

-- The flag is that of `displayed_flags`, where there is one.
unfoldable pub put_visibility : ℤ → ℤ → ℤ → Option Bool → List HintVisibility → List HintVisibility
unfolding upsert_visibility
put_visibility now t h none rows = rows
put_visibility now t h (some displayed) rows = upsert_visibility now t h displayed rows

-- The loops over the pending rows, and the statements with what they collect. The rows are those of
-- the query, `read`, before the statements.
unfoldable pub store_enables :
    ℤ → ℤ → Option ℤ → RbPuzzleStates → Db → List Hint → List HintEnable → List HintEnable
unfolding is_pending newly_enabled insert_enable
store_enables now t puzzle_id state read [] rows = rows
store_enables now t puzzle_id state read (h ∷ hints) rows =
    store_enables now t puzzle_id state read hints (
      if is_pending now t puzzle_id read h && newly_enabled state t read h
      then insert_enable now t h.id rows
      else rows)

unfoldable pub store_visibilities :
    ℤ → ℤ → Option ℤ → RbPuzzleStates → Db → List Hint → List HintVisibility → List HintVisibility
unfolding is_pending newly_displayed put_visibility
store_visibilities now t puzzle_id state read [] rows = rows
store_visibilities now t puzzle_id state read (h ∷ hints) rows =
    store_visibilities now t puzzle_id state read hints (
      if is_pending now t puzzle_id read h
      then put_visibility now t h.id (newly_displayed state t read h) rows
      else rows)

-- `state` and `state_loaded` are of the caller; the state is loaded where some row is pending.
unfoldable pub load_team_gate_state_once :
    ℤ → Db → Option RbPuzzleStates → Bool → Option RbPuzzleStates × Bool
unfolding team_gate_state
load_team_gate_state_once t db state loaded = (if loaded then state else team_gate_state t db, true)

-- What both statements leave, with a state.
unfoldable pub store_states : ℤ → ℤ → Option ℤ → Db → Option RbPuzzleStates → Db
unfolding store_enables store_visibilities
store_states now t puzzle_id db none = db
store_states now t puzzle_id db (some state) = record db {
  hint_enables = store_enables now t puzzle_id state db db.hints db.hint_enables;
  hint_visibilities = store_visibilities now t puzzle_id state db db.hints db.hint_visibilities;
}

unfoldable pub refresh_team_hint_states_conn :
    ℤ → Db → ℤ → Option ℤ → Option RbPuzzleStates → Bool → Db × Option RbPuzzleStates × Bool
unfolding is_pending load_team_gate_state_once store_states
refresh_team_hint_states_conn now db t puzzle_id state loaded =
    let (state', loaded') =
      if any (is_pending now t puzzle_id db) db.hints
      then load_team_gate_state_once t db state loaded
      else (state, loaded) in
    (store_states now t puzzle_id db state', state', loaded')

unfoldable pub refresh_team_hint_states : ℤ → Db → ℤ → Option ℤ → Db
unfolding refresh_team_hint_states_conn
refresh_team_hint_states now db t puzzle_id =
    (refresh_team_hint_states_conn now db t puzzle_id none false).0

-- The pending hints of `refresh_team_hint_enablements_conn`, and what it stores.
unfoldable pub is_enable_pending : ℤ → ℤ → Option ℤ → Db → Hint → Bool
unfolding enabled_at is_purchased accessible_from eqℤ
is_enable_pending now t puzzle_id db h =
    is_some h.enable_cond
    && not (is_some (enabled_at t h.id db))
    && not (is_purchased t h.id db)
    && is_some (accessible_from now t h db)
    && for_puzzle puzzle_id h

unfoldable pub store_new_enables :
    ℤ → ℤ → Option ℤ → RbPuzzleStates → Db → List Hint → List HintEnable → List HintEnable
unfolding is_enable_pending gate_met insert_enable
store_new_enables now t puzzle_id state read [] rows = rows
store_new_enables now t puzzle_id state read (h ∷ hints) rows =
    store_new_enables now t puzzle_id state read hints (
      if is_enable_pending now t puzzle_id read h && gate_met state h.enable_cond
      then insert_enable now t h.id rows
      else rows)

unfoldable pub store_new_states : ℤ → ℤ → Option ℤ → Db → Option RbPuzzleStates → Db
unfolding store_new_enables
store_new_states now t puzzle_id db none = db
store_new_states now t puzzle_id db (some state) = record db {
  hint_enables = store_new_enables now t puzzle_id state db db.hints db.hint_enables;
}

unfoldable pub refresh_team_hint_enablements : ℤ → Db → ℤ → Option ℤ → Db
unfolding is_enable_pending team_gate_state store_new_states
refresh_team_hint_enablements now db t puzzle_id =
    store_new_states now t puzzle_id db
      (if any (is_enable_pending now t puzzle_id db) db.hints then team_gate_state t db else none)
