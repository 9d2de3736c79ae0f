-- ===== src/Hints.antt =====
-- src/db/puzzle.rs: the hints of a puzzle: their conditions, and the rows that their queries join.
pub mod Refresh
pub mod Show
pub mod Offer
pub mod Purchase
use rbph_website_backend.Prelude.{
  Str, Option, none, some, List, [], ◌∷◌, Bool, true, false, not, ◌&&◌, ◌||◌, ok, err, any,
  if◌then◌else◌, ℤ, pos, eqℤ, leℤ, ltℤ, maxℤ, ◌+ℤ◌, ◌*ℤ◌,
}
use rbph_website_backend.Expr.Cache.{compile_gate_expr_uncached, compile_hint_display_expr_uncached}
use rbph_website_backend.Expr.Eval.{eval_compiled, eval_hint_display_compiled}
use rbph_website_backend.Submit.Rows.{
  Puzzle, TeamPuzzle, Hint, TeamHint, HintEnable, HintVisibility, Db, select,
}
use rbph_website_backend.Submit.Guards.{has_id, of_team_puzzle}
use rbph_website_backend.Submit.Context.{is_some}
use rbph_website_backend.Unlock.States.{RbPuzzleStates, puzzle_states}

unfoldable pub hint_display_condition_met :
    Option Str
    → (default : Bool) → Option RbPuzzleStates
    → (enabled cooldown_complete : Bool) → Bool
unfolding compile_hint_display_expr_uncached puzzle_states eval_hint_display_compiled
hint_display_condition_met none default state enabled cooldown_complete = default
hint_display_condition_met (some condition) default none enabled cooldown_complete = false
hint_display_condition_met (some condition) default (some state) enabled cooldown_complete =
    elim (compile_hint_display_expr_uncached condition) [
      | err error ↦ false
      | ok expr ↦ eval_hint_display_compiled (puzzle_states state) expr enabled cooldown_complete
    ]

unfoldable pub hint_field_visible :
    Option Str
    → (default : Bool) → Option RbPuzzleStates
    → (purchased enabled cooldown_complete : Bool) → Bool
unfolding hint_display_condition_met
hint_field_visible condition default state purchased enabled cooldown_complete =
    purchased || hint_display_condition_met condition default state enabled cooldown_complete

unfoldable pub hint_purchase_available :
    Option Str → RbPuzzleStates → (enabled cooldown_complete : Bool) → Bool
unfolding hint_display_condition_met
hint_purchase_available display_condition state enabled cooldown_complete =
    enabled
    && cooldown_complete
    && hint_display_condition_met display_condition true (some state) enabled cooldown_complete

-- The rows of a team and a hint.
abbrev pub of_team_hint : ℤ → ℤ → TeamHint → Bool
of_team_hint t h row = eqℤ row.team_id t && eqℤ row.hint_id h

abbrev pub of_hint_enable : ℤ → ℤ → HintEnable → Bool
of_hint_enable t h row = eqℤ row.team_id t && eqℤ row.hint_id h

abbrev pub of_hint_visibility : ℤ → ℤ → HintVisibility → Bool
of_hint_visibility t h row = eqℤ row.team_id t && eqℤ row.hint_id h

-- `LEFT JOIN rb_team_hint … AND purchased.unlocked`: whether there is a row.
unfoldable pub is_purchased : ℤ → ℤ → Db → Bool
unfolding eqℤ
is_purchased t h db = any (λ row. of_team_hint t h row && row.unlocked) db.team_hints

-- `LEFT JOIN rb_team_hint_enable` and `rb_team_hint_visibility`, which have a row per team and hint.
unfoldable pub enabled_at : ℤ → ℤ → Db → Option ℤ
unfolding select eqℤ
enabled_at t h db = elim (select (of_hint_enable t h) db.hint_enables) [
  | none ↦ none
  | some row ↦ some row.enabled_at
]

unfoldable pub displayed_at : ℤ → ℤ → Db → Option ℤ
unfolding select eqℤ
displayed_at t h db = elim (select (of_hint_visibility t h) db.hint_visibilities) [
  | none ↦ none
  | some row ↦ row.displayed_at
]

unfoldable pub title_displayed_at : ℤ → ℤ → Db → Option ℤ
unfolding select eqℤ
title_displayed_at t h db = elim (select (of_hint_visibility t h) db.hint_visibilities) [
  | none ↦ none
  | some row ↦ row.title_displayed_at
]

-- The joins of the puzzle, its release and the team's row, where the puzzle is released and not
-- locked: the later of the two times from which a cooldown may run.
unfoldable pub accessible_from : ℤ → ℤ → Hint → Db → Option ℤ
unfolding select eqℤ leℤ maxℤ
accessible_from now t h db = elim (select (of_team_puzzle t h.puzzle_id) db.team_puzzles) [
  | none ↦ none
  | some tp ↦ elim (select (has_id h.puzzle_id) db.puzzles) [
    | none ↦ none
    | some p ↦ elim p.release_at [
      | none ↦ none
      | some release_at ↦
          if leℤ (pos 0) tp.state && leℤ release_at now
          then some (maxℤ tp.ctime_at release_at)
          else none
    ]
  ]
]

-- `h.enable_cond IS NULL OR enabled.hint_id IS NOT NULL`.
unfoldable pub is_enabled : ℤ → Hint → Db → Bool
unfolding enabled_at
is_enabled t h db = not (is_some h.enable_cond) || is_some (enabled_at t h.id db)

-- `CASE h.cooldown_origin …`, with the time of the last arm.
unfoldable pub cooldown_start : ℤ → Hint → ℤ → Db → Option ℤ
unfolding enabled_at displayed_at title_displayed_at eqℤ
cooldown_start t h from db =
    if eqℤ h.cooldown_origin (pos 1)
    then enabled_at t h.id db
    else if eqℤ h.cooldown_origin (pos 2)
    then displayed_at t h.id db
    else if eqℤ h.cooldown_origin (pos 3)
    then title_displayed_at t h.id db
    else some from

unfoldable pub cooldown_until : ℤ → Hint → ℤ → Db → Option ℤ
unfolding cooldown_start ◌+ℤ◌ ◌*ℤ◌
cooldown_until t h from db = elim (cooldown_start t h from db) [
  | none ↦ none
  | some start ↦ some (start +ℤ h.cooldown *ℤ pos 1000000)
]

-- `COALESCE(cooldown_until <= NOW(), FALSE)`.
unfoldable pub cooldown_complete : ℤ → Option ℤ → Bool
unfolding leℤ
cooldown_complete now none = false
cooldown_complete now (some till) = leℤ till now
