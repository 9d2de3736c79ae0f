-- ===== src/Hints/Show/Offered.antt =====
-- src/db/puzzle.rs: what `purchase_hint` sells, `get_hints_show_for_team` shows.
use rbph_website_backend.Prelude.{
  and_split, or_right, Option, none, some, List, [], ◌∷◌, Bool, true, false, not, ◌&&◌, ◌||◌, any,
  if◌then◌else◌, ok, ℤ, pos, eqℤ, eqℤ_refl, leℤ-sub, ◌*ℤ◌, ◌≡◌, refl, sym, subst⁻¹, ap, ◌∙◌, inl,
  inr, Bool-cases, Option-cases,
}
use rbph_website_backend.Submit.Rows.{Hint, Currency, Db, select}
use rbph_website_backend.Unlock.States.{RbPuzzleStates, team_gate_state}
use rbph_website_backend.Hints.{
  hint_display_condition_met, hint_field_visible, hint_purchase_available, is_purchased,
  accessible_from, is_enabled, cooldown_start, cooldown_until, cooldown_complete,
}
use rbph_website_backend.Hints.Refresh.{
  is_pending, store_states, load_team_gate_state_once, refresh_team_hint_states_conn,
  refresh_team_hint_states,
}
use rbph_website_backend.Hints.Show.{
  RbHintShowRow, RbHintShowData, show_row, show_rows, asks_state, is_shown, show_data, shown_hints,
  get_hints_show_for_team,
}
use rbph_website_backend.Hints.Offer.Granted.{offer-Granted, owner-hint}
use rbph_website_backend.Hints.Offer.{Purchase, is_hint, has_cooled, is_for_sale, offer}

-- The hint with this number is in the answer.
abbrev pub is_listed : ℤ → List RbHintShowData → Bool
is_listed id hints = any (λ d. eqℤ d.id id) hints

-- A hint of the puzzle that a query finds has its row.
show_rows-any :
    (p : RbHintShowRow → Bool) (now t id from : ℤ) (db : Db) (h : Hint)
    → accessible_from now t h db ≡ some from
    → p (show_row now t db h from) ≡ true
    → (hints : List Hint) → select (is_hint id) hints ≡ some h
    → any p (show_rows now t h.puzzle_id db hints) ≡ true
unfolding show_rows select
show_rows-any p now t id from db h open_from holds [] found = cc
show_rows-any p now t id from db h open_from holds (x ∷ hints) found =
    elim (Bool-cases (is_hint id x)) [
      | inl e ↦
          let same : x ≡ h = cc (rw e at found) in
          subst⁻¹ (λ y. any p (show_rows now t h.puzzle_id db (y ∷ hints)) ≡ true) same
            (rw (eqℤ_refl h.puzzle_id, show_rows, open_from, holds) refl)
      | inr e ↦
          behind (eqℤ x.puzzle_id h.puzzle_id) (accessible_from now t x db)
            (show_rows-any p now t id from db h open_from holds hints (rw e at found))
    ]
  where
    behind :
        (b : Bool) (o : Option ℤ)
        → any p (show_rows now t h.puzzle_id db hints) ≡ true
        → any p (
            if b
            then elim o [
              | none ↦ show_rows now t h.puzzle_id db hints
              | some at ↦ show_row now t db x at ∷ show_rows now t h.puzzle_id db hints
            ]
            else show_rows now t h.puzzle_id db hints)
          ≡ true
    behind true none rest = rest
    behind true (some at) rest = or_right (p (show_row now t db x at)) rest
    behind false o rest = rest

shown_hints-is_listed :
    (state : Option RbPuzzleStates) (id : ℤ) (rows : List RbHintShowRow)
    → is_listed id (shown_hints state rows)
      ≡ any (λ row. is_shown state row && eqℤ row.hint.id id) rows
unfolding shown_hints show_data
shown_hints-is_listed state id [] = refl
shown_hints-is_listed state id (row ∷ rows) =
    listed (is_shown state row) (shown_hints-is_listed state id rows)
  where
    listed :
        (b : Bool)
        → is_listed id (shown_hints state rows)
          ≡ any (λ r. is_shown state r && eqℤ r.hint.id id) rows
        → is_listed id
            (if b then show_data state row ∷ shown_hints state rows else shown_hints state rows)
          ≡ (b && eqℤ row.hint.id id || any (λ r. is_shown state r && eqℤ r.hint.id id) rows)
    listed true ih = ap (λ x. eqℤ row.hint.id id || x) ih
    listed false ih = ih

-- The gates see nothing that the refresh changes.
team_gate_state-store_states :
    (now t t' : ℤ) (puzzle_id : Option ℤ) (db : Db) (state : Option RbPuzzleStates)
    → team_gate_state t' (store_states now t puzzle_id db state) ≡ team_gate_state t' db
unfolding team_gate_state store_states
team_gate_state-store_states now t t' puzzle_id db none = refl
team_gate_state-store_states now t t' puzzle_id db (some state) = refl

-- The state that the answer is built with, where a row asks for it.
shown_state :
    (now t : ℤ) (puzzle_id : Option ℤ) (db : Db)
    → let (db', state, loaded) = refresh_team_hint_states_conn now db t puzzle_id none false in
      (load_team_gate_state_once t db' state loaded).0 ≡ team_gate_state t db'
unfolding refresh_team_hint_states_conn load_team_gate_state_once
shown_state now t puzzle_id db = elim (Bool-cases (any (is_pending now t puzzle_id db) db.hints)) [
  | inl some_pending ↦
      rw some_pending
        (sym (team_gate_state-store_states now t t puzzle_id db (team_gate_state t db)))
  | inr none_pending ↦ rw none_pending refl
]

-- The two ways to write the end of a cooldown.
cooldown_complete-has_cooled :
    (now t from : ℤ) (db : Db) (h : Hint)
    → has_cooled now h.cooldown (cooldown_start t h from db) ≡ true
    → cooldown_complete now (cooldown_until t h from db) ≡ true
unfolding cooldown_complete cooldown_until
cooldown_complete-has_cooled now t from db h cooled =
    elim (Option-cases (cooldown_start t h from db)) [
      | inl none_yet ↦ cc (rw none_yet at cooled)
      | inr (start, starts) ↦
          rw (starts, cooldown_until)
            (sym (leℤ-sub start now (h.cooldown *ℤ pos 1000000)) ∙ rw starts at cooled)
    ]

open_for_sale :
    (now t : ℤ) (h : Hint) (db : Db)
    → is_for_sale now t h db ≡ true
    → (from : ℤ) × (accessible_from now t h db ≡ some from)
unfolding is_for_sale
open_for_sale now t h db sold = elim (Option-cases (accessible_from now t h db)) [
  | inl no_row ↦ cc (rw (no_row, is_for_sale) at sold)
  | inr open_from ↦ open_from
]

-- What the `WHERE` of the offer says of a hint that can be reached.
for_sale :
    (now t from : ℤ) (db : Db) (h : Hint)
    → accessible_from now t h db ≡ some from
    → is_for_sale now t h db ≡ true
    → (not (is_purchased t h.id db) ≡ true)
      × (is_enabled t h db ≡ true)
      × (cooldown_complete now (cooldown_until t h from db) ≡ true)
unfolding is_for_sale
for_sale now t from db h open_from sold =
    let (both, cooled) =
      and_split (not (is_purchased t h.id db) && is_enabled t h db)
        (has_cooled now h.cooldown (cooldown_start t h from db))
        (rw (open_from, is_for_sale) at sold) in
    let (new, enabled) = and_split (not (is_purchased t h.id db)) (is_enabled t h db) both in
    (new, enabled, cooldown_complete-has_cooled now t from db h cooled)

module _ (now t from : ℤ) (db : Db) (h : Hint) (state : RbPuzzleStates)
    (open_from : accessible_from now t h db ≡ some from) (sold : is_for_sale now t h db ≡ true)
    (available : hint_purchase_available h.display_condition state true true ≡ true) where
  is_shown-offered : is_shown (some state) (show_row now t db h from) ≡ true
  unfolding is_shown hint_purchase_available hint_field_visible show_row
  is_shown-offered =
      let (new, enabled, cooled) = for_sale now t from db h open_from sold in
      rw (enabled, cooled) (rw available (or_right (is_purchased t h.id db) refl))

  -- A hint without a condition is shown whatever the state, the others ask for it.
  is_shown-any_state :
      (rows : List RbHintShowRow) (loaded none_asks : Option RbPuzzleStates)
      → loaded ≡ some state
      → (asks_state (show_row now t db h from) ≡ true → any asks_state rows ≡ true)
      → is_shown (if any asks_state rows then loaded else none_asks) (show_row now t db h from)
        ≡ true
  unfolding is_shown hint_field_visible show_row hint_display_condition_met
  is_shown-any_state rows loaded none_asks is_state asks =
      let (new, _, _) = for_sale now t from db h open_from sold in
      elim (Option-cases h.display_condition) [
        | inl no_condition ↦
            rw (no_condition, is_shown, hint_field_visible) (or_right (is_purchased t h.id db) refl)
        | inr (condition, has) ↦ rw (asks (rw (new, has) refl), is_state) is_shown-offered
      ]

-- A hint that `purchase_hint` would sell to the team, past all its checks, is in the list that
-- `get_hints_show_for_team` gives the team for the puzzle at that time: nothing can be bought that
-- is not shown. Both refresh the same database first.
pub offer-is_listed :
    (call : Purchase) (db : Db) (t : ℤ) (h : Hint) (currency : Option (Currency × ℤ))
    → offer call (refresh_team_hint_states call.read_at db t (some h.puzzle_id))
      ≡ ok (t, h, currency)
    → is_listed h.id (get_hints_show_for_team call.read_at db t h.puzzle_id).1 ≡ true
unfolding get_hints_show_for_team refresh_team_hint_states
offer-is_listed call db t h currency offered =
    let now = call.read_at in
    let (db', none_asks, loaded) =
      refresh_team_hint_states_conn now db t (some h.puzzle_id) none false in
    let rows = show_rows now t h.puzzle_id db' db'.hints in
    let (bought, sold, state, of_state, available) = offer-Granted call db' t h currency offered in
    let found = owner-hint call.user_id call.hint_id t db' h bought in
    let (from, open_from) = open_for_sale now t h db' sold in
    let answer_state =
      if any asks_state rows
      then (load_team_gate_state_once t db' none_asks loaded).0
      else none_asks in
    let p : RbHintShowRow → Bool = λ row. is_shown answer_state row && eqℤ row.hint.id h.id in
    let shown =
      is_shown-any_state now t from db' h state open_from sold available rows
        (load_team_gate_state_once t db' none_asks loaded).0 none_asks
        (shown_state now t (some h.puzzle_id) db ∙ of_state)
        (λ asks.
          show_rows-any asks_state now t call.hint_id from db' h open_from asks db'.hints found) in
    shown_hints-is_listed answer_state h.id rows
    ∙ show_rows-any p now t call.hint_id from db' h open_from (rw (shown, eqℤ_refl h.id) refl)
        db'.hints found
