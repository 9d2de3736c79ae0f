-- ===== src/Hints/Refresh/Kept.antt =====
-- src/db/puzzle.rs: what the refresh of a team's hints keeps of the rows that it finds.
use rbph_website_backend.Prelude.{
  Option, none, some, List, [], ◌∷◌, Bool, true, false, ◌&&◌, any, if◌then◌else◌, ℤ, pos, eqℤ,
  eqℤ_iff, ◌≡◌, refl, inl, inr, Bool-cases, Option-cases, arith,
}
use rbph_website_backend.Submit.Rows.{Hint, HintEnable, HintVisibility, Db, select}
use rbph_website_backend.Submit.Rows.Queries.{select-any, select-update_where}
use rbph_website_backend.Unlock.States.{RbPuzzleStates}
use rbph_website_backend.Hints.{
  of_hint_enable, of_hint_visibility, enabled_at, displayed_at, title_displayed_at, cooldown_start,
}
use rbph_website_backend.Hints.Refresh.{
  is_pending, newly_enabled, newly_displayed, insert_enable, or_else, add_time, put_visibility,
  store_states, upsert_visibility, store_enables, store_visibilities, refresh_team_hint_states_conn,
  refresh_team_hint_states,
}

-- A row that is there is there afterwards.
abbrev pub KeepsEnables : List HintEnable → List HintEnable → Type 0
KeepsEnables a b =
    (t h : ℤ) (row : HintEnable)
    → select (of_hint_enable t h) a ≡ some row
    → select (of_hint_enable t h) b ≡ some row

-- The times that a row has.
abbrev KeepsTimes : HintVisibility → HintVisibility → Type 0
KeepsTimes a b =
    ((at : ℤ) → a.displayed_at ≡ some at → b.displayed_at ≡ some at)
    × ((at : ℤ) → a.title_displayed_at ≡ some at → b.title_displayed_at ≡ some at)

abbrev pub KeepsVisibilities : List HintVisibility → List HintVisibility → Type 0
KeepsVisibilities a b =
    (t h : ℤ) (row : HintVisibility)
    → select (of_hint_visibility t h) a ≡ some row
    → (row' : HintVisibility) × (select (of_hint_visibility t h) b ≡ some row')
      × KeepsTimes row row'

-- A new row does not stand before one that is there.
new_key :
    (t h t' h' : ℤ) (has has' : Bool)
    → has' ≡ true
    → has ≡ false
    → (t ≡ t' → h ≡ h' → has ≡ has')
    → (eqℤ t t' && eqℤ h h') ≡ false
new_key t h t' h' has has' found free same = ground (arith, eqℤ_iff t t', eqℤ_iff h h')

insert_enable-Keeps :
    (now t h : ℤ) (rows : List HintEnable) → KeepsEnables rows (insert_enable now t h rows)
unfolding insert_enable select
insert_enable-Keeps now t h rows t' h' row found =
    elim (Bool-cases (any (of_hint_enable t h) rows)) [
      | inl taken ↦ rw taken found
      | inr free ↦
          rw
            (
              free,
              new_key t h t' h' (any (of_hint_enable t h) rows) (any (of_hint_enable t' h') rows)
                  (select-any (of_hint_enable t' h') rows found) free (λ p q. rw (p, q) refl),
            )
            found
    ]

or_else-some : (a b : Option ℤ) (at : ℤ) → a ≡ some at → or_else a b ≡ some at
or_else-some none b at h = cc
or_else-some (some x) b at h = h

upsert_visibility-Keeps :
    (now t h : ℤ) (displayed : Bool) (rows : List HintVisibility)
    → KeepsVisibilities rows (upsert_visibility now t h displayed rows)
unfolding upsert_visibility select
upsert_visibility-Keeps now t h displayed rows t' h' row found =
    elim (Bool-cases (any (of_hint_visibility t h) rows)) [
      | inl taken ↦ (
        if of_hint_visibility t h row then add_time now displayed row else row,
        rw taken (
            select-update_where (of_hint_visibility t' h') (of_hint_visibility t h)
              (add_time now displayed) (λ r. refl) rows found),
        kept (of_hint_visibility t h row),
      )
      | inr free ↦ (
        row,
        rw
            (
              free,
              new_key t h t' h' (any (of_hint_visibility t h) rows)
                  (any (of_hint_visibility t' h') rows)
                  (select-any (of_hint_visibility t' h') rows found) free (λ p q. rw (p, q) refl),
            )
            found,
        ((λ at p. p), λ at p. p),
      )
    ]
  where
    kept : (b : Bool) → KeepsTimes row (if b then add_time now displayed row else row)
    kept true = (or_else-some row.displayed_at _, or_else-some row.title_displayed_at _)
    kept false = ((λ at p. p), λ at p. p)

-- The loops keep what one statement keeps.
module _ (now t : ℤ) (puzzle_id : Option ℤ) (state : RbPuzzleStates) (read : Db) where
  store_enables-Keeps :
      (hints : List Hint) (rows : List HintEnable)
      → KeepsEnables rows (store_enables now t puzzle_id state read hints rows)
  unfolding store_enables
  store_enables-Keeps [] rows t' h' row found = found
  store_enables-Keeps (h ∷ hints) rows t' h' row found =
      store_enables-Keeps hints _ t' h' row
        (put (is_pending now t puzzle_id read h && newly_enabled state t read h))
    where
      put :
          (b : Bool)
          → select (of_hint_enable t' h') (if b then insert_enable now t h.id rows else rows)
            ≡ some row
      put true = insert_enable-Keeps now t h.id rows t' h' row found
      put false = found

  store_visibilities-Keeps :
      (hints : List Hint) (rows : List HintVisibility)
      → KeepsVisibilities rows (store_visibilities now t puzzle_id state read hints rows)
  unfolding store_visibilities put_visibility
  store_visibilities-Keeps [] rows t' h' row found = (row, found, ((λ at p. p), λ at p. p))
  store_visibilities-Keeps (h ∷ hints) rows t' h' row found =
      let (row₁, found₁, (d₁, u₁)) =
        put (is_pending now t puzzle_id read h) (newly_displayed state t read h) in
      let (row₂, found₂, (d₂, u₂)) = store_visibilities-Keeps hints _ t' h' row₁ found₁ in
      (row₂, found₂, ((λ at p. d₂ at (d₁ at p)), λ at p. u₂ at (u₁ at p)))
    where
      put :
          (b : Bool) (shown : Option Bool)
          → (row' : HintVisibility) × (select
                (of_hint_visibility t' h')
                (if b then put_visibility now t h.id shown rows else rows)
              ≡ some row')
            × KeepsTimes row row'
      put true (some displayed) = upsert_visibility-Keeps now t h.id displayed rows t' h' row found
      put true none = (row, found, ((λ at p. p), λ at p. p))
      put false shown = (row, found, ((λ at p. p), λ at p. p))

-- What the refresh changes of a database.
abbrev pub Refreshed : Db → Db → Type 0
Refreshed a b =
    (e : List HintEnable) × (v : List HintVisibility) × (b
      ≡ record a { hint_enables = e; hint_visibilities = v })
    × KeepsEnables a.hint_enables e
    × KeepsVisibilities a.hint_visibilities v

pub store_states-Refreshed :
    (now t : ℤ) (puzzle_id : Option ℤ) (db : Db) (state : Option RbPuzzleStates)
    → Refreshed db (store_states now t puzzle_id db state)
unfolding store_states
store_states-Refreshed now t puzzle_id db none = (
  db.hint_enables,
  db.hint_visibilities,
  refl,
  (λ t' h' row found. found),
  λ t' h' row found. (row, found, ((λ at p. p), λ at p. p)),
)
store_states-Refreshed now t puzzle_id db (some state) = (
  store_enables now t puzzle_id state db db.hints db.hint_enables,
  store_visibilities now t puzzle_id state db db.hints db.hint_visibilities,
  refl,
  store_enables-Keeps now t puzzle_id state db db.hints db.hint_enables,
  store_visibilities-Keeps now t puzzle_id state db db.hints db.hint_visibilities,
)

pub refresh_team_hint_states-Refreshed :
    (now t : ℤ) (puzzle_id : Option ℤ) (db : Db)
    → Refreshed db (refresh_team_hint_states now db t puzzle_id)
unfolding refresh_team_hint_states refresh_team_hint_states_conn
refresh_team_hint_states-Refreshed now t puzzle_id db = store_states-Refreshed now t puzzle_id db _

-- The times of a team's hint.
module _ (a b : Db) (r : Refreshed a b) (t h at : ℤ) where
  Refreshed-enabled_at : enabled_at t h a ≡ some at → enabled_at t h b ≡ some at
  unfolding enabled_at
  Refreshed-enabled_at was = elim (Option-cases (select (of_hint_enable t h) a.hint_enables)) [
    | inl no_row ↦ cc (rw (no_row, enabled_at) at was)
    | inr (row, found) ↦
        let (e, v, same, keeps, _) = r in
        rw (same, keeps t h row found, enabled_at) (rw (found, enabled_at) at was)
  ]

  Refreshed-displayed_at : displayed_at t h a ≡ some at → displayed_at t h b ≡ some at
  unfolding displayed_at
  Refreshed-displayed_at was =
      elim (Option-cases (select (of_hint_visibility t h) a.hint_visibilities)) [
        | inl no_row ↦ cc (rw (no_row, displayed_at) at was)
        | inr (row, found) ↦
            let (e, v, same, _, keeps) = r in
            let (row', found', (shown, _)) = keeps t h row found in
            rw (same, found', displayed_at) (shown at (rw (found, displayed_at) at was))
      ]

  Refreshed-title_displayed_at :
      title_displayed_at t h a ≡ some at → title_displayed_at t h b ≡ some at
  unfolding title_displayed_at
  Refreshed-title_displayed_at was =
      elim (Option-cases (select (of_hint_visibility t h) a.hint_visibilities)) [
        | inl no_row ↦ cc (rw (no_row, title_displayed_at) at was)
        | inr (row, found) ↦
            let (e, v, same, _, keeps) = r in
            let (row', found', (_, shown)) = keeps t h row found in
            rw (same, found', title_displayed_at) (shown at (rw (found, title_displayed_at) at was))
      ]

-- A cooldown that runs, from whichever of the four times the hint names, runs from the same time
-- after any refresh of any team's hints: it is not restarted and not lost.
pub refresh_team_hint_states-cooldown_start :
    (now t t' from at : ℤ) (puzzle_id : Option ℤ) (h : Hint) (db : Db)
    → cooldown_start t' h from db ≡ some at
    → cooldown_start t' h from (refresh_team_hint_states now db t puzzle_id) ≡ some at
unfolding cooldown_start
refresh_team_hint_states-cooldown_start now t t' from at puzzle_id h db =
    let after = refresh_team_hint_states now db t puzzle_id in
    let r = refresh_team_hint_states-Refreshed now t puzzle_id db in
    choice (eqℤ h.cooldown_origin (pos 1)) (Refreshed-enabled_at db after r t' h.id at) (
      choice (eqℤ h.cooldown_origin (pos 2)) (Refreshed-displayed_at db after r t' h.id at) (
        choice (eqℤ h.cooldown_origin (pos 3)) (Refreshed-title_displayed_at db after r t' h.id at)
          (λ same. same)))
  where
    choice :
        (b : Bool) {x y x' y' : Option ℤ}
        → (x ≡ some at → x' ≡ some at)
        → (y ≡ some at → y' ≡ some at)
        → (if b then x else y) ≡ some at
        → (if b then x' else y') ≡ some at
    choice true one other = one
    choice false one other = other
