-- ===== src/Hints/Purchase/Sales.antt =====
-- src/db/puzzle.rs: the tables that tell who owns and has bought a hint, through `purchase_hint`.
use rbph_website_backend.Prelude.{
  Option, none, some, List, [], ◌∷◌, Bool, true, false, ◌&&◌, any, err, if◌then◌else◌, ℤ, eqℤ_refl,
  ◌≡◌, refl, ap, ◌∙◌, inl, inr, Bool-cases, Option-cases,
}
use rbph_website_backend.Submit.Rows.{Hint, TeamHint, Db, select, update}
use rbph_website_backend.Submit.Guards.{is_team}
use rbph_website_backend.Submit.Context.{is_some}
use rbph_website_backend.Unlock.{unlock_new_puzzles}
use rbph_website_backend.Unlock.Closed.{unlock_new_puzzles-frame}
use rbph_website_backend.Hints.{accessible_from, of_team_hint, is_purchased}
use rbph_website_backend.Hints.Refresh.{refresh_team_hint_states}
use rbph_website_backend.Hints.Refresh.Kept.{refresh_team_hint_states-Refreshed}
use rbph_website_backend.Hints.Offer.{Purchase, is_unavailable, is_for_sale, owner, info, offer}
use rbph_website_backend.Hints.Purchase.{upsert_hint}

-- The tables from which the owner of a hint is read, and no purchase is lost.
abbrev pub SameOwners : Db → Db → Type 0
SameOwners a b =
    (b.hints ≡ a.hints) × (b.puzzles ≡ a.puzzles) × (b.rounds ≡ a.rounds) × (b.members ≡ a.members)

abbrev pub SameSales : Db → Db → Type 0
SameSales a b = (b.team_hints ≡ a.team_hints) × (SameOwners a b)

pub owner-same :
    (user_id hint_id : ℤ) (a b : Db)
    → SameOwners a b
    → owner user_id hint_id b ≡ owner user_id hint_id a
unfolding owner
owner-same user_id hint_id a b (h, p, r, m) = rw (h, p, r, m) refl

pub upsert_hint-is_there :
    (t h : ℤ) (rows : List TeamHint)
    → any (λ row. of_team_hint t h row && row.unlocked) (upsert_hint t h rows) ≡ true
unfolding upsert_hint
upsert_hint-is_there t h rows = elim (Bool-cases (any (of_team_hint t h) rows)) [
  | inl taken ↦ rw (taken, upsert_hint) (unlocked rows taken)
  | inr free ↦ rw (free, upsert_hint, eqℤ_refl t, eqℤ_refl h) refl
]
  where
    unlocked :
        (l : List TeamHint)
        → any (of_team_hint t h) l ≡ true
        → any
            (λ row. of_team_hint t h row && row.unlocked)
            (update (of_team_hint t h) (λ row. record row { unlocked = true }) l)
          ≡ true
    unlocked [] taken = cc
    unlocked (row ∷ l) taken = elim (Bool-cases (of_team_hint t h row)) [
      | inl e ↦ rw (e, e) refl
      | inr e ↦ rw (e, e) (unlocked l (rw e at taken))
    ]

-- The steps of the handler keep the tables.
pub refresh-SameSales :
    (now t : ℤ) (puzzle_id : Option ℤ) (db : Db)
    → SameSales db (refresh_team_hint_states now db t puzzle_id)
refresh-SameSales now t puzzle_id db =
    let (e, v, same, _, _) = refresh_team_hint_states-Refreshed now t puzzle_id db in
    rw same (refl, (refl, refl, refl, refl))

pub unlock-SameSales : (now t : ℤ) (db : Db) → SameSales db (unlock_new_puzzles now db t).0
unlock-SameSales now t db =
    let (rows, teams, log, same) = unlock_new_puzzles-frame now t db in
    rw same (refl, (refl, refl, refl, refl))

pub SameSales-trans : (a b c : Db) → SameSales a b → SameSales b c → SameSales a c
SameSales-trans a b c (s, (h, p, r, m)) (s', (h', p', r', m')) =
    (s' ∙ s, (h' ∙ h, p' ∙ p, r' ∙ r, m' ∙ m))

pub is_purchased-same :
    (t h : ℤ) (a b : Db)
    → b.team_hints ≡ a.team_hints
    → is_purchased t h a ≡ true
    → is_purchased t h b ≡ true
unfolding is_purchased
is_purchased-same t h a b same was =
    ap (λ rows. any (λ row. of_team_hint t h row && row.unlocked) rows) same ∙ was

pub SameOwners-trans : (a b c : Db) → SameOwners a b → SameOwners b c → SameOwners a c
SameOwners-trans a b c (h, p, r, m) (h', p', r', m') = (h' ∙ h, p' ∙ p, r' ∙ r, m' ∙ m)

-- Who owns which hint, and has bought it.
abbrev pub Sold : Purchase → Db → Type 0
Sold call db =
    (t : ℤ) × (h : Hint) × (owner call.user_id call.hint_id db ≡ some (t, h))
    × (is_purchased t h.id db ≡ true)

-- A hint that is sold is not for sale.
pub Sold-offer : (call : Purchase) (db : Db) → Sold call db → offer call db ≡ err is_unavailable
unfolding offer info is_for_sale
Sold-offer call db (t, h, owns, has) = rw (no_info, offer) refl
  where
    neither : (a : Bool) → Path (Option (ℤ × Hint)) (if a && false then some (t, h) else none) none
    neither true = refl
    neither false = refl

    not_for_sale : is_for_sale call.read_at t h db ≡ false
    not_for_sale = elim (Option-cases (accessible_from call.read_at t h db)) [
      | inl no_row ↦ rw (no_row, is_for_sale) refl
      | inr (from, open_from) ↦ rw (open_from, is_for_sale, has) refl
    ]

    no_info : info call.read_at call.user_id call.hint_id db ≡ none
    no_info = rw (owns, info, not_for_sale) (neither (is_some (select (is_team t) db.teams)))

pub Sold-again :
    (call again : Purchase) (db : Db)
    → again.user_id ≡ call.user_id
    → again.hint_id ≡ call.hint_id
    → Sold call db
    → Sold again db
Sold-again call again db user hint (t, h, owns, has) = (t, h, rw (user, hint) owns, has)

pub Sold-refresh :
    (call : Purchase) (now t : ℤ) (puzzle_id : Option ℤ) (db : Db)
    → Sold call db
    → Sold call (refresh_team_hint_states now db t puzzle_id)
Sold-refresh call now t puzzle_id db (t', h, owns, has) =
    let (sales, owners) = refresh-SameSales now t puzzle_id db in
    let after = refresh_team_hint_states now db t puzzle_id in
    (
      t',
      h,
      owner-same call.user_id call.hint_id db after owners ∙ owns,
      is_purchased-same t' h.id db after sales has,
    )
