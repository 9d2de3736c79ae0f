-- ===== src/Hints/Offer/Granted.antt =====
-- src/db/puzzle.rs: what holds where `purchase_hint` goes on to sell a hint.
use rbph_website_backend.Prelude.{
  and_split, ◌&&◌, Option, some, true, ok, >>=-eq-ok, ok-injective, row-eq-some, row-eq-ok,
  if-eq-some, if-eq-ok, ℤ, eqℤ, ◌≡◌, ap, subst, ◌∙◌,
}
use rbph_website_backend.Submit.Rows.{Hint, Currency, Db, select}
use rbph_website_backend.Submit.Guards.{has_id, is_team}
use rbph_website_backend.Submit.Context.{is_some}
use rbph_website_backend.Unlock.States.{RbPuzzleStates, team_gate_state}
use rbph_website_backend.Hints.{hint_purchase_available}
use rbph_website_backend.Hints.Offer.{
  Purchase, is_hint, is_member, is_for_sale, owner, info, precheck, offer,
}

-- The hint that is sold to a team.
abbrev pub Granted : Purchase → Db → ℤ → Hint → Type 0
Granted call db t h =
    (owner call.user_id call.hint_id db ≡ some (t, h))
    × (is_for_sale call.read_at t h db ≡ true)
    × (state : RbPuzzleStates) × (team_gate_state t db ≡ some state)
    × (hint_purchase_available h.display_condition state true true ≡ true)

pub offer-Granted :
    (call : Purchase) (db : Db) (t : ℤ) (h : Hint) (currency : Option (Currency × ℤ))
    → offer call db ≡ ok (t, h, currency)
    → Granted call db t h
unfolding offer info
offer-Granted call db t h currency offered =
    let ((t₁, h₁), of_info, offered₁) =
      row-eq-ok (info call.read_at call.user_id call.hint_id db) _ _ offered in
    let ((t₂, h₂), bought, of_sale) = row-eq-some (owner call.user_id call.hint_id db) _ of_info in
    let (meets, same) =
      if-eq-some (is_some (select (is_team t₂) db.teams) && is_for_sale call.read_at t₂ h₂ db) _
        of_sale in
    let for_sale =
      (and_split (is_some (select (is_team t₂) db.teams)) (is_for_sale call.read_at t₂ h₂ db)
        meets).1 in
    let (state, of_state, offered₂) = row-eq-ok (team_gate_state t₁ db) _ _ offered₁ in
    let (available, paid) =
      if-eq-ok (hint_purchase_available h₁.display_condition state true true) _ _ offered₂ in
    let (row, _, result) = >>=-eq-ok (precheck call.check_at t₁ h₁ db) _ paid in
    let last : Path (ℤ × Hint) (t₁, h₁) (t, h) = ap (λ x. (x.0, x.1)) (ok-injective result) in
    let first : Path (ℤ × Hint) (t₂, h₂) (t, h) = cc in
    (
      bought ∙ ap (λ x. some x) first,
      subst (λ x. is_for_sale call.read_at x.0 x.1 db ≡ true) first for_sale,
      state,
      subst (λ x. team_gate_state x.0 db ≡ some state) last of_state,
      subst (λ x. hint_purchase_available x.1.display_condition state true true ≡ true) last
          available,
    )

-- The hint of a purchase is one of the table.
pub owner-hint :
    (user_id hint_id t : ℤ) (db : Db) (h : Hint)
    → owner user_id hint_id db ≡ some (t, h)
    → select (is_hint hint_id) db.hints ≡ some h
unfolding owner
owner-hint user_id hint_id t db h bought =
    let (row, found, of_row) = row-eq-some (select (is_hint hint_id) db.hints) _ bought in
    let (p, _, of_puzzle) = row-eq-some (select (has_id row.puzzle_id) db.puzzles) _ of_row in
    let (r, _, of_round) = row-eq-some (select (λ r. eqℤ r.id p.round_id) db.rounds) _ of_puzzle in
    let (m, _, same) = row-eq-some (select (is_member user_id r.game_id) db.members) _ of_round in
    let hint : row ≡ h = cc in found ∙ ap (λ x. some x) hint
