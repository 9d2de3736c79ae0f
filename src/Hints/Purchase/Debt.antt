-- ===== src/Hints/Purchase/Debt.antt =====
-- src/db/puzzle.rs: what the transaction of `purchase_hint` takes from a team.
use rbph_website_backend.Prelude.{
  Option, none, some, Bool, true, false, ◌||◌, ok, map_err, >>=-eq-ok, ok-injective, ℤ, pos, negsuc,
  eqℤ, eqℤ_iff, leℤ, leℤ-sub, minℤ, diff, ◌+ℤ◌, ◌-ℤ◌, ◌≡◌, refl, sym, ap, subst, ◌∙◌, inl, inr,
  Bool-cases, Option-cases, arith,
}
use rbph_website_backend.Submit.Rows.{Hint, Currency, TeamCurrency, Db, select, update}
use rbph_website_backend.Submit.Rows.Queries.{select-holds, select-update}
use rbph_website_backend.Submit.Guards.{bigint, accrued, of_team_currency}
use rbph_website_backend.Submit.Penalties.{penalty_rows}
use rbph_website_backend.Currency.Locked.{penalty_rows-found}
use rbph_website_backend.Hints.Offer.{Purchase, exit_of, covered}
use rbph_website_backend.Hints.Purchase.{HintServices, buy}
use rbph_website_backend.Hints.Purchase.Parts.{take-parts, pay-take, buy-parts}
use rbph_website_backend.Hints.Show.{RbHintTeamStateShowData}

zero_add : (z : ℤ) → pos 0 +ℤ z ≡ z
unfolding ◌+ℤ◌ diff
zero_add (pos n) = ground arith
zero_add (negsuc n) = ground arith

zero_sub : (y z : ℤ) → leℤ z y ≡ true → leℤ (pos 0) (y -ℤ z) ≡ true
zero_sub y z h = leℤ-sub (pos 0) y z ∙ rw (zero_add z) h

-- A row that covers a cost.
covered-row :
    (now t currency_id cost : ℤ) (db : Db) (k : Currency) (amount : ℤ)
    → covered now t currency_id cost db ≡ ok (some (k, amount))
    → (tc : TeamCurrency) × (penalty_rows t currency_id db ≡ some (tc, k))
      × ((leℤ cost (pos 0) || leℤ cost amount) ≡ true)
unfolding covered
covered-row now t currency_id cost db k amount found =
    elim (Option-cases (penalty_rows t currency_id db)) [
      | inl no_row ↦ cc (rw (no_row, covered) at found)
      | inr ((tc, k'), rows) ↦
          let steps = rw (rows, covered) at found in
          let (grown, _, h₁) = >>=-eq-ok (map_err exit_of (accrued now k' tc)) _ steps in
          let (amount', _, h₂) =
            >>=-eq-ok (map_err exit_of (bigint (minℤ grown k'.max_amount))) _ h₁ in
          elim (Bool-cases (leℤ cost (pos 0) || leℤ cost amount')) [
            | inl meets ↦
                let pair : Path (Option (Currency × ℤ)) (some (k', amount')) (some (k, amount)) =
                  ok-injective (rw meets at h₂) in
                let first : k' ≡ k = cc in
                let second : amount' ≡ amount = cc in
                (
                  tc,
                  rows ∙ ap (λ x. some (tc, x)) first,
                  subst (λ x. (leℤ cost (pos 0) || leℤ cost x) ≡ true) second meets,
                )
            | inr short ↦
                let pair : Path (Option (Currency × ℤ)) none (some (k, amount)) =
                  ok-injective (rw short at h₂) in
                cc
          ]
    ]

penalty_rows-keys :
    (t currency_id : ℤ) (db : Db) (tc : TeamCurrency) (k : Currency)
    → penalty_rows t currency_id db ≡ some (tc, k)
    → (select (of_team_currency t currency_id) db.team_currencies ≡ some tc) × (k.id ≡ currency_id)
penalty_rows-keys t currency_id db tc k rows =
    let (found, of_currency) = penalty_rows-found t currency_id db tc k rows in
    (
      found,
      (eqℤ_iff k.id currency_id).0
          (select-holds (λ c. eqℤ c.id currency_id) db.currencies of_currency),
    )

-- What the row of the currency has been found to cover.
abbrev pub Covers : ℤ → ℤ → ℤ → Hint → Db → ℤ → Type 0
Covers now t currency_id h db before =
    (k : Currency) × (covered now t currency_id h.cost_amount db ≡ ok (some (k, before)))

-- A hint that costs something leaves no debt: where the transaction of `purchase_hint` gets through,
-- the team's row of the currency had, with its growth, at least the cost, has exactly the cost less
-- afterwards, and that is not negative.
pub buy-no_debt :
    {B E : Type 0} (services : HintServices B E) (call : Purchase) (t currency_id : ℤ) (h : Hint)
    (db bought : Db) (result : RbHintTeamStateShowData) (inserted : Bool)
    → h.cost_id ≡ some currency_id
    → leℤ h.cost_amount (pos 0) ≡ false
    → buy services call t h db ≡ ok (bought, result, inserted)
    → (before : ℤ) × (row : TeamCurrency) × Covers call.begin_at t currency_id h db before
      × (select (of_team_currency t currency_id) bought.team_currencies ≡ some row)
      × (row.amount ≡ before -ℤ h.cost_amount)
      × (leℤ (pos 0) row.amount ≡ true)
buy-no_debt services call t currency_id h db bought result inserted costs charges sold =
    let (paid, ids, is_paid, _, _, _, written) =
      buy-parts services call t h db bought result inserted sold in
    let (k, before, covers, taken) =
      take-parts call.begin_at t currency_id h.cost_amount db paid ids
        (sym (pay-take call.begin_at t h db currency_id costs) ∙ is_paid) in
    let (tc, rows, meets) =
      covered-row call.begin_at t currency_id h.cost_amount db k before covers in
    let (of_team, key) = penalty_rows-keys t currency_id db tc k rows in
    let set : TeamCurrency → TeamCurrency =
      λ row. record row { utime_at = call.begin_at; amount = before -ℤ h.cost_amount } in
    let stored : bought.team_currencies ≡ update (of_team_currency t k.id) set db.team_currencies =
      ap (λ d. d.team_currencies) written ∙ ap (λ d. d.team_currencies) taken in
    (
      before,
      set tc,
      (k, covers),
      ap (λ l. select (of_team_currency t currency_id) l) stored
          ∙ ap
              (λ i.
                select (of_team_currency t currency_id)
                  (update (of_team_currency t i) set db.team_currencies))
              key
          ∙ select-update (of_team_currency t currency_id) set (λ row. refl) db.team_currencies
              of_team,
      refl,
      zero_sub before h.cost_amount (sym (ap (λ b. b || leℤ h.cost_amount before) charges) ∙ meets),
    )
