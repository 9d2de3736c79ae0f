-- ===== src/Hints/Purchase/Once.antt =====
-- src/db/puzzle.rs: a hint that a team has bought is not sold to it again.
use rbph_website_backend.Prelude.{
  Str, codes, Option, none, some, List, Bool, true, false, not, ◌&&◌, ◌||◌, any, Result, ok, err,
  Result-cases, if◌then◌else◌, ℤ, ◌≡◌, refl, sym, ap, subst, ◌∙◌, inl, inr, Option-cases,
}
use rbph_website_backend.Submit.Rows.{Hint, Currency, Db}
use rbph_website_backend.Judge.{RbInternalError, other}
use rbph_website_backend.Unlock.{unlock_new_puzzles}
use rbph_website_backend.Hints.{of_team_hint, is_purchased}
use rbph_website_backend.Hints.Refresh.{refresh_team_hint_states}
use rbph_website_backend.Hints.Show.{RbHintTeamStateShowData}
use rbph_website_backend.Hints.Offer.{
  Purchase, Exit, is_unavailable, is_insufficient, is_failed, target, offer,
}
use rbph_website_backend.Hints.Offer.Granted.{offer-Granted}
use rbph_website_backend.Hints.Purchase.Sales.{
  SameOwners, SameSales, SameOwners-trans, SameSales-trans, owner-same, upsert_hint-is_there,
  refresh-SameSales, unlock-SameSales, is_purchased-same, Sold, Sold-offer, Sold-refresh,
  Sold-again,
}
use rbph_website_backend.Hints.Purchase.Parts.{pay-frame, buy-parts}
use rbph_website_backend.Hints.Purchase.{
  HintServices, PurchaseHintResult, purchased, unavailable, run_backend, buy, answer,
  after_purchase, purchase_refreshed, purchase_hint,
}

module _ {B E : Type 0} (services : HintServices B E) where
  buy-SameOwners :
      (call : Purchase) (t : ℤ) (h : Hint) (db bought : Db) (result : RbHintTeamStateShowData)
      (inserted : Bool)
      → buy services call t h db ≡ ok (bought, result, inserted)
      → SameOwners db bought × (is_purchased t h.id bought ≡ true)
  unfolding is_purchased
  buy-SameOwners call t h db bought result inserted sold =
      let (paid, ids, is_paid, triggers, teams, log, written) =
        buy-parts services call t h db bought result inserted sold in
      let (rows, taken) = pay-frame call.begin_at t h db paid ids is_paid in
      (
        (
          ap (λ d. d.hints) written ∙ ap (λ d. d.hints) taken,
          ap (λ d. d.puzzles) written ∙ ap (λ d. d.puzzles) taken,
          ap (λ d. d.rounds) written ∙ ap (λ d. d.rounds) taken,
          ap (λ d. d.members) written ∙ ap (λ d. d.members) taken,
        ),
        ap (λ d. any (λ row. of_team_hint t h.id row && row.unlocked) d.team_hints) written
            ∙ upsert_hint-is_there t h.id paid.team_hints,
      )

  after_purchase-SameSales :
      (call : Purchase) (t : ℤ) (db : Db) (result : RbHintTeamStateShowData) (inserted : Bool)
      (events : List E)
      → SameSales db (after_purchase services call t db result inserted events).0
  unfolding after_purchase
  after_purchase-SameSales call t db result false events = (refl, (refl, refl, refl, refl))
  after_purchase-SameSales call t db result true events =
      let opened = (unlock_new_puzzles call.unlock_at db t).0 in
      let both =
        SameSales-trans db opened (refresh_team_hint_states call.unlock_at opened t none)
          (unlock-SameSales call.unlock_at t db) (refresh-SameSales call.unlock_at t none opened) in
      elim (Result-cases (unlock_new_puzzles call.unlock_at db t).1) [
        | inl (e, failing) ↦ rw (failing, after_purchase) (unlock-SameSales call.unlock_at t db)
        | inr (ids, opening) ↦ rw (opening, after_purchase) both
      ]

  answer-not_purchased :
      (exit : Exit) {P : Type 0} {result : RbHintTeamStateShowData} {unlocks : List ℤ}
      {changed : Bool} {events : List E}
      → answer services exit ≡ ok (purchased result unlocks changed events)
      → P
  answer-not_purchased is_insufficient h = cc
  answer-not_purchased is_unavailable h = cc
  answer-not_purchased (is_failed e) h = cc

  -- The runtime of the backend writes other tables.
  module _
      (keeps : (db : Db) (backend : B) (name : Str) (t : ℤ) (h : Hint) (c : Option (Currency × ℤ))
        → SameOwners db (services.execute_hint_purchase db backend name t h c).0) where
    run_backend-SameOwners :
        (t : ℤ) (h : Hint) (c : Option (Currency × ℤ)) (db : Db)
        → SameOwners db (run_backend services t h c db).0
    unfolding run_backend
    run_backend-SameOwners t h c db = elim (Option-cases h.backend_function) [
      | inl no_function ↦ rw (no_function, run_backend) (refl, refl, refl, refl)
      | inr (name, has) ↦ elim (Result-cases (services.get_backend db h.puzzle_id)) [
        | inl (e, failing) ↦ rw (has, run_backend, failing) (refl, refl, refl, refl)
        | inr (backend, got) ↦ elim (Option-cases backend) [
          | inl no_backend ↦ rw (has, run_backend, got, no_backend) (refl, refl, refl, refl)
          | inr (b, is_backend) ↦
              rw (has, run_backend, got, is_backend)
                (callable b name (not (services.enabled b) || not (services.export_enabled b name)))
        ]
      ]
    ]
      where
        callable :
            (b : B) (name : Str) (refuse : Bool)
            → SameOwners db
                (if refuse
                  then (db, err (other (codes "hint backend function not callable")))
                  else services.execute_hint_purchase db b name t h c).0
        callable b name true = (refl, refl, refl, refl)
        callable b name false = keeps db b name t h c

    bought_after :
        (call : Purchase) (t : ℤ) (h : Hint) (c : Option (Currency × ℤ)) (db ran bought after : Db)
        (shown : RbHintTeamStateShowData) (inserted : Bool) (list : List E)
        → offer call db ≡ ok (t, h, c)
        → SameOwners db ran
        → buy services call t h ran ≡ ok (bought, shown, inserted)
        → after ≡ (after_purchase services call t bought shown inserted list).0
        → Sold call after
    bought_after call t h c db ran bought after shown inserted list offered owners is_bought ends =
        let (owns, _, _, _, _) = offer-Granted call db t h c offered in
        let (same, has) = buy-SameOwners call t h ran bought shown inserted is_bought in
        let (sales, last) = after_purchase-SameSales call t bought shown inserted list in
        let end = (after_purchase services call t bought shown inserted list).0 in
        let all_owners =
          SameOwners-trans db ran end owners (SameOwners-trans ran bought end same last) in
        subst (λ d. Sold call d) (sym ends)
          (
            t,
            h,
            owner-same call.user_id call.hint_id db end all_owners ∙ owns,
            is_purchased-same t h.id bought end sales has,
          )

    purchase_refreshed-Sold :
        (call : Purchase) (db after : Db) (result : RbHintTeamStateShowData) (unlocks : List ℤ)
        (changed : Bool) (events : List E)
        → purchase_refreshed services call db
          ≡ (after, ok (purchased result unlocks changed events))
        → Sold call after
    unfolding purchase_refreshed
    purchase_refreshed-Sold call db after result unlocks changed events sold =
        elim (Result-cases (offer call db)) [
          | inl (exit, refused) ↦
              answer-not_purchased exit (ap (λ x. x.1) (rw (refused, purchase_refreshed) at sold))
          | inr ((t, h, c), offered) ↦ elim (Result-cases (run_backend services t h c db).1) [
            | inl (e, failing) ↦
                let wrong : Path (Result RbInternalError (PurchaseHintResult E)) (err e)
                    (ok (purchased result unlocks changed events)) =
                  ap (λ x. x.1) (rw (offered, failing, purchase_refreshed) at sold) in
                cc
            | inr (list, ran) ↦
                let db₁ = (run_backend services t h c db).0 in
                elim (Result-cases (buy services call t h db₁)) [
                  | inl (exit, refused) ↦
                      answer-not_purchased exit
                        (ap (λ x. x.1) (rw (offered, ran, refused, purchase_refreshed) at sold))
                  | inr ((bought, shown, inserted), is_bought) ↦
                      let same : after
                          ≡ (after_purchase services call t bought shown inserted list).0 =
                        sym (
                          ap (λ x. x.0)
                            (rw (offered, ran, is_bought, purchase_refreshed) at sold)) in
                      bought_after call t h c db db₁ bought after shown inserted list offered
                        (run_backend-SameOwners t h c db) is_bought same
                ]
          ]
        ]

    not_offered :
        (call : Purchase) (db : Db)
        → offer call db ≡ err is_unavailable
        → (purchase_refreshed services call db).1 ≡ ok unavailable
    unfolding purchase_refreshed
    not_offered call db refused = rw (refused, purchase_refreshed) refl

    purchase_hint-target :
        (call : Purchase) (db : Db) (t puzzle_id : ℤ)
        → target call.user_id call.hint_id db ≡ some (t, puzzle_id)
        → purchase_hint services call db
          ≡ purchase_refreshed services call
              (refresh_team_hint_states call.refresh_at db t (some puzzle_id))
    unfolding purchase_hint
    purchase_hint-target call db t puzzle_id is_target = rw (is_target, purchase_hint) refl

    -- A hint that a member of a team has bought is not sold to that member again: a second call with
    -- the same user and hint, whatever its times, answers that the hint is unavailable. The
    -- runtime of the puzzle's backend is taken to write none of the tables of hints, puzzles, rounds
    -- and members.
    pub purchase_hint-once :
        (call again : Purchase) (db after : Db) (result : RbHintTeamStateShowData)
        (unlocks : List ℤ) (changed : Bool) (events : List E)
        → again.user_id ≡ call.user_id
        → again.hint_id ≡ call.hint_id
        → purchase_hint services call db ≡ (after, ok (purchased result unlocks changed events))
        → (purchase_hint services again after).1 ≡ ok unavailable
    unfolding purchase_hint
    purchase_hint-once call again db after result unlocks changed events user hint sold =
        let has : Sold call after = elim (Option-cases (target call.user_id call.hint_id db)) [
          | inl no_target ↦
              let wrong : Path (Result RbInternalError (PurchaseHintResult E)) (ok unavailable)
                  (ok (purchased result unlocks changed events)) =
                ap (λ x. x.1) (rw (no_target, purchase_hint) at sold) in
              cc
          | inr ((t, puzzle_id), is_target) ↦
              purchase_refreshed-Sold call
                (refresh_team_hint_states call.refresh_at db t (some puzzle_id)) after result
                unlocks changed events
                (sym (purchase_hint-target call db t puzzle_id is_target) ∙ sold)
        ] in
        let again_has : Sold again after = Sold-again call again after user hint has in
        elim (Option-cases (target again.user_id again.hint_id after)) [
          | inl no_target ↦ rw (no_target, purchase_hint) refl
          | inr ((t', puzzle_id), is_target) ↦
              let refreshed = refresh_team_hint_states again.refresh_at after t' (some puzzle_id) in
              ap (λ x. x.1) (purchase_hint-target again after t' puzzle_id is_target)
              ∙ not_offered again refreshed (
                  Sold-offer again refreshed
                    (Sold-refresh again again.refresh_at t' (some puzzle_id) after again_has))
        ]
