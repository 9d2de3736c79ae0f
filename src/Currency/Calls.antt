-- ===== src/Currency/Calls.antt =====
-- src/db/team.rs: the amounts of the teams through any sequence of `cost_currency` and
-- `add_currency`.
use rbph_website_backend.Prelude.{
  subst, Option, none, some, List, [], ◌∷◌, Bool, true, ◌≡◌, refl, inl, inr, Bool-cases,
  Result-cases, Result, ok, err, and_split, all, ℤ, pos, eqℤ, eqℤ_iff, leℤ, within,
}
use rbph_website_backend.Submit.Rows.{TeamCurrency, Db, select, update}
use rbph_website_backend.Submit.Rows.Queries.{select-holds}
use rbph_website_backend.Submit.Guards.{Stop, of_team_currency}
use rbph_website_backend.Submit.Judging.{log_event}
use rbph_website_backend.Currency.{
  currency_cost_change, CurrencyRuntimeRow, lock_currency_runtime, set_amount, cost_currency_locked,
  cost_found, cost_currency_conn, stored_amount, add_currency_locked, with_growth, add_found,
  add_currency_conn,
}
use rbph_website_backend.Currency.Amounts.{current_amount-within, granted-within, stored-within}
use rbph_website_backend.Currency.Locked.{Locked, lock-Locked}

-- A call with the time of its transaction, the team, the currency and the cost or the gain.
pub data Call : Type 0 where
  cost_call : (now team_id currency_id amount : ℤ) → Call
  add_call : (now team_id currency_id delta : ℤ) → Call

-- A transaction that fails or panics is rolled back.
unfoldable pub after_cost : Db → Result Stop (Db × Bool) → Db
after_cost db (err e) = db
after_cost db (ok (changed, done)) = changed

unfoldable pub after_add : Db → Result Stop (Option (Db × Option ℤ)) → Db
after_add db (err e) = db
after_add db (ok none) = db
after_add db (ok (some (changed, growth))) = changed

unfoldable pub step : Call → Db → Db
unfolding after_cost after_add cost_currency_conn add_currency_conn
step (cost_call now team_id currency_id amount) db =
    after_cost db (cost_currency_conn now team_id currency_id amount db)
step (add_call now team_id currency_id delta) db =
    after_add db (add_currency_conn now team_id currency_id delta db)

unfoldable pub run : List Call → Db → Db
unfolding step
run [] db = db
run (c ∷ calls) db = run calls (step c db)

-- Amounts by team and currency: each row of `rb_team_currency` lies between the two bounds.
abbrev pub AllWithin : (low high : ℤ → ℤ → ℤ) → Db → Type 0
AllWithin low high db =
    all (λ tc. within (low tc.team_id tc.currency_id) (high tc.team_id tc.currency_id) tc.amount)
      db.team_currencies
    ≡ true

-- The upper bounds reach the maxima of the currencies.
abbrev pub CoversMaxima : (ℤ → ℤ → ℤ) → Db → Type 0
CoversMaxima high db =
    (team_id : ℤ) → all (λ c. leℤ c.max_amount (high team_id c.id)) db.currencies ≡ true

module _ {A : Type 0} where
  all-select :
      (p q : A → Bool) (rows : List A) {row : A}
      → all p rows ≡ true
      → select q rows ≡ some row
      → p row ≡ true
  unfolding select
  all-select p q [] h found = cc found
  all-select p q (x ∷ rows) {row} h found = elim (Bool-cases (q x)) [
    | inl e ↦
        let same : x ≡ row = cc (rw e at found) in
        subst (λ r. p r ≡ true) same (and_split (p x) _ h).0
    | inr e ↦ all-select p q rows (and_split (p x) _ h).1 (rw e at found)
  ]

  all-update :
      (p q : A → Bool) (f : A → A)
      → ((row : A) → q row ≡ true → p (f row) ≡ true)
      → (rows : List A) → all p rows ≡ true
      → all p (update q f rows) ≡ true
  unfolding update
  all-update p q f sets [] h = refl
  all-update p q f sets (x ∷ rows) h =
      let (first, rest) = and_split (p x) _ h in
      let others = all-update p q f sets rows rest in
      elim (Bool-cases (q x)) [ inl e ↦ rw (e, sets x e) others | inr e ↦ rw (e, first) others ]

by_cases :
    {A B : Type 0} (P : B → Type 0) (o : Option A) {b : B} {k : A → B}
    → P b
    → ((a : A) → o ≡ some a → P (k a))
    → P (elim o [ none ↦ b | some a ↦ k a ])
by_cases P none h f = h
by_cases P (some a) h f = f a refl

of_team_currency-ids :
    (team_id currency_id : ℤ) (tc : TeamCurrency)
    → of_team_currency team_id currency_id tc ≡ true
    → (tc.team_id ≡ team_id) × (tc.currency_id ≡ currency_id)
of_team_currency-ids team_id currency_id tc h =
    let (p, q) = and_split (eqℤ tc.team_id team_id) _ h in
    ((eqℤ_iff tc.team_id team_id).0 p, (eqℤ_iff tc.currency_id currency_id).0 q)

module _ (low high : ℤ → ℤ → ℤ) (below : (t k : ℤ) → leℤ (low t k) (pos 0) ≡ true) where
  -- The amount that was locked lies between the bounds, as the stored one does.
  lock_fits :
      (now team_id currency_id : ℤ) (db : Db) (row : CurrencyRuntimeRow)
      → AllWithin low high db
      → CoversMaxima high db
      → Locked now team_id currency_id db row
      → (within (low team_id row.id) (high team_id row.id) row.current_amount ≡ true)
        × (leℤ row.max_amount (high team_id row.id) ≡ true)
  lock_fits now team_id currency_id db row inside covers l =
      let stored =
        all-select _ (of_team_currency team_id currency_id) db.team_currencies inside l.row_of in
      let (of_team, of_currency) =
        of_team_currency-ids team_id currency_id l.tc
          (select-holds (of_team_currency team_id currency_id) db.team_currencies l.row_of) in
      let reaches =
        subst (λ k. leℤ l.c.max_amount (high team_id k) ≡ true)
          ((eqℤ_iff l.c.id currency_id).0 (select-holds _ db.currencies l.currency_of))
          (all-select _ _ db.currencies (covers team_id) l.currency_of) in
      rw (l.id_of, ← l.max_of)
        (
          current_amount-within (low team_id currency_id) (high team_id currency_id) now
              row.current_amount l.gf l.c l.tc (below team_id currency_id) reaches
              (subst (λ k. within (low team_id k) (high team_id k) l.tc.amount ≡ true) of_currency
                (subst
                  (λ t.
                    within (low t l.tc.currency_id) (high t l.tc.currency_id) l.tc.amount ≡ true)
                  of_team stored))
              l.amount_of,
          reaches,
        )

  set_amount-within :
      (now team_id currency_id amount : ℤ) (db : Db)
      → within (low team_id currency_id) (high team_id currency_id) amount ≡ true
      → AllWithin low high db
      → AllWithin low high (set_amount now team_id currency_id amount db)
  unfolding set_amount
  set_amount-within now team_id currency_id amount db fits inside =
      all-update _ (of_team_currency team_id currency_id)
        (λ row. record row { amount = amount; utime_at = now })
        (λ row found.
          let (of_team, of_currency) = of_team_currency-ids team_id currency_id row found in
          rw (of_team, of_currency) fits)
        db.team_currencies inside

  cost_lock_fits :
      (now team_id amount : ℤ) (db : Db) (row : CurrencyRuntimeRow)
      → (within (low team_id row.id) (high team_id row.id) row.current_amount ≡ true)
        × (leℤ row.max_amount (high team_id row.id) ≡ true)
      → AllWithin low high db
      → AllWithin low high (cost_currency_locked now team_id row amount db).0
  unfolding cost_currency_locked log_event
  cost_lock_fits now team_id amount db row (fits, reaches) inside =
      by_cases {B = Db × Bool} (λ r. AllWithin low high r.0)
        (currency_cost_change row.current_amount row.max_amount amount) inside
        (λ change granted.
          set_amount-within now team_id row.id change.next_amount db
            (granted-within (low team_id row.id) (high team_id row.id) row.current_amount
              row.max_amount amount change (below team_id row.id) reaches fits granted)
            inside)

  add_lock_fits :
      (now team_id delta : ℤ) (db : Db) (row : CurrencyRuntimeRow)
      → (within (low team_id row.id) (high team_id row.id) row.current_amount ≡ true)
        × (leℤ row.max_amount (high team_id row.id) ≡ true)
      → AllWithin low high db
      → AllWithin low high (after_add db (ok (add_found now team_id (some row) delta db)))
  unfolding after_add with_growth add_found add_currency_locked log_event
  add_lock_fits now team_id delta db row (fits, reaches) inside =
      by_cases (λ r. AllWithin low high (after_add db (ok (with_growth r))))
        (stored_amount row.current_amount row.max_amount delta) inside
        (λ stored of_gain.
          set_amount-within now team_id row.id stored db
            (stored-within (low team_id row.id) (high team_id row.id) row.current_amount
              row.max_amount delta stored (below team_id row.id) reaches fits of_gain)
            inside)

  cost-within :
      (now team_id currency_id amount : ℤ) (db : Db)
      → AllWithin low high db
      → CoversMaxima high db
      → AllWithin low high (after_cost db (cost_currency_conn now team_id currency_id amount db))
  unfolding after_cost cost_currency_conn cost_found
  cost-within now team_id currency_id amount db inside covers =
      elim (Result-cases (lock_currency_runtime now team_id currency_id db)) [
        | inl (e, p) ↦ rw p inside
        | inr (none, p) ↦ rw p inside
        | inr (some row, p) ↦ rw p (
            cost_lock_fits now team_id amount db row
              (lock_fits now team_id currency_id db row inside covers
                (lock-Locked now team_id currency_id db row p))
              inside)
      ]

  add-within :
      (now team_id currency_id delta : ℤ) (db : Db)
      → AllWithin low high db
      → CoversMaxima high db
      → AllWithin low high (after_add db (add_currency_conn now team_id currency_id delta db))
  unfolding after_add add_currency_conn add_found
  add-within now team_id currency_id delta db inside covers =
      elim (Result-cases (lock_currency_runtime now team_id currency_id db)) [
        | inl (e, p) ↦ rw p inside
        | inr (none, p) ↦ rw p inside
        | inr (some row, p) ↦ rw p (
            add_lock_fits now team_id delta db row
              (lock_fits now team_id currency_id db row inside covers
                (lock-Locked now team_id currency_id db row p))
              inside)
      ]

-- No call changes a currency.
cost_found-currencies :
    (now team_id amount : ℤ) (db : Db) (row : CurrencyRuntimeRow)
    → (cost_currency_locked now team_id row amount db).0.currencies ≡ db.currencies
unfolding cost_currency_locked set_amount log_event
cost_found-currencies now team_id amount db row =
    by_cases {B = Db × Bool} (λ r. r.0.currencies ≡ db.currencies)
      (currency_cost_change row.current_amount row.max_amount amount) refl (λ change granted. refl)

add_found-currencies :
    (now team_id delta : ℤ) (db : Db) (row : CurrencyRuntimeRow)
    → (after_add db (ok (add_found now team_id (some row) delta db))).currencies ≡ db.currencies
unfolding after_add with_growth add_found add_currency_locked set_amount log_event
add_found-currencies now team_id delta db row =
    by_cases (λ r. (after_add db (ok (with_growth r))).currencies ≡ db.currencies)
      (stored_amount row.current_amount row.max_amount delta) refl (λ stored of_gain. refl)

step-currencies : (c : Call) (db : Db) → (step c db).currencies ≡ db.currencies
unfolding step after_cost after_add cost_currency_conn add_currency_conn cost_found add_found
step-currencies (cost_call now team_id currency_id amount) db =
    elim (Result-cases (lock_currency_runtime now team_id currency_id db)) [
      | inl (e, p) ↦ rw p refl
      | inr (none, p) ↦ rw p refl
      | inr (some row, p) ↦ rw p (cost_found-currencies now team_id amount db row)
    ]
step-currencies (add_call now team_id currency_id delta) db =
    elim (Result-cases (lock_currency_runtime now team_id currency_id db)) [
      | inl (e, p) ↦ rw p refl
      | inr (none, p) ↦ rw p refl
      | inr (some row, p) ↦ rw p (add_found-currencies now team_id delta db row)
    ]

step-within :
    (low high : ℤ → ℤ → ℤ)
    → ((t k : ℤ) → leℤ (low t k) (pos 0) ≡ true)
    → (c : Call) (db : Db) → AllWithin low high db
    → CoversMaxima high db
    → AllWithin low high (step c db)
unfolding step
step-within low high below (cost_call now team_id currency_id amount) db inside covers =
    cost-within low high below now team_id currency_id amount db inside covers
step-within low high below (add_call now team_id currency_id delta) db inside covers =
    add-within low high below now team_id currency_id delta db inside covers

-- Take bounds for each team and currency, the lower one at most zero and the upper one at least the
-- maximum of the currency. When each row of rb_team_currency has an amount between them, each has so
-- again after any sequence of cost_currency and add_currency, by any teams at any times, with any
-- costs and gains, whether granted, refused or failed, and with the growth that the lock of a row
-- adds.
pub run-AllWithin :
    (low high : ℤ → ℤ → ℤ)
    → ((t k : ℤ) → leℤ (low t k) (pos 0) ≡ true)
    → (calls : List Call) (db : Db) → CoversMaxima high db
    → AllWithin low high db
    → AllWithin low high (run calls db)
unfolding run
run-AllWithin low high below [] db covers inside = inside
run-AllWithin low high below (c ∷ calls) db covers inside =
    run-AllWithin low high below calls (step c db) (λ t. rw (step-currencies c db) (covers t))
      (step-within low high below c db inside covers)
