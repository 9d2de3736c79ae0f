-- ===== src/Currency/Locked.antt =====
-- src/db/team.rs: what `lock_currency_runtime_conn` has read when it finds a row.
use rbph_website_backend.Prelude.{
  Option, none, some, ◌≡◌, refl, sym, ap, ◌∙◌, Result, ok, >>=-eq-ok, row-eq-some, ℤ, eqℤ, eqℤ_iff,
}
use rbph_website_backend.Submit.Rows.{Currency, TeamCurrency, GameFeature, Db, select}
use rbph_website_backend.Submit.Rows.Queries.{select-holds}
use rbph_website_backend.Submit.Guards.{Stop, of_team_currency, is_currency_feature, current_amount}
use rbph_website_backend.Submit.Penalties.{penalty_rows}
use rbph_website_backend.Currency.{CurrencyRuntimeRow, lock_currency_runtime}

-- What the lock of a row has read.
pub record Locked (now team_id currency_id : ℤ) (db : Db) (row : CurrencyRuntimeRow) : Type 0 where
  pub tc : TeamCurrency
  pub c : Currency
  pub gf : GameFeature
  pub row_of : select (of_team_currency team_id currency_id) db.team_currencies ≡ some tc
  pub currency_of : select (λ k. eqℤ k.id currency_id) db.currencies ≡ some c
  pub amount_of : current_amount now gf c tc ≡ ok row.current_amount
  pub max_of : c.max_amount ≡ row.max_amount
  pub id_of : row.id ≡ currency_id

-- A read that found its row.
found-eq-ok :
    {A B : Type 0} (o : Option A) (k : A → Result Stop (Option B)) {b : B}
    → elim o [ none ↦ ok none | some a ↦ k a ] ≡ ok (some b)
    → (a : A) × (o ≡ some a) × (k a ≡ ok (some b))
found-eq-ok none k h = cc h
found-eq-ok (some a) k h = (a, refl, h)

pub penalty_rows-found :
    (team_id currency_id : ℤ) (db : Db) (tc : TeamCurrency) (c : Currency)
    → penalty_rows team_id currency_id db ≡ some (tc, c)
    → (select (of_team_currency team_id currency_id) db.team_currencies ≡ some tc)
      × (select (λ k. eqℤ k.id currency_id) db.currencies ≡ some c)
unfolding penalty_rows
penalty_rows-found team_id currency_id db tc c h =
    let (t, p, g) =
      row-eq-some (select (of_team_currency team_id currency_id) db.team_currencies) _ h in
    let (k, q, e) = row-eq-some (select (λ k. eqℤ k.id currency_id) db.currencies) _ g in
    let same_row : t ≡ tc = cc e in
    let same_currency : k ≡ c = cc e in (p ∙ ap some same_row, q ∙ ap some same_currency)

locked_row :
    (current : ℤ) (c : Currency) (row : CurrencyRuntimeRow)
    → Path
        (Result Stop (Option CurrencyRuntimeRow))
        (ok (
          some (record {
            id = c.id;
            game_id = c.game_id;
            current_amount = current;
            max_amount = c.max_amount;
          })))
        (ok (some row))
    → (c.id ≡ row.id) × (current ≡ row.current_amount) × (c.max_amount ≡ row.max_amount)
locked_row current c row h =
    let read : CurrencyRuntimeRow = record {
      id = c.id;
      game_id = c.game_id;
      current_amount = current;
      max_amount = c.max_amount;
    } in
    let same : read ≡ row = cc h in
    (ap (λ r. r.id) same, ap (λ r. r.current_amount) same, ap (λ r. r.max_amount) same)

pub lock-Locked :
    (now team_id currency_id : ℤ) (db : Db) (row : CurrencyRuntimeRow)
    → lock_currency_runtime now team_id currency_id db ≡ ok (some row)
    → Locked now team_id currency_id db row
unfolding lock_currency_runtime
lock-Locked now team_id currency_id db row h =
    let ((tc, c), rows, h₁) = found-eq-ok (penalty_rows team_id currency_id db) _ h in
    let (row_of, currency_of) = penalty_rows-found team_id currency_id db tc c rows in
    let (gf, _, h₂) = found-eq-ok (select (is_currency_feature c.game_id) db.features) _ h₁ in
    let (current, amount_of, h₃) = >>=-eq-ok (current_amount now gf c tc) _ h₂ in
    let (id, amount, max) = locked_row current c row h₃ in
    record {
      tc = tc;
      c = c;
      gf = gf;
      row_of = row_of;
      currency_of = currency_of;
      amount_of = amount_of ∙ ap ok amount;
      max_of = max;
      id_of = sym id ∙ (eqℤ_iff c.id currency_id).0 (select-holds _ db.currencies currency_of);
    }
