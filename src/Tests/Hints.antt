-- ===== src/Tests/Hints.antt =====
-- A hint shown, bought and refreshed.
use rbph_website_backend.Prelude.{
  ℕ, ◌≡◌, refl, codes, true, false, none, some, [], ◌∷◌, Bool, Result, ok, err, ℤ, pos, leℤ, ◌-ℤ◌,
}
use rbph_website_backend.Submit.Rows.{Hint, TeamCurrency, Db, select}
use rbph_website_backend.Submit.Guards.{of_team_currency}
use rbph_website_backend.Hints.{cooldown_start}
use rbph_website_backend.Hints.Refresh.{refresh_team_hint_states}
use rbph_website_backend.Hints.Refresh.Kept.{refresh_team_hint_states-cooldown_start}
use rbph_website_backend.Hints.Show.{RbHintTeamStateShowData, content_of, get_hints_show_for_team}
use rbph_website_backend.Hints.Show.Offered.{is_listed, offer-is_listed}
use rbph_website_backend.Hints.Offer.{Purchase, Exit, offer}
use rbph_website_backend.Hints.Purchase.{HintServices, purchased, unavailable, buy, purchase_hint}
use rbph_website_backend.Hints.Purchase.Debt.{Covers, buy-no_debt}
use rbph_website_backend.Hints.Purchase.Once.{purchase_hint-once}
use rbph_website_backend.Tests.Fixtures.{coins, db}

-- A hint for three coins, from the fifth microsecond on.
abbrev hint : Hint
hint = record {
  id = pos 4;
  puzzle_id = pos 5;
  title = codes "H";
  hidden_title = none;
  content = codes "C";
  cooldown = pos 0;
  cooldown_origin = pos 1;
  enable_cond = some (codes "(true)");
  display_condition = none;
  title_display_condition = none;
  cost_id = some (pos 9);
  cost_amount = pos 3;
  backend_function = none;
  triggers = [];
}

abbrev hint_db : Db
hint_db = record db {
  rounds = record { id = pos 2; slug = none; game_id = pos 1; puzzle = none } ∷ [];
  hints = hint ∷ [];
  hint_enables = record { team_id = pos 7; hint_id = pos 4; enabled_at = pos 5 } ∷ [];
}

abbrev call : Purchase
call = record {
  user_id = pos 3;
  hint_id = pos 4;
  refresh_at = pos 20;
  read_at = pos 20;
  check_at = pos 20;
  begin_at = pos 20;
  unlock_at = pos 20;
}

abbrev hint_services : HintServices ℕ ℕ
hint_services = record {
  get_backend = λ db p. ok none;
  enabled = λ b. true;
  export_enabled = λ b name. true;
  execute_hint_purchase = λ db b name t h c. (db, ok []);
  invalidate_team_hints = λ t p. ok true;
}

runs : cooldown_start (pos 7) hint (pos 0) hint_db ≡ some (pos 5)
unfolding cooldown_start
runs = refl

refresh_team_hint_states-cooldown_start_example :
    cooldown_start
      (pos 7)
      hint
      (pos 0)
      (refresh_team_hint_states (pos 30) hint_db (pos 7) (some (pos 5)))
    ≡ some (pos 5)
refresh_team_hint_states-cooldown_start_example =
    refresh_team_hint_states-cooldown_start (pos 30) (pos 7) (pos 7) (pos 0) (pos 5) (some (pos 5))
      hint hint_db runs

offered :
    offer call (refresh_team_hint_states (pos 20) hint_db (pos 7) (some (pos 5)))
    ≡ ok (pos 7, hint, some (coins, pos 10))
unfolding offer refresh_team_hint_states
offered = refl

offer-is_listed_example :
    is_listed (pos 4) (get_hints_show_for_team (pos 20) hint_db (pos 7) (pos 5)).1 ≡ true
offer-is_listed_example = offer-is_listed call hint_db (pos 7) hint (some (coins, pos 10)) offered

abbrev after_buying : Result Exit (Db × RbHintTeamStateShowData × Bool) → Db
after_buying (ok (bought, _, _)) = bought
after_buying (err _) = db

abbrev bought_db : Db
bought_db = after_buying (buy hint_services call (pos 7) hint hint_db)

buys : buy hint_services call (pos 7) hint hint_db ≡ ok (bought_db, content_of hint, false)
unfolding buy
buys = refl

charges : leℤ (pos 3) (pos 0) ≡ false
unfolding leℤ
charges = refl

buy-no_debt_example :
    (before : ℤ) × (row : TeamCurrency) × Covers (pos 20) (pos 7) (pos 9) hint hint_db before
    × (select (of_team_currency (pos 7) (pos 9)) bought_db.team_currencies ≡ some row)
    × (row.amount ≡ before -ℤ pos 3)
    × (leℤ (pos 0) row.amount ≡ true)
buy-no_debt_example =
    buy-no_debt hint_services call (pos 7) (pos 9) hint hint_db bought_db (content_of hint) false
      refl charges buys

abbrev after_call : Db
after_call = (purchase_hint hint_services call hint_db).0

sold :
    purchase_hint hint_services call hint_db
    ≡ (after_call, ok (purchased (content_of hint) [] false []))
unfolding purchase_hint
sold = refl

purchase_hint-once_example :
    (purchase_hint hint_services (record call { read_at = pos 40 }) after_call).1 ≡ ok unavailable
purchase_hint-once_example =
    purchase_hint-once hint_services (λ db b name t h c. (refl, refl, refl, refl)) call
      (record call { read_at = pos 40 }) hint_db after_call (content_of hint) [] false [] refl refl
      sold
