-- ===== src/Submit/Context.antt =====
-- src/db/puzzle.rs: what `submit_answer` knows behind the verdict, and its local variables.
use rbph_website_backend.Prelude.{Option, none, some, List, Bool, true, false, ℤ}
use rbph_website_backend.Submit.Rows.{Puzzle, CurrencyPenaltyShowData}

-- What the handler knows when the verdict is stored. `submit_ctime_at` is the default of the table.
pub record Ctx : Type 0 where
  pub now : ℤ
  pub team_id : ℤ
  pub user_id : ℤ
  pub puzzle_id : ℤ
  pub puzzle : Puzzle
  pub submit_id : ℤ
  pub submit_ctime_at : ℤ

-- The handler's local variables.
pub record Locals : Type 0 where
  pub content_changed : Bool
  pub solved : Bool
  pub do_unlock : Bool
  pub cooldown_till : Option ℤ
  pub cooldown_seconds : Option ℤ
  pub currency_updated : Bool
  pub penalties : List CurrencyPenaltyShowData

-- `COALESCE(at, now)`.
abbrev pub coalesce : Option ℤ → ℤ → Option ℤ
coalesce (some at) _ = some at
coalesce none now = some now

abbrev pub is_some : {A : Type 0} → Option A → Bool
is_some none = false
is_some (some _) = true
