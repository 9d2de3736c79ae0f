-- ===== src/Submit/Rows.antt =====
-- The rows that `submit_answer` of src/db/puzzle.rs reads and writes, and its statements' forms. A
-- time is a number of microseconds, and `NOW()` is the start of the transaction.
pub mod Queries
use rbph_website_backend.Prelude.{
  ℕ, suc, Str, Option, none, some, List, [], ◌∷◌, Bool, Result, ℤ, if◌then◌else◌,
}
use rbph_website_backend.Model.Game.{RbPuzzlePenaltyType}
use rbph_website_backend.Judge.{JudgeRule}

pub record PuzzleSubmitRequirement : Type 0 where
  pub currency_id : ℤ
  pub minimum : ℤ

pub record PenaltyRule : Type 0 where
  pub rtype : RbPuzzlePenaltyType
  pub args : List ℤ

-- `rb_team`.
pub record Team : Type 0 where
  pub id : ℤ
  pub game_id : ℤ
  pub name : Str
  pub pass : Str
  pub bio : Str
  pub is_banned : Bool
  pub is_locked : Bool
  pub start_at : Option ℤ
  pub finish_at : Option ℤ
  pub content_blocks_dirty : Bool

-- `rb_team_member`.
pub record Member : Type 0 where
  pub team_id : ℤ
  pub user_id : ℤ
  pub game_id : ℤ
  pub is_captain : Bool

-- `rb_game`, with what the settings say of its teams.
pub record Game : Type 0 where
  pub id : ℤ
  pub allow_duplicate_names : Bool
  pub max_members : Option ℤ

-- `rb_round`.
pub record Round : Type 0 where
  pub id : ℤ
  pub slug : Option Str
  pub game_id : ℤ
  pub puzzle : Option ℤ

-- `rb_puzzle`, with `release_at` from `rb_puzzle_effective_release` (none without a row there) and
-- the JSON columns as serde_json reads them.
pub record Puzzle : Type 0 where
  pub id : ℤ
  pub game_id : ℤ
  pub round_id : ℤ
  pub slug : Option Str
  pub title : Str
  pub unlock_cond : Option Str
  pub release_at : Option ℤ
  pub max_submit : Option ℤ
  pub submit_requirements : Result Str (List PuzzleSubmitRequirement)
  pub judge : Result Str (List JudgeRule)
  pub penalty : Result Str (List PenaltyRule)

-- `rb_team_puzzle`.
pub record TeamPuzzle : Type 0 where
  pub team_id : ℤ
  pub puzzle_id : ℤ
  pub state : ℤ
  pub max_submit : ℤ
  pub ctime_at : ℤ
  pub solve_at : Option ℤ
  pub cooldown_till : Option ℤ

-- `rb_submission`.
pub record Submission : Type 0 where
  pub id : ℤ
  pub team_id : ℤ
  pub user_id : ℤ
  pub puzzle_id : ℤ
  pub user_answer : Str
  pub norm_answer : Str
  pub saction : ℤ
  pub sresult : Option Str
  pub real_answer : Option Str
  pub ignored : Bool
  pub ctime_at : ℤ

-- `rb_team_puzzle_trigger`.
pub record Trigger : Type 0 where
  pub team_id : ℤ
  pub puzzle_id : ℤ
  pub trigger_key : Str
  pub source_submission_id : Option ℤ
  pub source_hint_id : Option ℤ

-- `rb_hint`, and its three tables of teams.
pub record Hint : Type 0 where
  pub id : ℤ
  pub puzzle_id : ℤ
  pub title : Str
  pub hidden_title : Option Str
  pub content : Str
  pub cooldown : ℤ
  pub cooldown_origin : ℤ
  pub enable_cond : Option Str
  pub display_condition : Option Str
  pub title_display_condition : Option Str
  pub cost_id : Option ℤ
  pub cost_amount : ℤ
  pub backend_function : Option Str
  pub triggers : List Str

pub record TeamHint : Type 0 where
  pub team_id : ℤ
  pub hint_id : ℤ
  pub unlocked : Bool

pub record HintEnable : Type 0 where
  pub team_id : ℤ
  pub hint_id : ℤ
  pub enabled_at : ℤ

pub record HintVisibility : Type 0 where
  pub team_id : ℤ
  pub hint_id : ℤ
  pub displayed_at : Option ℤ
  pub title_displayed_at : Option ℤ

-- `rb_currency` and `rb_team_currency`.
pub record Currency : Type 0 where
  pub id : ℤ
  pub game_id : ℤ
  pub slug : Str
  pub cname : Str
  pub prec : ℤ
  pub growth : ℤ
  pub init_amount : ℤ
  pub init_hidden : Bool
  pub max_amount : ℤ

pub record TeamCurrency : Type 0 where
  pub team_id : ℤ
  pub currency_id : ℤ
  pub amount : ℤ
  pub growth : ℤ
  pub hidden : Bool
  pub utime_at : ℤ

-- `rb_game_feature`.
pub record GameFeature : Type 0 where
  pub game_id : ℤ
  pub feature_type : ℤ
  pub state : ℤ
  pub utime_at : ℤ

-- `rb_ticket`, and the rows of `rb_ticket_operation` with the action `AutoCloseSolved` of a team.
pub record Ticket : Type 0 where
  pub id : ℤ
  pub team_id : ℤ
  pub puzzle_id : Option ℤ
  pub state : ℤ

pub record TicketOperation : Type 0 where
  pub ticket_id : ℤ
  pub actor : ℤ

-- The consequences that a failure adds to its event.
pub record CurrencyPenaltyShowData : Type 0 where
  pub currency_id : ℤ
  pub name : Str
  pub prec : ℤ
  pub amount : ℤ

-- `rb_event_log`, by type: the events that the models write.
pub data Event : Type 0 where
  submission_judged :
      (submission_id action : ℤ) (result : Option Str) (ignored : Bool)
      → Option (Option ℤ × List CurrencyPenaltyShowData)
      → Event
  puzzle_unlocked : (team_id puzzle_id round_id : ℤ) → Event
  puzzle_solved : (team_id puzzle_id submission_id : ℤ) → Event
  game_started : (team_id puzzle_id submission_id : ℤ) → Event
  currency_cost : (team_id currency_id delta before after : ℤ) → Event
  currency_added : (team_id currency_id delta before after : ℤ) → Event
  currency_penalty : (currency_id submission_id delta before after : ℤ) → Event
  hint_purchased : (team_id user_id hint_id : ℤ) (currency : Option (ℤ × ℤ × ℤ)) → Event
  member_joined : (game_id team_id user_id : ℤ) → Event
  member_left : (game_id team_id user_id : ℤ) → Event
  member_kicked : (game_id team_id user_id : ℤ) → Event
  member_promoted : (game_id team_id user_id : ℤ) → Event
  team_created : (game_id team_id user_id : ℤ) (name : Str) → Event
  team_updated : (game_id team_id user_id : ℤ) (name pass bio : Bool) → Event
  team_disbanded : (game_id team_id : ℤ) → Event

pub record Db : Type 0 where
  pub games : List Game
  pub teams : List Team
  pub next_team : ℤ
  pub members : List Member
  pub rounds : List Round
  pub puzzles : List Puzzle
  pub team_puzzles : List TeamPuzzle
  pub submissions : List Submission
  pub next_submission : ℤ
  pub triggers : List Trigger
  pub hints : List Hint
  pub team_hints : List TeamHint
  pub hint_enables : List HintEnable
  pub hint_visibilities : List HintVisibility
  pub currencies : List Currency
  pub team_currencies : List TeamCurrency
  pub features : List GameFeature
  pub tickets : List Ticket
  pub ticket_operations : List TicketOperation
  pub event_log : List Event

-- The forms of the statements: the row of a `SELECT`, the rows of a `COUNT(*)`, an `UPDATE` and a
-- `DELETE` with their `WHERE`.
module _ {A : Type 0} where
  unfoldable pub select : (A → Bool) → List A → Option A
  select p [] = none
  select p (row ∷ rows) = if p row then some row else select p rows

  unfoldable pub count : (A → Bool) → List A → ℕ
  count p [] = 0
  count p (row ∷ rows) = let rest = count p rows in if p row then suc rest else rest

  unfoldable pub update : (A → Bool) → (A → A) → List A → List A
  update p f [] = []
  update p f (row ∷ rows) = (if p row then f row else row) ∷ update p f rows

  unfoldable pub delete : (A → Bool) → List A → List A
  delete p [] = []
  delete p (row ∷ rows) = let rest = delete p rows in if p row then rest else row ∷ rest
