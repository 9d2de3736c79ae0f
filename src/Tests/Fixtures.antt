-- ===== src/Tests/Fixtures.antt =====
-- The rows that the tests share: a game with a team of one, a puzzle and a currency.
use rbph_website_backend.Prelude.{ℕ, codes, true, false, none, some, [], ◌∷◌, ok, pos}
use rbph_website_backend.Model.Game.{fixed_time, currency}
use rbph_website_backend.Judge.{JudgeRule}
use rbph_website_backend.Submit.Judging.{ExecuteJudge}
use rbph_website_backend.Submit.Transaction.{Services}
use rbph_website_backend.Submit.Rows.{Team, Puzzle, TeamPuzzle, Currency, TeamCurrency, Db}

-- The rule of a puzzle whose answer is `ab`.
abbrev pub rule : JudgeRule
rule = record {
  rtype = some (codes "exact");
  text = some (codes "ab");
  action = some (codes "correct");
  result = none;
  answer = none;
  function = none;
  triggers = codes "k1" ∷ [];
}

abbrev pub puzzle : Puzzle
puzzle = record {
  id = pos 5;
  game_id = pos 1;
  round_id = pos 2;
  slug = none;
  title = codes "P";
  unlock_cond = none;
  release_at = some (pos 0);
  max_submit = some (pos 2);
  submit_requirements = ok (record { currency_id = pos 9; minimum = pos 10 } ∷ []);
  judge = ok (rule ∷ []);
  penalty = ok (
      record { rtype = fixed_time; args = pos 60 ∷ [] }
      ∷ record { rtype = currency; args = pos 9 ∷ pos 3 ∷ [] }
      ∷ []);
}

abbrev pub team : Team
team = record {
  id = pos 7;
  game_id = pos 1;
  name = codes "T";
  pass = codes "secret";
  bio = [];
  is_banned = false;
  is_locked = true;
  start_at = some (pos 0);
  finish_at = none;
  content_blocks_dirty = false;
}

abbrev pub team_puzzle : TeamPuzzle
team_puzzle = record {
  team_id = pos 7;
  puzzle_id = pos 5;
  state = pos 0;
  max_submit = pos 1;
  ctime_at = pos 0;
  solve_at = none;
  cooldown_till = none;
}

abbrev pub coins : Currency
coins = record {
  id = pos 9;
  game_id = pos 1;
  slug = codes "c";
  cname = codes "Coins";
  prec = pos 0;
  growth = pos 1;
  init_amount = pos 0;
  init_hidden = false;
  max_amount = pos 100;
}

abbrev pub purse : TeamCurrency
purse = record {
  team_id = pos 7;
  currency_id = pos 9;
  amount = pos 10;
  growth = pos 0;
  hidden = false;
  utime_at = pos 0;
}

abbrev pub db : Db
db = record {
  games = record { id = pos 1; allow_duplicate_names = false; max_members = some (pos 2) } ∷ [];
  teams = team ∷ [];
  next_team = pos 8;
  members = record { team_id = pos 7; user_id = pos 3; game_id = pos 1; is_captain = true } ∷ [];
  rounds = [];
  puzzles = puzzle ∷ [];
  team_puzzles = team_puzzle ∷ [];
  submissions = [];
  next_submission = pos 1;
  triggers = [];
  hints = [];
  team_hints = [];
  hint_enables = [];
  hint_visibilities = [];
  currencies = coins ∷ [];
  team_currencies = purse ∷ [];
  features = record { game_id = pos 1; feature_type = pos 4; state = pos 1; utime_at = pos 0 } ∷ [];
  tickets = [];
  ticket_operations = [];
  event_log = [];
}

-- No backend decides.
abbrev pub no_backend : ExecuteJudge ℕ
no_backend db name row = ok (db, [], none)

abbrev pub services : Services ℕ ℕ ℕ
services = record {
  to_lowercase = λ c. c ∷ [];
  execute_judge = no_backend;
  update_team = λ db t. (db, ok true);
  unlock_new_puzzles = λ db t. (db, ok []);
  refresh_team_hint_states = λ db t. (db, ok true);
  get_puzzle_team_state = λ db t p. ok 0;
  get_currency_info = λ db t. ok [];
}
