-- ===== src/Lib.antt =====
-- Verification of the RBPH website backend, a server for puzzle hunts: teams submit answers, rules judge
-- them, correct answers and triggers open puzzles and hints by the conditions of a small gate language,
-- and currencies pay for hints and penalties.
--
-- Files and the code that they model, by path from the root of the repository:
--
-- - Prelude and below: strings as lists of code points, `Result` with `?`, association lists for maps,
--   integers. No code of the repository.
-- - Expr (src/expr): the gate language. Tokenizer and Parser are parser.rs (`tokenize`, `parse_at`,
--   `parse_expr`), Ast and Eval are ast.rs and types.rs (`eval_compiled`, `materialize_set`,
--   `hint_display_uses_cooldown`), Compiler is compiler.rs (`compile_gate`, `compile_hint_display`, with
--   the folding in Fold), and Cache is mod.rs (`CompileCache`, `parse`, `compile_cached`).
-- - Judge (src/game/judge.rs): `normalize_answer`, `value_to_judge`, `judge_by_rules` and
--   `valid_trigger_key`.
-- - Model (src/model): Game has the enumerations of game.rs that the judge uses, User
--   the roles of user.rs, Roles what `can_change_role` protects.
-- - Submit (src/db/puzzle.rs): `submit_answer`. Rows has the tables that it uses, Guards its checks,
--   Judging the loop over the rules and what it stores of the verdict, Penalties and Outcome the arms of
--   `match result.action` and Transaction the whole handler, with Admission for its start. The other files there have its lemmas. `mark_team_dirty_conn` is from
--   src/db/content.rs, `close_puzzle_tickets_on_solve_conn` from src/db/ticket.rs, `insert_conn` from
--   src/db/event_log.rs.
-- - Unlock (src/db/puzzle.rs): `RbPuzzleStates`, `unlock_new_puzzles` and `team_gate_state_conn`. States
--   has the two ways to build the state of the gates and Gates compares them, Opening and Closed say
--   what an unlock opens, Submitted puts it behind the commit of `submit_answer`.
-- - Hints (src/db/puzzle.rs): the three conditions of a hint, Refresh `refresh_team_hint_states_conn`
--   and `refresh_team_hint_enablements_conn`, Show `get_hints_show_for_team`, `get_hints_team_state` and
--   `next_hint_cooldown`, Offer and Purchase `purchase_hint`, up to the decision to sell and from it on.
-- - Teams (src/db/team.rs): `join` and `user_create`, and in Changes `leave`, `kick_member`,
--   `promote_member`, `disband` and `user_update`. Sound has what they keep of the tables, with the
--   operations as steps.
-- - Currency (src/db/team.rs): `currency_cost_change` and `strict_currency_next`, and on the database of
--   Submit `lock_currency_runtime_conn`, `cost_currency_conn` and `add_currency_conn` with what they do
--   on the locked row. Bounds has what one cost or gain leaves, Amounts that it keeps an amount between
--   two bounds, Locked what a lock has read, Calls any sequence of calls.
-- - AssetCache (src/module/storage.rs): `DatabaseAssetCache`. Exact has what the queue and the counter
--   say of the entries, Calls any sequence of calls, Recent what is returned, Oldest what is given up.
-- - Tests: runs on concrete inputs.
--
-- How they meet: a submission stores triggers whose keys `Judge` checks, and the gates of `Expr` ask for
-- these keys; the rules of a puzzle are read by `value_to_judge` and judged with the custom rules run in
-- the transaction. What a submission or a purchase of a hint stores, a solved puzzle or a trigger, may
-- open gates: both then call `unlock_new_puzzles` and refresh the hints, and the gates are those that
-- `Expr` compiles and evaluates on the state that Unlock reads from the database.
--
-- Choices. Numbers are native naturals. `u32`, `usize` (64 bits), `i32` and `i64` have their bounds
-- where the source parses, checks, saturates or casts. The parser's recursion runs on fuel, twice
-- the number of tokens and one, of which a theorem below says that it is enough; every other
-- recursion is structural, the loop that makes room in the asset cache on the queue that it
-- empties. The compile cache holds 4096 expressions, as in the source. In Submit a database is a
-- record of lists of rows, a statement is a function on them, an early `return` or `?` is an error
-- of the chain, and only a chain that reaches its end commits. Times of the database are whole
-- microseconds, those of the asset cache nanoseconds; a timestamp out of the range of the database
-- is not modelled, nor is a statement that fails for another reason than a missing row or a number
-- out of range. JSON columns stand as what serde_json reads from them.
--
-- Parameters, for code outside the model: `char::to_lowercase`; the runtime of custom judges, with its
-- reads of names; behind the commit of a submission the leaderboard and the reads that show the new
-- state, with the unlocks and the refresh of hints, which Unlock.Submitted fills with their models; for a
-- purchase the backend of the puzzle with its runtime, and the cache. Where a theorem needs it, its
-- hypothesis says that the runtime changes no submission, no trigger and no solved puzzle, or no
-- hint, puzzle, round and member.
--
-- Not modelled: the HTTP handlers, the middleware, sessions, mail, storage backends, the JavaScript
-- engine and the start of the server, which are input and output; tickets, the
-- leaderboard, the operations of staff, releases and game settings, which have logic of their own that is not covered.
pub mod Prelude
pub mod Expr
pub mod AssetCache
pub mod Currency
pub mod Hints
pub mod Judge
pub mod Model
pub mod Submit
pub mod Teams
pub mod Unlock
pub mod Tests
