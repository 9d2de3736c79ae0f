-- ===== src/Submit/Outcome.antt =====
-- src/db/puzzle.rs: what `submit_answer` does for each action of the judge.
use rbph_website_backend.Prelude.{
  codes, none, some, List, [], ◌∷◌, ◌++◌, Bool, true, false, not, ◌&&◌, Result, ok, ◌>>=◌, any,
  if◌then◌else◌, ℤ, pos, eqℤ, maxℤ,
}
use rbph_website_backend.Model.Game.{RbJudgeAction}
use rbph_website_backend.Judge.{sql}
use rbph_website_backend.Submit.Rows.{
  TeamPuzzle, Currency, TeamCurrency, Ticket, TicketOperation, puzzle_solved, game_started, Db,
  select, update,
}
use rbph_website_backend.Submit.Guards.{
  Stop, or_fail, is_team, of_team_puzzle, of_team_currency, is_currency_feature,
}
use rbph_website_backend.Submit.Judging.{mark_team_dirty, log_event}
use rbph_website_backend.Submit.Context.{Ctx, Locals, coalesce, is_some}
use rbph_website_backend.Submit.Penalties.{on_fail}

-- `db::ticket::close_puzzle_tickets_on_solve_conn`. State 0 is closed.
abbrev open_ticket : ℤ → ℤ → Ticket → Bool
open_ticket team_id puzzle_id t =
    eqℤ t.team_id team_id
    && (elim t.puzzle_id [ none ↦ false | some id ↦ eqℤ id puzzle_id ])
    && not (eqℤ t.state (pos 0))

abbrev close_operations : ℤ → ℤ → ℤ → List Ticket → List TicketOperation
close_operations team_id puzzle_id actor [] = []
close_operations team_id puzzle_id actor (t ∷ tickets) =
    let rest = close_operations team_id puzzle_id actor tickets in
    if open_ticket team_id puzzle_id t
    then record { ticket_id = t.id; actor = actor } ∷ rest
    else rest

unfoldable pub close_puzzle_tickets : ℤ → ℤ → ℤ → Db → Db
unfolding update eqℤ
close_puzzle_tickets team_id puzzle_id actor_id db = record db {
  tickets = update (open_ticket team_id puzzle_id) (λ t. record t { state = pos 0 }) db.tickets;
  ticket_operations =
      close_operations team_id puzzle_id actor_id db.tickets ++ db.ticket_operations;
}

abbrev pub is_unsolved : ℤ → ℤ → TeamPuzzle → Bool
is_unsolved team_id puzzle_id tp = of_team_puzzle team_id puzzle_id tp && eqℤ tp.state (pos 0)

unfoldable pub set_solved : Ctx → Db → Db
unfolding update eqℤ
set_solved c db = record db {
  team_puzzles =
      update (is_unsolved c.team_id c.puzzle_id)
        (λ tp. record tp { state = pos 1; solve_at = some c.now }) db.team_puzzles;
}

-- `UPDATE rb_team SET finish_at = …` of an action that finishes the game.
unfoldable pub set_finished : Ctx → Db → Db
unfolding update eqℤ
set_finished c db = record db {
  teams =
      update (λ t. is_team c.team_id t && is_some t.start_at)
        (λ t. record t { finish_at = coalesce t.finish_at c.now }) db.teams;
}

-- The arm of `Correct` and `FinishGame`. The primary key leaves at most one row to update.
unfoldable pub on_correct : Ctx → Bool → Locals → Db → Db × Locals
unfolding set_solved set_finished mark_team_dirty log_event close_puzzle_tickets eqℤ
on_correct c finishes locals db =
    let updated = any (is_unsolved c.team_id c.puzzle_id) db.team_puzzles in
    let solved = set_solved c db in
    let finished = if finishes then set_finished c solved else solved in
    if updated
    then (
      close_puzzle_tickets c.team_id c.puzzle_id c.user_id (
          log_event (puzzle_solved c.team_id c.puzzle_id c.submit_id)
            (mark_team_dirty c.team_id finished)),
      record locals { content_changed = true; solved = true; do_unlock = true },
    )
    else (finished, locals)

-- `INSERT INTO rb_team_currency … ON CONFLICT DO NOTHING` for the currencies of the team's game.
unfoldable pub insert_currencies : ℤ → ℤ → ℤ → List Currency → List TeamCurrency → List TeamCurrency
unfolding eqℤ
insert_currencies team_id game_id start_at [] rows = rows
insert_currencies team_id game_id start_at (c ∷ currencies) rows =
    let rest = insert_currencies team_id game_id start_at currencies rows in
    if eqℤ c.game_id game_id && not (any (of_team_currency team_id c.id) rows)
    then record {
      team_id = team_id;
      currency_id = c.id;
      amount = c.init_amount;
      growth = pos 0;
      hidden = c.init_hidden;
      utime_at = start_at;
    }
      ∷ rest
    else rest

-- The arm of `StartGame`.
unfoldable pub on_start_game : Ctx → Locals → Db → Result Stop (Db × Locals)
unfolding select update insert_currencies mark_team_dirty log_event maxℤ eqℤ
on_start_game c locals db = do
  let no_row = sql (codes "RowNotFound")
  feature ← or_fail no_row (select (is_currency_feature c.puzzle.game_id) db.features)
  team ← or_fail no_row (select (is_team c.team_id) db.teams)
  let currency_start_at =
      if eqℤ feature.state (pos 1)
      then maxℤ c.submit_ctime_at feature.utime_at
      else c.submit_ctime_at
  let started = not (is_some team.start_at)
  let locked_team = record db {
    teams =
        update (is_team c.team_id)
          (λ t. record t { is_locked = true; start_at = coalesce t.start_at c.submit_ctime_at })
          db.teams;
  }
  let announced =
      if started
      then log_event (game_started c.team_id c.puzzle_id c.submit_id)
          (mark_team_dirty c.team_id locked_team)
      else locked_team
  let paid = record announced {
    team_currencies =
        insert_currencies c.team_id team.game_id currency_start_at db.currencies db.team_currencies;
  }
  ok (paid, if started then record locals { content_changed = true; do_unlock = true } else locals)

-- `match result.action`.
unfoldable pub on_action : Ctx → RbJudgeAction → Locals → Db → Result Stop (Db × Locals)
unfolding on_correct on_start_game on_fail
on_action c RbJudgeAction.correct locals db = ok (on_correct c false locals db)
on_action c RbJudgeAction.finish_game locals db = ok (on_correct c true locals db)
on_action c RbJudgeAction.start_game locals db = on_start_game c locals db
on_action c RbJudgeAction.fail locals db = on_fail c locals db
on_action c _ locals db = ok (db, locals)
