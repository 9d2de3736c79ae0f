-- ===== src/Unlock/Submitted.antt =====
-- src/db/puzzle.rs: `submit_answer` with `unlock_new_puzzles` and `refresh_team_hint_states` behind its
-- commit.
use rbph_website_backend.Prelude.{
  Option, none, some, true, ◌||◌, Result, ok, err, if◌then◌else◌, ℤ, ◌≡◌, refl, ◌∙◌,
}
use rbph_website_backend.Judge.{RbInternalError}
use rbph_website_backend.Model.Game.{side_effect}
use rbph_website_backend.Submit.Rows.{Db}
use rbph_website_backend.Submit.Transaction.{
  Services, Accepted, Committed, and_then, shown, after_commit,
}
use rbph_website_backend.Unlock.{unlock_new_puzzles}
use rbph_website_backend.Unlock.States.{RbPuzzleStates}
use rbph_website_backend.Unlock.Closed.{is_closed, unlock_new_puzzles-is_closed}
use rbph_website_backend.Hints.Refresh.{
  store_states, refresh_team_hint_states_conn, refresh_team_hint_states,
}

-- The services with the functions of the module itself, at their time.
abbrev pub with_unlocks : {E S K : Type 0} → ℤ → Services E S K → Services E S K
with_unlocks now services = record services {
  unlock_new_puzzles = unlock_new_puzzles now;
  refresh_team_hint_states = λ db t. (refresh_team_hint_states now db t none, ok true);
}

is_closed-store_states :
    (now t t' : ℤ) (puzzle_id : Option ℤ) (db : Db) (state : Option RbPuzzleStates)
    → is_closed t' (store_states now t puzzle_id db state) ≡ is_closed t' db
unfolding is_closed store_states
is_closed-store_states now t t' puzzle_id db none = refl
is_closed-store_states now t t' puzzle_id db (some state) = refl

is_closed-refresh :
    (now t : ℤ) (puzzle_id : Option ℤ) (db : Db)
    → is_closed t (refresh_team_hint_states now db t puzzle_id) ≡ is_closed t db
unfolding refresh_team_hint_states refresh_team_hint_states_conn
is_closed-refresh now t puzzle_id db = is_closed-store_states now t t puzzle_id db _

module _ {E S K : Type 0} (services : Services E S K) (now : ℤ) where
  -- What holds behind one call or the next.
  and_then-either :
      {A B : Type 0} (P : Db → Type 0) (r : Db × Result RbInternalError A)
      (k : Db → A → Db × Result RbInternalError B)
      → P r.0
      → ((a : A) → P (k r.0 a).0)
      → P (and_then services r k).0
  and_then-either P (db, err e) k stops goes = stops
  and_then-either P (db, ok a) k stops goes = goes a

  -- What holds behind the next call, where the answer is no error.
  and_then-goes :
      {A B : Type 0} (P : Db → Type 0) (r : Db × Result RbInternalError A)
      (k : Db → A → Db × Result RbInternalError B) (b : B)
      → (and_then services r k).1 ≡ ok b
      → ((a : A) → P (k r.0 a).0)
      → P (and_then services r k).0
  and_then-goes P (db, err e) k b h goes = cc
  and_then-goes P (db, ok a) k b h goes = goes a

  -- Behind a submission that may open something (`do_unlock` is set, or a trigger is new) and that
  -- is answered without an error, every puzzle of the team's game whose gate is open and which the
  -- team has not solved has a row of the team: no unlock is left to a later call. The handler runs
  -- `unlock_new_puzzles` and the refresh of hints as they are modelled here.
  pub after_commit-is_closed :
      (done : Committed E) (answer : Accepted E S K)
      → (done.locals.do_unlock || done.trigger_inserted) ≡ true
      → (after_commit (with_unlocks now services) done).1 ≡ ok answer
      → is_closed done.team_id (after_commit (with_unlocks now services) done).0 ≡ true
  unfolding after_commit
  after_commit-is_closed done answer opens answered =
      let Closed : Db → Type 0 = λ db. is_closed done.team_id db ≡ true in
      and_then-goes Closed
        (if side_effect done.result.action
          then services.update_team done.db done.team_id
          else (done.db, ok true))
        _ answer answered (λ _. rw opens (unlocks _))
    where
      unlocks :
          (db : Db)
          → is_closed done.team_id
              (and_then services (unlock_new_puzzles now db done.team_id) (λ db ids.
                and_then services
                  (refresh_team_hint_states now db done.team_id none, ok true)
                  (λ db _. (db, shown (with_unlocks now services) done ids db)))).0
            ≡ true
      unlocks db =
          and_then-either (λ db. is_closed done.team_id db ≡ true)
            (unlock_new_puzzles now db done.team_id) _
            (unlock_new_puzzles-is_closed now done.team_id db)
            (λ _.
              is_closed-refresh now done.team_id none _
              ∙ unlock_new_puzzles-is_closed now done.team_id db)
