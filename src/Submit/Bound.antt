-- ===== src/Submit/Bound.antt =====
-- src/db/puzzle.rs: no team gets more failing submissions than the puzzle allows it.
use rbph_website_backend.Prelude.{
  ℕ, suc, ◌≤◌, some, [], true, ok, all, ℤ, pos, ltℤ, leℤ, ◌+ℤ◌, negsuc, ltℤ-suc, ◌≡◌, ap, ◌∙◌,
  arith,
}
use rbph_website_backend.Judge.{no_match}
use rbph_website_backend.Submit.Rows.{Puzzle, TeamPuzzle, Db, select}
use rbph_website_backend.Submit.Guards.{has_id, of_team_puzzle, failures, allowed}
use rbph_website_backend.Submit.Judging.{new_submission}
use rbph_website_backend.Submit.Transaction.{Request, Services, Committed, transaction}
use rbph_website_backend.Submit.Attempts.{
  IsFresh, KeepsTables, judge_loop-Frame, insert_submission-rows, record_verdict-failures,
}
use rbph_website_backend.Submit.Limit.{settle-submissions, admit-allowed, allowed-lt}
use rbph_website_backend.Submit.Commits.{Commits, steps, transaction-Commits}

leℤ-pos : (a b : ℕ) (x : ℤ) → a ≤ b → leℤ (pos b) x ≡ true → leℤ (pos a) x ≡ true
unfolding leℤ
leℤ-pos a b (pos c) h k = ground arith
leℤ-pos a b (negsuc c) h k = cc k

module _ {E S K : Type 0} (services : Services E S K) where
  -- A commit adds one failing submission at most.
  pub Commits-failures :
      (req : Request) (db : Db) (done : Committed E) (t q : ℤ)
      → KeepsTables services.execute_judge
      → IsFresh db
      → Commits services req db done
      → failures t q done.db ≤ suc (failures t q db)
  unfolding failures new_submission
  Commits-failures req db done t q keeps fresh
        (steps _ p rules inserted judged verdict locals _ row r a b c d e f) =
      let rows = insert_submission-rows row db inserted b in
      let frame =
        judge_loop-Frame services.execute_judge keeps row (inserted, []) no_match rules judged
          verdict c in
      let settled = settle-submissions _ verdict judged.0 done.db locals _ e in
      let fresh' : all (λ s. ltℤ s.id row.id) db.submissions ≡ true =
        ap (λ x. all (λ s. ltℤ s.id x.id) db.submissions) r ∙ fresh in
      rw settled (record_verdict-failures t q verdict row db judged.0 fresh' (frame.0 ∙ rows.0))

  -- When a submission to a puzzle with a limit is committed, on a database whose sequence of
  -- submissions is ahead of their keys and with judge backends that change no submission, no trigger
  -- and no solved puzzle, the team's failing submissions on this puzzle number at most the limit and
  -- what the team has more.
  pub transaction-within_limit :
      KeepsTables services.execute_judge
      → (req : Request) (db : Db) (done : Committed E) (p : Puzzle) (tp : TeamPuzzle) (m : ℤ)
      → IsFresh db
      → transaction services req db ≡ ok done
      → select (has_id req.puzzle_id) db.puzzles ≡ some p
      → p.max_submit ≡ some m
      → select (of_team_puzzle done.team_id req.puzzle_id) db.team_puzzles ≡ some tp
      → leℤ (pos (failures done.team_id req.puzzle_id done.db)) (m +ℤ tp.max_submit) ≡ true
  transaction-within_limit keeps req db done p tp m fresh h e em et =
      let commits = transaction-Commits services req db done h in
      leℤ-pos (failures t q done.db) (suc (failures t q db)) (m +ℤ tp.max_submit)
        (Commits-failures req db done t q keeps fresh commits)
        (ltℤ-suc (failures t q db) (m +ℤ tp.max_submit)
          (allowed-lt req.now t q db tp p m et e em (was_allowed commits)))
    where
      t : ℤ
      t = done.team_id

      q : ℤ
      q = req.puzzle_id

      was_allowed : Commits services req db done → allowed req.now t q db ≡ ok true
      was_allowed (steps t₁ p₁ rules inserted judged verdict locals _ row r a b c d x f) =
          ap (λ id. allowed req.now id q db) f
          ∙ (admit-allowed services.to_lowercase req db t₁ p₁ rules a).0
