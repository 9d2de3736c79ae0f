-- ===== src/Teams/Sound/Removals.antt =====
-- src/db/team.rs: members who go, a captain who is made, and a team that goes or is changed.
use rbph_website_backend.Prelude.{
  ℕ, ◌≤◌, Option, none, some, List, [], ◌∷◌, Bool, true, false, if◌then◌else◌, ℤ, pos, eqℤ, eqℤ_iff,
  leℤ, ltℤ, ◌≡◌, refl, sym, ap, ap₂, subst, ◌∙◌, inl, inr, Bool-cases, arith,
}
use rbph_website_backend.Submit.Rows.{Team, Member, Game, select, count, update, delete}
use rbph_website_backend.Submit.Rows.Queries.{select-deleted, select-delete_other}
use rbph_website_backend.Submit.Guards.{is_team}
use rbph_website_backend.Teams.{of_team, of_member}
use rbph_website_backend.Teams.Counts.{count-delete, count-update, all-delete, all-update}
use rbph_website_backend.Teams.Sound.{captain_of, in_game, game_max, max_of, fits, Few, SoundTables}

pub fits-fewer : (o : Option ℤ) (m n : ℕ) → m ≤ n → fits o n ≡ true → fits o m ≡ true
unfolding fits leℤ
fits-fewer none m n le h = refl
fits-fewer (some (pos max)) m n le h = ground arith
fits-fewer (some (ℤ.negsuc max)) m n le h = ground arith

delete-Few : (p : Member → Bool) (rows : List Member) → Few rows → Few (delete p rows)
delete-Few p rows (captains, keys, games) = (
  λ t. omega (arith, count-delete (captain_of t) p rows, captains t),
  λ t u. omega (arith, count-delete (of_member t u) p rows, keys t u),
  λ u g. omega (arith, count-delete (in_game u g) p rows, games u g),
)

pub leave-SoundTables :
    (p : Member → Bool) (teams : List Team) (rows : List Member) (games : List Game) (next : ℤ)
    → SoundTables teams rows games next
    → SoundTables teams (delete p rows) games next
leave-SoundTables p teams rows games next (few, sizes, (fresh, of_teams)) = (
  delete-Few p rows few,
  (λ t.
      fits-fewer (max_of t teams games) (count (of_team t) (delete p rows)) (count (of_team t) rows)
        (count-delete (of_team t) p rows) (sizes t)),
  (all-delete (λ m. ltℤ m.team_id next) p rows fresh, of_teams),
)

-- The team that goes has no maximum, the others keep theirs.
max_of-delete :
    (t d : ℤ) (teams : List Team) (games : List Game) (n : ℕ)
    → fits (max_of t teams games) n ≡ true
    → fits (max_of t (delete (is_team d) teams) games) n ≡ true
unfolding max_of fits
max_of-delete t d teams games n h = elim (Bool-cases (eqℤ t d)) [
  | inl e ↦
      rw
        (
          subst (λ x. select (is_team t) (delete (is_team x) teams) ≡ none) ((eqℤ_iff t d).0 e)
              (select-deleted (is_team t) teams),
          max_of,
        )
        refl
  | inr e ↦ rw (select-delete_other (is_team t) (is_team d) (other e) teams, max_of) h
]
  where
    other : eqℤ t d ≡ false → (x : Team) → eqℤ x.id d ≡ true → eqℤ x.id t ≡ false
    other e x same = ground (arith, eqℤ_iff t d, eqℤ_iff x.id d, eqℤ_iff x.id t)

pub disband-SoundTables :
    (d : ℤ) (teams : List Team) (rows : List Member) (games : List Game) (next : ℤ)
    → SoundTables teams rows games next
    → SoundTables (delete (is_team d) teams) (delete (of_team d) rows) games next
disband-SoundTables d teams rows games next sound =
    let (few, sizes, (fresh, of_teams)) =
      leave-SoundTables (of_team d) teams rows games next sound in
    (
      few,
      (λ t. max_of-delete t d teams games (count (of_team t) (delete (of_team d) rows)) (sizes t)),
      (fresh, all-delete (λ x. ltℤ x.id next) (is_team d) teams of_teams),
    )

-- The promotion: of the team's members the one is captain.
abbrev promote : ℤ → Member → Member
promote u m = record m { is_captain = eqℤ m.user_id u }

captains-promote :
    (t u t' : ℤ) (rows : List Member)
    → count (captain_of t') (update (of_team t) (promote u) rows)
      ≡ (if eqℤ t t' then count (of_member t u) rows else count (captain_of t') rows)
unfolding count update
captains-promote t u t' [] = ground arith
captains-promote t u t' (m ∷ rows) =
    ground
      (arith, captains-promote t u t' rows, eqℤ_iff t t', eqℤ_iff m.team_id t, eqℤ_iff m.team_id t')

pub promote-SoundTables :
    (t u : ℤ) (teams : List Team) (rows : List Member) (games : List Game) (next : ℤ)
    → SoundTables teams rows games next
    → SoundTables teams
        (update (of_team t) (λ m. record m { is_captain = eqℤ m.user_id u }) rows)
        games
        next
promote-SoundTables t u teams rows games next
      ((captains, keys, in_games), sizes, (fresh, of_teams)) =
    (
      (
        (λ t'. ground (arith, captains-promote t u t' rows, captains t', keys t u)),
        (λ t' u'. ground (
          arith,
          count-update (of_member t' u') (of_team t) (promote u) (λ m. refl) rows,
          keys t' u',
        )),
        λ u' g'. ground (
          arith,
          count-update (in_game u' g') (of_team t) (promote u) (λ m. refl) rows,
          in_games u' g',
        ),
      ),
      (λ t'. rw (count-update (of_team t') (of_team t) (promote u) (λ m. refl) rows) (sizes t')),
      (
        all-update (λ m. ltℤ m.team_id next) (of_team t) (promote u) (λ m. refl) rows fresh,
        of_teams,
      ),
    )

max_of-head :
    (t : ℤ) (y : Team) (teams : List Team) (games : List Game)
    → max_of t (y ∷ teams) games
      ≡ (if eqℤ y.id t then game_max games y.game_id else max_of t teams games)
unfolding max_of select
max_of-head t y teams games = elim (Bool-cases (eqℤ y.id t)) [
  | inl e ↦ rw (e, max_of) refl
  | inr e ↦ rw (e, max_of) refl
]

-- A change of a team that keeps its number and its game.
max_of-update :
    (t : ℤ) (w : Team → Bool) (f : Team → Team) (teams : List Team) (games : List Game)
    → ((x : Team) → (f x).id ≡ x.id)
    → ((x : Team) → (f x).game_id ≡ x.game_id)
    → max_of t (update w f teams) games ≡ max_of t teams games
unfolding update
max_of-update t w f [] games id game = refl
max_of-update t w f (x ∷ teams) games id game =
    let y = if w x then f x else x in
    max_of-head t y (update w f teams) games
    ∙ ap (λ o. if eqℤ y.id t then game_max games y.game_id else o)
        (max_of-update t w f teams games id game)
    ∙ same (w x)
    ∙ sym (max_of-head t x teams games)
  where
    same :
        (b : Bool)
        → (if eqℤ (if b then f x else x).id t
            then game_max games (if b then f x else x).game_id
            else max_of t teams games)
          ≡ (if eqℤ x.id t then game_max games x.game_id else max_of t teams games)
    same true =
        ap₂ (λ i g. if eqℤ i t then game_max games g else max_of t teams games) (id x) (game x)
    same false = refl

pub change-SoundTables :
    (w : Team → Bool) (f : Team → Team) (teams : List Team) (rows : List Member) (games : List Game)
    (next : ℤ)
    → ((x : Team) → (f x).id ≡ x.id)
    → ((x : Team) → (f x).game_id ≡ x.game_id)
    → SoundTables teams rows games next
    → SoundTables (update w f teams) rows games next
change-SoundTables w f teams rows games next id game (few, sizes, (fresh, of_teams)) = (
  few,
  (λ t.
      ap (λ o. fits o (count (of_team t) rows)) (max_of-update t w f teams games id game)
      ∙ sizes t),
  (fresh, all-update (λ x. ltℤ x.id next) w f (λ x. ap (λ i. ltℤ i next) (id x)) teams of_teams),
)
