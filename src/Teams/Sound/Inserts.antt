-- ===== src/Teams/Sound/Inserts.antt =====
-- src/db/team.rs: a new member of a team that has room, and a new team.
use rbph_website_backend.Prelude.{
  suc, ◌≤◌, Option, none, some, List, [], ◌∷◌, Bool, true, false, not, ◌&&◌, ◌||◌, any, and_split,
  ℤ, pos, eqℤ, eqℤ_iff, ltℤ, ltℤ-suc, ltℤ-next, ltℤ-suc_self, ltℤ_irrefl, ◌+ℤ◌, ◌≡◌, refl, ap,
  subst, ◌∙◌, inl, inr, Bool-cases, arith,
}
use rbph_website_backend.Submit.Rows.{Team, Member, Game, Db, select, count}
use rbph_website_backend.Submit.Guards.{is_team}
use rbph_website_backend.Teams.{
  is_game, of_team, of_member, has_key, new_member, new_team, RbTeamPutData, is_full,
}
use rbph_website_backend.Teams.Counts.{
  count-none, count-all, any-all, any-or, all-weaken, all-select,
}
use rbph_website_backend.Teams.Sound.{captain_of, in_game, game_max, max_of, fits, Few, SoundTables}

one_more :
    {A : Type 0} (q : A → Bool) (x : A) (rows : List A)
    → count q rows ≤ 1
    → (q x ≡ true → count q rows ≡ 0)
    → count q (x ∷ rows) ≤ 1
unfolding count
one_more q x rows few free = ground arith

any-first :
    {A : Type 0} (p q : A → Bool) (rows : List A)
    → any (λ x. p x || q x) rows ≡ false
    → (any p rows ≡ false) × (any q rows ≡ false)
any-first p q [] h = (refl, refl)
any-first p q (x ∷ rows) h =
    let both = any-first p q rows in (ground (arith, both), ground (arith, both))

-- A row whose keys are free, and which is no captain or the first of its team.
insert-Few :
    (t u g : ℤ) (captain : Bool) (rows : List Member)
    → Few rows
    → any (has_key t u g) rows ≡ false
    → (captain ≡ true → count (captain_of t) rows ≡ 0)
    → Few (new_member t u g captain ∷ rows)
insert-Few t u g captain rows (captains, keys, games) free first =
    let (no_key, no_game) = any-first (of_member t u) (in_game u g) rows free in
    (
      λ t'. one_more (captain_of t') (new_member t u g captain) rows (captains t') (as_captain t'),
      λ t' u'.
          one_more (of_member t' u') (new_member t u g captain) rows (keys t' u')
            (as_key t' u' (count-none (of_member t u) rows no_key)),
      λ u' g'.
          one_more (in_game u' g') (new_member t u g captain) rows (games u' g')
            (as_game u' g' (count-none (in_game u g) rows no_game)),
    )
  where
    as_captain : (t' : ℤ) → (eqℤ t t' && captain) ≡ true → count (captain_of t') rows ≡ 0
    as_captain t' h =
        let (e, c) = and_split (eqℤ t t') captain h in
        subst (λ x. count (captain_of x) rows ≡ 0) ((eqℤ_iff t t').0 e) (first c)

    as_key :
        (t' u' : ℤ)
        → count (of_member t u) rows ≡ 0
        → (eqℤ t t' && eqℤ u u') ≡ true
        → count (of_member t' u') rows ≡ 0
    as_key t' u' none_yet h =
        let (e, f) = and_split (eqℤ t t') (eqℤ u u') h in
        subst (λ x. count (of_member x u') rows ≡ 0) ((eqℤ_iff t t').0 e)
          (subst (λ x. count (of_member t x) rows ≡ 0) ((eqℤ_iff u u').0 f) none_yet)

    as_game :
        (u' g' : ℤ)
        → count (in_game u g) rows ≡ 0
        → (eqℤ u u' && eqℤ g g') ≡ true
        → count (in_game u' g') rows ≡ 0
    as_game u' g' none_yet h =
        let (e, f) = and_split (eqℤ u u') (eqℤ g g') h in
        subst (λ x. count (in_game x g') rows ≡ 0) ((eqℤ_iff u u').0 e)
          (subst (λ x. count (in_game u x) rows ≡ 0) ((eqℤ_iff g g').0 f) none_yet)

fits-room :
    (max : Option ℤ) (t : ℤ) (db : Db)
    → is_full max t db ≡ false
    → fits max (suc (count (of_team t) db.members)) ≡ true
unfolding fits is_full
fits-room none t db room = refl
fits-room (some max) t db room =
    let fits_one =
      ltℤ-suc (count (of_team t) db.members) max
        (not_false (ltℤ (pos (count (of_team t) db.members)) max) room) in
    ground (arith, fits_one)
  where
    not_false : (b : Bool) → not b ≡ false → b ≡ true
    not_false true h = refl
    not_false false h = cc

max_of-team :
    (t : Team) (g : Game) (db : Db)
    → select (is_team t.id) db.teams ≡ some t
    → select (is_game t.game_id) db.games ≡ some g
    → max_of t.id db.teams db.games ≡ g.max_members
unfolding max_of game_max
max_of-team t g db of_team_row of_game = rw (of_team_row, max_of, game_max, of_game) refl

-- A member who joins a team that has room.
pub join-SoundTables :
    (t : Team) (u : ℤ) (g : Game) (db : Db)
    → SoundTables db.teams db.members db.games db.next_team
    → select (is_team t.id) db.teams ≡ some t
    → select (is_game t.game_id) db.games ≡ some g
    → is_full g.max_members t.id db ≡ false
    → any (has_key t.id u t.game_id) db.members ≡ false
    → SoundTables db.teams (new_member t.id u t.game_id false ∷ db.members) db.games db.next_team
unfolding count
join-SoundTables t u g db (few, sizes, (fresh, teams)) of_team_row of_game room free = (
  insert-Few t.id u t.game_id false db.members few free (λ no. cc),
  (λ t'. elim (Bool-cases (eqℤ t.id t')) [
    | inl e ↦ rw e (
        subst (λ x. fits (max_of x db.teams db.games) (suc (count (of_team x) db.members)) ≡ true)
          ((eqℤ_iff t.id t').0 e) here)
    | inr e ↦ rw e (sizes t')
  ]),
  (
    rw (all-select (λ x. ltℤ x.id db.next_team) (is_team t.id) db.teams teams of_team_row) fresh,
    teams,
  ),
)
  where
    here : fits (max_of t.id db.teams db.games) (suc (count (of_team t.id) db.members)) ≡ true
    here =
        ap (λ o. fits o (suc (count (of_team t.id) db.members)))
          (max_of-team t g db of_team_row of_game)
        ∙ fits-room g.max_members t.id db room

-- No row of a number that the sequence has not given yet.
not_fresh : (next : ℤ) (m : Member) → eqℤ m.team_id next ≡ true → ltℤ m.team_id next ≡ false
not_fresh next m e = ap (λ x. ltℤ x next) ((eqℤ_iff m.team_id next).0 e) ∙ ltℤ_irrefl next

pub fits_one : (o : Option ℤ) → fits o 1 ≡ true
unfolding fits
fits_one none = refl
fits_one (some max) = refl

-- A team with its first member.
pub create-SoundTables :
    (u : ℤ) (data' : RbTeamPutData) (teams : List Team) (rows : List Member) (games : List Game)
    (next : ℤ)
    → SoundTables teams rows games next
    → any (in_game u data'.game_id) rows ≡ false
    → SoundTables
        (new_team next data' ∷ teams)
        (new_member next u data'.game_id true ∷ rows)
        games
        (next +ℤ pos 1)
unfolding count max_of select
create-SoundTables u data' teams rows games next (few, sizes, (fresh, of_teams)) free =
    let lower = λ (m : Member). ltℤ m.team_id next in
    let no_row = count-all (of_team next) lower rows (not_fresh next) fresh in
    let no_captain =
      count-all (captain_of next) lower rows
        (λ m h. not_fresh next m (and_split (eqℤ m.team_id next) m.is_captain h).0) fresh in
    let no_key =
      any-all (of_member next u) lower rows
        (λ m h. not_fresh next m (and_split (eqℤ m.team_id next) (eqℤ m.user_id u) h).0) fresh in
    (
      insert-Few next u data'.game_id true rows few
          (any-or (of_member next u) (in_game u data'.game_id) rows no_key free) (λ _. no_captain),
      (λ t. elim (Bool-cases (eqℤ next t)) [
        | inl e ↦
            let none_yet : count (of_team t) rows ≡ 0 =
              subst (λ x. count (of_team x) rows ≡ 0) ((eqℤ_iff next t).0 e) no_row in
            rw (e, none_yet) (fits_one _)
        | inr e ↦ rw e (sizes t)
      ]),
      (
        rw (ltℤ-suc_self next) (
            all-weaken lower (λ m. ltℤ m.team_id (next +ℤ pos 1)) rows
              (λ m. ltℤ-next m.team_id next) fresh),
        rw (ltℤ-suc_self next) (
            all-weaken (λ t. ltℤ t.id next) (λ t. ltℤ t.id (next +ℤ pos 1)) teams
              (λ t. ltℤ-next t.id next) of_teams),
      ),
    )
