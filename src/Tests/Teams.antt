-- ===== src/Tests/Teams.antt =====
-- A user joins a team and becomes its captain.
use rbph_website_backend.Prelude.{◌≡◌, refl, codes, true, ok, pos, ltℤ, arith}
use rbph_website_backend.Submit.Rows.{Db, count}
use rbph_website_backend.Tests.Fixtures.{db}
use rbph_website_backend.Teams.{TeamServices, joined, join}
use rbph_website_backend.Teams.Changes.{promote_member}
use rbph_website_backend.Teams.Sound.{max_of, Sound}
use rbph_website_backend.Teams.Sound.Inserts.{fits_one}
use rbph_website_backend.Teams.Sound.Removals.{fits-fewer}
use rbph_website_backend.Teams.Sound.Steps.{Step, Reachable, Reachable-Sound}

abbrev team_services : TeamServices
team_services = record {
  normalized = λ name. name;
  invalidate_team_info = λ t. ok true;
  remove_team_info = λ g. ok true;
}

abbrev after_join : Db
after_join = (join team_services (pos 7) (pos 4) (codes "secret") db).0

abbrev after_promotion : Db
after_promotion = (promote_member team_services (pos 7) (pos 4) after_join).0

joins : (join team_services (pos 7) (pos 4) (codes "secret") db).1 ≡ ok joined
unfolding join
joins = refl

promoted : (promote_member team_services (pos 7) (pos 4) after_join).1 ≡ ok true
unfolding join promote_member
promoted = refl

db-Sound : Sound db
unfolding count ltℤ
db-Sound = (
  ((λ t. ground arith), (λ t u. ground arith), λ u g. ground arith),
  (λ t. fits-fewer (max_of t db.teams db.games) _ 1 (ground arith) (fits_one _)),
  (refl, refl),
)

Reachable-Sound_example : Sound after_promotion
Reachable-Sound_example =
    Reachable-Sound team_services db after_promotion
      (Reachable.next db after_join after_promotion (Step.joins (pos 7) (pos 4) (codes "secret") db)
        (Reachable.next after_join after_promotion after_promotion
          (Step.promotes (pos 7) (pos 4) after_join) (Reachable.start after_promotion)))
      db-Sound
