-- ===== src/Teams/Outcomes.antt =====
-- What single team requests do.
use ctfnight.Base.{String, ◌≡◌, refl, true, Option, none, some, Result, ok, err, Error, Code, arith}
use ctfnight.Model.{Db, Team}
use ctfnight.Access.{Request}
use ctfnight.App.{Session, ◌>>=◌}
use ctfnight.App.Keeps.{Kept, Kept-tiers}
use ctfnight.Errors.{respond, ErrorResponse}
use ctfnight.Teams.{
  create_team, Fresh, TeamReply, name_taken, insert_team, check_team_mutation_rate,
}

abbrev pub response {ℓ} : {A : Type ℓ} → Result A → Option ErrorResponse
response (ok _) = none
response (err e) = some (respond e)

insert_team_taken :
    (lower : String → String) (team : Team) (d : Db)
    → name_taken lower team.name d ≡ true
    → insert_team lower team d ≡ err Error.integrity_error
unfolding insert_team
insert_team_taken lower team d h = ground arith

rate-committed :
    (request : Request) (s : Session)
    → (check_team_mutation_rate request s).1.committed ≡ s.committed
unfolding check_team_mutation_rate Kept
rate-committed request s = Kept-tiers (λ d. d ≡ s.committed) _ _ _ s refl

-- A team creation that would succeed alone, but whose name another session takes after the name
-- check, ends in the generic 500 response and not in 409 team_conflict; nothing of it is committed.
pub create_team_race :
    (request : Request) (others racing : Db → Db) (fresh : Fresh) (name : String) (s : Session)
    (reply : TeamReply)
    → (create_team request others (λ d. d) fresh name s).0 ≡ ok reply
    → let raced = racing (others s.committed) in
      name_taken request.crypto.lower name raced ≡ true
      → (response (create_team request others racing fresh name s).0
          ≡ some (record { status_code = 500; code = Code.internal_error; retry_after = none }))
        × ((create_team request others racing fresh name s).1.committed ≡ raced)
unfolding create_team ◌>>=◌ respond
create_team_race request others racing fresh name s reply h taken =
    grind (arith, rate-committed request s, insert_team_taken)
