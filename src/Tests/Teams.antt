-- ===== src/Tests/Teams.antt =====
-- The team routes at concrete inputs.
use ctfnight.Base.{
  ◌≡◌, refl, none, some, ok, arith, true, get, put, Code, [], ◌∷◌, insert_row, count_where,
  select_one, select_all,
}
use ctfnight.Model.{Db, owner}
use ctfnight.App.{◌>>=◌}
use ctfnight.App.Limits.{check_tiers}
use ctfnight.Store.{check_rate, same_key}
use ctfnight.Security.{hash_session, hash_invite}
use ctfnight.Access.{require_user, current_event, membership_for, team_display_name}
use ctfnight.Event.{state_allows_registration}
use ctfnight.Journal.{add_audit, add_outbox}
use ctfnight.Teams.{
  create_team, Fresh, TeamReply, check_team_mutation_rate, ensure_team_changes_open,
  lock_actor_and_assert_lifetime_limit, team_mutations, name_taken, insert_team, insert_membership,
  team_dict, member_count, owner_count, memberships_of, team_rows,
}
use ctfnight.Teams.Rules.{IsConsistent}
use ctfnight.Teams.Reach.{Reach-IsConsistent, here, next, create}
use ctfnight.Teams.Outcomes.{create_team_race, response}
use ctfnight.Tests.Data.{request, registering, on, red}

abbrev fresh : Fresh
fresh = record { team_id = 9; membership_id = 5; invite = "new" }

registering-IsConsistent : IsConsistent registering
unfolding memberships_of owner_count team_rows member_count count_where
registering-IsConsistent = record {
  one_team = λ u. omega arith;
  one_owner = λ t. refl;
  one_row = λ t. omega arith;
  placed = λ t z. refl;
  fits = λ t. omega arith;
}

-- Nobody else commits anything.
abbrev alone : Db → Db
alone d = d

Reach-IsConsistent_example :
    IsConsistent (create_team request alone alone fresh "blue" (on registering)).1.committed
Reach-IsConsistent_example =
    Reach-IsConsistent
      (next here
        (create request alone alone fresh "blue" {s = on registering} (λ d c. c) (λ d c. c)))
      registering-IsConsistent

abbrev founded : TeamReply
founded = record {
  team = some (record {
    id = 9;
    name = "red";
    role = owner;
    members = record { id = 1; username = "alice"; role = owner } ∷ [];
  });
  invite_code = some "new";
}

create_team_succeeds : (create_team request alone alone fresh "red" (on registering)).0 ≡ ok founded
unfolding create_team ◌>>=◌ check_team_mutation_rate check_tiers check_rate require_user
    current_event hash_session hash_invite membership_for team_display_name
    state_allows_registration add_audit add_outbox ensure_team_changes_open
    lock_actor_and_assert_lifetime_limit team_mutations name_taken insert_team insert_membership
    team_dict get put same_key count_where select_one member_count owner_count memberships_of
    team_rows select_all
create_team_succeeds = refl

-- Another session founds a team of the same name.
abbrev rival : Db → Db
rival d = record d { teams = insert_row red d.teams }

rival_took_name : name_taken request.crypto.lower "red" (rival (alone registering)) ≡ true
unfolding name_taken select_one
rival_took_name = refl

create_team_race_example :
    (response (create_team request alone rival fresh "red" (on registering)).0
      ≡ some (record { status_code = 500; code = Code.internal_error; retry_after = none }))
    × ((create_team request alone rival fresh "red" (on registering)).1.committed
        ≡ rival (alone registering))
create_team_race_example =
    create_team_race request alone rival fresh "red" (on registering) founded create_team_succeeds
      rival_took_name
