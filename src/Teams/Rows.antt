-- ===== src/Teams/Rows.antt =====
-- The rows that the team routes read and write, with the constraints that the schema puts on
-- inserts (backend/src/alpha/models.py) and the limits of backend/src/alpha/limits.py.
use ctfnight.Base.{
  ℕ, String, Bool, false, ◌&&◌, ◌||◌, not, Option, none, some, Result, ok, err, Error, ◌==◌, str_eq,
  if◌then◌else◌, is_some, select_one, count_where, delete_where, update_where, insert_row, get,
  string_keys,
}
use ctfnight.Model.{Db, Team, Membership, MembershipRole, is_owner, Json, is_team_mutation}

abbrev pub max_team_mutations_per_user_event : ℕ
max_team_mutations_per_user_event = 100

abbrev pub max_members_per_team : ℕ
max_members_per_team = 100

module _ (lower : String → String) where
  unfoldable pub name_taken : String → Db → Bool
  name_taken name d = is_some (select_one (λ t. str_eq (lower t.name) (lower name)) d.teams)

  -- Primary key, unique names (exact and lower-cased) and unique invite hashes.
  unfoldable pub insert_team : Team → Db → Result Db
  unfolding name_taken
  insert_team team d =
      if is_some (select_one (λ t. t.id == team.id) d.teams)
        || (name_taken team.name d
            || is_some (select_one (λ t. str_eq t.invite_hash team.invite_hash) d.teams))
      then err Error.integrity_error
      else ok (record d { teams = insert_row team d.teams })

-- Primary key and `uq_memberships_user`, and the foreign key to the team.
unfoldable pub insert_membership : Membership → Db → Result Db
insert_membership row d =
    if is_some (select_one (λ m. m.user_id == row.user_id) d.memberships)
      || (is_some (select_one (λ m. m.id == row.id) d.memberships)
          || not (is_some (select_one (λ t. t.id == row.team_id) d.teams)))
    then err Error.integrity_error
    else ok (record d { memberships = insert_row row d.memberships })

unfoldable pub member_count : ℕ → Db → ℕ
member_count team_id d = count_where (λ m. m.team_id == team_id) d.memberships

unfoldable pub owner_count : ℕ → Db → ℕ
owner_count team_id d = count_where (λ m. m.team_id == team_id && is_owner m.role) d.memberships

unfoldable pub memberships_of : ℕ → Db → ℕ
memberships_of user_id d = count_where (λ m. m.user_id == user_id) d.memberships

unfoldable pub team_rows : ℕ → Db → ℕ
team_rows team_id d = count_where (λ t. t.id == team_id) d.teams

unfoldable pub set_role : ℕ → MembershipRole → Db → Db
set_role user_id role d = record d {
  memberships =
      update_where (λ m. m.user_id == user_id) (λ m. record m { role = role }) d.memberships;
}

unfoldable pub delete_membership : ℕ → Db → Db
delete_membership user_id d = record d {
  memberships = delete_where (λ m. m.user_id == user_id) d.memberships;
}

-- A team goes with its memberships (cascade), submissions, solves and score events (ON DELETE).
unfoldable pub delete_team : ℕ → Db → Db
delete_team team_id d = record d {
  teams = delete_where (λ t. t.id == team_id) d.teams;
  memberships = delete_where (λ m. m.team_id == team_id) d.memberships;
  submissions = delete_where (λ x. x.team_id == team_id) d.submissions;
  solves = delete_where (λ x. x.team_id == team_id) d.solves;
  score_events = delete_where (λ x. x.team_id == team_id) d.score_events;
}

unfoldable pub set_invite_hash : ℕ → String → Db → Result Db
set_invite_hash team_id invite_hash d =
    if is_some (select_one (λ t. str_eq t.invite_hash invite_hash && not (t.id == team_id)) d.teams)
    then err Error.integrity_error
    else ok (record d {
      teams =
          update_where (λ t. t.id == team_id) (λ t. record t { invite_hash = invite_hash }) d.teams;
    })

-- `metadata_json["event_id"].as_string() == str(event_id)`
is_event : ℕ → Option Json → Bool
is_event event_id (some (Json.ident id)) = id == event_id
is_event event_id _ = false

actor_is : ℕ → Option ℕ → Bool
actor_is user_id (some id) = id == user_id
actor_is user_id none = false

unfoldable pub team_mutations : ℕ → ℕ → Db → ℕ
unfolding is_event actor_is
team_mutations user_id event_id d =
    count_where
      (λ a.
        actor_is user_id a.actor_id
        && (is_team_mutation a.action && is_event event_id (get "event_id" a.metadata_json)))
      d.audit_events

unfoldable pub submissions_by : ℕ → ℕ → Db → ℕ
submissions_by user_id team_id d =
    count_where (λ x. x.user_id == user_id && x.team_id == team_id) d.submissions

unfoldable pub submissions_of_team : ℕ → Db → ℕ
submissions_of_team team_id d = count_where (λ x. x.team_id == team_id) d.submissions
