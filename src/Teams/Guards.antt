-- ===== src/Teams/Guards.antt =====
-- The checks that the team routes make before they write: the rate tiers, the event's gate, the
-- locked actor, the owner and the target of a member operation.
pub mod Locked
use ctfnight.Base.{
  ℕ, String, Bool, true, false, ◌&&◌, ◌||◌, not, Option, none, some, List, [], ◌∷◌, Result, ok, err,
  api, Code, Error, ◌==◌, leb, if◌then◌else◌, select_one, is_some, or_default,
}
use ctfnight.Model.{Db, User, Team, Membership, Event, is_owner, is_participant, is_individual}
use ctfnight.Event.{state_allows_registration}
use ctfnight.Security.{keyed_hash}
use ctfnight.Store.{Key}
use ctfnight.Access.{Request, user_by_id, current_event, membership_for}
use ctfnight.App.{App}
use ctfnight.App.Limits.{Tier, check_tiers}
use ctfnight.Teams.Rows.{team_mutations, max_team_mutations_per_user_event}

unfoldable pub check_team_mutation_rate : Request → App (Unit {0})
check_team_mutation_rate request =
    let secret = request.settings.secret_key in
    let session_key =
      keyed_hash request.crypto secret "team-mutation-session"
        (or_default request.session_cookie "anonymous") in
    let ip_key = keyed_hash request.crypto secret "team-mutation-ip" request.client_ip in
    let window = request.settings.team_mutation_rate_window_seconds in
    check_tiers Code.team_mutation_rate_limited request.now (
      record {
        key = record { template = "team-mutation:session"; ids = []; digest = session_key };
        limit = request.settings.team_mutation_rate_limit;
        window_seconds = window;
      }
      ∷ record {
        key = record { template = "team-mutation:ip"; ids = []; digest = ip_key };
        limit = request.settings.team_mutation_ip_rate_limit;
        window_seconds = window;
      }
      ∷ [])

unfoldable pub assert_lifetime_limit : ℕ → ℕ → Db → Result (Unit {0})
assert_lifetime_limit user_id event_id d =
    if leb max_team_mutations_per_user_event (team_mutations user_id event_id d)
    then err (api 409 Code.team_mutation_limit_reached)
    else ok tt

unfoldable pub lock_actor : ℕ → ℕ → Db → Result User
lock_actor user_id expected_credential_version d = elim (user_by_id user_id d) [
  | none ↦ err (api 401 Code.invalid_session)
  | some actor ↦
      if actor.active && actor.credential_version == expected_credential_version
      then ok actor
      else err (api 401 Code.invalid_session)
]

unfoldable pub lock_actor_and_assert_lifetime_limit : ℕ → ℕ → ℕ → Db → Result (Unit {0})
unfolding lock_actor assert_lifetime_limit
lock_actor_and_assert_lifetime_limit user_id event_id expected_credential_version d =
    elim (lock_actor user_id expected_credential_version d) [
      | err e ↦ err e
      | ok actor ↦ assert_lifetime_limit user_id event_id d
    ]

unfoldable pub ensure_team_changes_open : ℕ → Db → Result Event
ensure_team_changes_open now d = elim (current_event d) [
  | none ↦ err (api 409 Code.team_changes_closed)
  | some event ↦
      if is_individual event.team_mode
      then err (api 409 Code.individual_mode)
      else if state_allows_registration event now
      then ok event
      else err (api 409 Code.team_changes_closed)
]

unfoldable pub locked_membership : ℕ → Db → Result Membership
locked_membership user_id d = elim (membership_for user_id d) [
  | none ↦ err (api 409 Code.team_required)
  | some m ↦ ok m
]

unfoldable pub locked_team : ℕ → Db → Result Team
locked_team team_id d = elim (select_one (λ (t : Team). t.id == team_id) d.teams) [
  | none ↦ err (api 409 Code.team_required)
  | some t ↦ ok t
]

-- What `_lock_owner_and_target` returns: the actor, the target and their team.
pub record OwnerAndTarget : Type 0 where
  pub actor : User
  pub target : User
  pub team_id : ℕ

check_target : User → ℕ → ℕ → Db → Result OwnerAndTarget
check_target actor target_id team_id d = elim (user_by_id target_id d) [
  | none ↦ err (api 404 Code.team_member_not_found)
  | some target ↦ elim (membership_for target_id d) [
    | none ↦ err (api 404 Code.team_member_not_found)
    | some m ↦
        if not (m.team_id == team_id) || is_owner m.role
        then err (api 404 Code.team_member_not_found)
        else ok (record { actor = actor; target = target; team_id = team_id })
  ]
]

check_owner : User → Membership → ℕ → Db → Result OwnerAndTarget
unfolding locked_team check_target
check_owner actor mine target_id d = elim (locked_team mine.team_id d) [
  | err e ↦ err e
  | ok team ↦
      if not (is_owner mine.role)
      then err (api 403 Code.team_owner_required)
      else if actor.id == target_id
      then err (api 409 Code.cannot_target_self)
      else check_target actor target_id team.id d
]

check_limit_and_owner : User → ℕ → ℕ → Db → Result OwnerAndTarget
unfolding assert_lifetime_limit locked_membership check_owner
check_limit_and_owner actor target_id event_id d =
    elim (assert_lifetime_limit actor.id event_id d) [
      | err e ↦ err e
      | ok _ ↦ elim (locked_membership actor.id d) [
        | err e ↦ err e
        | ok mine ↦ check_owner actor mine target_id d
      ]
    ]

unfoldable pub lock_owner_and_target : ℕ → ℕ → ℕ → ℕ → Db → Result OwnerAndTarget
unfolding lock_actor check_limit_and_owner
lock_owner_and_target actor_id target_id event_id expected_credential_version d =
    elim (lock_actor actor_id expected_credential_version d) [
      | err e ↦ err e
      | ok actor ↦ check_limit_and_owner actor target_id event_id d
    ]
