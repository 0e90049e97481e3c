-- ===== src/Teams.antt =====
-- The team routes (backend/src/alpha/routes_teams.py), each a whole handler on a session. `others`
-- is what other sessions commit while a handler waits for its locks; `racing` is what they commit
-- between the name check and the flush of a new team, since creators share the event's lock.
mod Rows
mod Guards
mod View
mod Reply
mod Owner
pub mod Rules
pub mod Invariant
pub mod Outcomes
pub mod Reach
unfoldable pub use Rows.*
unfoldable pub use Guards.{
  check_team_mutation_rate, assert_lifetime_limit, lock_actor, lock_actor_and_assert_lifetime_limit,
  ensure_team_changes_open, locked_membership, locked_team, lock_owner_and_target,
}
pub use Guards.{OwnerAndTarget}
unfoldable pub use View.{member_le, sort_members, team_dict}
pub use View.{MemberView, TeamView}
unfoldable pub use Reply.{invite_hash_of, event_meta, reload_team, my_team}
pub use Reply.{Fresh, TeamReply}
unfoldable pub use Owner.{rotate_invite, transfer_owner, remove_member}
use ctfnight.Base.{
  ℕ, String, Bool, true, false, ◌&&◌, ◌||◌, not, Option, none, some, List, [], ◌∷◌, Result, ok, err,
  api, Code, Error, raise_if, ◌==◌, ltb, leb, str_eq, if◌then◌else◌, select_one, is_some,
}
use ctfnight.Model.{
  Db, User, Team, Membership, MembershipRole, owner, member, is_owner, is_participant, Event, Json,
  Action, Topic, Target,
}
use ctfnight.Security.{hash_invite}
use ctfnight.Journal.{add_audit, add_outbox}
use ctfnight.Access.{Request, require_user, membership_for, current_event}
use ctfnight.App.{
  App, ◌>>=◌, ◌>>◌, pure, lift, query, gets, write, modify, commit, wait_for, catch_integrity,
}

-- POST /teams
unfoldable pub create_team : Request → (Db → Db) → (Db → Db) → Fresh → String → App TeamReply
create_team request others racing fresh name = do
  check_team_mutation_rate request
  user ← query (require_user request)
  wait_for others
  event ← query (ensure_team_changes_open request.now)
  query (lock_actor_and_assert_lifetime_limit user.id event.id user.credential_version)
  mine ← gets (membership_for user.id)
  lift (raise_if (is_some mine) (api 409 Code.already_on_team))
  taken ← gets (name_taken request.crypto.lower name)
  lift (raise_if taken (api 409 Code.team_name_exists))
  wait_for racing
  let team : Team = record {
    id = fresh.team_id;
    name = name;
    invite_hash = invite_hash_of request fresh.invite;
    creator_id = user.id;
    created_at = request.now;
  }
  write (insert_team request.crypto.lower team)
  catch_integrity (api 409 Code.team_conflict) (do
    write (
        insert_membership (record {
          id = fresh.membership_id;
          user_id = user.id;
          team_id = team.id;
          role = owner;
          joined_at = request.now;
        }))
    modify (
        add_audit request.now (some user.id) Action.team_created Target.team (some team.id)
          (event_meta event))
    modify (
        add_outbox request.now Topic.team_created Target.team team.id
          (("team_id", Json.ident team.id) ∷ []))
    commit)
  view ← gets (team_dict (some event) team owner)
  pure (record { team = some view; invite_code = some fresh.invite })

-- POST /teams/join
unfoldable pub join_team : Request → (Db → Db) → Fresh → String → App TeamReply
unfolding reload_team
join_team request others fresh invite_code = do
  check_team_mutation_rate request
  user ← query (require_user request)
  wait_for others
  event ← query (ensure_team_changes_open request.now)
  query (lock_actor_and_assert_lifetime_limit user.id event.id user.credential_version)
  mine ← gets (membership_for user.id)
  lift (raise_if (is_some mine) (api 409 Code.already_on_team))
  let invite_hash = invite_hash_of request invite_code
  team ← query (λ d. elim (select_one (λ (t : Team). str_eq t.invite_hash invite_hash) d.teams) [
    | none ↦ err (api 404 Code.invalid_invite)
    | some t ↦ ok t
  ])
  members ← gets (member_count team.id)
  lift (raise_if (leb max_members_per_team members) (api 409 Code.team_capacity_reached))
  catch_integrity (api 409 Code.team_join_conflict) (do
    write (
        insert_membership (record {
          id = fresh.membership_id;
          user_id = user.id;
          team_id = team.id;
          role = member;
          joined_at = request.now;
        }))
    modify (
        add_audit request.now (some user.id) Action.team_joined Target.team (some team.id)
          (event_meta event))
    modify (
        add_outbox request.now Topic.team_member_joined Target.team team.id
          (("team_id", Json.ident team.id) ∷ ("user_id", Json.ident user.id) ∷ []))
    commit)
  view ← query (reload_team user.id event)
  pure (record { team = some view; invite_code = none })

-- What `leave_team` deletes: the membership, and the team with its owner.
drop_member : ℕ → ℕ → MembershipRole → Db → Db
drop_member user_id team_id owner d = delete_team team_id (delete_membership user_id d)
drop_member user_id team_id member d = delete_membership user_id d

-- POST /teams/leave
unfoldable pub leave_team : Request → (Db → Db) → App (Unit {0})
unfolding drop_member
leave_team request others = do
  check_team_mutation_rate request
  user ← query (require_user request)
  wait_for others
  event ← query (ensure_team_changes_open request.now)
  query (lock_actor_and_assert_lifetime_limit user.id event.id user.credential_version)
  mine ← query (locked_membership user.id)
  team ← query (locked_team mine.team_id)
  members ← gets (member_count team.id)
  lift (raise_if (is_owner mine.role && ltb 1 members) (api 409 Code.owner_cannot_leave))
  activity ← gets (submissions_by user.id mine.team_id)
  lift (raise_if (not (activity == 0)) (api 409 Code.member_has_activity))
  team_activity ← gets (submissions_of_team mine.team_id)
  lift (raise_if (is_owner mine.role && not (team_activity == 0)) (api 409 Code.team_has_activity))
  modify (drop_member user.id mine.team_id mine.role)
  modify (
      add_audit request.now (some user.id) Action.team_left Target.team (some mine.team_id)
        (event_meta event))
  modify (
      add_outbox request.now Topic.team_member_left Target.team mine.team_id
        (("team_id", Json.ident mine.team_id) ∷ ("user_id", Json.ident user.id) ∷ []))
  commit
