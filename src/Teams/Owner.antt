-- ===== src/Teams/Owner.antt =====
-- The routes of a team's owner (backend/src/alpha/routes_teams.py).
use ctfnight.Base.{ℕ, String, ◌||◌, not, none, some, List, [], ◌∷◌, api, Code, raise_if, ◌==◌}
use ctfnight.Model.{Db, owner, member, is_owner, is_participant, Json, Action, Topic, Target}
use ctfnight.Journal.{add_audit, add_outbox}
use ctfnight.Access.{Request, require_user}
use ctfnight.App.{App, ◌>>=◌, ◌>>◌, pure, lift, query, gets, write, modify, commit, wait_for}
use ctfnight.Teams.Rows.{set_invite_hash, set_role, delete_membership, submissions_by}
use ctfnight.Teams.Guards.{
  check_team_mutation_rate, lock_actor_and_assert_lifetime_limit, ensure_team_changes_open,
  locked_membership, locked_team, lock_owner_and_target,
}
use ctfnight.Teams.Reply.{Fresh, TeamReply, invite_hash_of, event_meta, reload_team}

-- POST /teams/rotate-invite
unfoldable pub rotate_invite : Request → (Db → Db) → Fresh → App TeamReply
rotate_invite request others fresh = do
  check_team_mutation_rate request
  user ← query (require_user request)
  wait_for others
  event ← query (ensure_team_changes_open request.now)
  query (lock_actor_and_assert_lifetime_limit user.id event.id user.credential_version)
  mine ← query (locked_membership user.id)
  team ← query (locked_team mine.team_id)
  lift (raise_if (not (is_owner mine.role)) (api 403 Code.team_owner_required))
  write (set_invite_hash team.id (invite_hash_of request fresh.invite))
  modify (
      add_audit request.now (some user.id) Action.team_invite_rotated Target.team
        (some mine.team_id) (event_meta event))
  commit
  pure (record { team = none; invite_code = some fresh.invite })

-- POST /teams/transfer-owner
unfoldable pub transfer_owner : Request → (Db → Db) → ℕ → App TeamReply
unfolding reload_team
transfer_owner request others target_id = do
  check_team_mutation_rate request
  user ← query (require_user request)
  wait_for others
  event ← query (ensure_team_changes_open request.now)
  locked ← query (lock_owner_and_target user.id target_id event.id user.credential_version)
  lift (
      raise_if (not locked.target.active || not (is_participant locked.target.role))
        (api 409 Code.owner_target_ineligible))
  modify (set_role locked.actor.id member)
  modify (set_role locked.target.id owner)
  let metadata : List (String × Json) =
      ("event_id", Json.ident event.id)
      ∷ ("previous_owner_id", Json.ident locked.actor.id)
      ∷ ("new_owner_id", Json.ident locked.target.id)
      ∷ []
  modify (
      add_audit request.now (some locked.actor.id) Action.team_owner_transferred Target.team
        (some locked.team_id) metadata)
  modify (
      add_outbox request.now Topic.team_owner_transferred Target.team locked.team_id
        (("team_id", Json.ident locked.team_id) ∷ metadata))
  commit
  view ← query (reload_team locked.actor.id event)
  pure (record { team = some view; invite_code = none })

-- POST /teams/remove-member
unfoldable pub remove_member : Request → (Db → Db) → Fresh → ℕ → App TeamReply
unfolding reload_team
remove_member request others fresh target_id = do
  check_team_mutation_rate request
  user ← query (require_user request)
  wait_for others
  event ← query (ensure_team_changes_open request.now)
  locked ← query (lock_owner_and_target user.id target_id event.id user.credential_version)
  activity ← gets (submissions_by locked.target.id locked.team_id)
  lift (raise_if (not (activity == 0)) (api 409 Code.member_has_activity))
  write (set_invite_hash locked.team_id (invite_hash_of request fresh.invite))
  modify (delete_membership locked.target.id)
  let metadata : List (String × Json) =
      ("event_id", Json.ident event.id) ∷ ("removed_user_id", Json.ident locked.target.id) ∷ []
  modify (
      add_audit request.now (some locked.actor.id) Action.team_member_removed Target.team
        (some locked.team_id) metadata)
  modify (
      add_outbox request.now Topic.team_member_removed Target.team locked.team_id
        (("team_id", Json.ident locked.team_id) ∷ metadata))
  commit
  view ← query (reload_team locked.actor.id event)
  pure (record { team = some view; invite_code = some fresh.invite })
