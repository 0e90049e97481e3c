-- ===== src/Model/Journal.antt =====
-- Audit and outbox rows (backend/src/alpha/models.py), with the JSON values that they hold.
use ctfnight.Base.{ℕ, String, Bool, Option, List}

-- `ident` is the text of a UUID and `stamp` the text of a timestamp.
pub data Json : Type 0 where
  null : Json
  flag : Bool → Json
  number : ℕ → Json
  text : String → Json
  texts : List String → Json
  ident : ℕ → Json
  stamp : ℕ → Json

abbrev pub Metadata : Type 0
Metadata = List (String × Json)

pub data Action : Type 0 where
  team_created team_joined team_invite_rotated team_left team_owner_transferred : Action
  team_member_removed team_solo_created challenge_solved auth_register auth_login auth_logout :
      Action
  auth_password_changed event_updated registration_code_created registration_code_revoked : Action
  challenge_created challenge_updated challenge_deleted challenge_visibility_changed : Action
  announcement_created announcement_updated announcement_deleted user_status_changed : Action
  admin_password_reset_cli event_bootstrapped admin_bootstrapped : Action

pub data Topic : Type 0 where
  team_created team_member_joined team_owner_transferred team_member_removed team_member_left :
      Topic
  challenge_solved user_registered user_password_changed event_updated : Topic
  registration_code_created registration_code_revoked challenge_created challenge_updated : Topic
  challenge_deleted challenge_visibility_changed announcement_created announcement_updated : Topic
  announcement_deleted user_status_changed admin_bootstrapped : Topic

pub data Target : Type 0 where
  team user challenge event registration_code announcement : Target

-- A number for each action, to tell them apart.
abbrev pub action_index : Action → ℕ
action_index Action.team_created = 0
action_index Action.team_joined = 1
action_index Action.team_invite_rotated = 2
action_index Action.team_left = 3
action_index Action.team_owner_transferred = 4
action_index Action.team_member_removed = 5
action_index Action.team_solo_created = 6
action_index Action.challenge_solved = 7
action_index Action.auth_register = 8
action_index Action.auth_login = 9
action_index Action.auth_logout = 10
action_index Action.auth_password_changed = 11
action_index Action.event_updated = 12
action_index Action.registration_code_created = 13
action_index Action.registration_code_revoked = 14
action_index Action.challenge_created = 15
action_index Action.challenge_updated = 16
action_index Action.challenge_deleted = 17
action_index Action.challenge_visibility_changed = 18
action_index Action.announcement_created = 19
action_index Action.announcement_updated = 20
action_index Action.announcement_deleted = 21
action_index Action.user_status_changed = 22
action_index Action.admin_password_reset_cli = 23
action_index Action.event_bootstrapped = 24
action_index Action.admin_bootstrapped = 25

-- A number for each topic, to tell them apart.
abbrev pub topic_index : Topic → ℕ
topic_index Topic.team_created = 0
topic_index Topic.team_member_joined = 1
topic_index Topic.team_owner_transferred = 2
topic_index Topic.team_member_removed = 3
topic_index Topic.team_member_left = 4
topic_index Topic.challenge_solved = 5
topic_index Topic.user_registered = 6
topic_index Topic.user_password_changed = 7
topic_index Topic.event_updated = 8
topic_index Topic.registration_code_created = 9
topic_index Topic.registration_code_revoked = 10
topic_index Topic.challenge_created = 11
topic_index Topic.challenge_updated = 12
topic_index Topic.challenge_deleted = 13
topic_index Topic.challenge_visibility_changed = 14
topic_index Topic.announcement_created = 15
topic_index Topic.announcement_updated = 16
topic_index Topic.announcement_deleted = 17
topic_index Topic.user_status_changed = 18
topic_index Topic.admin_bootstrapped = 19

-- A number for each target, to tell them apart.
abbrev pub target_index : Target → ℕ
target_index Target.team = 0
target_index Target.user = 1
target_index Target.challenge = 2
target_index Target.event = 3
target_index Target.registration_code = 4
target_index Target.announcement = 5

-- The six names of `_TEAM_MUTATION_ACTIONS` (backend/src/alpha/routes_teams.py).
abbrev pub is_team_mutation : Action → Bool
is_team_mutation Action.team_created = Bool.true
is_team_mutation Action.team_joined = Bool.true
is_team_mutation Action.team_invite_rotated = Bool.true
is_team_mutation Action.team_left = Bool.true
is_team_mutation Action.team_owner_transferred = Bool.true
is_team_mutation Action.team_member_removed = Bool.true
is_team_mutation _ = Bool.false

pub record AuditEvent : Type 0 where
  pub actor_id : Option ℕ
  pub action : Action
  pub target_type : Target
  pub target_id : Option ℕ
  pub metadata_json : Metadata
  pub created_at : ℕ

pub record OutboxEvent : Type 0 where
  pub topic : Topic
  pub aggregate_type : Target
  pub aggregate_id : ℕ
  pub payload_json : Metadata
  pub created_at : ℕ
  pub delivered_at : Option ℕ
  pub attempts : ℕ
