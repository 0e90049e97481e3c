-- ===== src/Admin/UserStatus.antt =====
-- PUT /admin/users/{user_id}/status (backend/src/alpha/routes_admin.py, `update_user_status`).
-- `others` is what other sessions commit before the user's row is locked.
pub mod Revoked
use ctfnight.Base.{
  ℕ, ◌+◌, String, Bool, true, false, ◌&&◌, not, Option, none, some, List, [], ◌∷◌, Result, ok, err,
  api, Code, ◌==◌, if◌then◌else◌, select_one, delete_where, update_where, or_raise,
}
use ctfnight.Model.{
  Db, User, UserRole, is_participant, SessionToken, Team, Membership, Json, Action, Topic, Target,
}
use ctfnight.Journal.{add_audit, add_outbox}
use ctfnight.Access.{Request, require_admin, membership_for}
use ctfnight.App.{App, ◌>>=◌, ◌>>◌, pure, query, gets, modify, commit, wait_for}

pub record UserStatusUpdateRequest : Type 0 where
  pub active : Bool
  pub reason : Option String

pub record AdminTeamView : Type 0 where
  pub id : ℕ
  pub name : String

pub record AdminUserView : Type 0 where
  pub id : ℕ
  pub email : String
  pub username : String
  pub role : UserRole
  pub active : Bool
  pub password_change_required : Bool
  pub team : Option AdminTeamView
  pub created_at : ℕ

-- The team of a membership; its foreign key always finds one.
admin_team : Option Membership → Db → Option AdminTeamView
admin_team none d = none
admin_team (some m) d = elim (select_one (λ (t : Team). t.id == m.team_id) d.teams) [
  | none ↦ none
  | some t ↦ some (record { id = t.id; name = t.name })
]

-- `_admin_user_dict`
unfoldable pub admin_user_dict : User → Db → AdminUserView
unfolding admin_team
admin_user_dict user d = record {
  id = user.id;
  email = user.email;
  username = user.username;
  role = user.role;
  active = user.active;
  password_change_required = user.password_change_required;
  team = admin_team (membership_for user.id d) d;
  created_at = user.created_at;
}

unfoldable pub participant_by_id : ℕ → Db → Result User
participant_by_id user_id d =
    or_raise (select_one (λ (u : User). u.id == user_id && is_participant u.role) d.users)
      (api 409 Code.participant_required)

unfoldable pub revoke_sessions : ℕ → Db → Db
revoke_sessions user_id d = record d {
  sessions = delete_where (λ (s : SessionToken). s.user_id == user_id) d.sessions;
}

-- `user.active = …`, and a new credential version on a suspension.
abbrev pub with_status : Bool → User → User
with_status true user = record user { active = true }
with_status false user = record user {
  active = false;
  credential_version = user.credential_version + 1;
}

unfoldable pub store_status : ℕ → Bool → Db → Db
store_status user_id active d = record d {
  users = update_where (λ (u : User). u.id == user_id) (with_status active) d.users;
}

-- A suspension deletes the sessions; a restored account has none to delete.
unfoldable pub set_status : ℕ → Bool → Db → Db
unfolding store_status revoke_sessions
set_status user_id true d = store_status user_id true d
set_status user_id false d = revoke_sessions user_id (store_status user_id false d)

optional_text : Option String → Json
optional_text none = Json.null
optional_text (some t) = Json.text t

-- The status that the account has already: a suspended one loses any session that it still has.
keep_status : User → Bool → App AdminUserView
keep_status user true = gets (admin_user_dict user)
keep_status user false = do modify (revoke_sessions user.id); commit; gets (admin_user_dict user)

change_status : Request → User → User → UserStatusUpdateRequest → App AdminUserView
unfolding optional_text
change_status request admin user payload = do
  modify (set_status user.id payload.active)
  modify (
      add_audit request.now (some admin.id) Action.user_status_changed Target.user (some user.id) (
        ("active", Json.flag payload.active)
        ∷ ("previous_active", Json.flag user.active)
        ∷ ("reason", optional_text payload.reason)
        ∷ []))
  modify (
      add_outbox request.now Topic.user_status_changed Target.user user.id
        (("user_id", Json.ident user.id) ∷ ("active", Json.flag payload.active) ∷ []))
  commit
  gets (admin_user_dict (with_status payload.active user))

same_flag : Bool → Bool → Bool
same_flag true b = b
same_flag false b = not b

unfoldable pub update_user_status :
    Request → (Db → Db) → ℕ → UserStatusUpdateRequest → App AdminUserView
unfolding keep_status change_status same_flag
update_user_status request others user_id payload = do
  admin ← query (require_admin request)
  wait_for others
  user ← query (participant_by_id user_id)
  (if same_flag user.active payload.active
      then keep_status user payload.active
      else change_status request admin user payload)
