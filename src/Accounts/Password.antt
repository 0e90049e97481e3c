-- ===== src/Accounts/Password.antt =====
-- `change_password` (backend/src/alpha/routes_auth.py). `others n` is what other sessions commit
-- before the lock of the attempt that leaves `n` more.
pub mod Rotation
use ctfnight.Base.{
  ℕ, ◌+◌, zero, suc, String, Bool, true, false, ◌&&◌, not, Option, none, some, List, [], ◌∷◌,
  Result, ok, err, api, Code, ◌==◌, ltb, str_eq, if◌then◌else◌, or_default, raise_if, select_one,
  update_where,
}
use ctfnight.Model.{Db, User, SessionToken, Json, Action, Topic, Target}
use ctfnight.Security.{hash_session, hash_password, verify_password}
use ctfnight.Journal.{add_coalesced_audit, add_coalesced_outbox}
use ctfnight.Access.{Request, require_user, user_dict, UserView}
use ctfnight.Admin.UserStatus.{revoke_sessions}
use ctfnight.Accounts.Sessions.{NewSession, new_session}
use ctfnight.Accounts.Register.{check_auth_rate}
use ctfnight.Accounts.Login.{active_user}
use ctfnight.App.{
  App, ◌>>=◌, ◌>>◌, pure, lift, query, gets, write, modify, commit, rollback, wait_for,
}

pub record ChangePasswordRequest : Type 0 where
  pub current_password : String
  pub new_password : String

-- The text of the user's identifier, the hashing slots that the calls find free, the reading of
-- the clock under the lock, and the new session.
pub record PasswordDraw : Type 0 where
  pub user_text : ℕ → String
  pub verify_slot : ℕ → Bool
  pub hash_slot : Bool
  pub locked : ℕ
  pub session : NewSession

session_alive : Option SessionToken → User → ℕ → Result (Unit {0})
session_alive none user now = err (api 401 Code.invalid_session)
session_alive (some s) user now =
    raise_if (not (ltb now s.expires_at && s.credential_version == user.credential_version))
      (api 401 Code.invalid_session)

-- The user and the session of the request, as they are under the lock.
unfoldable pub locked_identity : String → ℕ → ℕ → Db → Result User
unfolding session_alive
locked_identity session_hash user_id now d = elim (active_user Code.invalid_session user_id d) [
  | err e ↦ err e
  | ok user ↦
      let current =
        select_one (λ (s : SessionToken). str_eq s.token_hash session_hash && s.user_id == user_id)
          d.sessions in
      elim (session_alive current user now) [ err e ↦ err e | ok _ ↦ ok user ]
]

module _ (request : Request) (others : ℕ → Db → Db) (draw : PasswordDraw)
    (current_password session_hash : String) (user_id : ℕ) where
  unfoldable pub password_attempt : ℕ → String → App User
  password_attempt zero verified_hash = lift (err (api 409 Code.credential_changed))
  password_attempt (suc n) verified_hash = do
    wait_for (others n)
    user ← query (locked_identity session_hash user_id draw.locked)
    (if str_eq user.password_hash verified_hash then pure user else (do
      rollback
      valid ←
          lift (
            verify_password request.crypto (draw.verify_slot n) user.password_hash current_password)
      lift (raise_if (not valid) (api 401 Code.invalid_current_password))
      password_attempt n user.password_hash))

abbrev pub with_password : String → User → User
with_password replacement_hash user = record user {
  password_hash = replacement_hash;
  password_change_required = false;
  credential_version = user.credential_version + 1;
}

unfoldable pub set_password : ℕ → String → Db → Db
set_password user_id replacement_hash d = record d {
  users = update_where (λ (u : User). u.id == user_id) (with_password replacement_hash) d.users;
}

-- The new hash, the end of every session, and a new session.
unfoldable pub rotate_credentials : Request → PasswordDraw → String → User → App UserView
rotate_credentials request draw replacement_hash user = do
  modify (set_password user.id replacement_hash)
  modify (revoke_sessions user.id)
  write (new_session (record request { now = draw.locked }) draw.session user)
  modify
      (add_coalesced_audit draw.locked user.id Action.auth_password_changed Target.user user.id [])
  modify (
      add_coalesced_outbox draw.locked Topic.user_password_changed Target.user user.id
        (("user_id", Json.ident user.id) ∷ []))
  commit
  gets (user_dict user)

unfoldable pub change_password :
    Request → (ℕ → Db → Db) → PasswordDraw → ChangePasswordRequest → App UserView
change_password request others draw payload = do
  let identity = or_default request.session_cookie "missing-session"
  check_auth_rate request "change-password" identity
  caller ← query (require_user request)
  rollback
  check_auth_rate request "change-password-user" (draw.user_text caller.id)
  valid ← lift (
      verify_password request.crypto (draw.verify_slot 3) caller.password_hash
        payload.current_password)
  lift (raise_if (not valid) (api 401 Code.invalid_current_password))
  replacement_hash ← lift (hash_password request.crypto draw.hash_slot payload.new_password)
  locked ←
      password_attempt request others draw payload.current_password
        (hash_session request.crypto request.settings.secret_key identity) caller.id 3
        caller.password_hash
  rotate_credentials request draw replacement_hash (with_password replacement_hash locked)
