-- ===== src/Accounts/Login.antt =====
-- `login` and `logout` (backend/src/alpha/routes_auth.py). `others n` is what other sessions commit
-- before the lock of the attempt that leaves `n` more.
use ctfnight.Base.{
  ℕ, zero, suc, String, Bool, true, false, ◌&&◌, not, Option, none, some, [], Result, ok, err, api,
  Code, ◌==◌, str_eq, if◌then◌else◌, raise_if, select_one, delete_where, update_where, is_some,
}
use ctfnight.Model.{Db, User, SessionToken, Action, Target}
use ctfnight.Security.{verify_password, rehash_password}
use ctfnight.Journal.{add_coalesced_audit}
use ctfnight.Access.{Request, user_by_id, user_dict, UserView, session_by_token}
use ctfnight.Accounts.Sessions.{NewSession, new_session}
use ctfnight.Accounts.Register.{check_auth_rate}
use ctfnight.App.{
  App, ◌>>=◌, ◌>>◌, pure, lift, query, gets, write, modify, commit, rollback, wait_for,
}

pub record LoginRequest : Type 0 where
  pub email : String
  pub password : String

-- The hashing slots that the calls find free, and the new session.
pub record LoginDraw : Type 0 where
  pub verify_slot : ℕ → Bool
  pub hash_slot : ℕ → Bool
  pub locked : ℕ
  pub session : NewSession

-- `_DUMMY_PASSWORD_HASH`
abbrev pub dummy_password_hash : Request → String
dummy_password_hash request = request.crypto.argon2_hash "alpha-dummy-password-not-used-for-login"

unfoldable pub candidate_by_email : Request → String → Db → Option User
candidate_by_email request email d =
    select_one (λ (u : User). str_eq (request.crypto.lower u.email) email) d.users

unfoldable pub active_user : Code → ℕ → Db → Result User
active_user code user_id d = elim (user_by_id user_id d) [
  | none ↦ err (api 401 code)
  | some user ↦ if user.active then ok user else err (api 401 code)
]

unfoldable pub store_hash : ℕ → Option String → Db → Db
store_hash user_id none d = d
store_hash user_id (some h) d = record d {
  users =
      update_where (λ (u : User). u.id == user_id) (λ u. record u { password_hash = h }) d.users;
}

module _ (request : Request) (others : ℕ → Db → Db) (draw : LoginDraw) (password : String)
    (candidate_id : ℕ) where
  -- The attempts to lock a user whose hash is the verified one.
  unfoldable pub login_attempt : ℕ → String → Option String → App User
  login_attempt zero verified_hash replacement_hash = lift (err (api 409 Code.credential_changed))
  login_attempt (suc n) verified_hash replacement_hash = do
    wait_for (others n)
    user ← query (active_user Code.invalid_credentials candidate_id)
    (if str_eq user.password_hash verified_hash
        then (do modify (store_hash user.id replacement_hash); pure user)
        else (do
          rollback
          valid ←
              lift (verify_password request.crypto (draw.verify_slot n) user.password_hash password)
          lift (raise_if (not valid) (api 401 Code.invalid_credentials))
          fresh ←
              lift (rehash_password request.crypto (draw.hash_slot n) user.password_hash password)
          login_attempt n user.password_hash fresh))

-- The candidate's identifier, or the refusal that an unknown, a wrong or an inactive one gets.
unfoldable pub admitted_candidate : Option User → Bool → Result User
admitted_candidate none valid = err (api 401 Code.invalid_credentials)
admitted_candidate (some user) valid =
    if valid && user.active then ok user else err (api 401 Code.invalid_credentials)

abbrev hash_of : Request → Option User → String
hash_of request none = dummy_password_hash request
hash_of request (some user) = user.password_hash

unfoldable pub login : Request → (ℕ → Db → Db) → LoginDraw → LoginRequest → App UserView
login request others draw payload = do
  let email = request.crypto.lower (request.crypto.strip payload.email)
  check_auth_rate request "login" email
  found ← gets (candidate_by_email request email)
  rollback
  valid ←
      lift (
        verify_password request.crypto (draw.verify_slot 3) (hash_of request found)
          payload.password)
  candidate ← lift (admitted_candidate found valid)
  fresh ←
      lift
        (rehash_password request.crypto (draw.hash_slot 3) candidate.password_hash payload.password)
  user ←
      login_attempt request others draw payload.password candidate.id 3 candidate.password_hash
        fresh
  write (new_session (record request { now = draw.locked }) draw.session user)
  modify (add_coalesced_audit draw.locked user.id Action.auth_login Target.user user.id [])
  commit
  gets (user_dict user)

unfoldable pub delete_session : ℕ → Db → Db
delete_session id d = record d {
  sessions = delete_where (λ (s : SessionToken). s.id == id) d.sessions;
}

-- The session read again under the lock of its user, if both are still there.
end_session : Request → SessionToken → Option SessionToken → Bool → App (Unit {0})
end_session request found (some current) true = do
  modify (delete_session current.id)
  modify (
      add_coalesced_audit request.now found.user_id Action.auth_logout Target.user found.user_id [])
  commit
end_session request found (some current) false = pure tt
end_session request found none exists = pure tt

close_session : Request → (Db → Db) → String → Option SessionToken → App (Unit {0})
unfolding end_session
close_session request others token none = pure tt
close_session request others token (some found) = do
  wait_for others
  owner ← gets (user_by_id found.user_id)
  current ← gets (session_by_token request token)
  end_session request found current (is_some owner)

-- POST /auth/logout: without a session there is nothing to end.
unfoldable pub logout : Request → (Db → Db) → App (Unit {0})
unfolding close_session
logout request others = elim request.session_cookie [
  | none ↦ pure tt
  | some token ↦ if str_eq token "" then pure tt else (do
    found ← gets (session_by_token request token)
    close_session request others token found)
]
