-- ===== src/Cli.antt =====
-- The outcome of a command and `set-password` (backend/src/alpha/cli.py). Commands run beside the
-- server on the same database. A command either commits or leaves the database as it was, and `main` turns
-- what it raised into the exit status.
pub mod Recovery
pub mod Bootstrap
pub mod Founded
use ctfnight.Base.{
  Error, ℕ, ◌+◌, String, Bool, true, Option, none, some, [], Result, ok, err, ◌==◌, ltb, str_eq,
  if◌then◌else◌, select_one, update_where,
}
use ctfnight.Model.{Db, User, Action, Target}
use ctfnight.Security.{Crypto, hash_password}
use ctfnight.Journal.{add_audit}
use ctfnight.Admin.UserStatus.{revoke_sessions}

-- What `main` catches: `runtime_error` has the message, which is printed.
pub data Failure : Type 0 where
  runtime_error : String → Failure
  api_failure : Error → Failure
  sqlalchemy_error : Failure

pub data CommandOutcome : Type 0 where
  done : CommandOutcome
  raised : Failure → CommandOutcome

-- What `main` returns.
unfoldable pub exit_status : CommandOutcome → ℕ
exit_status done = 0
exit_status (raised _) = 1

module _ (c : Crypto) where
  unfoldable pub user_by_email : String → Db → Option User
  user_by_email email d =
      select_one (λ (u : User). str_eq (c.lower u.email) (c.lower (c.strip email))) d.users

abbrev pub with_recovery : String → User → User
with_recovery replacement_hash user = record user {
  password_hash = replacement_hash;
  password_change_required = true;
  credential_version = user.credential_version + 1;
}

unfoldable pub store_recovery : ℕ → String → Db → Db
store_recovery user_id replacement_hash d = record d {
  users = update_where (λ (u : User). u.id == user_id) (with_recovery replacement_hash) d.users;
}

-- `_set_password`: `admin_password` is ALPHA_ADMIN_PASSWORD, and `slot` says that a hashing worker
-- is free.
unfoldable pub set_password_command :
    Crypto → Bool → ℕ → Option String → String → Db → CommandOutcome × Db
set_password_command c slot now admin_password email d = elim admin_password [
  | none ↦
      (raised (runtime_error "set-password reads the new password from ALPHA_ADMIN_PASSWORD"), d)
  | some password ↦
      if ltb (c.text_length password) 12
      then (raised (runtime_error "recovery password must contain at least 12 characters"), d)
      else elim (user_by_email c email d) [
        | none ↦ (raised (runtime_error "user not found"), d)
        | some user ↦ elim (hash_password c slot password) [
          | err _ ↦ (raised (runtime_error ""), d)
          | ok replacement_hash ↦ (
            done,
            add_audit now (some user.id) Action.admin_password_reset_cli Target.user (some user.id)
                [] (revoke_sessions user.id (store_recovery user.id replacement_hash d)),
          )
        ]
      ]
]
