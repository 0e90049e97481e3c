-- ===== src/Accounts/Register.antt =====
-- `register` and `_check_auth_rate` (backend/src/alpha/routes_auth.py). `others` is what other
-- sessions commit while the password is hashed and the event's lock is awaited.
pub mod Uses
pub mod Frame
pub mod Limit
use ctfnight.Base.{
  ℕ, String, Bool, true, false, ◌||◌, Option, none, some, [], ◌∷◌, Result, ok, err, api, Code,
  Error, ◌==◌, leb, str_eq, if◌then◌else◌, is_some, raise_if, select_one, count_where, insert_row,
  text_append,
}
use ctfnight.Model.{
  Db, User, participant, is_participant, owner, Event, is_individual, RegistrationCode, Json,
  Action, Topic, Target,
}
use ctfnight.Event.{state_allows_registration}
use ctfnight.Security.{keyed_hash, hash_invite, hash_password}
use ctfnight.Journal.{add_audit, add_outbox}
use ctfnight.Store.{Key}
use ctfnight.Access.{Request, current_event, user_dict, UserView}
use ctfnight.Teams.{insert_team, insert_membership}
use ctfnight.Accounts.Sessions.{NewSession, new_session}
use ctfnight.Accounts.Codes.{registration_code_or_denied, count_use}
use ctfnight.App.{
  App, ◌>>=◌, ◌>>◌, pure, lift, query, gets, write, modify, commit, wait_for, catch_integrity,
}
use ctfnight.App.Limits.{check_tiers}

abbrev pub max_participant_users : ℕ
max_participant_users = 100000

pub record RegisterRequest : Type 0 where
  pub email : String
  pub username : String
  pub password : String
  pub access_code : Option String

-- What a registration draws: identifiers, the first eight hex digits of the user's, the invite of
-- a solo team, a hashing slot, and its reading of the clock after the wait.
pub record RegisterDraw : Type 0 where
  pub user_id : ℕ
  pub short_id : String
  pub team_id : ℕ
  pub membership_id : ℕ
  pub invite : String
  pub slot : Bool
  pub locked : ℕ
  pub session : NewSession

auth_key : String → String → String → Key
auth_key scope kind digest = record {
  template = text_append "auth:" (text_append scope (text_append ":" kind));
  ids = [];
  digest = digest;
}

-- `_check_auth_rate`; only the scope "register" has the global tier.
unfoldable pub check_auth_rate : Request → String → String → App (Unit {0})
unfolding auth_key
check_auth_rate request scope identity =
    let identity_hash =
      keyed_hash request.crypto request.settings.secret_key "auth-identity"
        (request.crypto.lower identity) in
    let window = request.settings.auth_rate_window_seconds in
    check_tiers Code.authentication_rate_limited request.now (
      record {
        key = auth_key scope "identity" identity_hash;
        limit = request.settings.auth_rate_limit;
        window_seconds = window;
      }
      ∷ record {
        key = auth_key scope "ip" request.client_ip;
        limit = request.settings.auth_ip_rate_limit;
        window_seconds = window;
      }
      ∷ (if str_eq scope "register"
          then record {
            key = auth_key scope "global" "";
            limit = request.settings.registration_global_rate_limit;
            window_seconds = request.settings.registration_global_rate_window_seconds;
          }
            ∷ []
          else []))

module _ (lower : String → String) where
  unfoldable pub account_exists : String → String → Db → Bool
  account_exists email username d = is_some (
      select_one
        (λ (u : User). str_eq (lower u.email) email || str_eq (lower u.username) (lower username))
        d.users)

  -- Primary key and the unique addresses and names, lower-cased (which covers the exact ones).
  unfoldable pub insert_user : User → Db → Result Db
  insert_user row d =
      if is_some (select_one (λ (u : User). u.id == row.id) d.users)
        || (is_some (select_one (λ (u : User). str_eq (lower u.email) (lower row.email)) d.users)
            || is_some
                (select_one (λ (u : User). str_eq (lower u.username) (lower row.username)) d.users))
      then err Error.integrity_error
      else ok (record d { users = insert_row row d.users })

unfoldable pub participant_count : Db → ℕ
participant_count d = count_where (λ (u : User). is_participant u.role) d.users

unfoldable pub registering_event : ℕ → Db → Result Event
registering_event now d = elim (current_event d) [
  | none ↦ err (api 409 Code.registration_closed)
  | some event ↦
      if state_allows_registration event now
      then ok event
      else err (api 409 Code.registration_closed)
]

module _ (request : Request) (payload : RegisterRequest) where
  abbrev pub email_of : String
  email_of = request.crypto.lower (request.crypto.strip payload.email)

  abbrev pub username_of : String
  username_of = request.crypto.strip payload.username

  room_for : Db → Result (Unit {0})
  room_for d =
      if account_exists request.crypto.lower email_of username_of d
      then err (api 409 Code.account_exists)
      else raise_if (leb max_participant_users (participant_count d))
          (api 409 Code.participant_capacity_reached)

  -- The checks that are made before the password is hashed and again under the event's lock.
  unfoldable pub may_register : ℕ → Db → Result (Event × Option RegistrationCode)
  unfolding room_for
  may_register now d = elim (registering_event now d) [
    | err e ↦ err e
    | ok event ↦ elim (registration_code_or_denied request event payload.access_code now d) [
      | err e ↦ err e
      | ok code ↦ elim (room_for d) [ err e ↦ err e | ok _ ↦ ok (event, code) ]
    ]
  ]

  -- In individual mode a participant is a team of one.
  unfoldable pub add_solo_team : RegisterDraw → User → App (Unit {0})
  add_solo_team draw user = do
    write (
        insert_team request.crypto.lower (record {
          id = draw.team_id;
          name = text_append user.username (text_append "-" draw.short_id);
          invite_hash = hash_invite request.crypto request.settings.secret_key draw.invite;
          creator_id = user.id;
          created_at = draw.locked;
        }))
    write (
        insert_membership (record {
          id = draw.membership_id;
          user_id = user.id;
          team_id = draw.team_id;
          role = owner;
          joined_at = draw.locked;
        }))
    modify (
        add_audit draw.locked (some user.id) Action.team_solo_created Target.team
          (some draw.team_id) [])

unfoldable pub register : Request → (Db → Db) → RegisterDraw → RegisterRequest → App UserView
register request others draw payload = do
  check_auth_rate request "register" payload.email
  query (may_register request payload request.now)
  password_hash ← lift (hash_password request.crypto draw.slot payload.password)
  wait_for others
  allowed ← query (may_register request payload draw.locked)
  let user : User = record {
    id = draw.user_id;
    email = email_of request payload;
    username = username_of request payload;
    password_hash = password_hash;
    role = participant;
    active = true;
    password_change_required = false;
    credential_version = 0;
    created_at = draw.locked;
  }
  catch_integrity (api 409 Code.account_exists) (do
    write (insert_user request.crypto.lower user)
    (if is_individual allowed.0.team_mode then add_solo_team request payload draw user else pure tt)
    write (new_session (record request { now = draw.locked }) draw.session user)
    modify (add_audit draw.locked (some user.id) Action.auth_register Target.user (some user.id) [])
    modify (
        add_outbox draw.locked Topic.user_registered Target.user user.id
          (("user_id", Json.ident user.id) ∷ []))
    modify (count_use allowed.1)
    commit)
  gets (user_dict user)
