-- ===== src/Access.antt =====
-- Who is calling (backend/src/alpha/dependencies.py) and which event is current
-- (backend/src/alpha/services.py).
use ctfnight.Base.{
  ℕ, String, Bool, ◌&&◌, not, Option, none, some, List, [], ◌∷◌, Result, ok, err, api, Code, Error,
  ◌==◌, leb, ltb, str_eq, if◌then◌else◌, select_one,
}
use ctfnight.Model.{
  Db, User, SessionToken, Team, Membership, Event, archived, is_admin, is_individual,
  MembershipRole, UserRole,
}
use ctfnight.Event.{state_eq}
use ctfnight.Security.{Crypto, hash_session}

-- The settings that the handlers read (backend/src/alpha/config.py).
pub record Settings : Type 0 where
  pub secret_key : String
  pub session_ttl_hours : ℕ
  pub session_cleanup_batch_size : ℕ
  pub max_flag_length : ℕ
  pub team_mutation_rate_limit : ℕ
  pub team_mutation_ip_rate_limit : ℕ
  pub team_mutation_rate_window_seconds : ℕ
  pub submission_rate_limit : ℕ
  pub submission_ip_rate_limit : ℕ
  pub submission_challenge_rate_limit : ℕ
  pub submission_rate_window_seconds : ℕ
  pub auth_rate_limit : ℕ
  pub auth_ip_rate_limit : ℕ
  pub auth_rate_window_seconds : ℕ
  pub registration_global_rate_limit : ℕ
  pub registration_global_rate_window_seconds : ℕ
  pub scoreboard_cache_seconds : ℕ

-- A request as the handlers see it: the settings and services of the application, the session
-- cookie, the address of the client and the time.
pub record Request : Type 0 where
  pub crypto : Crypto
  pub settings : Settings
  pub session_cookie : Option String
  pub client_ip : String
  pub now : ℕ

abbrev pub by_id {ℓ} : {A : Type ℓ} → (A → ℕ) → ℕ → A → Bool
by_id key id row = key row == id

abbrev pub user_by_id : ℕ → Db → Option User
user_by_id id d = select_one (λ u. u.id == id) d.users

-- The columns of a live session that `current_user` compares.
session_ok : SessionToken → User → ℕ → Bool
session_ok session user now =
    ltb now session.expires_at
    && (user.active && session.credential_version == user.credential_version)

-- A session's foreign key always finds its user; reading through it otherwise is an AttributeError.
check_session : Option SessionToken → ℕ → Db → Result User
unfolding session_ok
check_session none now d = err (api 401 Code.invalid_session)
check_session (some session) now d = elim (user_by_id session.user_id d) [
  | none ↦ err Error.unexpected_error
  | some user ↦ if session_ok session user now then ok user else err (api 401 Code.invalid_session)
]

unfoldable pub session_by_token : Request → String → Db → Option SessionToken
session_by_token request token d =
    let token_hash = hash_session request.crypto request.settings.secret_key token in
    select_one (λ s. str_eq s.token_hash token_hash) d.sessions

unfoldable pub current_user : Request → Db → Result User
unfolding check_session session_by_token
current_user request d = elim request.session_cookie [
  | none ↦ err (api 401 Code.authentication_required)
  | some token ↦
      if str_eq token ""
      then err (api 401 Code.authentication_required)
      else check_session (session_by_token request token d) request.now d
]

unfoldable pub require_user : Request → Db → Result User
unfolding current_user
require_user = current_user

admit_admin : User → Result User
admit_admin user =
    if not (is_admin user.role)
    then err (api 403 Code.admin_required)
    else if user.password_change_required
    then err (api 403 Code.password_change_required)
    else ok user

unfoldable pub require_admin : Request → Db → Result User
unfolding current_user admit_admin
require_admin request d = elim (current_user request d) [
  | ok user ↦ admit_admin user
  | err e ↦ err e
]

unfoldable pub membership_for : ℕ → Db → Option Membership
membership_for user_id d = select_one (λ m. m.user_id == user_id) d.memberships

newer : (Event → Bool) → Event → Option Event → Option Event
newer p e none = if p e then some e else none
newer p e (some best) = if p e && leb best.created_at e.created_at then some e else some best

-- `order_by(created_at.desc()).limit(1)` over the events that pass the test.
unfoldable pub latest : (Event → Bool) → List Event → Option Event
unfolding newer
latest p [] = none
latest p (e ∷ rest) = newer p e (latest p rest)

unfoldable pub current_event : Db → Option Event
unfolding latest
current_event d = elim (latest (λ e. not (state_eq e.state archived)) d.events) [
  | none ↦ latest (λ e. state_eq e.state archived) d.events
  | some event ↦ some event
]

-- `team_display_name`: in individual mode the name of the creator, if it is there and not empty.
unfoldable pub team_display_name : Option Event → Team → Db → String
team_display_name event team d = elim event [
  | none ↦ team.name
  | some e ↦
      if is_individual e.team_mode
      then elim (user_by_id team.creator_id d) [
        | none ↦ "개인 참가자"
        | some user ↦ if str_eq user.username "" then "개인 참가자" else user.username
      ]
      else team.name
]

pub record TeamRef : Type 0 where
  pub id : ℕ
  pub name : String
  pub role : MembershipRole

pub record UserView : Type 0 where
  pub id : ℕ
  pub email : String
  pub username : String
  pub role : UserRole
  pub active : Bool
  pub password_change_required : Bool
  pub team : Option TeamRef

-- The team of a membership; its foreign key always finds one.
team_ref : Option Membership → Db → Option TeamRef
team_ref none d = none
team_ref (some m) d = elim (select_one (λ t. t.id == m.team_id) d.teams) [
  | none ↦ none
  | some team ↦
      some
        (record { id = team.id; name = team_display_name (current_event d) team d; role = m.role })
]

unfoldable pub user_dict : User → Db → UserView
unfolding team_ref
user_dict user d = record {
  id = user.id;
  email = user.email;
  username = user.username;
  role = user.role;
  active = user.active;
  password_change_required = user.password_change_required;
  team = team_ref (membership_for user.id d) d;
}
