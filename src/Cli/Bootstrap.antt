-- ===== src/Cli/Bootstrap.antt =====
-- `_bootstrap` and `_seed_demo` (backend/src/alpha/cli.py): the first event, the administrator of
-- the settings and the demo data, in one transaction.
use ctfnight.Base.{
  ℕ, String, Bool, true, ◌&&◌, not, Option, none, some, [], ◌∷◌, Result, ok, err, ◌==◌, ltb, str_eq,
  if◌then◌else◌, is_some, select_one, insert_row,
}
use ctfnight.Model.{
  Db, User, admin, is_admin, Event, draft, archived, team, open_access, Challenge, ScoringType,
  fixed, dynamic, exact, regex, Announcement, Json, Action, Topic, Target,
}
use ctfnight.Security.{Crypto, FlagInput, hash_password, apply_flag}
use ctfnight.Event.{state_eq}
use ctfnight.Journal.{add_audit, add_outbox}
use ctfnight.Access.{Settings, latest}
use ctfnight.Accounts.Register.{insert_user}
use ctfnight.Admin.Challenges.{insert_challenge}
use ctfnight.Announcements.{insert_announcement}
use ctfnight.Cli.{
  Failure, CommandOutcome, done, raised, runtime_error, api_failure, sqlalchemy_error,
}

pub record BootstrapSettings : Type 0 where
  pub production : Bool
  pub admin_email : Option String
  pub admin_username : String
  pub admin_password : Option String
  pub seed_demo : Bool
  pub application : Settings

-- The identifiers that a run draws, whether a hashing worker is free, and the time.
pub record BootstrapDraw : Type 0 where
  pub event_id : ℕ
  pub admin_id : ℕ
  pub challenge_id : ℕ → ℕ
  pub announcement_id : ℕ
  pub slot : Bool
  pub now : ℕ

-- A part of the transaction goes on or has raised.
pub data Attempt (A : Type 0) : Type 0 where
  going : A → Attempt A
  stopped : Failure → Attempt A

unfoldable pub and_then : {A B : Type 0} → Attempt A → (A → Attempt B) → Attempt B
and_then (going a) f = f a
and_then (stopped o) f = stopped o

unfoldable pub flushed : Result Db → Attempt Db
flushed (ok d) = going d
flushed (err _) = stopped sqlalchemy_error

-- An empty text is false.
unfoldable pub truthy : Option String → Option String
truthy none = none
truthy (some t) = if str_eq t "" then none else some t

-- Without an event no key of the new one is taken.
unfoldable pub ensure_event : BootstrapDraw → Db → Event × Db
ensure_event draw d = elim (latest (λ _. true) d.events) [
  | some event ↦ (event, d)
  | none ↦
      let event : Event = record {
        id = draw.event_id;
        name = "CTFnight";
        slug = "ctfnight";
        description_md = "CTFnight에 오신 것을 환영합니다.";
        state = draft;
        registration_at = none;
        start_at = none;
        freeze_at = none;
        end_at = none;
        team_mode = team;
        registration_access_mode = open_access;
        created_at = draw.now;
      } in
      (
        event,
        add_audit draw.now none Action.event_bootstrapped Target.event (some event.id) []
            (record d { events = insert_row event d.events }),
      )
]

-- The commit, or the rollback of a session that is closed.
unfoldable pub finished : Attempt Db → Db → CommandOutcome × Db
finished (going e) d = (done, e)
finished (stopped o) d = (raised o, d)

module _ (c : Crypto) (settings : BootstrapSettings) where
  too_short : Option String → Bool
  too_short none = Bool.false
  too_short (some password) = ltb (c.text_length password) 12

  unfoldable pub admin_exists : Db → Bool
  admin_exists d = is_some (select_one (λ (u : User). is_admin u.role) d.users)

  -- The first of the three complaints about the settings.
  unfoldable pub settings_guard : Db → Attempt (Unit {0})
  unfolding too_short
  settings_guard d =
      let email = is_some (truthy settings.admin_email) in
      let password = is_some (truthy settings.admin_password) in
      if too_short settings.admin_password
      then stopped (runtime_error "ALPHA_ADMIN_PASSWORD must contain at least 12 characters")
      else if password && not email
      then stopped (runtime_error "ALPHA_ADMIN_PASSWORD requires ALPHA_ADMIN_EMAIL")
      else if settings.production && (not (admin_exists d) && not (email && password))
      then stopped (
          runtime_error
            "initial production bootstrap requires ALPHA_ADMIN_EMAIL and ALPHA_ADMIN_PASSWORD")
      else going tt

  abbrev pub new_admin : BootstrapDraw → String → String → User
  new_admin draw given replacement_hash = record {
    id = draw.admin_id;
    email = c.lower (c.strip given);
    username = c.strip settings.admin_username;
    password_hash = replacement_hash;
    role = admin;
    active = true;
    password_change_required = true;
    credential_version = 0;
    created_at = draw.now;
  }

  -- `db.add(admin)` with its flush and journal rows.
  unfoldable pub add_admin : BootstrapDraw → User → Db → Attempt Db
  add_admin draw row d = and_then (flushed (insert_user c.lower row d)) λ e. going (
      add_outbox draw.now Topic.admin_bootstrapped Target.user row.id
        (("user_id", Json.ident row.id) ∷ [])
        (add_audit draw.now (some row.id) Action.admin_bootstrapped Target.user (some row.id) [] e))

  unfoldable pub create_admin : BootstrapDraw → String → Db → Attempt Db
  create_admin draw given d = elim (truthy settings.admin_password) [
    | none ↦
        stopped (
          runtime_error "ALPHA_ADMIN_PASSWORD is required when the configured admin does not exist")
    | some password ↦
        let username = c.lower (c.strip settings.admin_username) in
        if is_some (select_one (λ (u : User). str_eq (c.lower u.username) username) d.users)
        then stopped (runtime_error "ALPHA_ADMIN_USERNAME is already in use")
        else elim (hash_password c draw.slot password) [
          | err _ ↦ stopped (runtime_error "")
          | ok replacement_hash ↦ add_admin draw (new_admin draw given replacement_hash) d
        ]
  ]

  unfoldable pub ensure_admin : BootstrapDraw → Db → Attempt Db
  ensure_admin draw d = elim (truthy settings.admin_email) [
    | none ↦ going d
    | some given ↦
        elim (select_one (λ (u : User). str_eq (c.lower u.email) (c.lower (c.strip given)))
          d.users) [
            | none ↦ create_admin draw given d
            | some found ↦
                if is_admin found.role
                then going d
                else stopped (runtime_error "ALPHA_ADMIN_EMAIL belongs to a non-admin account")
          ]
  ]

  unfoldable pub demo_challenge :
      ℕ → String → String → String → ScoringType → ℕ → BootstrapDraw → Event → Challenge
  demo_challenge n slug title description scoring points draw event = record {
    id = draw.challenge_id n;
    event_id = event.id;
    slug = slug;
    title = title;
    category = "Misc";
    description_md = description;
    connection_info = none;
    scoring_type = scoring;
    initial_points = points;
    minimum_points = 100;
    decay = 20;
    visible = true;
    visible_at = none;
    max_attempts = 0;
    flag_type = exact;
    flag_hash = none;
    flag_regex = none;
    prerequisites = [];
    created_at = draw.now;
  }

  unfoldable pub seed_challenge : Challenge → FlagInput → Db → Attempt Db
  seed_challenge row flag d =
      if is_some (
        select_one (λ (x : Challenge). x.event_id == row.event_id && str_eq x.slug row.slug)
          d.challenges)
      then going d
      else elim (apply_flag c row flag settings.application.secret_key
          settings.application.max_flag_length) [
            | err e ↦ stopped (api_failure e)
            | ok challenge ↦ flushed (insert_challenge challenge d)
          ]

  unfoldable pub seed_announcement : BootstrapDraw → Event → Db → Attempt Db
  seed_announcement draw event d =
      if is_some (select_one (λ (x : Announcement). x.event_id == event.id) d.announcements)
      then going d
      else flushed (
          insert_announcement
            (record {
              id = draw.announcement_id;
              event_id = event.id;
              title = "CTFnight 준비 완료";
              body_md = "관리자 계정으로 로그인해 이벤트와 문제를 설정하세요.";
              publish_at = draw.now;
              created_at = draw.now;
            })
            d)

  unfoldable pub seed_demo_rows : BootstrapDraw → Event → Db → Attempt Db
  unfolding demo_challenge seed_challenge seed_announcement
  seed_demo_rows draw event d =
      and_then
        (seed_challenge
          (demo_challenge 0 "welcome" "Welcome" "플래그 제출 흐름을 확인하는 첫 문제입니다." fixed 100 draw event)
          (record { type = exact; value = "FLAG{welcome-to-ctfnight}" }) d)
        λ e.
          and_then
            (seed_challenge
              (demo_challenge 1 "regex-demo" "Regex Demo" "정규식 플래그와 동적 점수를 확인하는 데모 문제입니다." dynamic
                500 draw event)
              (record { type = regex; value = "^FLAG\\{regex-[0-9]{4}\\}$" }) e)
            (seed_announcement draw event)

  -- The transaction before its commit.
  unfoldable pub bootstrap_rows : BootstrapDraw → Db → Attempt Db
  bootstrap_rows draw d =
      let (event, begun) = ensure_event draw d in
      and_then (settings_guard begun) λ _. and_then (ensure_admin draw begun) λ e.
        if settings.seed_demo && not (state_eq event.state archived)
        then seed_demo_rows draw event e
        else going e

  unfoldable pub bootstrap : BootstrapDraw → Db → CommandOutcome × Db
  bootstrap draw d = finished (bootstrap_rows draw d) d
