-- ===== src/Admin/Challenges.antt =====
-- The routes of challenges (backend/src/alpha/routes_admin.py): create, update, delete and
-- visibility, each a whole handler. `others` is what other sessions commit before the event's row is
-- locked.
mod Rows
pub mod Patches
pub mod Unlock
pub mod Routes
pub mod Reach
pub mod Locked
unfoldable pub use Rows.*
unfoldable pub use Patches.{
  apply_values, points_guard, scoring_of, patched_flag, patched_prerequisites,
  null_challenge_column, challenge_fields,
}
pub use Patches.{ChallengePatch}
use ctfnight.Base.{
  ℕ, String, Bool, true, false, ◌&&◌, ◌||◌, not, Option, none, some, List, [], ◌∷◌, Result, ok, err,
  api, Code, Error, raise_if, ◌==◌, str_eq, if◌then◌else◌,
}
use ctfnight.Model.{Db, Event, Challenge, ScoringType, FlagType, exact, Json, Action, Topic, Target}
use ctfnight.Security.{FlagInput, apply_flag}
use ctfnight.Scoring.{Floats, challenge_points}
use ctfnight.Submit.{solve_count}
use ctfnight.Event.{assert_event_mutable, assert_scoring_mutable}
use ctfnight.Journal.{add_audit, add_outbox}
use ctfnight.Scoreboard.{invalidate_scoreboard}
use ctfnight.Prerequisites.{load_prerequisites}
use ctfnight.Access.{Request, require_admin}
use ctfnight.Admin.EventUpdate.{event_or_404}
use ctfnight.App.{
  App, ◌>>=◌, ◌>>◌, pure, lift, query, gets, write, modify, commit, wait_for, catch_integrity,
  touch,
}

pub record ChallengeCreateRequest : Type 0 where
  pub slug : String
  pub title : String
  pub category : String
  pub description_md : String
  pub connection_info : Option String
  pub scoring_type : ScoringType
  pub initial_points : ℕ
  pub minimum_points : ℕ
  pub decay : ℕ
  pub visible : Bool
  pub visible_at : Option ℕ
  pub max_attempts : ℕ
  pub prerequisite_ids : List ℕ
  pub flag : FlagInput

pub record AdminChallengeView : Type 0 where
  pub challenge : Challenge
  pub current_points : ℕ
  pub solve_count : ℕ
  pub has_flag : Bool

is_text : Option String → Bool
is_text none = false
is_text (some t) = not (str_eq t "")

-- `_admin_challenge_dict`: the columns, and what is computed from them. The flag itself is not shown.
unfoldable pub admin_challenge_dict : Floats → Challenge → Db → AdminChallengeView
unfolding is_text
admin_challenge_dict f challenge d = record {
  challenge = record challenge { flag_hash = none; flag_regex = none };
  current_points = challenge_points f challenge (solve_count challenge.id d);
  solve_count = solve_count challenge.id d;
  has_flag = is_text challenge.flag_hash || is_text challenge.flag_regex;
}

-- A challenge without a flag and prerequisites.
unfoldable pub new_challenge : ℕ → ℕ → ℕ → ChallengeCreateRequest → Challenge
new_challenge now id event_id payload = record {
  id = id;
  event_id = event_id;
  slug = payload.slug;
  title = payload.title;
  category = payload.category;
  description_md = payload.description_md;
  connection_info = payload.connection_info;
  scoring_type = payload.scoring_type;
  initial_points = payload.initial_points;
  minimum_points = payload.minimum_points;
  decay = payload.decay;
  visible = payload.visible;
  visible_at = payload.visible_at;
  max_attempts = payload.max_attempts;
  flag_type = exact;
  flag_hash = none;
  flag_regex = none;
  prerequisites = [];
  created_at = now;
}

event_and_challenge : ℕ → ℕ → List (String × Json)
event_and_challenge event_id challenge_id =
    ("event_id", Json.ident event_id) ∷ ("challenge_id", Json.ident challenge_id) ∷ []

-- POST /admin/challenges; `id` is the identifier that the insert draws.
unfoldable pub create_challenge :
    Floats → Request → (Db → Db) → ℕ → ChallengeCreateRequest → App AdminChallengeView
unfolding event_and_challenge
create_challenge f request others id payload = do
  admin ← query (require_admin request)
  wait_for others
  event ← query event_or_404
  query (λ _. assert_event_mutable event)
  flagged ← query (λ _.
      apply_flag request.crypto (new_challenge request.now id event.id payload) payload.flag
        request.settings.secret_key request.settings.max_flag_length)
  ids ← query (λ d. load_prerequisites d event.id payload.prerequisite_ids none)
  let challenge : Challenge = record flagged { prerequisites = ids }
  catch_integrity (api 409 Code.challenge_slug_exists) (do
    write (insert_challenge challenge)
    modify (
        add_audit request.now (some admin.id) Action.challenge_created Target.challenge
          (some challenge.id) [])
    modify (
        add_outbox request.now Topic.challenge_created Target.challenge challenge.id
          (event_and_challenge event.id challenge.id))
    commit)
  touch (invalidate_scoreboard event.id)
  gets (admin_challenge_dict f challenge)

-- PUT /admin/challenges/{challenge_id}
unfoldable pub update_challenge :
    Floats → Request → (Db → Db) → ℕ → ChallengePatch → App AdminChallengeView
unfolding event_and_challenge
update_challenge f request others challenge_id patch = do
  admin ← query (require_admin request)
  wait_for others
  event ← query event_or_404
  query (λ _. assert_event_mutable event)
  challenge ← query (challenge_or_404 event challenge_id)
  query (λ _. assert_scoring_mutable event challenge (scoring_of patch) request.now)
  query (λ _. points_guard patch (apply_values patch challenge))
  flagged ← query (λ _. patched_flag request patch.flag (apply_values patch challenge))
  changed ← query (patched_prerequisites event.id patch.prerequisite_ids flagged)
  catch_integrity (api 409 Code.challenge_conflict) (do
    modify (
        add_audit request.now (some admin.id) Action.challenge_updated Target.challenge
          (some challenge.id) (("fields", Json.texts (challenge_fields patch)) ∷ []))
    modify (
        add_outbox request.now Topic.challenge_updated Target.challenge challenge.id
          (event_and_challenge event.id challenge.id))
    query (λ _. raise_if (null_challenge_column patch) Error.integrity_error)
    write (save_challenge changed)
    commit)
  touch (invalidate_scoreboard event.id)
  gets (admin_challenge_dict f changed)

-- DELETE /admin/challenges/{challenge_id}
unfoldable pub delete_challenge : Request → (Db → Db) → ℕ → App (Unit {0})
unfolding event_and_challenge
delete_challenge request others challenge_id = do
  admin ← query (require_admin request)
  wait_for others
  event ← query event_or_404
  query (λ _. assert_event_mutable event)
  challenge ← query (challenge_or_404 event challenge_id)
  submitted ← gets (submission_count challenge.id)
  lift (raise_if (not (submitted == 0)) (api 409 Code.challenge_has_submissions))
  modify (drop_challenge challenge.id)
  modify (
      add_audit request.now (some admin.id) Action.challenge_deleted Target.challenge
        (some challenge.id) [])
  modify (
      add_outbox request.now Topic.challenge_deleted Target.challenge challenge.id
        (event_and_challenge event.id challenge.id))
  commit
  touch (invalidate_scoreboard event.id)

-- POST /admin/challenges/{challenge_id}/visibility
unfoldable pub set_visibility : Floats → Request → (Db → Db) → ℕ → Bool → App AdminChallengeView
set_visibility f request others challenge_id visible = do
  admin ← query (require_admin request)
  wait_for others
  event ← query event_or_404
  query (λ _. assert_event_mutable event)
  challenge ← query (challenge_or_404 event challenge_id)
  let changed : Challenge = record challenge { visible = visible }
  write (save_challenge changed)
  modify (
      add_audit request.now (some admin.id) Action.challenge_visibility_changed Target.challenge
        (some challenge.id) (("visible", Json.flag visible) ∷ []))
  modify (
      add_outbox request.now Topic.challenge_visibility_changed Target.challenge challenge.id
        (("challenge_id", Json.ident challenge.id) ∷ ("visible", Json.flag visible) ∷ []))
  commit
  gets (admin_challenge_dict f changed)
