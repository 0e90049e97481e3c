-- ===== src/Submit/Checks.antt =====
-- What `submit_flag` (backend/src/alpha/routes_participant.py) checks before it writes.
use ctfnight.Base.{
  ℕ, String, Bool, true, false, Option, none, some, [], ◌∷◌, Result, ok, err, api, Code, raise_if,
  ◌==◌, leb, if◌then◌else◌, select_one, is_some,
}
use ctfnight.Model.{Db, User, Team, Event, Challenge, Submission, Solve}
use ctfnight.Event.{state_allows_submission}
use ctfnight.Security.{keyed_hash}
use ctfnight.Access.{Request, user_by_id, membership_for, current_event}
use ctfnight.App.{App}
use ctfnight.App.Limits.{check_tiers}
use ctfnight.Submit.Rows.{
  find_challenge, is_accessible, visibility_context, effective_challenge_limit, attempts_of,
  event_attempts, max_submissions_per_team_event,
}

pub record SubmitRequest : Type 0 where
  pub flag : String
  pub idempotency_key : String

-- The identifiers that a submission draws, and its readings of the clock after the first.
pub record Draw : Type 0 where
  pub submission_id : ℕ
  pub solve_id : ℕ
  pub score_event_id : ℕ
  pub relocked : ℕ
  pub written : ℕ
  pub closing : ℕ

pub data Message : Type 0 where
  right wrong already_solved : Message

pub record SubmitReply : Type 0 where
  pub correct : Bool
  pub message : Message
  pub awarded_points : ℕ
  pub solved_at : Option ℕ

solved_time : Option Solve → Option ℕ
solved_time none = none
solved_time (some s) = some s.solved_at

-- `_submission_result`
unfoldable pub submission_result : Submission → Db → SubmitReply
unfolding solved_time
submission_result submission d =
    if submission.correct
    then record {
      correct = true;
      message = right;
      awarded_points = submission.awarded_points;
      solved_at =
          solved_time (select_one (λ (s : Solve). s.submission_id == submission.id) d.solves);
    }
    else record {
      correct = false;
      message = wrong;
      awarded_points = submission.awarded_points;
      solved_at = none;
    }

abbrev pub already : Solve → SubmitReply
already s = record {
  correct = true;
  message = already_solved;
  awarded_points = 0;
  solved_at = some s.solved_at;
}

-- `_check_submission_rate`
unfoldable pub check_submission_rate : Request → ℕ → ℕ → ℕ → App (Unit {0})
check_submission_rate request event_id team_id challenge_id =
    let ip_key =
      keyed_hash request.crypto request.settings.secret_key "submission-ip" request.client_ip in
    let window = request.settings.submission_rate_window_seconds in
    check_tiers Code.submission_rate_limited request.now (
      record {
        key = record { template = "submit:team"; ids = event_id ∷ team_id ∷ []; digest = "" };
        limit = request.settings.submission_rate_limit;
        window_seconds = window;
      }
      ∷ record {
        key = record { template = "submit:ip"; ids = event_id ∷ []; digest = ip_key };
        limit = request.settings.submission_ip_rate_limit;
        window_seconds = window;
      }
      ∷ record {
        key = record {
          template = "submit:challenge";
          ids = event_id ∷ challenge_id ∷ [];
          digest = "";
        };
        limit = request.settings.submission_challenge_rate_limit;
        window_seconds = window;
      }
      ∷ [])

unfoldable pub open_event : ℕ → Db → Result Event
open_event now d = elim (current_event d) [
  | none ↦ err (api 409 Code.submissions_closed)
  | some event ↦
      if state_allows_submission event now then ok event else err (api 409 Code.submissions_closed)
]

unfoldable pub lock_active_user : ℕ → Db → Result User
lock_active_user user_id d = elim (user_by_id user_id d) [
  | none ↦ err (api 401 Code.invalid_session)
  | some user ↦ if user.active then ok user else err (api 401 Code.invalid_session)
]

unfoldable pub lock_team_of : ℕ → ℕ → Db → Result (Unit {0})
lock_team_of user_id team_id d = elim (membership_for user_id d) [
  | none ↦ err (api 409 Code.team_membership_changed)
  | some m ↦
      if m.team_id == team_id
      then if is_some (select_one (λ (t : Team). t.id == team_id) d.teams)
        then ok tt
        else err (api 409 Code.team_required)
      else err (api 409 Code.team_membership_changed)
]

unfoldable pub accessible_challenge : ℕ → ℕ → ℕ → ℕ → Db → Result Challenge
accessible_challenge challenge_id event_id team_id now d =
    elim (find_challenge challenge_id event_id d) [
      | none ↦ err (api 404 Code.challenge_not_found)
      | some c ↦
          if is_accessible c (visibility_context (some team_id) d) now
          then ok c
          else err (api 404 Code.challenge_not_found)
    ]

unfoldable pub unlimited_challenge : Challenge → ℕ → Db → Result (Unit {0})
unlimited_challenge challenge team_id d =
    raise_if (leb (effective_challenge_limit challenge) (attempts_of team_id challenge.id d)) (
      api 409 (
        if challenge.max_attempts == 0
        then Code.submission_storage_limit_reached
        else Code.attempt_limit_reached))

unfoldable pub unlimited_event : ℕ → ℕ → Db → Result (Unit {0})
unlimited_event team_id event_id d =
    raise_if (leb max_submissions_per_team_event (event_attempts team_id event_id d))
      (api 409 Code.submission_storage_limit_reached)
