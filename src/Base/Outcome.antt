-- ===== src/Base/Outcome.antt =====
-- What a request ends in: a value, or one of the exceptions of backend/src/alpha/errors.py.
use Prim.Native.Nat.{ℕ}
use mathlib.Core.Path.{◌≡◌, refl}
use mathlib.Core.Logic.{◌⊎◌, inl, inr}
use mathlib.Core.Bool.{Bool, true, false}
use mathlib.Core.Option.{Option, none, some}

-- The `code` strings of the API errors.
pub data Code : Type 0 where
  authentication_required invalid_session admin_required password_change_required team_required :
      Code
  already_on_team team_name_exists team_conflict invalid_invite team_capacity_reached : Code
  team_join_conflict team_owner_required cannot_target_self team_member_not_found : Code
  owner_target_ineligible member_has_activity owner_cannot_leave team_has_activity : Code
  team_mutation_limit_reached team_changes_closed individual_mode team_mutation_rate_limited : Code
  rate_limit_unavailable submissions_closed flag_too_long team_membership_changed : Code
  challenge_not_found attempt_limit_reached submission_storage_limit_reached : Code
  submission_conflict submission_rate_limited invalid_state_transition event_archived : Code
  scoreboard_freeze_locked frozen_scoring_locked invalid_flag_regex duplicate_prerequisite : Code
  self_prerequisite invalid_submission_cursor invalid_prerequisite prerequisite_cycle
        event_not_found event_slug_locked :
      Code
  team_mode_locked invalid_event_times event_conflict registration_code_conflict : Code
  registration_code_not_found challenge_slug_exists challenge_conflict challenge_has_submissions :
      Code
  invalid_scoring participant_required registration_closed registration_access_denied : Code
  account_exists participant_capacity_reached invalid_credentials credential_changed : Code
  invalid_current_password authentication_rate_limited scoreboard_unavailable scoreboard_busy : Code
  scoreboard_changed announcement_not_found internal_error validation_error : Code
  database_temporarily_unavailable password_service_busy : Code

-- `api_error` carries the status, the code and the Retry-After header; the others are the
-- exceptions of SQLAlchemy, of the password workers and of any other library.
pub data Error : Type 0 where
  api_error : ℕ → Code → Option ℕ → Error
  integrity_error operational_error password_work_busy request_validation_error : Error
  unexpected_error : Error

pub data Result {ℓ} (A : Type ℓ) : Type ℓ where
  ok : A → Result A
  err : Error → Result A

abbrev pub api : ℕ → Code → Error
api status code = api_error status code none

abbrev pub raise_if : Bool → Error → Result (Unit {0})
raise_if true e = err e
raise_if false e = ok tt

abbrev pub or_raise {ℓ} : {A : Type ℓ} → Option A → Error → Result A
or_raise none e = err e
or_raise (some a) e = ok a

pub Result-cases {ℓ} :
    {A : Type ℓ} (r : Result A) → ((a : A) × (r ≡ ok a)) ⊎ ((e : Error) × (r ≡ err e))
Result-cases (ok a) = inl (a, refl)
Result-cases (err e) = inr (e, refl)
