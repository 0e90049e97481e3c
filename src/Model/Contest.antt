-- ===== src/Model/Contest.antt =====
-- The event, its registration codes, challenges, submissions, solves, score events and
-- announcements (backend/src/alpha/models.py).
use ctfnight.Base.{ℕ, String, Bool, true, false, Option, List}

pub data EventState : Type 0 where
  draft registration live frozen ended archived : EventState

pub data TeamMode : Type 0 where
  team individual : TeamMode

pub data RegistrationAccessMode : Type 0 where
  open_access code_access : RegistrationAccessMode

pub data ScoringType : Type 0 where
  fixed dynamic : ScoringType

pub data FlagType : Type 0 where
  exact regex : FlagType

pub data ScoreKind : Type 0 where
  solve award : ScoreKind

-- The position in `EVENT_STATES`.
abbrev pub state_index : EventState → ℕ
state_index draft = 0
state_index registration = 1
state_index live = 2
state_index frozen = 3
state_index ended = 4
state_index archived = 5

abbrev pub is_individual : TeamMode → Bool
is_individual team = false
is_individual individual = true

abbrev pub is_code_access : RegistrationAccessMode → Bool
is_code_access open_access = false
is_code_access code_access = true

abbrev pub is_fixed : ScoringType → Bool
is_fixed fixed = true
is_fixed dynamic = false

abbrev pub is_award : ScoreKind → Bool
is_award solve = false
is_award award = true

pub record Event : Type 0 where
  pub id : ℕ
  pub name : String
  pub slug : String
  pub description_md : String
  pub state : EventState
  pub registration_at : Option ℕ
  pub start_at : Option ℕ
  pub freeze_at : Option ℕ
  pub end_at : Option ℕ
  pub team_mode : TeamMode
  pub registration_access_mode : RegistrationAccessMode
  pub created_at : ℕ

pub record RegistrationCode : Type 0 where
  pub id : ℕ
  pub event_id : ℕ
  pub token_hash : String
  pub label : String
  pub max_uses : Option ℕ
  pub use_count : ℕ
  pub expires_at : Option ℕ
  pub active : Bool
  pub created_by : ℕ
  pub created_at : ℕ
  pub revoked_at : Option ℕ

-- `prerequisites` holds the ids of the rows of `challenge_prerequisites`.
pub record Challenge : Type 0 where
  pub id : ℕ
  pub event_id : ℕ
  pub slug : String
  pub title : String
  pub category : String
  pub description_md : String
  pub connection_info : Option String
  pub scoring_type : ScoringType
  pub initial_points : ℕ
  pub minimum_points : ℕ
  pub decay : ℕ
  pub visible : Bool
  pub visible_at : Option ℕ
  pub max_attempts : ℕ
  pub flag_type : FlagType
  pub flag_hash : Option String
  pub flag_regex : Option String
  pub prerequisites : List ℕ
  pub created_at : ℕ

pub record Submission : Type 0 where
  pub id : ℕ
  pub team_id : ℕ
  pub challenge_id : ℕ
  pub user_id : ℕ
  pub submitted_hash : String
  pub correct : Bool
  pub awarded_points : ℕ
  pub idempotency_key : String
  pub ip_hash : String
  pub created_at : ℕ

pub record Solve : Type 0 where
  pub id : ℕ
  pub team_id : ℕ
  pub challenge_id : ℕ
  pub user_id : ℕ
  pub submission_id : ℕ
  pub solved_at : ℕ

pub record ScoreEvent : Type 0 where
  pub id : ℕ
  pub event_id : ℕ
  pub team_id : ℕ
  pub challenge_id : Option ℕ
  pub solve_id : Option ℕ
  pub kind : ScoreKind
  pub points : ℕ
  pub active : Bool
  pub created_at : ℕ

pub record Announcement : Type 0 where
  pub id : ℕ
  pub event_id : ℕ
  pub title : String
  pub body_md : String
  pub publish_at : ℕ
  pub created_at : ℕ
