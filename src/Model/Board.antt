-- ===== src/Model/Board.antt =====
-- The answer of the scoreboard, and its cached form.
use ctfnight.Base.{ℕ, String, Bool, Option, List}
use ctfnight.Model.Contest.{EventState}

pub record BoardEntry : Type 0 where
  pub rank : ℕ
  pub team_id : ℕ
  pub team_name : String
  pub score : ℕ
  pub solves : ℕ
  pub last_solve_at : Option ℕ

pub record Scoreboard : Type 0 where
  pub event_id : ℕ
  pub event_name : String
  pub event_state : EventState
  pub frozen : Bool
  pub generated_at : ℕ
  pub total_entries : ℕ
  pub truncated : Bool
  pub entries : List BoardEntry

-- `{"generation": …, "payload": …}`
pub record CachedBoard : Type 0 where
  pub generation : ℕ
  pub payload : Scoreboard
