-- ===== src/Model.antt =====
-- The tables of backend/src/alpha/models.py and the database that holds them.
mod Account
mod Contest
mod Board
pub mod Journal
pub use Account.*
pub use Contest.*
pub use Board.*
pub use Journal.{
  Json, Metadata, Action, Topic, Target, is_team_mutation, action_index, topic_index, target_index,
  AuditEvent, OutboxEvent,
}
use ctfnight.Base.{List, []}

pub record Db : Type 0 where
  pub users : List User
  pub sessions : List SessionToken
  pub teams : List Team
  pub memberships : List Membership
  pub events : List Event
  pub registration_codes : List RegistrationCode
  pub challenges : List Challenge
  pub submissions : List Submission
  pub solves : List Solve
  pub score_events : List ScoreEvent
  pub announcements : List Announcement
  pub audit_events : List AuditEvent
  pub outbox_events : List OutboxEvent

abbrev pub empty_db : Db
empty_db = record {
  users = [];
  sessions = [];
  teams = [];
  memberships = [];
  events = [];
  registration_codes = [];
  challenges = [];
  submissions = [];
  solves = [];
  score_events = [];
  announcements = [];
  audit_events = [];
  outbox_events = [];
}
