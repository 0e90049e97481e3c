-- ===== src/Teams/Reply.antt =====
-- What the team routes return (backend/src/alpha/routes_teams.py), and the route that reads a team.
use ctfnight.Base.{ℕ, String, Option, none, some, List, [], ◌∷◌, Result, ok, err, Error}
use ctfnight.Model.{Db, Event, Json}
use ctfnight.Security.{hash_invite}
use ctfnight.Access.{Request, require_user, membership_for, current_event}
use ctfnight.Teams.Guards.{locked_team}
use ctfnight.Teams.View.{team_dict, TeamView}

-- The identifiers and the invite code that a handler draws.
pub record Fresh : Type 0 where
  pub team_id : ℕ
  pub membership_id : ℕ
  pub invite : String

pub record TeamReply : Type 0 where
  pub team : Option TeamView
  pub invite_code : Option String

abbrev pub invite_hash_of : Request → String → String
invite_hash_of request invite = hash_invite request.crypto request.settings.secret_key invite

abbrev pub event_meta : Event → List (String × Json)
event_meta event = ("event_id", Json.ident event.id) ∷ []

-- `_reload_team`: the committed membership must still be there.
unfoldable pub reload_team : ℕ → Event → Db → Result TeamView
reload_team user_id event d = elim (membership_for user_id d) [
  | none ↦ err Error.unexpected_error
  | some m ↦ elim (locked_team m.team_id d) [
    | err _ ↦ err Error.unexpected_error
    | ok team ↦ ok (team_dict (some event) team m.role d)
  ]
]

-- GET /teams/me
unfoldable pub my_team : Request → Db → Result TeamReply
unfolding reload_team
my_team request d = elim (require_user request d) [
  | err e ↦ err e
  | ok user ↦ elim (membership_for user.id d) [
    | none ↦ ok (record { team = none; invite_code = none })
    | some m ↦ elim (locked_team m.team_id d) [
      | err _ ↦ err Error.unexpected_error
      | ok team ↦
          ok
            (record { team = some (team_dict (current_event d) team m.role d); invite_code = none })
    ]
  ]
]
