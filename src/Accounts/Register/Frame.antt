-- ===== src/Accounts/Register/Frame.antt =====
-- The writes of a registration that leave the registration codes alone.
use ctfnight.Base.{String, ℕ, ◌≡◌, refl, Option, Result, ok, arith}
use ctfnight.Model.{Team, Membership, Metadata, Action, Target, Topic, Db, User}
use ctfnight.Journal.{add_audit, add_outbox}
use ctfnight.Teams.{insert_team, insert_membership}
use ctfnight.Access.{Request}
use ctfnight.Accounts.Sessions.{
  NewSession, new_session, insert_session, drop_excess_sessions, cleanup_expired_sessions,
}
use ctfnight.Accounts.Register.{insert_user}

-- A change of the database that leaves the codes alone.
abbrev pub LeavesCodes : (Db → Result Db) → Type 0
LeavesCodes w = (d e : Db) → w d ≡ ok e → e.registration_codes ≡ d.registration_codes

pub insert_user-LeavesCodes :
    (lower : String → String) (row : User) → LeavesCodes (insert_user lower row)
unfolding insert_user
insert_user-LeavesCodes lower row d e h = ground arith

pub insert_team-LeavesCodes :
    (lower : String → String) (row : Team) → LeavesCodes (insert_team lower row)
unfolding insert_team
insert_team-LeavesCodes lower row d e h = ground arith

pub insert_membership-LeavesCodes : (row : Membership) → LeavesCodes (insert_membership row)
unfolding insert_membership
insert_membership-LeavesCodes row d e h = ground arith

pub new_session-LeavesCodes :
    (request : Request) (draw : NewSession) (user : User)
    → LeavesCodes (new_session request draw user)
unfolding new_session insert_session drop_excess_sessions cleanup_expired_sessions
new_session-LeavesCodes request draw user d e h = ground arith

pub journal-LeavesCodes :
    (now now' : ℕ) (actor : Option ℕ) (action : Action) (target target' : Target) (id : Option ℕ)
    (metadata payload : Metadata) (topic : Topic) (id' : ℕ) (d : Db)
    → (add_outbox now' topic target' id' payload
        (add_audit now actor action target id metadata d)).registration_codes
      ≡ d.registration_codes
unfolding add_outbox add_audit
journal-LeavesCodes now now' actor action target target' id metadata payload topic id' d = refl

pub audit-LeavesCodes :
    (now : ℕ) (actor : Option ℕ) (action : Action) (target : Target) (id : Option ℕ)
    (metadata : Metadata) (d : Db)
    → (add_audit now actor action target id metadata d).registration_codes ≡ d.registration_codes
unfolding add_audit
audit-LeavesCodes now actor action target id metadata d = refl
