-- ===== src/Teams/Reach.antt =====
-- Any sequence of team requests, by any callers and with any interleaving of other sessions.
use ctfnight.Base.{ℕ, String}
use ctfnight.Model.{Db}
use ctfnight.Access.{Request}
use ctfnight.App.{Session}
use ctfnight.App.Keeps.{Kept}
use ctfnight.Teams.{
  create_team, join_team, rotate_invite, transfer_owner, remove_member, leave_team, Fresh,
}
use ctfnight.Teams.Rules.{IsConsistent}
use ctfnight.Teams.Invariant.{
  Respects, create_team-Kept, join_team-Kept, rotate_invite-Kept, transfer_owner-Kept,
  remove_member-Kept, leave_team-Kept,
}

-- One request of the team routes, from the committed database that it found to the one that it
-- leaves, and what other sessions that keep the rules commit in between.
pub data TeamStep : Session → Session → Type 0 where
  create :
      (r : Request) (others racing : Db → Db) (f : Fresh) (name : String) {s : Session}
      → Respects others
      → Respects racing
      → TeamStep s (create_team r others racing f name s).1
  join :
      (r : Request) (others : Db → Db) (f : Fresh) (invite_code : String) {s : Session}
      → Respects others
      → TeamStep s (join_team r others f invite_code s).1
  rotate :
      (r : Request) (others : Db → Db) (f : Fresh) {s : Session}
      → Respects others
      → TeamStep s (rotate_invite r others f s).1
  transfer :
      (r : Request) (others : Db → Db) (target_id : ℕ) {s : Session}
      → Respects others
      → TeamStep s (transfer_owner r others target_id s).1
  remove :
      (r : Request) (others : Db → Db) (f : Fresh) (target_id : ℕ) {s : Session}
      → Respects others
      → TeamStep s (remove_member r others f target_id s).1
  leave :
      (r : Request) (others : Db → Db) {s : Session}
      → Respects others
      → TeamStep s (leave_team r others s).1
  close : {s : Session} → TeamStep s (record s { db = s.committed })

pub data Reach (s : Session) : Session → Type 0 where
  here : Reach s s
  next : {t u : Session} → Reach s t → TeamStep t u → Reach s u

step-IsConsistent :
    {s t : Session} → TeamStep s t → IsConsistent s.committed → IsConsistent t.committed
unfolding Kept
step-IsConsistent {s} (create r others racing f name ho hr) c =
    create_team-Kept r others racing f name s ho hr c
step-IsConsistent {s} (join r others f invite_code ho) c =
    join_team-Kept r others f invite_code s ho c
step-IsConsistent {s} (rotate r others f ho) c = rotate_invite-Kept r others f s ho c
step-IsConsistent {s} (transfer r others target_id ho) c =
    transfer_owner-Kept r others target_id s ho c
step-IsConsistent {s} (remove r others f target_id ho) c =
    remove_member-Kept r others f target_id s ho c
step-IsConsistent {s} (leave r others ho) c = leave_team-Kept r others s ho c
step-IsConsistent close c = c

-- After any sequence of requests to the team routes, successful or refused, and whatever sessions
-- that keep the rules commit while they wait, the committed database obeys the rules if it did at
-- the start: nobody is on two teams, every team has exactly one owner, no membership lacks its
-- team, and no team has more than 100 members.
pub Reach-IsConsistent :
    {s t : Session} → Reach s t → IsConsistent s.committed → IsConsistent t.committed
Reach-IsConsistent here c = c
Reach-IsConsistent (next r step) c = step-IsConsistent step (Reach-IsConsistent r c)
