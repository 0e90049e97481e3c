-- ===== src/Submit/Replay.antt =====
-- A submission that is sent again with its idempotency key.
use ctfnight.Base.{String, ℕ, ◌≤◌, ◌≡◌, ◌≢◌, ◌∙◌, ap, some, ok, arith}
use ctfnight.Model.{Db, User, Event, Submission, Membership}
use ctfnight.Scoring.{Floats}
use ctfnight.Access.{Request, require_user, membership_for}
use ctfnight.App.{Session, ◌>>=◌}
use ctfnight.App.Answers.{Answers}
use ctfnight.Submit.{
  SubmitRequest, SubmitReply, Draw, already_solved, submit_flag, find_submission, submission_result,
  open_event,
}
use ctfnight.Submit.Stored.{IsStored}
use ctfnight.Submit.Answered.{IsRepeatable, submit_flag-Answers}

-- Only the rows of submissions and solves are read.
moved :
    (team_id team_id' challenge_id : ℕ) (key key' : String) (reply : SubmitReply) (x : Submission)
    (d e : Db)
    → team_id' ≡ team_id
    → key' ≡ key
    → e.submissions ≡ d.submissions
    → e.solves ≡ d.solves
    → find_submission team_id challenge_id key d ≡ some x
    → submission_result x d ≡ reply
    → (find_submission team_id' challenge_id key' e ≡ some x) × (submission_result x e ≡ reply)
unfolding find_submission submission_result
moved team_id team_id' challenge_id key key' reply x d e team same subs solves found answer =
    (rw (team, same, subs) found, rw solves answer)

-- The answer to a key that the team has used for the challenge.
repeated :
    (f : Floats) (request : Request) (others : Db → Db) (racing : ℕ → Db → Db) (draw : Draw)
    (challenge_id : ℕ) (payload : SubmitRequest) (s : Session) (user : User) (event : Event)
    (mine : Membership) (earlier : Submission)
    → require_user request s.db ≡ ok user
    → open_event request.now s.db ≡ ok event
    → membership_for user.id s.db ≡ some mine
    → request.crypto.text_length payload.flag ≤ request.settings.max_flag_length
    → find_submission mine.team_id challenge_id payload.idempotency_key s.db ≡ some earlier
    → submit_flag f request others racing draw challenge_id payload s
      ≡ (ok (submission_result earlier s.db), s)
unfolding submit_flag ◌>>=◌
repeated f request others racing draw challenge_id payload s user event mine earlier hu he hm hl
      hs =
    ground arith

-- Let a submission of a team's member, in a session with nothing pending, have been answered, other
-- than that the challenge is solved already. Then a later submission of a member of the same team, to
-- the same challenge with the same key, while the contest is open and the rows of submissions and
-- solves are as the first has left them, gets the same reply, whatever flag of allowed length it
-- carries, and changes neither the database nor the rate limits.
pub submit_flag_replay :
    (f : Floats) (request : Request) (others : Db → Db) (racing : ℕ → Db → Db) (draw : Draw)
    (challenge_id : ℕ) (payload : SubmitRequest) (s t : Session) (user : User) (mine : Membership)
    (reply : SubmitReply) (retry : Request) (others' : Db → Db) (racing' : ℕ → Db → Db)
    (draw' : Draw) (again : SubmitRequest) (u : Session) (user' : User) (event : Event)
    (mine' : Membership)
    → s.db ≡ s.committed
    → require_user request s.db ≡ ok user
    → membership_for user.id s.db ≡ some mine
    → submit_flag f request others racing draw challenge_id payload s ≡ (ok reply, t)
    → reply.message ≢ already_solved
    → u.db.submissions ≡ t.committed.submissions
    → u.db.solves ≡ t.committed.solves
    → require_user retry u.db ≡ ok user'
    → open_event retry.now u.db ≡ ok event
    → membership_for user'.id u.db ≡ some mine'
    → mine'.team_id ≡ mine.team_id
    → retry.crypto.text_length again.flag ≤ retry.settings.max_flag_length
    → again.idempotency_key ≡ payload.idempotency_key
    → submit_flag f retry others' racing' draw' challenge_id again u ≡ (ok reply, u)
submit_flag_replay f request others racing draw challenge_id payload s t user mine reply retry
      others' racing' draw' again u user' event mine' same hu hm h new subs solves hu' he hm' team
      hl key =
    let first = submit_flag f request others racing draw challenge_id payload s in
    let answered : first.0 ≡ ok reply = ap (λ r. r.0) h in
    let left : first.1 ≡ t = ap (λ r. r.1) h in
    let kept : IsRepeatable mine.team_id challenge_id payload.idempotency_key reply
        first.1.committed =
      unfold Answers in
      submit_flag-Answers f request others racing draw challenge_id payload s user mine same hu hm
        reply answered in
    let stored : IsStored mine.team_id challenge_id payload.idempotency_key reply t.committed =
      simp (← left) (kept new) in
    let (x, found, answer) = stored in
    let (found', answer') =
      moved mine.team_id mine'.team_id challenge_id payload.idempotency_key again.idempotency_key
        reply x t.committed u.db team key subs solves found answer in
    repeated f retry others' racing' draw' challenge_id again u user' event mine' x hu' he hm' hl
      found'
    ∙ ap (λ (r : SubmitReply). (ok r, u)) answer'
