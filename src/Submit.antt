-- ===== src/Submit.antt =====
-- `submit_flag` (backend/src/alpha/routes_participant.py), in the order of its locks: the event, the
-- actor, the membership and team, and the challenge for a candidate that looks correct. `others` is
-- what other sessions commit before the actor is locked, `racing team_id` what they commit
-- before the challenge is locked, while this session holds the lock of the team.
mod Rows
mod Checks
mod Write
pub mod Ledger
pub mod Keeps
pub mod Stored
pub mod Outcomes
pub mod Answered
pub mod Replay
unfoldable pub use Rows.*
unfoldable pub use Checks.*
unfoldable pub use Write.*
use ctfnight.Base.{
  ℕ, ◌+◌, String, Bool, true, false, ◌&&◌, ◌||◌, not, Option, none, some, List, [], ◌∷◌, Result, ok,
  err, api, Code, Error, raise_if, or_raise, ◌==◌, leb, ltb, if◌then◌else◌, select_one, is_some,
}
use ctfnight.Model.{
  Db, User, Team, Membership, Event, Challenge, Submission, Solve, ScoreEvent, ScoreKind, Json,
  Action, Topic, Target, CachedBoard,
}
use ctfnight.Event.{state_allows_submission}
use ctfnight.Scoring.{Floats, challenge_points}
use ctfnight.Security.{keyed_hash, hash_submission, hash_ip, matches_flag}
use ctfnight.Journal.{add_audit, add_outbox}
use ctfnight.Store.{Key, MemoryStore, increment, delete}
use ctfnight.Access.{Request, require_user, user_by_id, membership_for, current_event}
use ctfnight.App.{
  App, ◌>>=◌, ◌>>◌, pure, lift, query, gets, write, modify, commit, rollback, wait_for,
  recover_integrity, touch,
}
use ctfnight.App.Limits.{Tier, check_tiers}

module _ (f : Floats) (request : Request) (draw : Draw) (payload : SubmitRequest) (event : Event)
    (user_id team_id challenge_id : ℕ) where
  record_it : Challenge → Bool → App SubmitReply
  record_it = record_submission f request draw payload event user_id team_id challenge_id

  -- The flag is matched; if it matches, once more under the lock of the challenge.
  judge : (Db → Db) → Challenge → App SubmitReply
  unfolding record_it
  judge racing challenge =
      if matches_flag request.crypto request.settings.secret_key challenge payload.flag
      then (do
        wait_for racing
        locked ← query (λ d.
            or_raise (find_challenge challenge.id event.id d) (api 404 Code.challenge_not_found))
        record_it locked
            (matches_flag request.crypto request.settings.secret_key locked payload.flag))
      else record_it challenge false

  -- A challenge that the team may try, and has tries left for.
  attempt : (Db → Db) → App SubmitReply
  unfolding judge
  attempt racing = do
    challenge ← query (accessible_challenge challenge_id event.id team_id draw.relocked)
    solved ← gets (find_solve team_id challenge.id)
    elim solved [
      | some s ↦ pure (already s)
      | none ↦ do
        query (unlimited_challenge challenge team_id)
        query (unlimited_event team_id event.id)
        judge racing challenge
    ]

  -- The part under the locks of the actor and the team.
  submit_locked : (Db → Db) → App SubmitReply
  unfolding attempt
  submit_locked racing = do
    locked ← query (lock_active_user user_id)
    again ← query (require_user (record request { now = draw.relocked }))
    lift (raise_if (not (again.id == locked.id)) (api 401 Code.invalid_session))
    query (lock_team_of user_id team_id)
    earlier ← gets (find_submission team_id challenge_id payload.idempotency_key)
    elim earlier [ some x ↦ gets (submission_result x) | none ↦ attempt racing ]

  -- The first look for an earlier submission, the rate limits and the wait for the locks.
  submit_for : (Db → Db) → (Db → Db) → App SubmitReply
  unfolding submit_locked
  submit_for others racing = do
    earlier ← gets (find_submission team_id challenge_id payload.idempotency_key)
    elim earlier [
      | some x ↦ gets (submission_result x)
      | none ↦ do
        check_submission_rate request event.id team_id challenge_id
        wait_for others
        submit_locked racing
    ]

unfoldable pub submit_flag :
    Floats → Request → (Db → Db) → (ℕ → Db → Db) → Draw → ℕ → SubmitRequest → App SubmitReply
unfolding submit_for
submit_flag f request others racing draw challenge_id payload = do
  user ← query (require_user request)
  event ← query (open_event request.now)
  mine ← query (λ d. or_raise (membership_for user.id d) (api 409 Code.team_required))
  lift (
      raise_if (ltb request.settings.max_flag_length (request.crypto.text_length payload.flag))
        (api 422 Code.flag_too_long))
  submit_for f request draw payload event user.id mine.team_id challenge_id others
      (racing mine.team_id)
