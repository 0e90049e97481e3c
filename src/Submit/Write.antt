-- ===== src/Submit/Write.antt =====
-- The `try` block of `submit_flag` (backend/src/alpha/routes_participant.py), its handler for a lost
-- race, and the calls on the scoreboard's cache.
use ctfnight.Base.{
  ℕ, String, Bool, true, false, none, some, [], ◌∷◌, Result, ok, err, api, Code, if◌then◌else◌,
}
use ctfnight.Model.{
  Db, Event, Challenge, Submission, Solve, ScoreEvent, ScoreKind, Json, Action, Topic, Target,
}
use ctfnight.Event.{state_allows_submission}
use ctfnight.Scoring.{Floats, challenge_points}
use ctfnight.Security.{hash_submission, hash_ip}
use ctfnight.Journal.{add_audit, add_outbox}
use ctfnight.Access.{Request}
use ctfnight.App.{
  App, ◌>>=◌, ◌>>◌, pure, lift, query, gets, write, modify, commit, rollback, recover_integrity,
  touch,
}
use ctfnight.Scoreboard.{invalidate_scoreboard}
use ctfnight.Submit.Rows.{
  insert_submission, insert_solve, insert_score_event, solve_count, award_points, find_submission,
  find_solve,
}
use ctfnight.Submit.Checks.{
  SubmitRequest, Draw, SubmitReply, right, wrong, already, submission_result,
}

-- The gate of wall-clock start and end, once more before the commit.
unfoldable pub close_gate : Event → ℕ → App (Unit {0})
close_gate event now =
    if state_allows_submission event now
    then commit
    else (rollback >> lift (err (api 409 Code.submissions_closed)))

repeated_reply : ℕ → ℕ → String → Db → Result SubmitReply
repeated_reply team_id challenge_id key d = elim (find_submission team_id challenge_id key d) [
  | none ↦ err (api 409 Code.submission_conflict)
  | some x ↦ ok (submission_result x d)
]

-- The `except IntegrityError` block: the row that won the race answers.
unfoldable pub raced_reply : ℕ → ℕ → String → Db → Result SubmitReply
unfolding repeated_reply
raced_reply team_id challenge_id key d = elim (find_solve team_id challenge_id d) [
  | some s ↦ ok (already s)
  | none ↦ repeated_reply team_id challenge_id key d
]

module _ (f : Floats) (request : Request) (draw : Draw) (payload : SubmitRequest) (event : Event)
    (user_id team_id : ℕ) where
  abbrev pub new_submission : Challenge → Bool → Submission
  new_submission challenge correct = record {
    id = draw.submission_id;
    team_id = team_id;
    challenge_id = challenge.id;
    user_id = user_id;
    submitted_hash = hash_submission request.crypto request.settings.secret_key payload.flag;
    correct = correct;
    awarded_points = 0;
    idempotency_key = payload.idempotency_key;
    ip_hash = hash_ip request.crypto request.settings.secret_key request.client_ip;
    created_at = draw.written;
  }

  abbrev pub new_solve : Challenge → Solve
  new_solve challenge = record {
    id = draw.solve_id;
    team_id = team_id;
    challenge_id = challenge.id;
    user_id = user_id;
    submission_id = draw.submission_id;
    solved_at = draw.written;
  }

  abbrev pub new_score_event : Challenge → ScoreEvent
  new_score_event challenge = record {
    id = draw.score_event_id;
    event_id = event.id;
    team_id = team_id;
    challenge_id = some challenge.id;
    solve_id = some draw.solve_id;
    kind = ScoreKind.solve;
    points = 0;
    active = true;
    created_at = draw.written;
  }

  -- The `try` block with a correct flag.
  unfoldable pub write_solve : Challenge → App SubmitReply
  unfolding close_gate
  write_solve challenge = do
    write (insert_submission (new_submission challenge true))
    write (insert_solve (new_solve challenge))
    write (insert_score_event (new_score_event challenge))
    solves ← gets (solve_count challenge.id)
    let points = challenge_points f challenge solves
    modify (award_points draw.score_event_id draw.submission_id points)
    modify (
        add_audit draw.written (some user_id) Action.challenge_solved Target.challenge
          (some challenge.id) (("team_id", Json.ident team_id) ∷ []))
    modify (
        add_outbox draw.written Topic.challenge_solved Target.challenge challenge.id (
          ("event_id", Json.ident event.id)
          ∷ ("challenge_id", Json.ident challenge.id)
          ∷ ("team_id", Json.ident team_id)
          ∷ ("points", Json.number points)
          ∷ []))
    close_gate event draw.closing
    pure (record {
      correct = true;
      message = right;
      awarded_points = points;
      solved_at = some draw.written;
    })

  -- The `try` block with a wrong flag.
  unfoldable pub write_failure : Challenge → App SubmitReply
  unfolding close_gate
  write_failure challenge = do
    write (insert_submission (new_submission challenge false))
    close_gate event draw.closing
    pure (record { correct = false; message = wrong; awarded_points = 0; solved_at = none })

  unfoldable pub record_submission : ℕ → Challenge → Bool → App SubmitReply
  unfolding write_solve write_failure raced_reply
  record_submission challenge_id challenge true =
      recover_integrity
        (do reply ← write_solve challenge; touch (invalidate_scoreboard event.id); pure reply)
        (query (raced_reply team_id challenge_id payload.idempotency_key))
  record_submission challenge_id challenge false =
      recover_integrity (write_failure challenge)
        (query (raced_reply team_id challenge_id payload.idempotency_key))
