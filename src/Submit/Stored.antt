-- ===== src/Submit/Stored.antt =====
-- What the `try` block of a submission stores.
use ctfnight.Base.{
  String, ℕ, ◌+◌, ◌≡◌, refl, true, false, Bool, some, ok, arith, eq_iff, ◌==◌, is_some, select_one,
  insert_row, count_where-insert_row, select_one-insert_row, update_where-insert_row,
}
use ctfnight.Model.{Db, Challenge, Submission, Solve, ScoreEvent}
use ctfnight.Scoring.{Floats, challenge_points}
use ctfnight.Submit.{
  SubmitReply, Draw, solve_count, find_submission, submission_result, insert_submission,
  insert_solve, insert_score_event, award_points, of_key,
}

-- The database has a submission under the key, and answers for it with this reply.
abbrev pub IsStored : ℕ → ℕ → String → SubmitReply → Db → Type 0
IsStored team_id challenge_id key reply d =
    (x : Submission) × (find_submission team_id challenge_id key d ≡ some x)
    × (submission_result x d ≡ reply)

-- A correct submission is paid: the points of the challenge after one more solve are in the reply, in
-- the stored submission and in the score event of the team, and the solve is counted.
pub record IsPaid (f : Floats) (draw : Draw) (event_id team_id : ℕ) (challenge : Challenge)
    (key : String) (before : ℕ) (reply : SubmitReply) (d : Db) : Type 0 where
  pub points : reply.awarded_points ≡ challenge_points f challenge (before + 1)
  pub counted : solve_count challenge.id d ≡ before + 1
  pub correct : reply.correct ≡ true
  pub submission : IsStored team_id challenge.id key reply d
  pub score_event :
      (x : ScoreEvent) × (select_one
          (λ (e : ScoreEvent). e.id == draw.score_event_id)
          d.score_events
        ≡ some x)
      × (x.points ≡ reply.awarded_points)
      × (x.team_id ≡ team_id)
      × (x.event_id ≡ event_id)
      × (x.challenge_id ≡ some challenge.id)
      × (x.active ≡ true)

pub of_key_self : (x : Submission) → of_key x.team_id x.challenge_id x.idempotency_key x ≡ true
of_key_self x = ground (arith, eq_iff x.idempotency_key x.idempotency_key)

-- The submission that was inserted.
pub inserted_submission :
    (x : Submission) (d e : Db)
    → insert_submission x d ≡ ok e
    → (is_some (select_one (λ (y : Submission). y.id == x.id) d.submissions) ≡ false)
      × (is_some (select_one (of_key x.team_id x.challenge_id x.idempotency_key) d.submissions)
          ≡ false)
      × (e ≡ record d { submissions = insert_row x d.submissions })
unfolding insert_submission find_submission
inserted_submission x d e h = ground arith

inserted_solve :
    (x : Solve) (d e : Db)
    → insert_solve x d ≡ ok e
    → (is_some (select_one (λ (y : Solve). y.submission_id == x.submission_id) d.solves) ≡ false)
      × (e ≡ record d { solves = insert_row x d.solves })
unfolding insert_solve
inserted_solve x d e h = ground arith

inserted_score_event :
    (x : ScoreEvent) (d e : Db)
    → insert_score_event x d ≡ ok e
    → (is_some (select_one (λ (y : ScoreEvent). y.id == x.id) d.score_events) ≡ false)
      × (e ≡ record d { score_events = insert_row x d.score_events })
unfolding insert_score_event
inserted_score_event x d e h = ground arith

module _ (x : Submission) (y : Solve) (z : ScoreEvent) (points : ℕ) (d d₁ d₂ d₃ : Db)
    (e₁ : insert_submission x d ≡ ok d₁) (e₂ : insert_solve y d₁ ≡ ok d₂)
    (e₃ : insert_score_event z d₂ ≡ ok d₃) where
  abbrev paid : Db
  paid = award_points z.id x.id points d₃

  paid-submissions :
      paid.submissions ≡ insert_row (record x { awarded_points = points }) d.submissions
  unfolding award_points
  paid-submissions =
      let (fresh, _, q₁) = inserted_submission x d d₁ e₁ in
      let (_, q₂) = inserted_solve y d₁ d₂ e₂ in
      let (_, q₃) = inserted_score_event z d₂ d₃ e₃ in
      let mine : Submission → Bool = λ o. o.id == x.id in
      let priced : Submission → Submission = λ o. record o { awarded_points = points } in
      rw (q₃, q₂, q₁) (update_where-insert_row mine priced x d.submissions (ground arith) fresh)

  paid-score_events : paid.score_events ≡ insert_row (record z { points = points }) d₂.score_events
  unfolding award_points
  paid-score_events =
      let (fresh, q₃) = inserted_score_event z d₂ d₃ e₃ in
      let mine : ScoreEvent → Bool = λ o. o.id == z.id in
      let priced : ScoreEvent → ScoreEvent = λ o. record o { points = points } in
      rw q₃ (update_where-insert_row mine priced z d₂.score_events (ground arith) fresh)

  paid-solves : paid.solves ≡ insert_row y d₁.solves
  unfolding award_points
  paid-solves =
      let (_, q₂) = inserted_solve y d₁ d₂ e₂ in
      let (_, q₃) = inserted_score_event z d₂ d₃ e₃ in rw (q₃, q₂) refl

  pub paid-found :
      find_submission x.team_id x.challenge_id x.idempotency_key paid
      ≡ some (record x { awarded_points = points })
  unfolding find_submission
  paid-found =
      let (_, unused, _) = inserted_submission x d d₁ e₁ in
      rw paid-submissions (
        select_one-insert_row (of_key x.team_id x.challenge_id x.idempotency_key)
          (record x { awarded_points = points }) d.submissions unused (of_key_self x))

  pub paid-score_event :
      select_one (λ (e : ScoreEvent). e.id == z.id) paid.score_events
      ≡ some (record z { points = points })
  paid-score_event =
      let (fresh, _) = inserted_score_event z d₂ d₃ e₃ in
      rw paid-score_events (
        select_one-insert_row (λ (e : ScoreEvent). e.id == z.id) (record z { points = points })
          d₂.score_events fresh (ground arith))

  pub paid-solve :
      select_one (λ (s : Solve). s.submission_id == y.submission_id) paid.solves ≡ some y
  paid-solve =
      let (unused, _) = inserted_solve y d₁ d₂ e₂ in
      rw paid-solves (
        select_one-insert_row (λ (s : Solve). s.submission_id == y.submission_id) y d₁.solves unused
          (ground arith))

  pub paid-count : solve_count y.challenge_id paid ≡ solve_count y.challenge_id d + 1
  unfolding solve_count
  paid-count =
      let (_, _, q₁) = inserted_submission x d d₁ e₁ in
      rw paid-solves (
        rw q₁ (
          ground (
            arith,
            count_where-insert_row (λ (s : Solve). s.challenge_id == y.challenge_id) y d.solves,
          )))
