-- ===== src/Submit/Ledger.antt =====
-- The books of submissions, solves and score events, and what the writes of a submission do to them.
use ctfnight.Base.{
  eq_iff, ℕ, ◌+◌, ◌≤◌, ◌<◌, String, ◌≡◌, refl, Bool, true, false, ◌&&◌, Option, none, some, ok,
  ◌==◌, arith, to_num, count_where, count_where-insert_row, count_where-none,
  count_where-update_where_same,
}
use ctfnight.Model.{Db, Submission, Solve, ScoreEvent, Action, Topic, Target, Metadata}
use ctfnight.Journal.{add_audit, add_outbox}
use ctfnight.Submit.{
  insert_submission, insert_solve, insert_score_event, award_points, attempts_of, of_pair, of_key,
  solve_of, max_challenge_attempts,
}

abbrev pub right_of : ℕ → ℕ → Submission → Bool
right_of t c x = of_pair t c x && x.correct

abbrev for_challenge : ℕ → Option ℕ → Bool
for_challenge c none = false
for_challenge c (some id) = id == c

abbrev pub score_of : ℕ → ℕ → ScoreEvent → Bool
score_of t c x = x.team_id == t && for_challenge c x.challenge_id

unfoldable pub solves_of : ℕ → ℕ → Db → ℕ
solves_of t c d = count_where (solve_of t c) d.solves

unfoldable pub right_submissions : ℕ → ℕ → Db → ℕ
right_submissions t c d = count_where (right_of t c) d.submissions

unfoldable pub scores_of : ℕ → ℕ → Db → ℕ
scores_of t c d = count_where (score_of t c) d.score_events

unfoldable pub keys_of : ℕ → ℕ → String → Db → ℕ
keys_of t c k d = count_where (of_key t c k) d.submissions

-- A team has at most one solve of a challenge, backed by one correct submission and one score event;
-- an idempotency key is used once; no team passes the attempts ceiling of a challenge.
pub record IsScored (d : Db) : Type 0 where
  pub one_solve : (t c : ℕ) → solves_of t c d ≤ 1
  pub backed : (t c : ℕ) → right_submissions t c d ≡ solves_of t c d
  pub scored : (t c : ℕ) → scores_of t c d ≡ solves_of t c d
  pub one_key : (t c : ℕ) (k : String) → keys_of t c k d ≤ 1
  pub capped : (t c : ℕ) → attempts_of t c d ≤ max_challenge_attempts

module _ (d e : Db) (t c : ℕ) (k : String) where
  submitted :
      (row : Submission)
      → insert_submission row d ≡ ok e
      → (attempts_of t c e ≡ attempts_of t c d + to_num (of_pair t c row))
        × (right_submissions t c e ≡ right_submissions t c d + to_num (right_of t c row))
        × (keys_of t c k e ≡ keys_of t c k d + to_num (of_key t c k row))
        × (keys_of row.team_id row.challenge_id row.idempotency_key d ≡ 0)
        × (solves_of t c e ≡ solves_of t c d)
        × (scores_of t c e ≡ scores_of t c d)
  unfolding insert_submission attempts_of right_submissions keys_of solves_of scores_of
  submitted row h = ground (
    arith,
    count_where-insert_row (of_pair t c) row d.submissions,
    count_where-insert_row (right_of t c) row d.submissions,
    count_where-insert_row (of_key t c k) row d.submissions,
    count_where-none (of_key row.team_id row.challenge_id row.idempotency_key) d.submissions,
  )

  solved :
      (row : Solve)
      → insert_solve row d ≡ ok e
      → (solves_of t c e ≡ solves_of t c d + to_num (solve_of t c row))
        × (solves_of row.team_id row.challenge_id d ≡ 0)
        × (attempts_of t c e ≡ attempts_of t c d)
        × (right_submissions t c e ≡ right_submissions t c d)
        × (keys_of t c k e ≡ keys_of t c k d)
        × (scores_of t c e ≡ scores_of t c d)
  unfolding insert_solve attempts_of right_submissions keys_of solves_of scores_of
  solved row h = ground (
    arith,
    count_where-insert_row (solve_of t c) row d.solves,
    count_where-none (solve_of row.team_id row.challenge_id) d.solves,
  )

  booked :
      (row : ScoreEvent)
      → insert_score_event row d ≡ ok e
      → (scores_of t c e ≡ scores_of t c d + to_num (score_of t c row))
        × (attempts_of t c e ≡ attempts_of t c d)
        × (right_submissions t c e ≡ right_submissions t c d)
        × (keys_of t c k e ≡ keys_of t c k d)
        × (solves_of t c e ≡ solves_of t c d)
  unfolding insert_score_event attempts_of right_submissions keys_of solves_of scores_of
  booked row h = ground (arith, count_where-insert_row (score_of t c) row d.score_events)

  awarded :
      (score_event_id submission_id points : ℕ)
      → e ≡ award_points score_event_id submission_id points d
      → (attempts_of t c e ≡ attempts_of t c d)
        × (right_submissions t c e ≡ right_submissions t c d)
        × (keys_of t c k e ≡ keys_of t c k d)
        × (solves_of t c e ≡ solves_of t c d)
        × (scores_of t c e ≡ scores_of t c d)
  unfolding award_points attempts_of right_submissions keys_of solves_of scores_of
  awarded score_event_id submission_id points h = rw h (
    count_where-update_where_same (of_pair t c) (λ x. x.id == submission_id)
        (λ x. record x { awarded_points = points }) d.submissions (λ x h. refl),
    count_where-update_where_same (right_of t c) (λ x. x.id == submission_id)
        (λ x. record x { awarded_points = points }) d.submissions (λ x h. refl),
    count_where-update_where_same (of_key t c k) (λ x. x.id == submission_id)
        (λ x. record x { awarded_points = points }) d.submissions (λ x h. refl),
    refl,
    count_where-update_where_same (score_of t c) (λ x. x.id == score_event_id)
        (λ x. record x { points = points }) d.score_events (λ x h. refl),
  )

-- A wrong flag under the attempts ceiling.
pub failed-IsScored :
    (d e : Db) (row : Submission)
    → IsScored d
    → attempts_of row.team_id row.challenge_id d < max_challenge_attempts
    → row.correct ≡ false
    → insert_submission row d ≡ ok e
    → IsScored e
failed-IsScored d e row s room wrong h = record {
  one_solve = λ t c. ground (arith, submitted d e t c "" row h, s.one_solve t c);
  backed = λ t c. ground (arith, submitted d e t c "" row h, s.backed t c);
  scored = λ t c. ground (arith, submitted d e t c "" row h, s.scored t c);
  one_key = λ t c k.
      ground (arith, submitted d e t c k row h, s.one_key t c k, eq_iff row.idempotency_key k);
  capped = λ t c. ground (arith, submitted d e t c "" row h, s.capped t c);
}

module _ (d d₁ d₂ d₃ : Db) (row : Submission) (solve : Solve) (score : ScoreEvent)
    (challenge_id : ℕ) where
  -- A correct submission with its solve and its score event, whatever points it is then awarded.
  pub solved-IsScored :
      IsScored d
      → attempts_of row.team_id row.challenge_id d < max_challenge_attempts
      → row.correct ≡ true
      → solve.team_id ≡ row.team_id
      → solve.challenge_id ≡ row.challenge_id
      → score.team_id ≡ row.team_id
      → score.challenge_id ≡ some row.challenge_id
      → insert_submission row d ≡ ok d₁
      → insert_solve solve d₁ ≡ ok d₂
      → insert_score_event score d₂ ≡ ok d₃
      → (score_event_id submission_id points : ℕ)
      → IsScored (award_points score_event_id submission_id points d₃)
  solved-IsScored s room right st sc et ec h₁ h₂ h₃ i j points =
      let a = λ (t c : ℕ) (k : String). submitted d d₁ t c k row h₁ in
      let b = λ (t c : ℕ) (k : String). solved d₁ d₂ t c k solve h₂ in
      let g = λ (t c : ℕ) (k : String). booked d₂ d₃ t c k score h₃ in
      let w =
        λ (t c : ℕ) (k : String). awarded d₃ (award_points i j points d₃) t c k i j points refl in
      record {
        one_solve = λ t c. ground (
          arith,
          a t c "",
          b t c "",
          g t c "",
          w t c "",
          s.one_solve t c,
          a row.team_id row.challenge_id "",
        );
        backed = λ t c. ground (arith, a t c "", b t c "", g t c "", w t c "", s.backed t c);
        scored = λ t c. ground (arith, a t c "", b t c "", g t c "", w t c "", s.scored t c);
        one_key = λ t c k. ground (
          arith,
          a t c k,
          b t c k,
          g t c k,
          w t c k,
          s.one_key t c k,
          eq_iff row.idempotency_key k,
        );
        capped = λ t c. ground (arith, a t c "", b t c "", g t c "", w t c "", s.capped t c);
      }

pub journal-IsScored :
    (now now' : ℕ) (actor : Option ℕ) (action : Action) (target target' : Target) (id : Option ℕ)
    (metadata payload : Metadata) (topic : Topic) (id' : ℕ) (d : Db)
    → IsScored d
    → IsScored (
        add_outbox now' topic target' id' payload (add_audit now actor action target id metadata d))
unfolding add_outbox add_audit attempts_of right_submissions keys_of solves_of scores_of
journal-IsScored now now' actor action target target' id metadata payload topic id' d s = record {
  one_solve = s.one_solve;
  backed = s.backed;
  scored = s.scored;
  one_key = s.one_key;
  capped = s.capped;
}
