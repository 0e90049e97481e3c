-- ===== src/Submit/Rows.antt =====
-- The rows that a submission reads and writes, with the constraints that the schema puts on inserts
-- (backend/src/alpha/models.py) and the limits of backend/src/alpha/limits.py.
use ctfnight.Base.{
  contains, ℕ, String, Bool, true, false, ◌&&◌, ◌||◌, not, Option, none, some, List, [], ◌∷◌,
  Result, ok, err, Error, ◌==◌, leb, str_eq, if◌then◌else◌, is_some, select_one, select_all,
  count_where, update_where, insert_row, min, map,
}
use ctfnight.Model.{Db, Challenge, Submission, Solve, ScoreEvent}

abbrev pub max_challenge_attempts : ℕ
max_challenge_attempts = 1000

abbrev pub max_submissions_per_team_event : ℕ
max_submissions_per_team_event = 10000

abbrev pub of_pair : ℕ → ℕ → Submission → Bool
of_pair team_id challenge_id x = x.team_id == team_id && x.challenge_id == challenge_id

abbrev pub of_key : ℕ → ℕ → String → Submission → Bool
of_key team_id challenge_id key x =
    x.team_id == team_id && (x.challenge_id == challenge_id && str_eq x.idempotency_key key)

abbrev pub solve_of : ℕ → ℕ → Solve → Bool
solve_of team_id challenge_id x = x.team_id == team_id && x.challenge_id == challenge_id

unfoldable pub find_submission : ℕ → ℕ → String → Db → Option Submission
find_submission team_id challenge_id key d =
    select_one (of_key team_id challenge_id key) d.submissions

unfoldable pub find_solve : ℕ → ℕ → Db → Option Solve
find_solve team_id challenge_id d = select_one (solve_of team_id challenge_id) d.solves

unfoldable pub attempts_of : ℕ → ℕ → Db → ℕ
attempts_of team_id challenge_id d = count_where (of_pair team_id challenge_id) d.submissions

-- `max_attempts or MAX_CHALLENGE_ATTEMPTS`, capped
unfoldable pub effective_challenge_limit : Challenge → ℕ
effective_challenge_limit challenge =
    min (if challenge.max_attempts == 0 then max_challenge_attempts else challenge.max_attempts)
      max_challenge_attempts

unfoldable pub find_challenge : ℕ → ℕ → Db → Option Challenge
find_challenge challenge_id event_id d =
    select_one (λ (c : Challenge). c.id == challenge_id && c.event_id == event_id) d.challenges

-- The team's submissions to the challenges of the event.
unfoldable pub event_attempts : ℕ → ℕ → Db → ℕ
unfolding find_challenge
event_attempts team_id event_id d =
    count_where (λ x. x.team_id == team_id && is_some (find_challenge x.challenge_id event_id d))
      d.submissions

unfoldable pub solve_count : ℕ → Db → ℕ
solve_count challenge_id d = count_where (λ (x : Solve). x.challenge_id == challenge_id) d.solves

-- `_visibility_context`
unfoldable pub visibility_context : Option ℕ → Db → List ℕ
visibility_context none d = []
visibility_context (some team_id) d =
    map (λ (x : Solve). x.challenge_id) (select_all (λ x. x.team_id == team_id) d.solves)

unfoldable pub all_in : List ℕ → List ℕ → Bool
unfolding contains
all_in [] solved_ids = true
all_in (x ∷ xs) solved_ids = contains x solved_ids && all_in xs solved_ids

-- `_is_accessible`: published, its time come, every prerequisite solved.
unfoldable pub is_accessible : Challenge → List ℕ → ℕ → Bool
unfolding all_in
is_accessible challenge solved_ids now =
    challenge.visible
    && (elim challenge.visible_at [ none ↦ true | some t ↦ leb t now ]
        && all_in challenge.prerequisites solved_ids)

-- Primary key, `uq_submissions_idempotency` and the foreign key to the team.
unfoldable pub insert_submission : Submission → Db → Result Db
unfolding find_submission
insert_submission row d =
    if is_some (select_one (λ (x : Submission). x.id == row.id) d.submissions)
      || (is_some (find_submission row.team_id row.challenge_id row.idempotency_key d)
          || not (is_some (select_one (λ t. t.id == row.team_id) d.teams)))
    then err Error.integrity_error
    else ok (record d { submissions = insert_row row d.submissions })

-- Primary key, `uq_solves_team_challenge` and the unique `submission_id`.
unfoldable pub insert_solve : Solve → Db → Result Db
unfolding find_solve
insert_solve row d =
    if is_some (select_one (λ (x : Solve). x.id == row.id) d.solves)
      || (is_some (find_solve row.team_id row.challenge_id d)
          || is_some (select_one (λ (x : Solve). x.submission_id == row.submission_id) d.solves))
    then err Error.integrity_error
    else ok (record d { solves = insert_row row d.solves })

is_solve_event : ℕ → Option ℕ → Bool
is_solve_event id none = false
is_solve_event id (some solve_id) = solve_id == id

same_solve : Option ℕ → ScoreEvent → Bool
unfolding is_solve_event
same_solve none x = false
same_solve (some id) x = is_solve_event id x.solve_id

-- Primary key and the unique `solve_id`, which admits any number of nulls.
unfoldable pub insert_score_event : ScoreEvent → Db → Result Db
unfolding same_solve
insert_score_event row d =
    if is_some (select_one (λ (x : ScoreEvent). x.id == row.id) d.score_events)
      || is_some (select_one (same_solve row.solve_id) d.score_events)
    then err Error.integrity_error
    else ok (record d { score_events = insert_row row d.score_events })

-- `score_event.points = points; submission.awarded_points = points`
unfoldable pub award_points : ℕ → ℕ → ℕ → Db → Db
award_points score_event_id submission_id points d = record d {
  score_events =
      update_where (λ (x : ScoreEvent). x.id == score_event_id) (λ x. record x { points = points })
        d.score_events;
  submissions =
      update_where (λ (x : Submission). x.id == submission_id)
        (λ x. record x { awarded_points = points }) d.submissions;
}
