-- ===== src/Admin/Challenges/Rows.antt =====
-- The rows that the challenge routes write, with the constraints of the schema
-- (backend/src/alpha/models.py, `Challenge` and `challenge_prerequisites`).
use ctfnight.Base.{
  ℕ, Bool, ◌&&◌, ◌||◌, not, none, some, Result, ok, err, api, Code, Error, or_raise, ◌==◌, leb,
  str_eq, if◌then◌else◌, is_some, select_one, count_where, delete_where, update_where, insert_row,
  map,
}
use ctfnight.Model.{Db, Event, Challenge, Submission, Solve, ScoreEvent}
use ctfnight.Submit.{find_challenge, max_challenge_attempts}

-- `_challenge_or_404`
unfoldable pub challenge_or_404 : Event → ℕ → Db → Result Challenge
challenge_or_404 event challenge_id d =
    or_raise (find_challenge challenge_id event.id d) (api 404 Code.challenge_not_found)

-- The CHECK constraints on the numbers.
unfoldable pub in_bounds : Challenge → Bool
in_bounds c =
    leb 1 c.initial_points
    && (leb 1 c.minimum_points && (leb 1 c.decay && leb c.max_attempts max_challenge_attempts))

abbrev pub has_id : ℕ → Challenge → Bool
has_id id c = c.id == id

-- `uq_challenges_event_slug`, against the other rows.
unfoldable pub slug_taken : Challenge → Db → Bool
slug_taken c d = is_some (
    select_one
      (λ (x : Challenge). x.event_id == c.event_id && (str_eq x.slug c.slug && not (x.id == c.id)))
      d.challenges)

unfoldable pub insert_challenge : Challenge → Db → Result Db
unfolding in_bounds slug_taken
insert_challenge c d =
    if is_some (select_one (has_id c.id) d.challenges) || (slug_taken c d || not (in_bounds c))
    then err Error.integrity_error
    else ok (record d { challenges = insert_row c d.challenges })

unfoldable pub save_challenge : Challenge → Db → Result Db
unfolding in_bounds slug_taken
save_challenge c d =
    if slug_taken c d || not (in_bounds c)
    then err Error.integrity_error
    else ok (record d { challenges = update_where (has_id c.id) (λ _. c) d.challenges })

unfoldable pub submission_count : ℕ → Db → ℕ
submission_count challenge_id d =
    count_where (λ (x : Submission). x.challenge_id == challenge_id) d.submissions

-- `ondelete="CASCADE"` of a prerequisite that is deleted.
abbrev pub without : ℕ → Challenge → Challenge
without id c = record c { prerequisites = delete_where (λ x. x == id) c.prerequisites }

scores : ℕ → ScoreEvent → Bool
scores id x = elim x.challenge_id [ none ↦ Bool.false | some c ↦ c == id ]

-- The row, the links to and from it, and the rows that cascade from it.
unfoldable pub drop_challenge : ℕ → Db → Db
unfolding scores
drop_challenge id d = record d {
  challenges = map (without id) (delete_where (has_id id) d.challenges);
  submissions = delete_where (λ (x : Submission). x.challenge_id == id) d.submissions;
  solves = delete_where (λ (x : Solve). x.challenge_id == id) d.solves;
  score_events = delete_where (scores id) d.score_events;
}
