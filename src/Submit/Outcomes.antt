-- ===== src/Submit/Outcomes.antt =====
-- What a submission answers, and what it has stored by then.
use ctfnight.Base.{
  ℕ, ◌≡◌, refl, true, false, ok, arith, ap, Bool-cases, inl, inr, select_one-insert_row,
}
use ctfnight.Model.{Db, Event, Challenge}
use ctfnight.Event.{state_allows_submission}
use ctfnight.Scoring.{Floats, challenge_points}
use ctfnight.Access.{Request}
use ctfnight.Journal.{add_audit, add_outbox}
use ctfnight.App.{Session, ◌>>=◌, ◌>>◌, pure}
use ctfnight.App.Answers.{Answers, Answers-write, Answers-modify, Answers-gets}
use ctfnight.Submit.{
  SubmitRequest, SubmitReply, Draw, close_gate, write_solve, write_failure, solve_count,
  find_submission, submission_result, award_points, new_solve, new_submission, new_score_event,
  of_key,
}
use ctfnight.Submit.Stored.{
  IsStored, IsPaid, paid-found, paid-solve, paid-score_event, paid-count, inserted_submission,
  of_key_self,
}

-- A reply that is given is given after the commit.
gate-Answers :
    {B : Type 0} (P : B → Db → Type 0) (event : Event) (now : ℕ) (a : B) (s : Session)
    → P a s.db
    → Answers P (close_gate event now >> pure a) s
unfolding Answers close_gate ◌>>=◌
gate-Answers P event now a s h = elim (Bool-cases (state_allows_submission event now)) [
  | inl y ↦ rw y (λ b e. let same : a ≡ b = ground arith in simp (← same) h)
  | inr n ↦ rw n (λ b e. cc e)
]

module _ (f : Floats) (request : Request) (draw : Draw) (payload : SubmitRequest) (event : Event)
    (user_id team_id : ℕ) where
  pub write_solve-Answers :
      (challenge : Challenge) (s : Session)
      → Answers
          (IsPaid f draw event.id team_id challenge payload.idempotency_key
            (solve_count challenge.id s.db))
          (write_solve f request draw payload event user_id team_id challenge)
          s
  unfolding write_solve add_audit add_outbox find_submission solve_count submission_result
      award_points
  write_solve-Answers challenge s =
      let P =
        IsPaid f draw event.id team_id challenge payload.idempotency_key
          (solve_count challenge.id s.db) in
      let x = new_submission f request draw payload event user_id team_id challenge true in
      let y = new_solve f request draw payload event user_id team_id challenge in
      let z = new_score_event f request draw payload event user_id team_id challenge in
      Answers-write P s _ _ λ d₁ e₁. Answers-write P _ _ _ λ d₂ e₂. Answers-write P _ _ _ λ d₃ e₃.
        let points = challenge_points f challenge (solve_count challenge.id d₃) in
        let found = paid-found x y z points s.db d₁ d₂ d₃ e₁ e₂ e₃ in
        let solve = paid-solve x y z points s.db d₁ d₂ d₃ e₁ e₂ e₃ in
        let score = paid-score_event x y z points s.db d₁ d₂ d₃ e₁ e₂ e₃ in
        let count = paid-count x y z points s.db d₁ d₂ d₃ e₁ e₂ e₃ in
        Answers-gets P _ _ _ (
          Answers-modify P _ _ _ (
            Answers-modify P _ _ _ (
              Answers-modify P _ _ _ (
                gate-Answers P event draw.closing _ _ (record {
                  points = ap (challenge_points f challenge) count;
                  counted = count;
                  correct = refl;
                  submission = (record x { awarded_points = points }, found, rw solve refl);
                  score_event = (record z { points = points }, score, refl, refl, refl, refl, refl);
                })))))

  pub write_failure-Answers :
      (challenge : Challenge) (s : Session)
      → Answers
          (IsStored team_id challenge.id payload.idempotency_key)
          (write_failure f request draw payload event user_id team_id challenge)
          s
  unfolding write_failure find_submission submission_result
  write_failure-Answers challenge s =
      let P = IsStored team_id challenge.id payload.idempotency_key in
      let x = new_submission f request draw payload event user_id team_id challenge false in
      Answers-write P s _ _ λ d₁ e₁.
        let (_, unused, q) = inserted_submission x s.db d₁ e₁ in
        gate-Answers P event draw.closing _ _ (
          x,
          rw q (
              select_one-insert_row (of_key x.team_id x.challenge_id x.idempotency_key) x
                s.db.submissions unused (of_key_self x)),
          refl,
        )

-- A correct submission that is committed is paid: the points of the challenge after one more solve are
-- in the reply, in the stored submission and in the active score event of the team, the solve is
-- counted, and the stored submission answers again with the same reply.
pub write_solve_points :
    (f : Floats) (request : Request) (draw : Draw) (payload : SubmitRequest) (event : Event)
    (user_id team_id : ℕ) (challenge : Challenge) (s : Session) (reply : SubmitReply)
    → (write_solve f request draw payload event user_id team_id challenge s).0 ≡ ok reply
    → IsPaid f draw event.id team_id challenge payload.idempotency_key
        (solve_count challenge.id s.db)
        reply
        (write_solve f request draw payload event user_id team_id challenge s).1.committed
write_solve_points f request draw payload event user_id team_id challenge s reply h =
    unfold Answers in
    write_solve-Answers f request draw payload event user_id team_id challenge s reply h
