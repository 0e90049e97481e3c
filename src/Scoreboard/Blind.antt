-- ===== src/Scoreboard/Blind.antt =====
-- A correct submission that is written after the freeze, and the board that is shown while the event
-- is frozen.
use ctfnight.Base.{
  ℕ, ◌<◌, ◌≡◌, refl, inl, inr, Bool, false, some, ok, arith, Bool-cases, ◌==◌, is_some, select_one,
  insert_row, update_where-insert_row, update_where, ap, ◌∙◌,
}
use ctfnight.Model.{Db, Event, Challenge, Submission, Solve, ScoreEvent, is_award}
use ctfnight.Event.{state_allows_submission}
use ctfnight.Scoring.{Floats}
use ctfnight.Access.{Request}
use ctfnight.Journal.{add_audit, add_outbox}
use ctfnight.App.{Session}
use ctfnight.App.Keeps.{
  Kept, Kept-gets, Kept-any, Kept-write, Kept-modify, Kept-last, Kept-pure, Kept-rollback,
  Kept-lift,
}
use ctfnight.Submit.{
  SubmitRequest, Draw, close_gate, write_solve, insert_submission, insert_solve, insert_score_event,
  award_points,
}
use ctfnight.Scoreboard.Totals.{Sql}
use ctfnight.Scoreboard.Ranking.{public_scoreboard, cutoff_at}
use ctfnight.Scoreboard.Frozen.{IsLate, public_scoreboard-late}

-- What the three inserts and the award of points make of the tables.
award_points-IsLate :
    (d d₁ d₂ d₃ : Db) (cutoff : ℕ) (x : Submission) (y : Solve) (z : ScoreEvent) (points : ℕ)
    → cutoff < y.solved_at
    → is_award z.kind ≡ false
    → insert_submission x d ≡ ok d₁
    → insert_solve y d₁ ≡ ok d₂
    → insert_score_event z d₂ ≡ ok d₃
    → IsLate d (award_points z.id x.id points d₃) cutoff
unfolding insert_submission insert_solve insert_score_event award_points
award_points-IsLate d d₁ d₂ d₃ cutoff x y z points late kind e₁ e₂ e₃ =
    let fresh : is_some (select_one (λ (o : ScoreEvent). o.id == z.id) d₂.score_events) ≡ false =
      ground arith in
    let mine : ScoreEvent → Bool = λ o. o.id == z.id in
    let priced : ScoreEvent → ScoreEvent = λ o. record o { points = points } in
    let q₁ : d₁ ≡ record d { submissions = insert_row x d.submissions } = ground arith in
    let q₂ : d₂ ≡ record d₁ { solves = insert_row y d₁.solves } = ground arith in
    let q₃ : d₃ ≡ record d₂ { score_events = insert_row z d₂.score_events } = ground arith in
    record {
      solve = y;
      score_event = record z { points = points };
      late = ground arith;
      no_award = kind;
      solves = rw (q₃, q₂, q₁) refl;
      score_events =
          ap (update_where mine priced) (ap (λ (b : Db). b.score_events) q₃)
          ∙ update_where-insert_row mine priced z d₂.score_events (ground arith) fresh
          ∙ rw (q₂, q₁) refl;
      challenges = rw (q₃, q₂, q₁) refl;
      teams = rw (q₃, q₂, q₁) refl;
      users = rw (q₃, q₂, q₁) refl;
    }

-- The journal shows on no board.
journal-IsLate :
    (d base after : Db) (cutoff : ℕ)
    → after.solves ≡ base.solves
    → after.score_events ≡ base.score_events
    → after.challenges ≡ base.challenges
    → after.teams ≡ base.teams
    → after.users ≡ base.users
    → IsLate d base cutoff
    → IsLate d after cutoff
journal-IsLate d base after cutoff s e c t u l = record {
  solve = l.solve;
  score_event = l.score_event;
  late = l.late;
  no_award = l.no_award;
  solves = s ∙ l.solves;
  score_events = e ∙ l.score_events;
  challenges = c ∙ l.challenges;
  teams = t ∙ l.teams;
  users = u ∙ l.users;
}

module _ (P : Db → Type 0) where
  gate-Kept :
      (event : Event) (now : ℕ) (s : Session)
      → P s.db
      → P s.committed
      → Kept P (close_gate event now) s
  unfolding close_gate
  gate-Kept event now s h c = elim (Bool-cases (state_allows_submission event now)) [
    | inl y ↦ rw y (Kept-last P s h)
    | inr n ↦ rw n (Kept-rollback P s _ (Kept-lift P _ _ c))
  ]

-- While the board of an event is shown as of its freeze time, a correct submission that is written
-- later, whatever comes of it, leaves the shown board as it was, also where it is committed between
-- the two queries of the board.
pub write_solve-blind :
    (q : Sql) (shown : Event) (now cutoff : ℕ) (f : Floats) (request : Request) (draw : Draw)
    (payload : SubmitRequest) (event : Event) (user_id team_id : ℕ) (challenge : Challenge)
    (s : Session)
    → cutoff_at shown now ≡ some cutoff
    → cutoff < draw.written
    → s.db ≡ s.committed
    → let after =
        (write_solve f request draw payload event user_id team_id challenge s).1.committed in
      (public_scoreboard q s.committed after shown now
        ≡ public_scoreboard q s.committed s.committed shown now)
      × (public_scoreboard q after after shown now
          ≡ public_scoreboard q s.committed s.committed shown now)
unfolding Kept write_solve add_audit add_outbox
write_solve-blind q shown now cutoff f request draw payload event user_id team_id challenge s e late
      same =
    let P : Db → Type 0 = λ d.
      let base = s.committed in
      (public_scoreboard q base d shown now ≡ public_scoreboard q base base shown now)
      × (public_scoreboard q d d shown now ≡ public_scoreboard q base base shown now) in
    Kept-write P s _ _ (refl, refl)
      λ d₁ e₁.
        Kept-write P _ _ _ (refl, refl)
          λ d₂ e₂.
            Kept-write P _ _ _ (refl, refl)
              λ d₃ e₃. Kept-gets P _ _ _ (
                Kept-modify P _ _ _ (
                  Kept-modify P _ _ _ (
                    Kept-modify P _ _ _ (
                      Kept-any P _ _ _
                        (gate-Kept P event draw.closing _
                          (public_scoreboard-late q shown now cutoff s.committed _ e (
                            journal-IsLate s.committed _ _ cutoff refl refl refl refl refl (
                              award_points-IsLate s.committed d₁ d₂ d₃ cutoff _ _ _ _ late refl
                                (rw same at e₁) e₂ e₃)))
                          (refl, refl))
                        λ _ t k. Kept-pure P _ t k))))
