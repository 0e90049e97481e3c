-- ===== src/Submit/Keeps.antt =====
-- Every submission keeps the books, on all of its paths.
use ctfnight.Base.{
  ℕ, ◌<◌, ◌≡◌, refl, Bool, true, false, Option, some, none, ok, arith, Bool-cases, Option-cases,
  inl, inr, select_one_sound, min, leb, ◌&&◌, ◌==◌, or_raise, Error,
}
use ctfnight.Model.{Db, Event, Challenge}
use ctfnight.Event.{state_allows_submission}
use ctfnight.Scoring.{Floats}
use ctfnight.Security.{matches_flag}
use ctfnight.Access.{Request}
use ctfnight.App.{Session}
use ctfnight.App.Keeps.{
  Kept, Kept-query, Kept-gets, Kept-any, Kept-recover, Kept-guard, Kept-write, Kept-modify,
  Kept-wait, Kept-last, Kept-pure, Kept-tiers, Kept-rollback, Kept-touch, Kept-lift,
  Kept-query-last, Kept-gets-last,
}
use ctfnight.Submit.{
  SubmitRequest, Draw, close_gate, write_solve, write_failure, record_submission, judge, attempt,
  submit_locked, submit_for, submit_flag, attempts_of, max_challenge_attempts,
  effective_challenge_limit, unlimited_challenge, find_challenge, find_solve, find_submission,
  check_submission_rate, record_it,
}
use ctfnight.Submit.Ledger.{IsScored, failed-IsScored, solved-IsScored, journal-IsScored}

abbrev pub Respects : (Db → Db) → Type 0
Respects others = (d : Db) → IsScored d → IsScored (others d)

-- While the team's row is locked nobody else submits for it.
abbrev pub LeavesTeam : ℕ → (Db → Db) → Type 0
LeavesTeam team_id others =
    (d : Db) (challenge_id : ℕ)
    → attempts_of team_id challenge_id (others d) ≡ attempts_of team_id challenge_id d

gate-Kept :
    (event : Event) (now : ℕ) (s : Session)
    → IsScored s.db
    → IsScored s.committed
    → Kept IsScored (close_gate event now) s
unfolding close_gate
gate-Kept event now s h c = elim (Bool-cases (state_allows_submission event now)) [
  | inl y ↦ rw y (Kept-last IsScored s h)
  | inr n ↦ rw n (Kept-rollback IsScored s _ (Kept-lift IsScored _ _ c))
]

has_room : (a m : ℕ) → leb (min m max_challenge_attempts) a ≡ false → a < max_challenge_attempts
has_room a m h = ground arith

unlimited_room :
    (challenge : Challenge) (team_id : ℕ) (d : Db) (u : Unit {0})
    → unlimited_challenge challenge team_id d ≡ ok u
    → attempts_of team_id challenge.id d < max_challenge_attempts
unfolding unlimited_challenge effective_challenge_limit
unlimited_room challenge team_id d u h = ground arith

pub find_challenge_sound :
    (id event_id : ℕ) (d : Db) (c : Challenge) → find_challenge id event_id d ≡ some c → c.id ≡ id
unfolding find_challenge
find_challenge_sound id event_id d c h = ground (
  arith,
  select_one_sound (λ (x : Challenge). x.id == id && x.event_id == event_id) d.challenges c,
)

pub found_challenge :
    (o : Option Challenge) (e : Error) (c : Challenge) → or_raise o e ≡ ok c → o ≡ some c
found_challenge none e c h = cc
found_challenge (some x) e c h = cc

module _ (f : Floats) (request : Request) (draw : Draw) (payload : SubmitRequest) (event : Event)
    (user_id team_id challenge_id : ℕ) where
  solve-Kept :
      (challenge : Challenge) (s : Session)
      → IsScored s.db
      → IsScored s.committed
      → attempts_of team_id challenge.id s.db < max_challenge_attempts
      → Kept IsScored (write_solve f request draw payload event user_id team_id challenge) s
  unfolding write_solve
  solve-Kept challenge s h c room =
      let P = IsScored in
      Kept-write P s _ _ c λ d₁ e₁. Kept-write P _ _ _ c λ d₂ e₂. Kept-write P _ _ _ c λ d₃ e₃.
        Kept-gets P _ _ _ (
          Kept-modify P _ _ _ (
            Kept-modify P _ _ _ (
              Kept-modify P _ _ _ (
                Kept-any P _ _ _
                  (gate-Kept event draw.closing _
                    (journal-IsScored _ _ _ _ _ _ _ _ _ _ _ _ (
                      solved-IsScored _ _ _ _ _ _ _ 0 h room refl refl refl refl refl e₁ e₂ e₃ _ _
                        _))
                    c)
                  λ _ t k. Kept-pure P _ t k))))

  failure-Kept :
      (challenge : Challenge) (s : Session)
      → IsScored s.db
      → IsScored s.committed
      → attempts_of team_id challenge.id s.db < max_challenge_attempts
      → Kept IsScored (write_failure f request draw payload event user_id team_id challenge) s
  unfolding write_failure
  failure-Kept challenge s h c room =
      let P = IsScored in
      Kept-write P s _ _ c λ d₁ e₁.
        Kept-any P _ _ _ (gate-Kept event draw.closing _ (failed-IsScored _ _ _ h room refl e₁) c)
          λ _ t k. Kept-pure P _ t k

  record-Kept :
      (challenge : Challenge) (correct : Bool) (s : Session)
      → IsScored s.db
      → IsScored s.committed
      → attempts_of team_id challenge.id s.db < max_challenge_attempts
      → Kept IsScored
          (record_submission f request draw payload event user_id team_id challenge_id challenge
            correct)
          s
  unfolding record_submission
  record-Kept challenge true s h c room =
      let P = IsScored in
      Kept-recover P s _ _
        (Kept-any P s _ _ (solve-Kept challenge s h c room)
          λ _ t k. Kept-touch P t _ _ (Kept-pure P _ _ k))
        (λ t k. Kept-query-last P t _ k)
  record-Kept challenge false s h c room =
      Kept-recover IsScored s _ _ (failure-Kept challenge s h c room)
        (λ t k. Kept-query-last IsScored t _ k)

  still_room :
      (challenge locked : Challenge) (s : Session) (d : Db)
      → s.db ≡ s.committed
      → locked.id ≡ challenge.id
      → attempts_of team_id challenge.id d ≡ attempts_of team_id challenge.id s.committed
      → attempts_of team_id challenge.id s.db < max_challenge_attempts
      → attempts_of team_id locked.id d < max_challenge_attempts
  still_room challenge locked s d same id left room = rw id (rw left (rw same at room))

  module _ (racing : Db → Db) (rr : Respects racing) (leaves : LeavesTeam team_id racing) where
    judge-Kept :
        (challenge : Challenge) (s : Session)
        → IsScored s.db
        → IsScored s.committed
        → s.db ≡ s.committed
        → attempts_of team_id challenge.id s.db < max_challenge_attempts
        → Kept IsScored
            (judge f request draw payload event user_id team_id challenge_id racing challenge)
            s
    unfolding judge record_it
    judge-Kept challenge s h c same room =
        let P = IsScored in
        elim (Bool-cases
          (matches_flag request.crypto request.settings.secret_key challenge payload.flag)) [
            | inr n ↦ rw n (record-Kept challenge false s h c room)
            | inl y ↦ rw y (
                Kept-wait P s racing _ (
                  let c₁ = rr s.committed c in
                  Kept-query P _ _ _ c₁ λ locked found.
                    let id =
                      find_challenge_sound challenge.id event.id (racing s.committed) locked
                        (found_challenge _ _ _ found) in
                    record-Kept locked _ _ c₁ c₁ (
                      still_room challenge locked s (racing s.committed) same id
                        (leaves s.committed challenge.id) room)))
          ]

    attempt-Kept :
        (s : Session)
        → IsScored s.db
        → IsScored s.committed
        → s.db ≡ s.committed
        → Kept IsScored (attempt f request draw payload event user_id team_id challenge_id racing) s
    unfolding attempt
    attempt-Kept s h c same =
        let P = IsScored in
        Kept-query P s _ _ c λ challenge _.
          Kept-gets P s _ _ (elim (Option-cases (find_solve team_id challenge.id s.db)) [
            | inr (x, e) ↦ rw e (Kept-pure P _ s c)
            | inl e ↦ rw e (
                Kept-query P s _ _ c λ u limit. Kept-query P s _ _ c λ _ _.
                  judge-Kept challenge s h c same (unlimited_room challenge team_id s.db u limit))
          ])

    locked-Kept :
        (s : Session)
        → IsScored s.db
        → IsScored s.committed
        → s.db ≡ s.committed
        → Kept IsScored
            (submit_locked f request draw payload event user_id team_id challenge_id racing)
            s
    unfolding submit_locked
    locked-Kept s h c same =
        let P = IsScored in
        Kept-query P s _ _ c λ _ _. Kept-query P s _ _ c λ _ _. Kept-guard P s _ _ _ c λ _.
          Kept-query P s _ _ c λ _ _.
            Kept-gets P s _ _
              (elim (Option-cases
                (find_submission team_id challenge_id payload.idempotency_key s.db)) [
                  | inr (x, e) ↦ rw e (Kept-gets-last P s _ c)
                  | inl e ↦ rw e (attempt-Kept s h c same)
                ])

    submit_for-Kept :
        (others : Db → Db) (s : Session)
        → Respects others
        → IsScored s.committed
        → Kept IsScored
            (submit_for f request draw payload event user_id team_id challenge_id others racing)
            s
    unfolding submit_for check_submission_rate
    submit_for-Kept others s ro c =
        let P = IsScored in
        Kept-gets P s _ _
          (elim (Option-cases (find_submission team_id challenge_id payload.idempotency_key s.db)) [
            | inr (x, e) ↦ rw e (Kept-gets-last P s _ c)
            | inl e ↦ rw e (
                Kept-any P s _ _ (Kept-tiers P _ _ _ s c) λ _ t k.
                  Kept-wait P t others _ (locked-Kept _ (ro t.committed k) (ro t.committed k) refl))
          ])

flag-Kept :
    (f : Floats) (request : Request) (others : Db → Db) (racing : ℕ → Db → Db) (draw : Draw)
    (challenge_id : ℕ) (payload : SubmitRequest) (s : Session)
    → Respects others
    → ((t : ℕ) → Respects (racing t))
    → ((t : ℕ) → LeavesTeam t (racing t))
    → IsScored s.committed
    → Kept IsScored (submit_flag f request others racing draw challenge_id payload) s
unfolding submit_flag
flag-Kept f request others racing draw challenge_id payload s ro rr leaves c =
    let P = IsScored in
    Kept-query P s _ _ c λ user _. Kept-query P s _ _ c λ event _. Kept-query P s _ _ c λ mine _.
      Kept-guard P s _ _ _ c λ _.
        submit_for-Kept f request draw payload event user.id mine.team_id challenge_id
          (racing mine.team_id) (rr mine.team_id) (leaves mine.team_id) others s ro c

-- Whatever a submission finds and however it ends, and whatever other sessions that keep the books
-- commit while it waits, provided that they submit nothing for the team while its row is locked, the
-- committed books stay in order: one solve at most for a team and a challenge, backed by exactly one
-- correct submission and one score event, each idempotency key used once, and at most 1000 attempts.
pub submit_flag-IsScored :
    (f : Floats) (request : Request) (others : Db → Db) (racing : ℕ → Db → Db) (draw : Draw)
    (challenge_id : ℕ) (payload : SubmitRequest) (s : Session)
    → Respects others
    → ((t : ℕ) → Respects (racing t))
    → ((t : ℕ) → LeavesTeam t (racing t))
    → IsScored s.committed
    → IsScored (submit_flag f request others racing draw challenge_id payload s).1.committed
submit_flag-IsScored f request others racing draw challenge_id payload s ro rr leaves c =
    unfold Kept in flag-Kept f request others racing draw challenge_id payload s ro rr leaves c
