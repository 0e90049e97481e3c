-- ===== src/Submit/Answered.antt =====
-- What a submission has answered is stored, on all of its paths.
use ctfnight.Base.{
  String, ℕ, ◌≡◌, ◌≢◌, ◌∙◌, refl, ap, sym, or_raise, api, Code, Bool, true, false, some, Result, ok,
  arith, Bool-cases, Option-cases, inl, inr,
}
use ctfnight.Model.{Db, User, Event, Challenge, Membership}
use ctfnight.Scoring.{Floats}
use ctfnight.Security.{matches_flag}
use ctfnight.Access.{Request, require_user, membership_for}
use ctfnight.App.{Session}
use ctfnight.App.Answers.{
  Answers, Answers-query, Answers-gets, Answers-any, Answers-guard, Answers-wait, Answers-touch,
  Answers-recover, Answers-query-last, Answers-gets-last, Answers-pure, Answers-weaken,
  Answers-then,
}
use ctfnight.Submit.{
  SubmitRequest, SubmitReply, Draw, already_solved, already, submit_flag, submit_for, submit_locked,
  attempt, judge, record_it, record_submission, raced_reply, find_solve, find_submission,
  find_challenge, accessible_challenge,
}
use ctfnight.Submit.Keeps.{find_challenge_sound, found_challenge}
use ctfnight.Submit.Stored.{IsStored}
use ctfnight.Submit.Outcomes.{write_solve-Answers, write_failure-Answers}

-- A reply other than that the challenge is solved already is stored under the key.
abbrev pub IsRepeatable : ℕ → ℕ → String → SubmitReply → Db → Type 0
IsRepeatable team_id challenge_id key reply d =
    reply.message ≢ already_solved → IsStored team_id challenge_id key reply d

accessible_lem :
    (challenge_id event_id team_id now : ℕ) (d : Db) (c : Challenge)
    → accessible_challenge challenge_id event_id team_id now d ≡ ok c
    → c.id ≡ challenge_id
unfolding accessible_challenge
accessible_lem challenge_id event_id team_id now d c h =
    elim (Option-cases (find_challenge challenge_id event_id d)) [
      | inl e ↦ ground arith
      | inr (x, e) ↦ ground (arith, find_challenge_sound challenge_id event_id d x e)
    ]

raced_lem :
    (team_id challenge_id : ℕ) (key : String) (d : Db) (reply : SubmitReply)
    → raced_reply team_id challenge_id key d ≡ ok reply
    → IsRepeatable team_id challenge_id key reply d
unfolding raced_reply
raced_lem team_id challenge_id key d reply h new =
    elim (Option-cases (find_solve team_id challenge_id d)) [
      | inr (s, e) ↦
          let same : already s ≡ reply = ground arith in absurd (new (simp (← same) refl))
      | inl e ↦ elim (Option-cases (find_submission team_id challenge_id key d)) [
        | inl g ↦ ground arith
        | inr (x, g) ↦ (x, g, ground arith)
      ]
    ]

module _ (f : Floats) (request : Request) (draw : Draw) (payload : SubmitRequest) (event : Event)
    (user_id team_id challenge_id : ℕ) where
  abbrev P : SubmitReply → Db → Type 0
  P = IsRepeatable team_id challenge_id payload.idempotency_key

  record_submission-Answers :
      (challenge : Challenge) (correct : Bool) (s : Session)
      → challenge.id ≡ challenge_id
      → Answers P
          (record_submission f request draw payload event user_id team_id challenge_id challenge
            correct)
          s
  unfolding record_submission
  record_submission-Answers challenge true s id =
      Answers-recover P s _ _
        (Answers-any P s _ _ _
          (write_solve-Answers f request draw payload event user_id team_id challenge s)
          λ reply t paid.
            Answers-touch P t _ _ (Answers-pure P _ reply λ _. simp (← id) paid.submission))
        (λ t same. Answers-query-last P t _ λ reply h.
          simp (← same) (raced_lem team_id challenge_id payload.idempotency_key t.db reply h))
  record_submission-Answers challenge false s id =
      Answers-recover P s _ _
        (Answers-weaken P _ s _
          (write_failure-Answers f request draw payload event user_id team_id challenge s)
          λ reply d stored _. simp (← id) stored)
        (λ t same. Answers-query-last P t _ λ reply h.
          simp (← same) (raced_lem team_id challenge_id payload.idempotency_key t.db reply h))

  module _ (racing : Db → Db) where
    judge-Answers :
        (challenge : Challenge) (s : Session)
        → challenge.id ≡ challenge_id
        → Answers P
            (judge f request draw payload event user_id team_id challenge_id racing challenge)
            s
    unfolding judge record_it
    judge-Answers challenge s id =
        elim (Bool-cases
          (matches_flag request.crypto request.settings.secret_key challenge payload.flag)) [
            | inr n ↦ rw n (record_submission-Answers challenge false s id)
            | inl y ↦ rw y (
                Answers-wait P s racing _ (
                  Answers-query P _ _ _ λ locked found.
                    let same =
                      find_challenge_sound challenge.id event.id (racing s.committed) locked
                        (found_challenge _ _ _ found) in
                    record_submission-Answers locked _ _ (same ∙ id)))
          ]

    attempt-Answers :
        (s : Session)
        → Answers P (attempt f request draw payload event user_id team_id challenge_id racing) s
    unfolding attempt
    attempt-Answers s = Answers-query P s _ _ λ challenge found.
        let id = accessible_lem challenge_id event.id team_id draw.relocked s.db challenge found in
        Answers-gets P s _ _ (elim (Option-cases (find_solve team_id challenge.id s.db)) [
          | inr (x, e) ↦ rw e (Answers-pure P s _ λ new. absurd (new refl))
          | inl e ↦ rw e (
              Answers-query P s _ _
                λ _ _. Answers-query P s _ _ λ _ _. judge-Answers challenge s id)
        ])

    submit_locked-Answers :
        (s : Session)
        → s.db ≡ s.committed
        → Answers P
            (submit_locked f request draw payload event user_id team_id challenge_id racing)
            s
    unfolding submit_locked
    submit_locked-Answers s same = Answers-query P s _ _ λ _ _. Answers-query P s _ _ λ _ _.
        Answers-guard P s _ _ _ λ _. Answers-query P s _ _ λ _ _.
          Answers-gets P s _ _
            (elim (Option-cases
              (find_submission team_id challenge_id payload.idempotency_key s.db)) [
                | inr (x, e) ↦ rw e (Answers-gets-last P s _ λ _. simp (← same) (x, e, refl))
                | inl e ↦ rw e (attempt-Answers s)
              ])

    submit_for-Answers :
        (others : Db → Db) (s : Session)
        → s.db ≡ s.committed
        → Answers P
            (submit_for f request draw payload event user_id team_id challenge_id others racing)
            s
    unfolding submit_for
    submit_for-Answers others s same =
        Answers-gets P s _ _
          (elim (Option-cases (find_submission team_id challenge_id payload.idempotency_key s.db)) [
            | inr (x, e) ↦ rw e (Answers-gets-last P s _ λ _. simp (← same) (x, e, refl))
            | inl e ↦ rw e (
                Answers-then P s _ _
                  λ _ t. Answers-wait P t others _ (submit_locked-Answers _ refl))
          ])

ok_inj : (r : Result User) (a b : User) → r ≡ ok a → r ≡ ok b → a ≡ b
ok_inj r a b h k = cc (h, k)

same_member :
    (user user' : User) (mine mine' : Membership) (d : Db)
    → user ≡ user'
    → membership_for user.id d ≡ some mine
    → or_raise (membership_for user'.id d) (api 409 Code.team_required) ≡ ok mine'
    → mine.team_id ≡ mine'.team_id
same_member user user' mine mine' d one h k =
    let found = rw (ap (λ (u : User). membership_for u.id d) (sym one) ∙ h) at k in ground arith

-- What a submission of a team's member has answered is stored for the team.
pub submit_flag-Answers :
    (f : Floats) (request : Request) (others : Db → Db) (racing : ℕ → Db → Db) (draw : Draw)
    (challenge_id : ℕ) (payload : SubmitRequest) (s : Session) (user : User) (mine : Membership)
    → s.db ≡ s.committed
    → require_user request s.db ≡ ok user
    → membership_for user.id s.db ≡ some mine
    → Answers
        (IsRepeatable mine.team_id challenge_id payload.idempotency_key)
        (submit_flag f request others racing draw challenge_id payload)
        s
unfolding submit_flag
submit_flag-Answers f request others racing draw challenge_id payload s user mine same hu hm =
    let P = IsRepeatable mine.team_id challenge_id payload.idempotency_key in
    Answers-query P s _ _ λ user' hu'. Answers-query P s _ _ λ event _.
      Answers-query P s _ _ λ mine' hm'. Answers-guard P s _ _ _ λ _.
        let team = same_member user user' mine mine' s.db (ok_inj _ _ _ hu hu') hm hm' in
        Answers-weaken P _ s _
          (submit_for-Answers f request draw payload event user'.id mine'.team_id challenge_id
            (racing mine'.team_id) others s same)
          λ reply d stored. simp team stored
