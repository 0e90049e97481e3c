-- ===== src/Tests/Submit.antt =====
-- Submissions at concrete inputs: the red team sends the right flag of the only challenge.
use ctfnight.Base.{
  ◌≡◌, ◌≢◌, ◌↔◌, refl, true, some, ok, arith, select_one, count_where, String, text_append, eq_iff,
}
use text.Mathlib.TextLemmas.{append-eq-nil_iff}
use ctfnight.Model.{Db, exact, owner, live}
use ctfnight.Event.{state_allows_submission}
use ctfnight.Scoring.{challenge_points}
use ctfnight.Security.{hash_session, hash_flag, apply_flag, matches_flag, FlagInput}
use ctfnight.Security.Flags.{matches_flag-apply_flag, Accepts}
use ctfnight.Access.{require_user, membership_for, current_event}
use ctfnight.App.{◌>>=◌}
use ctfnight.Submit.{
  Draw, SubmitRequest, SubmitReply, right, submit_flag, write_solve, open_event, find_submission,
  solve_count, insert_submission, insert_solve, insert_score_event, award_points, close_gate,
  find_solve, attempts_of,
}
use ctfnight.Submit.Ledger.{IsScored, solves_of, right_submissions, scores_of, keys_of}
use ctfnight.Submit.Keeps.{submit_flag-IsScored}
use ctfnight.Submit.Outcomes.{write_solve_points}
use ctfnight.Submit.Stored.{IsPaid}
use ctfnight.Submit.Replay.{submit_flag_replay}
use ctfnight.App.{Session}
use ctfnight.Base.{Result, ap, get, put, select_all, update_where}
use ctfnight.Store.{check_rate, same_key}
use ctfnight.App.Limits.{check_tiers}
use ctfnight.Submit.{
  check_submission_rate, lock_active_user, lock_team_of, accessible_challenge, find_challenge,
  is_accessible, visibility_context, unlimited_challenge, effective_challenge_limit,
  unlimited_event, event_attempts, record_submission,
}
use ctfnight.Model.{Membership}
use ctfnight.Submit.{already_solved}
use ctfnight.Journal.{add_audit, add_outbox}
use ctfnight.Tests.Data.{crypto, request, running, on, user, event_in, warmup}
use ctfnight.Tests.Scoring.{exact_floats}

abbrev pub draw : Draw
draw = record {
  submission_id = 20;
  solve_id = 30;
  score_event_id = 40;
  relocked = 101;
  written = 102;
  closing = 103;
}

abbrev pub right_flag : SubmitRequest
right_flag = record { flag = "flag{x}"; idempotency_key = "k1" }

abbrev alone : Db → Db
alone d = d

running-IsScored : IsScored running
unfolding solves_of right_submissions scores_of keys_of attempts_of count_where
running-IsScored = record {
  one_solve = λ t c. omega arith;
  backed = λ t c. refl;
  scored = λ t c. refl;
  one_key = λ t c k. omega arith;
  capped = λ t c. omega arith;
}

submit_flag-IsScored_example :
    IsScored
      (submit_flag exact_floats request alone
        (λ t. alone)
        draw
        3
        right_flag
        (on running)).1.committed
submit_flag-IsScored_example =
    submit_flag-IsScored exact_floats request alone (λ t. alone) draw 3 right_flag (on running)
      (λ d s. s) (λ t d s. s) (λ t d c. refl) running-IsScored

abbrev won : SubmitReply
won = record { correct = true; message = right; awarded_points = 100; solved_at = some 102 }

-- The first call, and what it leaves.
abbrev sent : Result SubmitReply × Session
sent = submit_flag exact_floats request alone (λ t. alone) draw 3 right_flag (on running)

won_now : won.message ≢ already_solved
won_now h = cc h

alice_called : require_user request running ≡ ok (user 1 "alice")
unfolding require_user hash_session select_one
alice_called = refl

abbrev alice_of_red : Membership
alice_of_red = record { id = 1; user_id = 1; team_id = 7; role = owner; joined_at = 0 }

alice_was_red : membership_for 1 running ≡ some alice_of_red
unfolding membership_for select_one
alice_was_red = refl

-- It is answered, commits what it wrote, and alice may submit again.
first_call :
    (sent ≡ (ok won, sent.1))
    × (sent.1.db ≡ sent.1.committed)
    × (require_user request sent.1.db ≡ ok (user 1 "alice"))
    × (open_event 100 sent.1.db ≡ ok (event_in live))
    × (membership_for 1 sent.1.db ≡ some alice_of_red)
unfolding submit_flag ◌>>=◌ require_user hash_session select_one open_event current_event
    state_allows_submission membership_for find_submission check_submission_rate check_tiers
    check_rate same_key get put lock_active_user lock_team_of accessible_challenge find_challenge
    is_accessible visibility_context select_all unlimited_challenge effective_challenge_limit
    attempts_of unlimited_event event_attempts count_where matches_flag find_solve record_submission
    write_solve close_gate insert_submission insert_solve insert_score_event award_points
    solve_count challenge_points add_audit add_outbox update_where
first_call = (refl, refl, refl, refl, refl)

-- The retry carries another flag.
abbrev other_flag : SubmitRequest
other_flag = record { flag = "flag{z}"; idempotency_key = "k1" }

submit_flag_replay_example :
    submit_flag exact_floats request alone (λ t. alone) draw 3 other_flag sent.1 ≡ (ok won, sent.1)
submit_flag_replay_example =
    submit_flag_replay exact_floats request alone (λ t. alone) draw 3 right_flag (on running) sent.1
      (user 1 "alice") alice_of_red won request alone (λ t. alone) draw other_flag sent.1
      (user 1 "alice") (event_in live) alice_of_red refl alice_called alice_was_red first_call.0
      won_now (ap (λ (d : Db). d.submissions) first_call.1) (ap (λ (d : Db). d.solves) first_call.1)
      first_call.2 first_call.3 first_call.4 refl (omega arith) refl

first_solve :
    (write_solve exact_floats request draw right_flag (event_in live) 1 7 warmup (on running)).0
    ≡ ok won
unfolding write_solve ◌>>=◌ close_gate insert_submission insert_solve insert_score_event
    award_points solve_count challenge_points state_allows_submission find_submission find_solve
    select_one count_where add_audit add_outbox
first_solve = refl

write_solve_points_example :
    IsPaid exact_floats draw 1 7 warmup "k1"
      (solve_count 3 running)
      won
      (write_solve exact_floats request draw right_flag
        (event_in live)
        1
        7
        warmup
        (on running)).1.committed
write_solve_points_example =
    write_solve_points exact_floats request draw right_flag (event_in live) 1 7 warmup (on running)
      won first_solve

abbrev flag : FlagInput
flag = record { type = exact; value = "flag{y}" }

flag_applied :
    apply_flag crypto warmup flag "k" 256
    ≡ ok (record warmup { flag_hash = some (hash_flag crypto "k" "flag{y}") })
unfolding apply_flag
flag_applied = refl

starts_with_hash : (m : String) → text_append "#" m ≢ ""
starts_with_hash m h = ground (arith, eq_iff "#" "", (append-eq-nil_iff {p = "#"} {q = m}).0 h)

matches_flag-apply_flag_example :
    (matches_flag crypto "k"
        (record warmup { flag_hash = some (hash_flag crypto "k" "flag{y}") })
        "flag{y}"
      ≡ true)
    ↔ Accepts crypto "k" flag "flag{y}"
matches_flag-apply_flag_example =
    matches_flag-apply_flag crypto "k" starts_with_hash warmup
      (record warmup { flag_hash = some (hash_flag crypto "k" "flag{y}") }) flag 256 "flag{y}"
      flag_applied
