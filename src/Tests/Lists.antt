-- ===== src/Tests/Lists.antt =====
-- Lists of challenges, announcements and submissions at concrete inputs.
use ctfnight.Base.{
  ℕ, ◌+◌, ◌≤◌, ◌≡◌, refl, String, Bool, true, false, none, some, ok, err, api, Code, [], ◌∷◌, ◌++◌,
  arith, ◌==◌, if◌then◌else◌, contains, select_all, select_one, count_where, sort_by, limit, map,
}
use ctfnight.Model.{Db, Announcement, Submission, live}
use ctfnight.Event.{state_allows_challenge_access}
use ctfnight.Access.{require_user, current_event, current_user}
use ctfnight.Admin.Challenges.{delete_challenge}
use ctfnight.Admin.Guarded.{admin_only, challenge_delete}
use ctfnight.Security.{hash_session}
use ctfnight.Submit.{find_challenge}
use ctfnight.Announcements.{announcements, insert_announcement}
use ctfnight.Announcements.Shown.{announcements-insert_announcement}
use ctfnight.Challenges.{challenges, challenge_detail, in_list, list_item, event_rows, team_of}
use ctfnight.Challenges.Agree.{challenge_detail-challenges}
use ctfnight.Admin.Submissions.{SubmissionQuery, matching, page_rows, in_filter}
use ctfnight.Admin.Submissions.Pages.{page_rows_after}
use ctfnight.Tests.Data.{running, user, event_in, warmup, request, on}
use ctfnight.Tests.Scoring.{exact_floats}

abbrev news : Announcement
news = record {
  id = 5;
  event_id = 1;
  title = "Hi";
  body_md = "x";
  publish_at = 90;
  created_at = 80;
}

abbrev informed : Db
informed = record running { announcements = news ∷ [] }

running_event : current_event running ≡ some (event_in live)
unfolding current_event
running_event = refl

news_added : insert_announcement news running ≡ ok informed
unfolding insert_announcement select_one
news_added = refl

announcements-insert_announcement_example :
    count_where (λ x. x.id == 5) (announcements 100 informed)
    ≡ count_where (λ x. x.id == 5) (announcements 100 running) + 1
announcements-insert_announcement_example =
    announcements-insert_announcement (λ x. x.id == 5) 100 running informed (event_in live) news
      running_event refl news_added

alice_calls : require_user request running ≡ ok (user 1 "alice")
unfolding require_user hash_session select_one
alice_calls = refl

challenges_open : state_allows_challenge_access (event_in live) 100 ≡ true
unfolding state_allows_challenge_access
challenges_open = refl

warmup_found : find_challenge 3 1 running ≡ some warmup
unfolding find_challenge select_one
warmup_found = refl

nothing_first : (a : ℕ) → contains a [] ≡ false
unfolding contains
nothing_first a = refl

abbrev any_order : String → String → Bool
any_order a b = true

challenge_detail-challenges_example :
    (challenges exact_floats any_order request running
      ≡ ok (
          map (list_item exact_floats any_order 100 (event_in live) (team_of 1 running) running) (
            select_all
              (in_list exact_floats any_order 100 (event_in live) (team_of 1 running) running)
              (event_rows any_order (event_in live) running))))
    × (challenge_detail exact_floats request 3 running ≡ (
        if in_list exact_floats any_order 100 (event_in live) (team_of 1 running) running warmup
        then ok (
            list_item exact_floats any_order 100 (event_in live) (team_of 1 running) running warmup)
        else err (api 404 Code.challenge_not_found)))
challenge_detail-challenges_example =
    challenge_detail-challenges exact_floats any_order request running (user 1 "alice")
      (event_in live) warmup alice_calls running_event challenges_open warmup_found
      (λ a m. cc (nothing_first a, m))

abbrev tried : ℕ → ℕ → Submission
tried id at = record {
  id = id;
  team_id = 7;
  challenge_id = 3;
  user_id = 1;
  submitted_hash = "#";
  correct = false;
  awarded_points = 0;
  idempotency_key = "k";
  ip_hash = "#";
  created_at = at;
}

abbrev busy : Db
busy = record running { submissions = tried 1 60 ∷ tried 2 60 ∷ tried 3 70 ∷ [] }

abbrev first_page : SubmissionQuery
first_page = record {
  limit = 1;
  offset = 0;
  challenge_id = none;
  correct = none;
  before_created_at = none;
  before_zoned = true;
  before_id = none;
}

newest_first :
    matching (event_in live) first_page busy ≡ (tried 3 70 ∷ []) ++ tried 2 60 ∷ tried 1 60 ∷ []
unfolding matching in_filter find_challenge select_all select_one sort_by
newest_first = refl

one_id : count_where (λ (y : Submission). y.id == 2) (matching (event_in live) first_page busy) ≤ 1
unfolding matching in_filter find_challenge select_all select_one sort_by count_where
one_id = omega arith

page_rows_after_example :
    page_rows
      (event_in live)
      (record first_page { before_created_at = some 60; before_id = some 2; offset = 0 })
      busy
    ≡ limit 1 (tried 1 60 ∷ [])
page_rows_after_example =
    page_rows_after (event_in live) first_page busy (tried 2 60) (tried 3 70 ∷ []) (tried 1 60 ∷ [])
      newest_first one_id

alice_is_here : current_user request running ≡ ok (user 1 "alice")
unfolding current_user hash_session select_one
alice_is_here = refl

admin_only_example :
    delete_challenge request (λ d. d) 3 (on running)
    ≡ (err (api 403 Code.admin_required), on running)
admin_only_example =
    admin_only exact_floats request _ (delete_challenge request (λ d. d) 3) (on running)
      (user 1 "alice") (challenge_delete (λ d. d) 3) alice_is_here refl
