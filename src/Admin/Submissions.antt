-- ===== src/Admin/Submissions.antt =====
-- GET /admin/submissions (backend/src/alpha/routes_admin.py, `admin_submissions`): the list of an
-- event's submissions, by offset or by a cursor.
pub mod Pages
use ctfnight.Base.{
  ℕ, String, Bool, true, false, ◌&&◌, ◌||◌, not, Option, none, some, List, Result, ok, err, api,
  Code, Error, raise_if, ◌==◌, ltb, leb, if◌then◌else◌, is_some, select_one, select_all, sort_by,
  limit, offset, map,
}
use ctfnight.Model.{Db, Event, User, Team, Challenge, Submission}
use ctfnight.Submit.{find_challenge}
use ctfnight.Access.{Request, require_admin}
use ctfnight.Admin.EventUpdate.{event_or_404}

-- The query string; `before_zoned` is that the time has a timezone.
pub record SubmissionQuery : Type 0 where
  pub limit : ℕ
  pub offset : ℕ
  pub challenge_id : Option ℕ
  pub correct : Option Bool
  pub before_created_at : Option ℕ
  pub before_zoned : Bool
  pub before_id : Option ℕ

-- `fingerprint` takes the first twelve characters.
pub record SubmissionView : Type 0 where
  pub id : ℕ
  pub team_id : ℕ
  pub team_name : String
  pub user_id : ℕ
  pub username : String
  pub challenge_id : ℕ
  pub challenge_title : String
  pub correct : Bool
  pub awarded_points : ℕ
  pub submitted_fingerprint : String
  pub ip_fingerprint : String
  pub created_at : ℕ

pub record SubmissionPage : Type 0 where
  pub items : List SubmissionView
  pub limit : ℕ
  pub offset : ℕ

-- `created_at.desc(), id.desc()`
abbrev pub newer_first : Submission → Submission → Bool
newer_first a b =
    if a.created_at == b.created_at then leb b.id a.id else ltb b.created_at a.created_at

-- Below the cursor.
abbrev pub below : ℕ → ℕ → Submission → Bool
below at id x = ltb x.created_at at || (x.created_at == at && ltb x.id id)

unfoldable pub cursor_guard : SubmissionQuery → Result (Unit {0})
cursor_guard query =
    raise_if
      (if is_some query.before_created_at
        then (not (is_some query.before_id) || (not query.before_zoned || not (query.offset == 0)))
        else is_some query.before_id)
      (api 422 Code.invalid_submission_cursor)

same_flag : Bool → Bool → Bool
same_flag true b = b
same_flag false b = not b

-- The event's submissions that the filters keep; the joins always find their rows.
unfoldable pub in_filter : Event → SubmissionQuery → Db → Submission → Bool
unfolding same_flag
in_filter event query d x =
    is_some (find_challenge x.challenge_id event.id d)
    && (elim query.challenge_id [ none ↦ true | some id ↦ x.challenge_id == id ]
        && elim query.correct [ none ↦ true | some b ↦ same_flag b x.correct ])

unfoldable pub below_cursor : SubmissionQuery → Submission → Bool
below_cursor query x = elim query.before_created_at [
  | none ↦ true
  | some at ↦ elim query.before_id [ none ↦ true | some id ↦ below at id x ]
]

-- The filtered rows in the order of the statement.
unfoldable pub matching : Event → SubmissionQuery → Db → List Submission
unfolding in_filter
matching event query d = sort_by newer_first (select_all (in_filter event query d) d.submissions)

-- The rows of a page: those below the cursor, from the offset, at most the limit.
unfoldable pub page_rows : Event → SubmissionQuery → Db → List Submission
unfolding matching below_cursor
page_rows event query d =
    limit query.limit
      (offset query.offset (select_all (below_cursor query) (matching event query d)))

text_of : {A : Type 0} → (A → String) → Option A → String
text_of f none = ""
text_of f (some a) = f a

submission_view : (String → String) → Event → Db → Submission → SubmissionView
unfolding text_of
submission_view fingerprint event d x = record {
  id = x.id;
  team_id = x.team_id;
  team_name = text_of (λ (t : Team). t.name) (select_one (λ (t : Team). t.id == x.team_id) d.teams);
  user_id = x.user_id;
  username =
      text_of (λ (u : User). u.username) (select_one (λ (u : User). u.id == x.user_id) d.users);
  challenge_id = x.challenge_id;
  challenge_title = text_of (λ (c : Challenge). c.title) (find_challenge x.challenge_id event.id d);
  correct = x.correct;
  awarded_points = x.awarded_points;
  submitted_fingerprint = fingerprint x.submitted_hash;
  ip_fingerprint = fingerprint x.ip_hash;
  created_at = x.created_at;
}

unfoldable pub admin_submissions :
    (String → String) → Request → SubmissionQuery → Db → Result SubmissionPage
unfolding page_rows cursor_guard submission_view
admin_submissions fingerprint request query d = elim (require_admin request d) [
  | err e ↦ err e
  | ok _ ↦ elim (event_or_404 d) [
    | err e ↦ err e
    | ok event ↦ elim (cursor_guard query) [
      | err e ↦ err e
      | ok _ ↦ ok (record {
        items = map (submission_view fingerprint event d) (page_rows event query d);
        limit = query.limit;
        offset = query.offset;
      })
    ]
  ]
]
