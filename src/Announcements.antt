-- ===== src/Announcements.antt =====
-- Announcements: the administrator's routes (backend/src/alpha/routes_admin.py) and the participants'
-- list (backend/src/alpha/routes_participant.py).
pub mod Shown
use ctfnight.Base.{
  ℕ, String, Bool, true, false, ◌&&◌, ◌||◌, not, Option, none, some, List, [], ◌∷◌, Result, ok, err,
  api, Code, Error, or_raise, ◌==◌, leb, if◌then◌else◌, is_some, select_one, select_all, sort_by,
  delete_where, update_where, insert_row,
}
use ctfnight.Model.{Db, Event, Announcement, Json, Action, Topic, Target}
use ctfnight.Event.{assert_event_mutable}
use ctfnight.Journal.{add_audit, add_outbox}
use ctfnight.Access.{Request, require_admin, current_event}
use ctfnight.Admin.EventUpdate.{Patch, replaced, sets_null, named, event_or_404}
use ctfnight.App.{App, ◌>>=◌, ◌>>◌, pure, query, write, modify, commit, wait_for}

pub record AnnouncementCreateRequest : Type 0 where
  pub title : String
  pub body_md : String
  pub publish_at : Option ℕ

pub record AnnouncementPatch : Type 0 where
  pub title : Patch String
  pub body_md : Patch String
  pub publish_at : Patch ℕ

abbrev pub is_announcement : ℕ → Announcement → Bool
is_announcement id x = x.id == id

-- Primary key.
unfoldable pub insert_announcement : Announcement → Db → Result Db
insert_announcement row d =
    if is_some (select_one (is_announcement row.id) d.announcements)
    then err Error.integrity_error
    else ok (record d { announcements = insert_row row d.announcements })

unfoldable pub find_announcement : ℕ → ℕ → Db → Result Announcement
find_announcement id event_id d =
    or_raise
      (select_one (λ (x : Announcement). x.id == id && x.event_id == event_id) d.announcements)
      (api 404 Code.announcement_not_found)

-- A null publication time is now; a null title or body is refused by the flush.
unfoldable pub patch_announcement : AnnouncementPatch → ℕ → Announcement → Announcement
patch_announcement patch now item = record item {
  title = replaced patch.title item.title;
  body_md = replaced patch.body_md item.body_md;
  publish_at = elim patch.publish_at [
    | none ↦ item.publish_at
    | some none ↦ now
    | some (some t) ↦ t
  ];
}

unfoldable pub save_announcement : AnnouncementPatch → Announcement → Db → Result Db
save_announcement patch item d =
    if sets_null patch.title || sets_null patch.body_md
    then err Error.integrity_error
    else ok (record d {
      announcements = update_where (is_announcement item.id) (λ _. item) d.announcements;
    })

unfoldable pub drop_announcement : ℕ → Db → Db
drop_announcement id d = record d {
  announcements = delete_where (is_announcement id) d.announcements;
}

patch_fields : AnnouncementPatch → List String
unfolding named
patch_fields patch =
    named "body_md" (is_some patch.body_md)
      (named "publish_at" (is_some patch.publish_at) (named "title" (is_some patch.title) []))

-- POST /admin/announcements; `id` is the identifier that the insert draws.
unfoldable pub create_announcement :
    Request → (Db → Db) → ℕ → AnnouncementCreateRequest → App Announcement
create_announcement request others id payload = do
  admin ← query (require_admin request)
  wait_for others
  event ← query event_or_404
  query (λ _. assert_event_mutable event)
  let item : Announcement = record {
    id = id;
    event_id = event.id;
    title = payload.title;
    body_md = payload.body_md;
    publish_at = elim payload.publish_at [ none ↦ request.now | some t ↦ t ];
    created_at = request.now;
  }
  write (insert_announcement item)
  modify (
      add_audit request.now (some admin.id) Action.announcement_created Target.announcement
        (some item.id) [])
  modify (
      add_outbox request.now Topic.announcement_created Target.announcement item.id
        (("event_id", Json.ident event.id) ∷ []))
  commit
  pure item

-- PUT /admin/announcements/{announcement_id}
unfoldable pub update_announcement : Request → (Db → Db) → ℕ → AnnouncementPatch → App Announcement
unfolding patch_fields
update_announcement request others id patch = do
  admin ← query (require_admin request)
  wait_for others
  event ← query event_or_404
  query (λ _. assert_event_mutable event)
  found ← query (find_announcement id event.id)
  let item = patch_announcement patch request.now found
  modify (
      add_audit request.now (some admin.id) Action.announcement_updated Target.announcement
        (some item.id) (("fields", Json.texts (patch_fields patch)) ∷ []))
  modify (
      add_outbox request.now Topic.announcement_updated Target.announcement item.id
        (("event_id", Json.ident event.id) ∷ []))
  write (save_announcement patch item)
  commit
  pure item

-- DELETE /admin/announcements/{announcement_id}
unfoldable pub delete_announcement : Request → (Db → Db) → ℕ → App (Unit {0})
delete_announcement request others id = do
  admin ← query (require_admin request)
  wait_for others
  event ← query event_or_404
  query (λ _. assert_event_mutable event)
  item ← query (find_announcement id event.id)
  modify (drop_announcement item.id)
  modify (
      add_audit request.now (some admin.id) Action.announcement_deleted Target.announcement
        (some item.id) [])
  modify (
      add_outbox request.now Topic.announcement_deleted Target.announcement item.id
        (("event_id", Json.ident event.id) ∷ []))
  commit

abbrev later_first : Announcement → Announcement → Bool
later_first a b = leb b.publish_at a.publish_at

-- GET /admin/announcements
unfoldable pub admin_announcements : Request → Db → Result (List Announcement)
admin_announcements request d = elim (require_admin request d) [
  | err e ↦ err e
  | ok _ ↦ elim (event_or_404 d) [
    | err e ↦ err e
    | ok event ↦ ok (
        sort_by later_first
          (select_all (λ (x : Announcement). x.event_id == event.id) d.announcements))
  ]
]

-- GET /announcements
unfoldable pub announcements : ℕ → Db → List Announcement
announcements now d = elim (current_event d) [
  | none ↦ []
  | some event ↦ sort_by later_first (
      select_all (λ (x : Announcement). x.event_id == event.id && leb x.publish_at now)
        d.announcements)
]
