-- ===== src/Announcements/Shown.antt =====
-- What the writes of announcements do to the list that participants see.
use ctfnight.Base.{
  ℕ, ◌+◌, ◌≡◌, refl, Bool, ◌&&◌, some, ok, arith, ◌==◌, leb, to_num, count_where, select_all,
  count_where-sort_by, count_where-select_all, count_where-insert_row, insert_row,
}
use ctfnight.Model.{Db, Event, Announcement}
use ctfnight.Access.{current_event}
use ctfnight.Announcements.{announcements, insert_announcement, later_first}

current_event-announcements :
    (d after : Db) → after.events ≡ d.events → current_event after ≡ current_event d
unfolding current_event
current_event-announcements d after e = rw e refl

-- The participants' list has of any kind of announcement those of the event that are published by now.
pub counted :
    (p : Announcement → Bool) (now : ℕ) (d : Db) (event : Event)
    → current_event d ≡ some event
    → count_where p (announcements now d)
      ≡ count_where
          (λ (x : Announcement). (x.event_id == event.id && leb x.publish_at now) && p x)
          d.announcements
unfolding announcements
counted p now d event e =
    let q : Announcement → Bool = λ x. x.event_id == event.id && leb x.publish_at now in
    rw (e, announcements)
      (omega (
        arith,
        count_where-sort_by later_first p (select_all q d.announcements),
        count_where-select_all p q d.announcements,
      ))

-- A new announcement of the current event joins the participants' list once it is published, and
-- nothing else changes there.
pub announcements-insert_announcement :
    (p : Announcement → Bool) (now : ℕ) (d after : Db) (event : Event) (item : Announcement)
    → current_event d ≡ some event
    → item.event_id ≡ event.id
    → insert_announcement item d ≡ ok after
    → count_where p (announcements now after)
      ≡ count_where p (announcements now d) + to_num (leb item.publish_at now && p item)
unfolding insert_announcement
announcements-insert_announcement p now d after event item e own h =
    let q : Announcement → Bool = λ x. (x.event_id == event.id && leb x.publish_at now) && p x in
    let e' : after ≡ record d { announcements = insert_row item d.announcements } = ground arith in
    let events : after.events ≡ d.events = rw e' refl in
    let rows : after.announcements ≡ insert_row item d.announcements = rw e' refl in
    let there : current_event after ≡ some event =
      rw (current_event-announcements d after events) e in
    let seen : q item ≡ (leb item.publish_at now && p item) = ground arith in
    rw (counted p now after event there, counted p now d event e, rows)
      (rw (← seen) (count_where-insert_row q item d.announcements))
