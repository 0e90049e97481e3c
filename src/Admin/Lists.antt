-- ===== src/Admin/Lists.antt =====
-- The lists of the administrator (backend/src/alpha/routes_admin.py): users, teams, challenges, codes,
-- audit and outbox rows. The query of a list is its limit and offset.
use ctfnight.Base.{
  ℕ, String, Bool, true, not, List, Result, ok, err, ◌==◌, leb, ltb, str_eq, if◌then◌else◌, is_some,
  select_all, sort_by, limit, offset, count_where, map,
}
use ctfnight.Model.{
  Db, Event, User, Team, Membership, Challenge, RegistrationCode, AuditEvent, OutboxEvent,
}
use ctfnight.Scoring.{Floats}
use ctfnight.Access.{Request, require_admin}
use ctfnight.Admin.EventUpdate.{event_or_404}
use ctfnight.Admin.UserStatus.{AdminUserView, admin_user_dict}
use ctfnight.Admin.Challenges.{AdminChallengeView, admin_challenge_dict}

pub record Paging : Type 0 where
  pub limit : ℕ
  pub offset : ℕ

-- `stmt.offset(offset).limit(limit)`
abbrev pub paged : {A : Type 0} → Paging → List A → List A
paged p rows = limit p.limit (offset p.offset rows)

-- The answer of a handler to an administrator.
unfoldable pub for_admin : {A : Type 0} → Request → (Db → Result A) → Db → Result A
for_admin request answer d = elim (require_admin request d) [ ok _ ↦ answer d | err e ↦ err e ]

unfoldable pub for_event : {A : Type 0} → (Event → Db → A) → Db → Result A
for_event answer d = elim (event_or_404 d) [ ok event ↦ ok (answer event d) | err e ↦ err e ]

-- GET /admin/event
unfoldable pub admin_event : Request → Db → Result Event
admin_event request = for_admin request event_or_404

-- GET /admin/registration-codes, the newest first.
unfoldable pub registration_codes : Request → Paging → Db → Result (List RegistrationCode)
registration_codes request p = for_admin request (
    for_event (λ event d. paged p (
      sort_by
        (λ (a b : RegistrationCode).
          if a.created_at == b.created_at then leb b.id a.id else ltb b.created_at a.created_at)
        (select_all (λ (c : RegistrationCode). c.event_id == event.id) d.registration_codes))))

-- GET /admin/challenges
unfoldable pub admin_challenges :
    Floats → (String → String → Bool) → Request → Db → Result (List AdminChallengeView)
admin_challenges f text_le request = for_admin request (
    for_event (λ event d.
      map (λ c. admin_challenge_dict f c d)
        (sort_by
          (λ (a b : Challenge).
            if str_eq a.category b.category
            then text_le a.title b.title
            else text_le a.category b.category)
          (select_all (λ (c : Challenge). c.event_id == event.id) d.challenges))))

-- GET /admin/users
unfoldable pub admin_users : Request → Paging → Db → Result (List AdminUserView)
admin_users request p = for_admin request (λ d. ok (
    map (λ u. admin_user_dict u d)
      (paged p (sort_by (λ (a b : User). leb a.created_at b.created_at) d.users))))

pub record AdminTeamRow : Type 0 where
  pub id : ℕ
  pub name : String
  pub member_count : ℕ
  pub created_at : ℕ

-- GET /admin/teams
unfoldable pub admin_teams : Request → Paging → Db → Result (List AdminTeamRow)
admin_teams request p = for_admin request (λ d. ok (
    map
      (λ (t : Team). record {
        id = t.id;
        name = t.name;
        member_count = count_where (λ (m : Membership). m.team_id == t.id) d.memberships;
        created_at = t.created_at;
      })
      (paged p (sort_by (λ (a b : Team). leb a.created_at b.created_at) d.teams))))

-- GET /admin/audit
unfoldable pub admin_audit : Request → Paging → Db → Result (List AuditEvent)
admin_audit request p = for_admin request (λ d.
    ok (paged p (sort_by (λ (a b : AuditEvent). leb b.created_at a.created_at) d.audit_events)))

-- GET /admin/outbox
unfoldable pub admin_outbox : Request → Bool → ℕ → Db → Result (List OutboxEvent)
admin_outbox request pending_only n = for_admin request (λ d. ok (
    limit n (
      sort_by (λ (a b : OutboxEvent). leb a.created_at b.created_at)
        (select_all
          (λ (x : OutboxEvent). if pending_only then not (is_some x.delivered_at) else true)
          d.outbox_events))))
