-- ===== src/Admin/Guarded.antt =====
-- No route of the administrator does anything for a caller who is not one.
use ctfnight.Base.{ℕ, String, ◌≡◌, refl, Bool, false, Result, ok, err, api, Code, Error, arith}
use ctfnight.Model.{Db, User, is_admin}
use ctfnight.Scoring.{Floats}
use ctfnight.Access.{Request, require_admin, current_user}
use ctfnight.App.{Session, App, ◌>>=◌, query}
use ctfnight.Accounts.Codes.{
  create_registration_code, revoke_registration_code, RegistrationCodeCreateRequest,
}
use ctfnight.Admin.EventUpdate.{EventPatch, update_event}
use ctfnight.Admin.UserStatus.{UserStatusUpdateRequest, update_user_status}
use ctfnight.Admin.Challenges.{
  create_challenge, update_challenge, delete_challenge, set_visibility, ChallengeCreateRequest,
  ChallengePatch,
}
use ctfnight.Announcements.{
  create_announcement, update_announcement, delete_announcement, AnnouncementCreateRequest,
  AnnouncementPatch, admin_announcements,
}
use ctfnight.Admin.Submissions.{admin_submissions, SubmissionQuery}
use ctfnight.Admin.Lists.{
  Paging, admin_event, registration_codes, admin_challenges, admin_users, admin_teams, admin_audit,
  admin_outbox, for_admin,
}

-- The routes of the administrator, each with its arguments.
pub data AdminRoute (f : Floats) (request : Request) : (A : Type 0) → App A → Type 1 where
  event_put :
      (others : Db → Db) (patch : EventPatch)
      → AdminRoute f request _ (update_event request others patch)
  code_post :
      (others : Db → Db) (id : ℕ) (code : String) (payload : RegistrationCodeCreateRequest)
      → AdminRoute f request _ (create_registration_code request others id code payload)
  code_delete :
      (others : Db → Db) (id : ℕ)
      → AdminRoute f request _ (revoke_registration_code request others id)
  challenge_post :
      (others : Db → Db) (id : ℕ) (payload : ChallengeCreateRequest)
      → AdminRoute f request _ (create_challenge f request others id payload)
  challenge_put :
      (others : Db → Db) (id : ℕ) (patch : ChallengePatch)
      → AdminRoute f request _ (update_challenge f request others id patch)
  challenge_delete :
      (others : Db → Db) (id : ℕ) → AdminRoute f request _ (delete_challenge request others id)
  visibility_post :
      (others : Db → Db) (id : ℕ) (visible : Bool)
      → AdminRoute f request _ (set_visibility f request others id visible)
  announcement_post :
      (others : Db → Db) (id : ℕ) (payload : AnnouncementCreateRequest)
      → AdminRoute f request _ (create_announcement request others id payload)
  announcement_put :
      (others : Db → Db) (id : ℕ) (patch : AnnouncementPatch)
      → AdminRoute f request _ (update_announcement request others id patch)
  announcement_delete :
      (others : Db → Db) (id : ℕ) → AdminRoute f request _ (delete_announcement request others id)
  status_put :
      (others : Db → Db) (id : ℕ) (payload : UserStatusUpdateRequest)
      → AdminRoute f request _ (update_user_status request others id payload)
  event_get : AdminRoute f request _ (query (admin_event request))
  codes_get : (p : Paging) → AdminRoute f request _ (query (registration_codes request p))
  challenges_get :
      (text_le : String → String → Bool)
      → AdminRoute f request _ (query (admin_challenges f text_le request))
  announcements_get : AdminRoute f request _ (query (admin_announcements request))
  submissions_get :
      (fingerprint : String → String) (q : SubmissionQuery)
      → AdminRoute f request _ (query (admin_submissions fingerprint request q))
  users_get : (p : Paging) → AdminRoute f request _ (query (admin_users request p))
  teams_get : (p : Paging) → AdminRoute f request _ (query (admin_teams request p))
  audit_get : (p : Paging) → AdminRoute f request _ (query (admin_audit request p))
  outbox_get :
      (pending_only : Bool) (n : ℕ)
      → AdminRoute f request _ (query (admin_outbox request pending_only n))

stops :
    {A B : Type 0} (q : Db → Result A) (k : A → App B) (s : Session) (e : Error)
    → q s.db ≡ err e
    → (query q >>= k) s ≡ (err e, s)
unfolding ◌>>=◌
stops q k s e h = rw h refl

reads :
    {A : Type 0} (q : Db → Result A) (s : Session) (e : Error)
    → q s.db ≡ err e
    → query q s ≡ (err e, s)
unfolding ◌>>=◌
reads q s e h = rw h refl

refused_caller :
    (request : Request) (d : Db) (user : User)
    → current_user request d ≡ ok user
    → is_admin user.role ≡ false
    → require_admin request d ≡ err (api 403 Code.admin_required)
unfolding require_admin
refused_caller request d user caller outsider = rw (caller, require_admin) (ground arith)

for_admin-refused :
    {A : Type 0} (request : Request) (answer : Db → Result A) (d : Db) (e : Error)
    → require_admin request d ≡ err e
    → for_admin request answer d ≡ err e
unfolding for_admin
for_admin-refused request answer d e h = rw (h, for_admin) refl

refused_route :
    (f : Floats) (request : Request) (A : Type 0) (m : App A) (s : Session) (e : Error)
    → AdminRoute f request A m
    → require_admin request s.db ≡ err e
    → m s ≡ (err e, s)
unfolding update_event create_registration_code revoke_registration_code create_challenge
    update_challenge delete_challenge set_visibility create_announcement update_announcement
    delete_announcement update_user_status admin_event registration_codes admin_challenges
    admin_announcements admin_submissions admin_users admin_teams admin_audit admin_outbox
refused_route f request A m s e (event_put a b) h = stops (require_admin request) _ s e h
refused_route f request A m s e (code_post a b c d) h = stops (require_admin request) _ s e h
refused_route f request A m s e (code_delete a b) h = stops (require_admin request) _ s e h
refused_route f request A m s e (challenge_post a b c) h = stops (require_admin request) _ s e h
refused_route f request A m s e (challenge_put a b c) h = stops (require_admin request) _ s e h
refused_route f request A m s e (challenge_delete a b) h = stops (require_admin request) _ s e h
refused_route f request A m s e (visibility_post a b c) h = stops (require_admin request) _ s e h
refused_route f request A m s e (announcement_post a b c) h = stops (require_admin request) _ s e h
refused_route f request A m s e (announcement_put a b c) h = stops (require_admin request) _ s e h
refused_route f request A m s e (announcement_delete a b) h = stops (require_admin request) _ s e h
refused_route f request A m s e (status_put a b c) h = stops (require_admin request) _ s e h
refused_route f request A m s e event_get h = reads _ s e (for_admin-refused request _ s.db e h)
refused_route f request A m s e (codes_get a) h = reads _ s e (for_admin-refused request _ s.db e h)
refused_route f request A m s e (challenges_get a) h =
    reads _ s e (for_admin-refused request _ s.db e h)
refused_route f request A m s e announcements_get h = reads _ s e (rw (h, admin_announcements) refl)
refused_route f request A m s e (submissions_get a b) h =
    reads _ s e (rw (h, admin_submissions) refl)
refused_route f request A m s e (users_get a) h = reads _ s e (for_admin-refused request _ s.db e h)
refused_route f request A m s e (teams_get a) h = reads _ s e (for_admin-refused request _ s.db e h)
refused_route f request A m s e (audit_get a) h = reads _ s e (for_admin-refused request _ s.db e h)
refused_route f request A m s e (outbox_get a b) h =
    reads _ s e (for_admin-refused request _ s.db e h)

-- A caller whose session is no administrator's gets a 403 from each of the routes, and the
-- session is left as it was.
pub admin_only :
    (f : Floats) (request : Request) (A : Type 0) (m : App A) (s : Session) (user : User)
    → AdminRoute f request A m
    → current_user request s.db ≡ ok user
    → is_admin user.role ≡ false
    → m s ≡ (err (api 403 Code.admin_required), s)
admin_only f request A m s user route caller outsider =
    refused_route f request A m s (api 403 Code.admin_required) route
      (refused_caller request s.db user caller outsider)
