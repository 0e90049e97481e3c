-- ===== src/Tests/Accounts.antt =====
-- Sessions and suspensions at concrete inputs.
use ctfnight.Base.{
  arith, get, put, true, count_where, update_where, ℕ, ◌≤◌, ◌≡◌, ◌≢◌, refl, false, none, some, ok,
  [], ◌∷◌, select_one, update_where, select_all, delete_where, map, sort_by, limit, offset,
}
use ctfnight.Model.{Db, participant, admin, registration, code_access, RegistrationCode}
use ctfnight.Security.{hash_password, hash_session, hash_registration_access}
use ctfnight.Access.{current_user, require_admin, membership_for, current_event}
use ctfnight.App.{◌>>=◌}
use ctfnight.Accounts.Sessions.{
  NewSession, new_session, insert_session, drop_excess_sessions, excess_sessions, has_id,
  newest_first, cleanup_expired_sessions, max_active_sessions_per_user,
}
use ctfnight.Accounts.Sessions.Cap.{active_sessions, new_session-cap}
use ctfnight.Admin.UserStatus.{
  UserStatusUpdateRequest, AdminUserView, update_user_status, participant_by_id, revoke_sessions,
  set_status, store_status, admin_user_dict,
}
use ctfnight.Admin.UserStatus.Revoked.{suspension_revokes}
use ctfnight.Journal.{add_audit, add_outbox}
use ctfnight.Accounts.Register.{
  RegisterRequest, RegisterDraw, register, check_auth_rate, may_register, registering_event,
  account_exists, participant_count, insert_user,
}
use ctfnight.Accounts.Codes.{registration_code_or_denied, is_usable, count_use}
use ctfnight.App.Limits.{check_tiers}
use ctfnight.Store.{check_rate, same_key}
use ctfnight.Event.{state_allows_registration}
use ctfnight.Accounts.Login.{active_user}
use ctfnight.Accounts.Password.{
  PasswordDraw, ChangePasswordRequest, change_password, rotate_credentials, password_attempt,
  locked_identity, set_password,
}
use ctfnight.Accounts.Password.Rotation.{IsOnlySession, change_password-one_session}
use ctfnight.Security.{verify_password}
use ctfnight.Access.{Request, UserView, require_user, user_dict}
use ctfnight.Tests.Data.{crypto}
use ctfnight.Journal.{add_coalesced_audit, add_coalesced_outbox}
use ctfnight.Accounts.Register.Uses.{IsWithinUses}
use ctfnight.Accounts.Register.Limit.{register-IsWithinUses}
use ctfnight.Tests.Data.{event_in, request, registering, user, session, on}

abbrev alone : Db → Db
alone d = d

abbrev login : NewSession
login = record { session_id = 2; token = "fresh"; skipped = λ s. false }

abbrev logged_in : Db
logged_in = record registering {
  sessions =
      session 1 1 "alice"
      ∷ record (session 2 1 "fresh") {
        expires_at = 43200000100;
        last_seen_at = 100;
        created_at = 100;
      }
      ∷ [];
}

session_made : new_session request login (user 1 "alice") registering ≡ ok logged_in
unfolding new_session insert_session drop_excess_sessions excess_sessions has_id newest_first
    cleanup_expired_sessions select_all select_one delete_where sort_by limit offset hash_session
session_made = refl

new_session-cap_example : active_sessions 1 100 logged_in ≤ max_active_sessions_per_user
new_session-cap_example =
    new_session-cap request login (user 1 "alice") registering logged_in session_made

-- Alice is an administrator here and suspends bob, who has a session.
abbrev staffed : Db
staffed = record registering {
  users = record (user 1 "alice") { role = admin } ∷ user 2 "bob" ∷ [];
  sessions = session 1 1 "alice" ∷ session 2 2 "bob" ∷ [];
}

abbrev suspend : UserStatusUpdateRequest
suspend = record { active = false; reason = some "sharing flags" }

abbrev bob_suspended : AdminUserView
bob_suspended = record {
  id = 2;
  email = "bob";
  username = "bob";
  role = participant;
  active = false;
  password_change_required = false;
  team = none;
  created_at = 0;
}

suspended : (update_user_status request alone 2 suspend (on staffed)).0 ≡ ok bob_suspended
unfolding update_user_status ◌>>=◌ require_admin hash_session select_one participant_by_id
    admin_user_dict membership_for add_outbox add_audit set_status
suspended = refl

alice_stays :
    current_user request (update_user_status request alone 2 suspend (on staffed)).1.committed
    ≡ ok (record (user 1 "alice") { role = admin })
unfolding update_user_status ◌>>=◌ require_admin hash_session select_one participant_by_id
    set_status revoke_sessions store_status add_audit add_outbox delete_where update_where
    current_user
alice_stays = refl

suspension_revokes_example : ◌≢◌ {A = ℕ} 1 2
suspension_revokes_example =
    suspension_revokes request alone 2 suspend (on staffed) bob_suspended refl suspended request
      (record (user 1 "alice") { role = admin }) alice_stays

-- A contest that takes registrations with a code, which may be used once.
abbrev coded : Db
coded = record registering {
  events = record (event_in registration) { registration_access_mode = code_access } ∷ [];
  registration_codes =
      record {
        id = 4;
        event_id = 1;
        token_hash = "#registration-access\0letmein";
        label = "guests";
        max_uses = some 1;
        use_count = 0;
        expires_at = none;
        active = true;
        created_by = 1;
        created_at = 0;
        revoked_at = none;
      }
      ∷ [];
}

abbrev carol : RegisterRequest
carol = record {
  email = "carol";
  username = "carol";
  password = "correct horse";
  access_code = some "letmein";
}

abbrev first_draw : RegisterDraw
first_draw = record {
  user_id = 3;
  short_id = "00000003";
  team_id = 12;
  membership_id = 13;
  invite = "unused";
  slot = true;
  locked = 110;
  session = record { session_id = 5; token = "carol"; skipped = λ s. false };
}

coded-IsWithinUses : IsWithinUses coded
unfolding count_where
coded-IsWithinUses = record { one_code = λ id. ground arith; within = refl }

register-IsWithinUses_example :
    IsWithinUses (register request alone first_draw carol (on coded)).1.committed
register-IsWithinUses_example =
    register-IsWithinUses request alone first_draw carol (on coded) (λ d w. w) coded-IsWithinUses

-- Carol's registration uses the code up.
uses_after :
    map
      (λ (c : RegistrationCode). c.use_count)
      (register request alone first_draw carol (on coded)).1.committed.registration_codes
    ≡ 1 ∷ []
unfolding register ◌>>=◌ check_auth_rate check_tiers check_rate same_key get put may_register
    registering_event registration_code_or_denied is_usable account_exists participant_count
    current_event state_allows_registration insert_user new_session insert_session
    drop_excess_sessions excess_sessions has_id newest_first cleanup_expired_sessions select_all
    select_one delete_where sort_by limit offset count_use count_where update_where add_audit
    add_outbox hash_password hash_registration_access hash_session
uses_after = refl

-- Alice changes her password while she has a second session elsewhere.
abbrev knowing : Request
knowing = record request { crypto = record crypto { argon2_verify = λ h p. true } }

abbrev twice_in : Db
twice_in = record registering { sessions = session 1 1 "alice" ∷ session 9 1 "phone" ∷ [] }

abbrev quiet : ℕ → Db → Db
quiet n d = d

abbrev change_draw : PasswordDraw
change_draw = record {
  user_text = λ n. "1";
  verify_slot = λ n. true;
  hash_slot = true;
  locked = 110;
  session = record { session_id = 5; token = "rotated"; skipped = λ s. false };
}

abbrev new_password : ChangePasswordRequest
new_password = record { current_password = "pw"; new_password = "a better one" }

abbrev alice_view : UserView
alice_view = record {
  id = 1;
  email = "alice";
  username = "alice";
  role = participant;
  active = true;
  password_change_required = false;
  team = none;
}

password_changed :
    change_password knowing quiet change_draw new_password (on twice_in)
    ≡ (ok alice_view, (change_password knowing quiet change_draw new_password (on twice_in)).1)
unfolding change_password rotate_credentials ◌>>=◌ check_auth_rate check_tiers check_rate same_key
    get put require_user verify_password hash_password password_attempt locked_identity active_user
    set_password revoke_sessions new_session insert_session drop_excess_sessions excess_sessions
    has_id newest_first cleanup_expired_sessions select_all select_one delete_where sort_by limit
    offset update_where hash_session user_dict membership_for add_coalesced_audit
    add_coalesced_outbox
password_changed = refl

change_password-one_session_example :
    IsOnlySession knowing change_draw.session change_draw.locked 1
      (change_password knowing quiet change_draw new_password (on twice_in)).1.committed.sessions
change_password-one_session_example =
    change_password-one_session knowing quiet change_draw new_password (on twice_in)
      (change_password knowing quiet change_draw new_password (on twice_in)).1 alice_view
      password_changed
