-- ===== src/Tests/Cli.antt =====
-- The commands at concrete inputs: bob, who has a session, gets a new password, and an empty
-- database gets its event and administrator.
use ctfnight.Base.{Option, ◌≤◌, ◌≡◌, ◌⊎◌, String, true, some, refl}
use ctfnight.Base.{select_one, delete_where, [], ◌∷◌}
use ctfnight.Model.{Db, User}
use ctfnight.Security.{Crypto, hash_password, apply_flag}
use ctfnight.Journal.{add_audit, add_outbox}
use ctfnight.Access.{latest}
use ctfnight.Accounts.Register.{insert_user}
use ctfnight.Admin.Challenges.{insert_challenge}
use ctfnight.Announcements.{insert_announcement}
use ctfnight.Admin.UserStatus.{revoke_sessions}
use ctfnight.Tests.Data.{crypto, registering, user, session}
use ctfnight.Cli.{set_password_command, exit_status, user_by_email, store_recovery}
use ctfnight.Cli.Recovery.{IsRecovered, IsRefused, set_password_command-IsRecovered}
use ctfnight.Cli.{done}
use ctfnight.Tests.Data.{settings}
use ctfnight.Model.{empty_db}
use ctfnight.Cli.Bootstrap.{
  truthy, flushed, BootstrapSettings, BootstrapDraw, and_then, finished, ensure_event, admin_exists,
  settings_guard, add_admin, create_admin, ensure_admin, seed_demo_rows, bootstrap_rows, bootstrap,
}
use ctfnight.Cli.Founded.{Grows, bootstrap-Grows}

abbrev locked_out : Db
locked_out = record registering {
  users = user 1 "alice" ∷ user 2 "bob" ∷ [];
  sessions = session 1 1 "alice" ∷ session 2 2 "bob" ∷ [];
}

-- A password is as long as its hash says.
abbrev long : Crypto
long = record crypto { text_length = λ t. 14 }

set_password_command-IsRecovered_example :
    let r = set_password_command long true 100 (some "correct horses") "bob" locked_out in
    ((password : String) × (owner : User) × (◌≡◌ {A = Option String}
        (some "correct horses")
        (some password))
      × (12 ≤ long.text_length password)
      × (user_by_email long "bob" locked_out ≡ some owner)
      × (true ≡ true)
      × (exit_status r.0 ≡ 0)
      × IsRecovered owner (long.argon2_hash password) locked_out r.1)
    ⊎ (IsRefused long true (some "correct horses") "bob" locked_out
        × (exit_status r.0 ≡ 1)
        × (r.1 ≡ locked_out))
set_password_command-IsRecovered_example =
    set_password_command-IsRecovered long true 100 (some "correct horses") "bob" locked_out

set_password_command_run :
    (set_password_command long true 100 (some "correct horses") "bob" locked_out).1.sessions
    ≡ session 1 1 "alice" ∷ []
unfolding set_password_command user_by_email select_one hash_password add_audit revoke_sessions
    delete_where store_recovery
set_password_command_run = refl

abbrev founding : BootstrapSettings
founding = record {
  production = true;
  admin_email = some "root@ctf";
  admin_username = "root";
  admin_password = some "correct horses";
  seed_demo = true;
  application = settings;
}

abbrev drawn : BootstrapDraw
drawn = record {
  event_id = 1;
  admin_id = 9;
  challenge_id = λ n. n;
  announcement_id = 4;
  slot = true;
  now = 100;
}

-- From no rows at all: the event, the administrator, the demo challenges and their announcement.
founded : (bootstrap long founding drawn empty_db).0 ≡ done
unfolding bootstrap finished bootstrap_rows and_then ensure_event settings_guard ensure_admin
    create_admin add_admin seed_demo_rows truthy admin_exists select_one latest add_audit
    hash_password flushed insert_user add_outbox apply_flag insert_challenge insert_announcement
founded = refl

bootstrap-Grows_example :
    Grows long founding drawn empty_db (bootstrap long founding drawn empty_db).1
    × (admin_exists long founding (bootstrap long founding drawn empty_db).1 ≡ true)
bootstrap-Grows_example = bootstrap-Grows long founding drawn empty_db refl founded
