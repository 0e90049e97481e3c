-- ===== src/Tests/Data.antt =====
-- A small contest: two users, one team with one member, one event that is live or registering, one
-- challenge with the flag "flag{x}".
use ctfnight.Base.{ℕ, String, true, false, none, some, [], ◌∷◌, text_append}
use ctfnight.Model.{
  Db, empty_db, User, participant, SessionToken, Team, owner, Event, EventState, registration, live,
  team, open_access, Challenge, fixed, exact,
}
use ctfnight.Security.{Crypto, no_match}
use ctfnight.Access.{Request, Settings}
use ctfnight.App.{Session}

-- A hash that only marks its message.
abbrev pub crypto : Crypto
crypto = record {
  hmac_hex = λ secret m. text_append "#" m;
  compiles = λ p. true;
  fullmatch = λ p t. no_match;
  argon2_hash = λ p. text_append "argon2:" p;
  argon2_verify = λ h p. false;
  argon2_needs_rehash = λ h. false;
  strip = λ t. t;
  lower = λ t. t;
  text_length = λ t. 7;
}

abbrev pub settings : Settings
settings = record {
  secret_key = "k";
  session_ttl_hours = 12;
  session_cleanup_batch_size = 100;
  max_flag_length = 256;
  team_mutation_rate_limit = 5;
  team_mutation_ip_rate_limit = 20;
  team_mutation_rate_window_seconds = 60;
  submission_rate_limit = 10;
  submission_ip_rate_limit = 30;
  submission_challenge_rate_limit = 100;
  submission_rate_window_seconds = 60;
  auth_rate_limit = 10;
  auth_ip_rate_limit = 100;
  auth_rate_window_seconds = 60;
  registration_global_rate_limit = 100;
  registration_global_rate_window_seconds = 60;
  scoreboard_cache_seconds = 5;
}

abbrev pub request : Request
request = record {
  crypto = crypto;
  settings = settings;
  session_cookie = some "alice";
  client_ip = "10.0.0.1";
  now = 100;
}

abbrev pub user : ℕ → String → User
user id name = record {
  id = id;
  email = name;
  username = name;
  password_hash = "argon2:pw";
  role = participant;
  active = true;
  password_change_required = false;
  credential_version = 0;
  created_at = 0;
}

abbrev pub session : ℕ → ℕ → String → SessionToken
session id user_id token = record {
  id = id;
  token_hash = text_append "#session\0" token;
  user_id = user_id;
  credential_version = 0;
  expires_at = 1000;
  last_seen_at = 0;
  created_at = 0;
}

abbrev pub event_in : EventState → Event
event_in state = record {
  id = 1;
  name = "CTF";
  slug = "ctf";
  description_md = "";
  state = state;
  registration_at = none;
  start_at = some 50;
  freeze_at = some 500;
  end_at = some 900;
  team_mode = team;
  registration_access_mode = open_access;
  created_at = 0;
}

abbrev pub red : Team
red = record { id = 7; name = "red"; invite_hash = "#invite\0old"; creator_id = 1; created_at = 0 }

abbrev pub warmup : Challenge
warmup = record {
  id = 3;
  event_id = 1;
  slug = "warmup";
  title = "Warmup";
  category = "misc";
  description_md = "x";
  connection_info = none;
  scoring_type = fixed;
  initial_points = 100;
  minimum_points = 100;
  decay = 20;
  visible = true;
  visible_at = none;
  max_attempts = 0;
  flag_type = exact;
  flag_hash = some "#flag\0flag{x}";
  flag_regex = none;
  prerequisites = [];
  created_at = 0;
}

-- While teams may change: nobody has a team yet.
abbrev pub registering : Db
registering = record empty_db {
  users = user 1 "alice" ∷ user 2 "bob" ∷ [];
  sessions = session 1 1 "alice" ∷ [];
  events = event_in registration ∷ [];
}

-- While the contest runs: alice is the red team.
abbrev pub running : Db
running = record empty_db {
  users = user 1 "alice" ∷ user 2 "bob" ∷ [];
  sessions = session 1 1 "alice" ∷ [];
  teams = red ∷ [];
  memberships = record { id = 1; user_id = 1; team_id = 7; role = owner; joined_at = 0 } ∷ [];
  events = event_in live ∷ [];
  challenges = warmup ∷ [];
}

abbrev pub on : Db → Session
on d = record { db = d; committed = d; store = record { values = []; counters = []; leases = [] } }
