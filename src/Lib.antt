-- ===== src/Lib.antt =====
-- CTFnight is the backend of a capture-the-flag contest: FastAPI handlers (backend/src/alpha/) over a
-- relational database and an ephemeral store. This library models its handlers as functions and proves
-- what the contest rests on: the rules of teams, the books of submissions and points, the freeze of
-- the scoreboard, and the store's rate limits and leases.
--
-- The parts and their files:
--   Base          the libraries' names, tables as lists (Base.Table), results and exceptions
--                 (Base.Outcome), dictionaries (Base.Dict), integers (Base.Int).
--   Model         backend/src/alpha/models.py: a record per table, and `Db`, the list of each.
--   App           a request's database session (db.py): `db` has the pending changes, `committed` is
--                 what others see. A handler is a function `App A`; `commit`, `rollback`, `write` (a
--                 flush that a constraint may refuse), `catch_integrity` are the steps of the
--                 handlers. `wait_for others` stands where a handler first waits for a lock:
--                 `others` is any function that other sessions' commits make of the database.
--                 App.Limits is the loop over rate limits, App.Keeps carries an invariant through
--                 the steps of a handler, App.Answers what is committed when one returns.
--   Errors        errors.py: the response to each exception.
--   Event         services.py: the gates of the event by its state and times.
--   Store         store.py: `MemoryStore`, with the clock as an argument.
--   Security      security.py and `apply_flag` of services.py.
--   Scoring       `dynamic_points` and `challenge_points` of services.py.
--   Journal       `add_audit`, `add_outbox` and their coalescing forms (services.py).
--   Scoreboard    the keys of the cached scoreboard and their invalidation; `public_scoreboard` of
--                 services.py by its totals (Scoreboard.Totals) and ranking (Scoreboard.Ranking); and
--                 GET /scoreboard (Scoreboard.Serve), in which `others k` is what other requests do at
--                 its k-th step.
--   Access        dependencies.py, `current_event` and `team_display_name`.
--   Teams         routes_teams.py: the handlers that create, join and leave a team, with the rows
--                 (Teams.Rows), guards (Teams.Guards), view (Teams.View), replies (Teams.Reply) and
--                 the owner's handlers (Teams.Owner).
--   Submit        `submit_flag` of routes_participant.py: Submit.Checks is what it checks,
--                 Submit.Write its try block and the handler of a lost race.
--   Admin         routes_admin.py: `update_event` (Admin.EventUpdate) and
--                 `update_user_status` (Admin.UserStatus).
--   Accounts      routes_auth.py: new sessions (Accounts.Sessions), registration codes
--                 (Accounts.Codes, with their routes of routes_admin.py) `register`
--                 (Accounts.Register), `login` and `logout` (Accounts.Login), `change_password`
--                 (Accounts.Password).
--   Prerequisites `load_prerequisites` of services.py. Its depth-first search takes fuel, one more than
--                 there are challenges; Prerequisites.Ends proves this enough.
--   Admin.Challenges
--                 the challenge routes of routes_admin.py: their rows (Rows), the changes that a PUT asks
--                 for (Patches) and the handlers.
--   Admin.Submissions, Admin.Lists
--                 the administrator's lists.
--   Announcements the routes of announcements, and the participants' list.
--   Challenges    `challenges` and `challenge_detail` of routes_participant.py.
--   Middleware    main.py: the limit on bodies (Middleware.Body) and the CSRF check (Middleware.Csrf), with
--                 `issue_csrf` and `verify_csrf` of security.py and `_set_csrf_cookie` of
--                 routes_auth.py.
--   Cli           cli.py: `set-password` and `bootstrap` (Cli.Bootstrap).
--   Tests         the theorems at concrete inputs.
--
-- A handler's reads of the clock, its random identifiers and tokens are arguments. UUIDs are
-- numbers, timestamps microseconds. The retry loops of `login` and `change_password` recurse on
-- the number of attempts left, three at first as in the source. Primary keys, unique indexes and
-- foreign keys that an insert can violate are tests of the insert functions, which then return
-- `integrity_error`. Recursion is structural; only the search of
-- Prerequisites takes fuel.
--
-- Parameters, since their code is not in the repository: `Crypto` (HMAC, the regex engine, Argon2,
-- lower-casing and lengths of text), `Floats` (Python's float operations, with `IsRounded` for what
-- IEEE 754 says of them), `Sql` (the database's float operations and order of texts), `Serializer`
-- (itsdangerous, with `IsSigned` for what it promises of fresh tokens) and `Wire` (parsing of headers).
--
-- Not modelled: the Redis store (its scripts run in a server), the security headers and the assembly of
-- the application in main.py, the import of challenges and the argument parsing of cli.py,
-- migrations and deployment scripts, log lines, the
-- messages of errors, cookies other than those of the CSRF check, and `updated_at` columns.
pub mod Base
pub mod Model
pub mod Event
pub mod Store
pub mod App
pub mod Security
pub mod Journal
pub mod Access
pub mod Teams
pub mod Errors
pub mod Scoring
pub mod Prerequisites
pub mod Middleware
pub mod Announcements
pub mod Challenges
pub mod Cli
pub mod Scoreboard
pub mod Submit
pub mod Accounts
pub mod Admin
mod Tests
