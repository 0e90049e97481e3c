-- ===== src/Scoreboard/Serve.antt =====
-- GET /scoreboard (backend/src/alpha/routes_participant.py, `scoreboard`). `others` is what other
-- requests do, in the database and in the store, between one step of the handler and the next.
use ctfnight.Base.{
  ℕ, String, not, Option, none, some, [], ◌∷◌, ok, err, api, Code, Error, raise_if, or_raise, ◌==◌,
  if◌then◌else◌,
}
use ctfnight.Model.{Event, Scoreboard, CachedBoard}
use ctfnight.Event.{
  CachePhase, live_phase, frozen_phase, final_phase, public_scoreboard_cache_phase,
}
use ctfnight.Store.{Key, MemoryStore, get_counter, get_json, set_json, acquire_lease, release_lease}
use ctfnight.Access.{Request, current_event}
use ctfnight.App.{Session, App, ◌>>=◌, ◌>>◌, pure, lift, query, gets, touch}
use ctfnight.Scoreboard.{board_key, generation_key}
use ctfnight.Scoreboard.Totals.{Sql}
use ctfnight.Scoreboard.Ranking.{public_scoreboard}

abbrev pub scoreboard_build_lease_seconds : ℕ
scoreboard_build_lease_seconds = 45

-- The token that the lease draws, and the times of the second look and of the end of the build.
pub record BuildDraw : Type 0 where
  pub token : String
  pub reread : ℕ
  pub built : ℕ

build_name : CachePhase → String
build_name live_phase = "scoreboard:build:live"
build_name frozen_phase = "scoreboard:build:frozen"
build_name final_phase = "scoreboard:build:final"

unfoldable pub lease_key : ℕ → CachePhase → Key
unfolding build_name
lease_key event_id phase = record { template = build_name phase; ids = event_id ∷ []; digest = "" }

unfoldable pub cached_payload : Option CachedBoard → ℕ → Option Scoreboard
cached_payload none generation = none
cached_payload (some cached) generation =
    if cached.generation == generation then some cached.payload else none

-- A call of the store that returns something.
unfoldable pub with_store :
    {A : Type 0} → (MemoryStore CachedBoard → A × MemoryStore CachedBoard) → App A
with_store op s = let r = op s.store in (ok r.0, record s { store = r.1 })

-- The other requests move.
unfoldable pub pause : (Session → Session) → App (Unit {0})
pause others s = (ok tt, others s)

-- The generation, and the cached board if it is of this generation.
unfoldable pub look : (Session → Session) → ℕ → CachePhase → ℕ → App (ℕ × Option Scoreboard)
unfolding cached_payload with_store pause
look others event_id phase now = do
  generation ← with_store (λ t. (get_counter (generation_key event_id) t, t))
  pause others
  cached ← with_store (get_json (board_key event_id phase) now)
  pure (generation, cached_payload cached generation)

-- `finally: release_lease(…)`
unfoldable pub releasing : {A : Type 0} → Key → String → App A → App A
releasing key token m s =
    let r = m s in (r.0, record r.1 { store = (release_lease key token r.1.store).1 })

-- The `try` block under the lease. Other requests may move between the two queries of the board.
unfoldable pub build_board :
    Sql → (ℕ → Session → Session) → BuildDraw → Event → CachePhase → ℕ → ℕ → App Scoreboard
unfolding look pause with_store
build_board q others draw event phase now ttl = do
  found ← look (others 3) event.id phase draw.reread
  elim found.1 [
    | some board ↦ pure board
    | none ↦ do
      pause (others 4)
      counted ← gets (λ d. d)
      pause (others 5)
      board ← gets (λ d. public_scoreboard q counted d event now)
      pause (others 6)
      again ← with_store (λ t. (get_counter (generation_key event.id) t, t))
      lift
          (raise_if (not (again == found.0)) (Error.api_error 503 Code.scoreboard_changed (some 1)))
      pause (others 7)
      touch (
          set_json (board_key event.id phase) (record { generation = found.0; payload = board }) ttl
            draw.built)
      pure board
  ]

-- Somebody else builds: its board, if it is there by now.
unfoldable pub busy_board :
    (ℕ → Session → Session) → BuildDraw → Event → CachePhase → App Scoreboard
unfolding look
busy_board others draw event phase = do
  found ← look (others 3) event.id phase draw.reread
  elim found.1 [
    | some board ↦ pure board
    | none ↦ lift (err (Error.api_error 503 Code.scoreboard_busy (some 1)))
  ]

-- The lease, and what follows from it; an exception of the store is a 503.
unfoldable pub leased_board :
    Sql → (ℕ → Session → Session) → BuildDraw → Event → CachePhase → ℕ → ℕ → App Scoreboard
unfolding build_board busy_board with_store pause releasing lease_key
leased_board q others draw event phase now ttl = do
  lease ←
      with_store
        (acquire_lease (lease_key event.id phase) scoreboard_build_lease_seconds draw.token now)
  pause (others 2)
  elim lease [
    | err _ ↦ lift (err (api 503 Code.scoreboard_unavailable))
    | ok none ↦ busy_board others draw event phase
    | ok (some token) ↦
        releasing (lease_key event.id phase) token (build_board q others draw event phase now ttl)
  ]

unfoldable pub scoreboard : Sql → Request → (ℕ → Session → Session) → BuildDraw → App Scoreboard
unfolding leased_board look pause
scoreboard q request others draw = do
  event ← query (λ d. or_raise (current_event d) (api 404 Code.event_not_found))
  let phase = public_scoreboard_cache_phase event request.now
  found ← look (others 0) event.id phase request.now
  elim found.1 [
    | some board ↦ pure board
    | none ↦ do
      pause (others 1)
      leased_board q others draw event phase request.now request.settings.scoreboard_cache_seconds
  ]
