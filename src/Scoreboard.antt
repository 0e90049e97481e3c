-- ===== src/Scoreboard.antt =====
-- The cache of the public scoreboard (backend/src/alpha/routes_participant.py, routes_admin.py).
pub mod Totals
pub mod Ranking
pub mod Groups
pub mod Scored
pub mod Ranked
pub mod Frozen
pub mod Blind
pub mod Serve
pub mod Current
pub mod Served
use ctfnight.Base.{ℕ, String, [], ◌∷◌}
use ctfnight.Model.{CachedBoard}
use ctfnight.Event.{CachePhase, live_phase, frozen_phase, final_phase}
use ctfnight.Store.{Key, MemoryStore, increment, delete}

phase_name : CachePhase → String
phase_name live_phase = "scoreboard:public:live"
phase_name frozen_phase = "scoreboard:public:frozen"
phase_name final_phase = "scoreboard:public:final"

unfoldable pub board_key : ℕ → CachePhase → Key
unfolding phase_name
board_key event_id phase = record { template = phase_name phase; ids = event_id ∷ []; digest = "" }

unfoldable pub generation_key : ℕ → Key
generation_key event_id = record {
  template = "scoreboard:generation";
  ids = event_id ∷ [];
  digest = "";
}

-- The generation is bumped and the cached boards of the three phases are dropped.
unfoldable pub invalidate_scoreboard : ℕ → MemoryStore CachedBoard → MemoryStore CachedBoard
unfolding board_key generation_key
invalidate_scoreboard event_id store = delete (board_key event_id final_phase) (
    delete (board_key event_id frozen_phase)
      (delete (board_key event_id live_phase) (increment (generation_key event_id) store).1))
