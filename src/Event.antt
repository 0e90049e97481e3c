-- ===== src/Event.antt =====
-- The gates of an event's life (backend/src/alpha/services.py): what each state and each
-- timestamp allows, the order of the states and the lock on the scoreboard's freeze time.
-- Every reading of the clock is the argument `now`.
pub mod Gates
use ctfnight.Base.{
  ℕ, ◌+◌, Bool, true, false, ◌&&◌, ◌||◌, not, Option, none, some, List, [], ◌∷◌, Result, Error, ok,
  err, api, raise_if, Code, leb, ltb, ◌==◌, if◌then◌else◌,
}
use ctfnight.Model.{
  Event, EventState, draft, registration, live, frozen, ended, archived, state_index, Challenge,
  ScoringType, is_fixed,
}

abbrev pub state_eq : EventState → EventState → Bool
state_eq a b = state_index a == state_index b

-- `state in {"live", "frozen"}`
abbrev pub in_play : EventState → Bool
in_play live = true
in_play frozen = true
in_play _ = false

-- `state in {"ended", "archived"}`
abbrev pub is_over : EventState → Bool
is_over ended = true
is_over archived = true
is_over _ = false

-- `t is None or t <= now`
abbrev pub started : Option ℕ → ℕ → Bool
started none now = true
started (some t) now = leb t now

-- `t is None or now < t`
abbrev pub not_over : Option ℕ → ℕ → Bool
not_over none now = true
not_over (some t) now = ltb now t

-- `t and t <= now`
abbrev pub passed : Option ℕ → ℕ → Bool
passed none now = false
passed (some t) now = leb t now

abbrev pub time_eq : Option ℕ → Option ℕ → Bool
time_eq none none = true
time_eq none (some _) = false
time_eq (some _) none = false
time_eq (some a) (some b) = a == b

unfoldable pub state_allows_registration : Event → ℕ → Bool
state_allows_registration event now =
    state_eq event.state registration
    && (started event.registration_at now && not_over event.end_at now)

unfoldable pub state_allows_submission : Event → ℕ → Bool
state_allows_submission event now =
    in_play event.state && (started event.start_at now && not_over event.end_at now)

unfoldable pub state_allows_challenge_access : Event → ℕ → Bool
state_allows_challenge_access event now =
    if is_over event.state then true else (in_play event.state && started event.start_at now)

unfoldable pub assert_state_transition : EventState → EventState → Result (Unit {0})
assert_state_transition old new =
    if state_eq new old
    then ok tt
    else raise_if (state_eq old archived || not (state_index new == state_index old + 1))
        (api 409 Code.invalid_state_transition)

unfoldable pub assert_event_mutable : Event → Result (Unit {0})
assert_event_mutable event = raise_if (state_eq event.state archived) (api 409 Code.event_archived)

unfoldable pub scoreboard_freeze_locked : Event → ℕ → Bool
scoreboard_freeze_locked event now =
    state_eq event.state frozen
    || (is_over event.state || (state_eq event.state live && passed event.freeze_at now))

unfoldable pub public_scoreboard_is_frozen : Event → ℕ → Bool
public_scoreboard_is_frozen event now =
    state_eq event.state frozen || (state_eq event.state live && passed event.freeze_at now)

pub data CachePhase : Type 0 where
  live_phase frozen_phase final_phase : CachePhase

unfoldable pub public_scoreboard_cache_phase : Event → ℕ → CachePhase
unfolding public_scoreboard_is_frozen
public_scoreboard_cache_phase event now =
    if is_over event.state
    then final_phase
    else if public_scoreboard_is_frozen event now
    then frozen_phase
    else live_phase

unfoldable pub assert_freeze_at_mutable : Event → Option ℕ → ℕ → Result (Unit {0})
unfolding scoreboard_freeze_locked
assert_freeze_at_mutable event proposed now =
    raise_if (scoreboard_freeze_locked event now && not (time_eq proposed event.freeze_at))
      (api 409 Code.scoreboard_freeze_locked)

-- The four fields of the scoring formula, each present in the request or not. A column set to
-- null differs from every stored value.
pub record ScoringPatch : Type 0 where
  pub scoring_type : Option (Option ScoringType)
  pub initial_points : Option (Option ℕ)
  pub minimum_points : Option (Option ℕ)
  pub decay : Option (Option ℕ)

abbrev pub scoring_eq : ScoringType → ScoringType → Bool
scoring_eq a b = if is_fixed a then is_fixed b else not (is_fixed b)

abbrev pub differs {ℓ} : {A : Type ℓ} → (A → A → Bool) → Option (Option A) → A → Bool
differs eq none old = false
differs eq (some none) old = true
differs eq (some (some new)) old = not (eq new old)

abbrev pub num_eq : ℕ → ℕ → Bool
num_eq a b = a == b

unfoldable pub scoring_changed : Challenge → ScoringPatch → Bool
scoring_changed challenge proposed =
    differs scoring_eq proposed.scoring_type challenge.scoring_type
    || (differs num_eq proposed.initial_points challenge.initial_points
        || (differs num_eq proposed.minimum_points challenge.minimum_points
            || differs num_eq proposed.decay challenge.decay))

unfoldable pub assert_scoring_mutable : Event → Challenge → ScoringPatch → ℕ → Result (Unit {0})
unfolding scoring_changed scoreboard_freeze_locked
assert_scoring_mutable event challenge proposed now =
    raise_if (scoring_changed challenge proposed && scoreboard_freeze_locked event now)
      (api 409 Code.frozen_scoring_locked)
