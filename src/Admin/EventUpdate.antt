-- ===== src/Admin/EventUpdate.antt =====
-- PUT /admin/event (backend/src/alpha/routes_admin.py, `update_event`).
pub mod Freeze
use ctfnight.Base.{
  is_some, ℕ, ◌+◌, String, Bool, true, false, ◌&&◌, ◌||◌, not, Option, none, some, List, [], ◌∷◌,
  Result, ok, err, api, Code, Error, raise_if, or_raise, ◌==◌, leb, ltb, if◌then◌else◌, str_eq,
  count_where, update_where, Result-cases, length,
}
use ctfnight.Model.{
  Db, User, Event, EventState, draft, registration, live, frozen, ended, archived, TeamMode,
  is_individual, RegistrationAccessMode, is_code_access, is_participant, Membership, Json, Action,
  Topic, Target,
}
use ctfnight.Event.{
  state_eq, started, passed, assert_state_transition, assert_event_mutable,
  assert_freeze_at_mutable,
}
use ctfnight.Journal.{add_audit, add_outbox}
use ctfnight.Scoreboard.{invalidate_scoreboard}
use ctfnight.Access.{Request, require_admin, current_event}
use ctfnight.App.{
  App, ◌>>=◌, ◌>>◌, pure, lift, query, gets, write, modify, commit, wait_for, catch_integrity,
  touch,
}

-- A field of `payload.model_dump(exclude_unset=True)`: absent, null or a value.
abbrev pub Patch : Type 0 → Type 0
Patch A = Option (Option A)

pub record EventPatch : Type 0 where
  pub name : Patch String
  pub slug : Patch String
  pub description_md : Patch String
  pub state : Patch EventState
  pub registration_at : Patch ℕ
  pub start_at : Patch ℕ
  pub freeze_at : Patch ℕ
  pub end_at : Patch ℕ
  pub team_mode : Patch TeamMode
  pub registration_access_mode : Patch RegistrationAccessMode

-- A nullable column takes what the request says.
abbrev pub patched : {A : Type 0} → Patch A → Option A → Option A
patched none old = old
patched (some new) old = new

-- A column that is NOT NULL; a null is refused by the flush (`null_column`).
abbrev pub replaced : {A : Type 0} → Patch A → A → A
replaced none old = old
replaced (some none) old = old
replaced (some (some new)) old = new

abbrev pub sets_null : {A : Type 0} → Patch A → Bool
sets_null none = false
sets_null (some none) = true
sets_null (some (some _)) = false

state_name : EventState → String
state_name draft = "draft"
state_name registration = "registration"
state_name live = "live"
state_name frozen = "frozen"
state_name ended = "ended"
state_name archived = "archived"

unfoldable pub slug_guard : Patch String → String → Result (Unit {0})
slug_guard none old = ok tt
slug_guard (some none) old = err (api 409 Code.event_slug_locked)
slug_guard (some (some new)) old = raise_if (not (str_eq new old)) (api 409 Code.event_slug_locked)

unfoldable pub freeze_guard : Patch ℕ → Event → ℕ → Result (Unit {0})
freeze_guard none event now = ok tt
freeze_guard (some proposed) event now = assert_freeze_at_mutable event proposed now

mode_eq : TeamMode → TeamMode → Bool
mode_eq a b = if is_individual a then is_individual b else not (is_individual b)

-- Participants or memberships lock the team mode.
unfoldable pub mode_guard : Patch TeamMode → Event → Db → Result (Unit {0})
unfolding mode_eq
mode_guard none event d = ok tt
mode_guard (some proposed) event d =
    raise_if
      (elim proposed [ none ↦ true | some new ↦ not (mode_eq new event.team_mode) ]
        && (not (count_where (λ (u : User). is_participant u.role) d.users == 0)
            || not (length d.memberships == 0)))
      (api 409 Code.team_mode_locked)

-- A null state is looked up in `EVENT_STATES`, which is a ValueError.
unfoldable pub state_guard : Patch EventState → Event → Result (Unit {0})
state_guard none event = ok tt
state_guard (some none) event = err Error.unexpected_error
state_guard (some (some new)) event = assert_state_transition event.state new

-- Freezing sets the freeze time to now, unless it is set and has passed.
frozen_now : EventPatch → Event → ℕ → Bool
frozen_now patch event now = elim patch.state [
  | none ↦ false
  | some none ↦ false
  | some (some new) ↦
      state_eq new frozen && not (passed (patched patch.freeze_at event.freeze_at) now)
]

freeze_time : EventPatch → Event → ℕ → Option ℕ
unfolding frozen_now
freeze_time patch event now =
    if frozen_now patch event now then some now else patched patch.freeze_at event.freeze_at

unfoldable pub apply_patch : EventPatch → Event → ℕ → Event
unfolding freeze_time frozen_now
apply_patch patch event now = record event {
  name = replaced patch.name event.name;
  slug = replaced patch.slug event.slug;
  description_md = replaced patch.description_md event.description_md;
  state = replaced patch.state event.state;
  registration_at = patched patch.registration_at event.registration_at;
  start_at = patched patch.start_at event.start_at;
  freeze_at = freeze_time patch event now;
  end_at = patched patch.end_at event.end_at;
  team_mode = replaced patch.team_mode event.team_mode;
  registration_access_mode = replaced patch.registration_access_mode event.registration_access_mode;
}

-- `a and b and a >= b` and its likes, by the order that they demand: both absent or in order.
abbrev pub before_strict : Option ℕ → Option ℕ → Bool
before_strict none b = true
before_strict (some a) none = true
before_strict (some a) (some b) = ltb a b

abbrev pub before : Option ℕ → Option ℕ → Bool
before none b = true
before (some a) none = true
before (some a) (some b) = leb a b

unfoldable pub times_guard : Event → Result (Unit {0})
times_guard event =
    raise_if
      (not (
        before_strict event.start_at event.end_at
        && (before event.registration_at event.start_at
            && (before event.start_at event.freeze_at && before event.freeze_at event.end_at))))
      (api 422 Code.invalid_event_times)

infixl 5 ◌⟫◌
abbrev ◌⟫◌ : {A : Type 0} → Result (Unit {0}) → Result A → Result A
ok _ ⟫ r = r
err e ⟫ r = err e

-- The guards in their order, then the changed event.
unfoldable pub next_event : EventPatch → ℕ → Db → Event → Result Event
next_event patch now d event =
    assert_event_mutable event
    ⟫ slug_guard patch.slug event.slug
    ⟫ freeze_guard patch.freeze_at event now
    ⟫ mode_guard patch.team_mode event d
    ⟫ state_guard patch.state event
    ⟫ times_guard (apply_patch patch event now)
    ⟫ ok (apply_patch patch event now)

-- A null in a column that is NOT NULL.
null_column : EventPatch → Bool
null_column patch =
    sets_null patch.name
    || (sets_null patch.description_md
        || (sets_null patch.team_mode || sets_null patch.registration_access_mode))

save_event : EventPatch → Event → Db → Result Db
unfolding null_column
save_event patch event d =
    if null_column patch
    then err Error.integrity_error
    else ok
        (record d { events = update_where (λ (e : Event). e.id == event.id) (λ _. event) d.events })

pub event_or_404 : Db → Result Event
event_or_404 d = or_raise (current_event d) (api 404 Code.event_not_found)

unfoldable pub named : String → Bool → List String → List String
named name set rest = if set then name ∷ rest else rest

-- `sorted(values)`: the fields that the request sets, and `freeze_at` where freezing set it.
sorted_fields : EventPatch → Event → ℕ → List String
unfolding named frozen_now
sorted_fields patch event now = named "description_md" (is_some patch.description_md) (
    named "end_at" (is_some patch.end_at) (
      named "freeze_at" (is_some patch.freeze_at || frozen_now patch event now) (
        named "name" (is_some patch.name) (
          named "registration_access_mode" (is_some patch.registration_access_mode) (
            named "registration_at" (is_some patch.registration_at) (
              named "slug" (is_some patch.slug) (
                named "start_at" (is_some patch.start_at) (
                  named "state" (is_some patch.state)
                    (named "team_mode" (is_some patch.team_mode) [])))))))))

unfoldable pub update_event : Request → (Db → Db) → EventPatch → App Event
unfolding save_event event_or_404 sorted_fields state_name
update_event request others patch = do
  admin ← query (require_admin request)
  wait_for others
  event ← query event_or_404
  changed ← query (λ d. next_event patch request.now d event)
  catch_integrity (api 409 Code.event_conflict) (do
    modify (
        add_audit request.now (some admin.id) Action.event_updated Target.event (some event.id)
          (("fields", Json.texts (sorted_fields patch event request.now)) ∷ []))
    modify (
        add_outbox request.now Topic.event_updated Target.event event.id (
          ("event_id", Json.ident event.id) ∷ ("state", Json.text (state_name changed.state)) ∷ []))
    write (save_event patch changed)
    commit)
  touch (invalidate_scoreboard event.id)
  pure changed
