-- ===== src/Admin/EventUpdate/Freeze.antt =====
-- What an accepted update of the event can change: the states only advance, the times stay in order,
-- and a locked freeze time is never moved again.
use ctfnight.Base.{
  ℕ, ◌+◌, ◌≤◌, ◌≡◌, refl, true, ◌||◌, not, Option, none, some, inl, inr, ok, arith, eq_iff,
  Option-cases, ◌∙◌,
}
use ctfnight.Model.{Db, Event, EventState, frozen, state_index}
use ctfnight.Event.{
  state_eq, passed, scoreboard_freeze_locked, assert_state_transition, assert_event_mutable,
  assert_freeze_at_mutable, time_eq,
}
use ctfnight.Admin.EventUpdate.{
  EventPatch, next_event, before, before_strict, patched, slug_guard, freeze_guard, state_guard,
  times_guard, apply_patch,
}

-- A frozen event has a freeze time, and it has passed.
abbrev pub IsFreezeSound : Event → ℕ → Type 0
IsFreezeSound event now = (not (state_eq event.state frozen) || passed event.freeze_at now) ≡ true

transition_lem :
    (old new : EventState) (u : Unit {0})
    → assert_state_transition old new ≡ ok u
    → (state_index old ≤ state_index new) × (state_index new ≤ state_index old + 1)
unfolding assert_state_transition
transition_lem old new u h = ground arith

time_eq_sound : (a b : Option ℕ) → time_eq a b ≡ true → a ≡ b
time_eq_sound none none h = refl
time_eq_sound none (some b) h = cc
time_eq_sound (some a) none h = cc
time_eq_sound (some a) (some b) h = ground arith

-- The guards that an accepted update has passed, and its result.
accepted :
    (patch : EventPatch) (now : ℕ) (d : Db) (event changed : Event)
    → next_event patch now d event ≡ ok changed
    → (assert_event_mutable event ≡ ok tt)
      × (slug_guard patch.slug event.slug ≡ ok tt)
      × (freeze_guard patch.freeze_at event now ≡ ok tt)
      × (state_guard patch.state event ≡ ok tt)
      × (times_guard (apply_patch patch event now) ≡ ok tt)
      × (changed ≡ apply_patch patch event now)
unfolding next_event
accepted patch now d event changed h = ground arith

slug_lem :
    (patch : EventPatch) (event : Event) (now : ℕ)
    → slug_guard patch.slug event.slug ≡ ok tt
    → (apply_patch patch event now).slug ≡ event.slug
unfolding slug_guard apply_patch
slug_lem patch event now h = elim (Option-cases patch.slug) [
  | inl e ↦ ground arith
  | inr (none, e) ↦ ground arith
  | inr (some new, e) ↦ ground (arith, eq_iff new event.slug)
]

state_lem :
    (patch : EventPatch) (event : Event) (now : ℕ)
    → state_guard patch.state event ≡ ok tt
    → (state_index event.state ≤ state_index (apply_patch patch event now).state)
      × (state_index (apply_patch patch event now).state ≤ state_index event.state + 1)
unfolding state_guard apply_patch
state_lem patch event now h = elim (Option-cases patch.state) [
  | inl e ↦ ground arith
  | inr (none, e) ↦ ground arith
  | inr (some new, e) ↦ ground (arith, transition_lem event.state new tt)
]

times_lem :
    (e : Event)
    → times_guard e ≡ ok tt
    → (before_strict e.start_at e.end_at ≡ true)
      × (before e.registration_at e.start_at ≡ true)
      × (before e.start_at e.freeze_at ≡ true)
      × (before e.freeze_at e.end_at ≡ true)
unfolding times_guard
times_lem e h = ground arith

-- An accepted update leaves the state or moves it one step on, keeps the slug, and leaves the times
-- in order: registration no later than the start, the start before the end, and the freeze between.
pub next_event_order :
    (patch : EventPatch) (now : ℕ) (d : Db) (event changed : Event)
    → next_event patch now d event ≡ ok changed
    → (state_index event.state ≤ state_index changed.state)
      × (state_index changed.state ≤ state_index event.state + 1)
      × (changed.slug ≡ event.slug)
      × (before_strict changed.start_at changed.end_at ≡ true)
      × (before changed.registration_at changed.start_at ≡ true)
      × (before changed.start_at changed.freeze_at ≡ true)
      × (before changed.freeze_at changed.end_at ≡ true)
next_event_order patch now d event changed h =
    let (_, slug, _, state, times, e) = accepted patch now d event changed h in
    let st = state_lem patch event now state in
    let ts = times_lem (apply_patch patch event now) times in
    rw e (st.0, st.1, slug_lem patch event now slug, ts.0, ts.1, ts.2, ts.3)

freeze_lem :
    (patch : EventPatch) (event : Event) (now : ℕ)
    → freeze_guard patch.freeze_at event now ≡ ok tt
    → scoreboard_freeze_locked event now ≡ true
    → patched patch.freeze_at event.freeze_at ≡ event.freeze_at
unfolding freeze_guard assert_freeze_at_mutable
freeze_lem patch event now h locked = elim (Option-cases patch.freeze_at) [
  | inl e ↦ ground arith
  | inr (proposed, e) ↦ ground (arith, time_eq_sound proposed event.freeze_at)
]

locked_lem :
    (patch : EventPatch) (event : Event) (now : ℕ)
    → assert_event_mutable event ≡ ok tt
    → patched patch.freeze_at event.freeze_at ≡ event.freeze_at
    → state_guard patch.state event ≡ ok tt
    → scoreboard_freeze_locked event now ≡ true
    → IsFreezeSound event now
    → ((apply_patch patch event now).freeze_at ≡ event.freeze_at)
      × (scoreboard_freeze_locked (apply_patch patch event now) now ≡ true)
      × IsFreezeSound (apply_patch patch event now) now
unfolding assert_event_mutable scoreboard_freeze_locked state_guard apply_patch
    assert_state_transition
locked_lem patch event now m p s l f = elim (Option-cases patch.state) [
  | inl e ↦ ground arith
  | inr (none, e) ↦ ground arith
  | inr (some new, e) ↦ ground arith
]

passed_later :
    (t : Option ℕ) (now later : ℕ) → now ≤ later → passed t now ≡ true → passed t later ≡ true
passed_later none now later h p = cc
passed_later (some t) now later h p = ground arith

later_lem :
    (event : Event) (now later : ℕ)
    → now ≤ later
    → (scoreboard_freeze_locked event now ≡ true → scoreboard_freeze_locked event later ≡ true)
      × (IsFreezeSound event now → IsFreezeSound event later)
unfolding scoreboard_freeze_locked
later_lem event now later h = ground (arith, passed_later event.freeze_at now later)

-- Accepted updates of the event, one after the other, at times that do not go back.
pub data Updates (event : Event) (now : ℕ) : Event → ℕ → Type 0 where
  none_yet : Updates event now event now
  wait :
      {e : Event} {t : ℕ} (later : ℕ)
      → t ≤ later
      → Updates event now e t
      → Updates event now e later
  update :
      {e changed : Event} {t : ℕ} (patch : EventPatch) (d : Db)
      → next_event patch t d e ≡ ok changed
      → Updates event now e t
      → Updates event now changed t

-- Where the scoreboard of an event is locked at a time, and the event, if it is frozen, has a freeze
-- time that has passed by then, no series of accepted updates at times that do not go back moves the
-- freeze time or unlocks the scoreboard, a frozen event still has a freeze time that has passed, and
-- the state does not go back.
pub freeze_permanent :
    (event : Event) (now : ℕ)
    → IsFreezeSound event now
    → scoreboard_freeze_locked event now ≡ true
    → {e : Event} {t : ℕ} → Updates event now e t
    → (e.freeze_at ≡ event.freeze_at)
      × (scoreboard_freeze_locked e t ≡ true)
      × IsFreezeSound e t
      × (state_index event.state ≤ state_index e.state)
freeze_permanent event now f l none_yet = (refl, l, f, omega arith)
freeze_permanent event now f l (wait {e = e} {t = s} later h us) =
    let (same, locked, sound, up) = freeze_permanent event now f l us in
    let next = later_lem e s later h in (same, next.0 locked, next.1 sound, up)
freeze_permanent event now f l (update {e = e} {t = t} patch d h us) =
    let (same, locked, sound, up) = freeze_permanent event now f l us in
    let (m, _, fg, sg, _, eq) = accepted patch t d e _ h in
    let next = locked_lem patch e t m (freeze_lem patch e t fg locked) sg locked sound in
    let st = state_lem patch e t sg in rw eq (next.0 ∙ same, next.1, next.2, omega (arith, st.0))
