-- ===== src/Tests/Event.antt =====
-- The gates and the update of an event at concrete inputs.
use ctfnight.Base.{count_where, ◌+◌, ◌≤◌, ◌≡◌, refl, true, false, none, some, ok, arith}
use ctfnight.Model.{Event, frozen, ended, live, state_index}
use ctfnight.Event.{
  state_allows_submission, state_allows_challenge_access, state_allows_registration,
  scoreboard_freeze_locked, assert_state_transition, assert_event_mutable, assert_freeze_at_mutable,
}
use ctfnight.Event.Gates.{submission_gate}
use ctfnight.Admin.EventUpdate.{
  slug_guard, freeze_guard, mode_guard, state_guard, times_guard, apply_patch, EventPatch,
  next_event, before, before_strict,
}
use ctfnight.Admin.EventUpdate.Freeze.{
  next_event_order, freeze_permanent, IsFreezeSound, none_yet, wait, update,
}
use ctfnight.Tests.Data.{event_in, running}

live_accepts : state_allows_submission (event_in live) 100 ≡ true
unfolding state_allows_submission
live_accepts = refl

submission_gate_example :
    (state_allows_challenge_access (event_in live) 100 ≡ true)
    × (state_allows_registration (event_in live) 100 ≡ false)
submission_gate_example = submission_gate (event_in live) 100 live_accepts

abbrev no_change : EventPatch
no_change = record {
  name = none;
  slug = none;
  description_md = none;
  state = none;
  registration_at = none;
  start_at = none;
  freeze_at = none;
  end_at = none;
  team_mode = none;
  registration_access_mode = none;
}

abbrev finish_it : EventPatch
finish_it = record no_change { state = some (some ended) }

abbrev stopped : Event
stopped = record (event_in ended) { freeze_at = some 500 }

ended_from_frozen : next_event finish_it 600 running (event_in frozen) ≡ ok stopped
unfolding next_event slug_guard freeze_guard mode_guard state_guard times_guard apply_patch
    assert_event_mutable assert_state_transition assert_freeze_at_mutable count_where
ended_from_frozen = refl

next_event_order_example :
    (state_index (event_in frozen).state ≤ state_index stopped.state)
    × (state_index stopped.state ≤ state_index (event_in frozen).state + 1)
    × (stopped.slug ≡ (event_in frozen).slug)
    × (before_strict stopped.start_at stopped.end_at ≡ true)
    × (before stopped.registration_at stopped.start_at ≡ true)
    × (before stopped.start_at stopped.freeze_at ≡ true)
    × (before stopped.freeze_at stopped.end_at ≡ true)
next_event_order_example =
    next_event_order finish_it 600 running (event_in frozen) stopped ended_from_frozen

frozen_locked : scoreboard_freeze_locked (event_in frozen) 550 ≡ true
unfolding scoreboard_freeze_locked
frozen_locked = refl

freeze_permanent_example :
    (stopped.freeze_at ≡ (event_in frozen).freeze_at)
    × (scoreboard_freeze_locked stopped 600 ≡ true)
    × IsFreezeSound stopped 600
    × (state_index (event_in frozen).state ≤ state_index stopped.state)
freeze_permanent_example =
    freeze_permanent (event_in frozen) 550 refl frozen_locked
      (update finish_it running ended_from_frozen (wait 600 (omega arith) none_yet))
