-- ===== src/Event/Gates.antt =====
-- How the gates of an event relate at one moment and at later moments.
use ctfnight.Base.{ℕ, ◌≡◌, true, false, arith}
use ctfnight.Model.{Event}
use ctfnight.Event.{
  state_allows_registration, state_allows_submission, state_allows_challenge_access,
}

-- Whenever an event accepts flags it shows its challenges and takes no registrations.
pub submission_gate :
    (event : Event) (now : ℕ)
    → state_allows_submission event now ≡ true
    → (state_allows_challenge_access event now ≡ true)
      × (state_allows_registration event now ≡ false)
unfolding state_allows_submission state_allows_challenge_access state_allows_registration
submission_gate event now h = ground arith
