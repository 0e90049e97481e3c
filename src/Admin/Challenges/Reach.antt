-- ===== src/Admin/Challenges/Reach.antt =====
-- Any sequence of requests to the challenge routes.
use ctfnight.Base.{ℕ, Bool}
use ctfnight.Model.{Db}
use ctfnight.Scoring.{Floats}
use ctfnight.Access.{Request}
use ctfnight.Admin.Challenges.{
  create_challenge, update_challenge, delete_challenge, set_visibility, ChallengeCreateRequest,
  ChallengePatch,
}
use ctfnight.Admin.Challenges.Unlock.{IsUnlockable}
use ctfnight.App.{Session}
use ctfnight.App.Keeps.{Kept}
use ctfnight.Admin.Challenges.Routes.{
  Respects, create_challenge-Kept, update_challenge-Kept, delete_challenge-Kept,
  set_visibility-Kept,
}

-- One request of the challenge routes, with what other sessions commit before it has its lock.
pub data ChallengeStep (f : Floats) : Session → Session → Type 0 where
  create :
      (r : Request) (others : Db → Db) (id : ℕ) (payload : ChallengeCreateRequest) {s : Session}
      → Respects others
      → ChallengeStep f s (create_challenge f r others id payload s).1
  update :
      (r : Request) (others : Db → Db) (id : ℕ) (patch : ChallengePatch) {s : Session}
      → Respects others
      → ChallengeStep f s (update_challenge f r others id patch s).1
  remove :
      (r : Request) (others : Db → Db) (id : ℕ) {s : Session}
      → Respects others
      → ChallengeStep f s (delete_challenge r others id s).1
  show :
      (r : Request) (others : Db → Db) (id : ℕ) (visible : Bool) {s : Session}
      → Respects others
      → ChallengeStep f s (set_visibility f r others id visible s).1
  close : {s : Session} → ChallengeStep f s (record s { db = s.committed })

pub data ChallengeReach (f : Floats) (s : Session) : Session → Type 0 where
  here : ChallengeReach f s s
  next : {t u : Session} → ChallengeReach f s t → ChallengeStep f t u → ChallengeReach f s u

step-IsUnlockable :
    (f : Floats) {s t : Session}
    → ChallengeStep f s t
    → IsUnlockable s.committed
    → IsUnlockable t.committed
unfolding Kept
step-IsUnlockable f {s} (create r others id payload ho) u =
    create_challenge-Kept f r others id payload s ho u
step-IsUnlockable f {s} (update r others id patch ho) u =
    update_challenge-Kept f r others id patch s ho u
step-IsUnlockable f {s} (remove r others id ho) u = delete_challenge-Kept r others id s ho u
step-IsUnlockable f {s} (show r others id visible ho) u =
    set_visibility-Kept f r others id visible s ho u
step-IsUnlockable f close u = u

-- From challenges that can be unlocked, any sequence of requests to the challenge routes, accepted or
-- refused, with commits of other sessions that keep this in between, leaves challenges that can be
-- unlocked: every chain of prerequisites ends, every prerequisite Exists and ids are unique.
pub ChallengeReach-IsUnlockable :
    (f : Floats) {s t : Session}
    → ChallengeReach f s t
    → IsUnlockable s.committed
    → IsUnlockable t.committed
ChallengeReach-IsUnlockable f here u = u
ChallengeReach-IsUnlockable f (next r step) u =
    step-IsUnlockable f step (ChallengeReach-IsUnlockable f r u)
