-- ===== src/Tests/Challenges.antt =====
-- Prerequisites and challenge routes at concrete inputs.
use ctfnight.Base.{
  ℕ, ◌≡◌, refl, ◌⊎◌, true, false, none, some, ok, err, api, Code, [], ◌∷◌, arith, contains,
  select_one, select_all, map, count_where, sort_by,
}
use ctfnight.Model.{Db, admin, frozen, Challenge}
use ctfnight.Prerequisites.{
  prerequisites_of, load_prerequisites, listed_rows, id_of, earlier, has_duplicate, creates_cycle,
  reaches_target, any_reaches,
}
use ctfnight.Prerequisites.Grounded.{grounded}
use ctfnight.Prerequisites.Decides.{Verdict, load_prerequisites_decides}
use ctfnight.Admin.Challenges.{update_challenge, delete_challenge, ChallengePatch}
use ctfnight.Admin.Challenges.Unlock.{IsUnlockable}
use ctfnight.Admin.Challenges.Reach.{ChallengeReach-IsUnlockable, here, next, update, remove}
use ctfnight.Event.{scoreboard_freeze_locked, assert_scoring_mutable, scoring_changed}
use ctfnight.Scoring.{challenge_points}
use ctfnight.Admin.Challenges.{scoring_of, apply_values}
use ctfnight.Admin.Challenges.Locked.{locked_points}
use ctfnight.Tests.Data.{running, user, warmup, on, request, event_in}
use ctfnight.Tests.Scoring.{exact_floats}

-- The final asks for the warm-up.
abbrev final : Challenge
final = record warmup { id = 4; slug = "final"; prerequisites = 3 ∷ [] }

abbrev staffed : Db
staffed = record running {
  users = record (user 1 "alice") { role = admin } ∷ [];
  challenges = warmup ∷ final ∷ [];
}

final_listed : listed_rows staffed 1 (4 ∷ []) (some 3) ≡ ok (final ∷ [])
unfolding listed_rows has_duplicate contains select_all
final_listed = refl

load_prerequisites_decides_example :
    ((load_prerequisites staffed 1 (4 ∷ []) (some 3) ≡ err (api 422 Code.prerequisite_cycle))
      × Verdict staffed 3 (map id_of (final ∷ [])) true)
    ⊎ ((load_prerequisites staffed 1 (4 ∷ []) (some 3)
          ≡ ok (map id_of (sort_by (earlier (4 ∷ [])) (final ∷ []))))
        × Verdict staffed 3 (map id_of (final ∷ [])) false)
load_prerequisites_decides_example =
    load_prerequisites_decides staffed 1 (4 ∷ []) 3 (final ∷ []) final_listed

-- The warm-up cannot ask for the final.
refused : creates_cycle (prerequisites_of staffed) 3 3 (4 ∷ []) ≡ some true
unfolding creates_cycle reaches_target any_reaches prerequisites_of select_one contains
refused = refl

bottom : (b : ℕ) → contains b (prerequisites_of staffed 3) ≡ false
unfolding contains prerequisites_of select_one
bottom b = refl

asked : (a b : ℕ) → contains b (prerequisites_of staffed a) ≡ true → b ≡ 3
unfolding contains prerequisites_of select_one
asked a b m = ground arith

staffed-IsUnlockable : IsUnlockable staffed
unfolding select_one count_where
staffed-IsUnlockable = record {
  ends = λ a. grounded (λ b m. grounded (λ c n. let e = asked a b m in ground (arith, bottom c)));
  linked = λ a b m. rw (asked a b m) refl;
  single = λ a. ground arith;
}

abbrev unlink : ChallengePatch
unlink = record {
  slug = none;
  title = none;
  category = none;
  description_md = none;
  connection_info = none;
  scoring_type = none;
  initial_points = none;
  minimum_points = none;
  decay = none;
  visible = none;
  visible_at = none;
  max_attempts = none;
  prerequisite_ids = some (some (4 ∷ []));
  flag = none;
}

abbrev alone : Db → Db
alone d = d

ChallengeReach-IsUnlockable_example :
    IsUnlockable
      (delete_challenge request alone 4
        (update_challenge exact_floats request alone 3 unlink (on staffed)).1).1.committed
ChallengeReach-IsUnlockable_example =
    ChallengeReach-IsUnlockable exact_floats
      (next (next here (update request alone 3 unlink (λ d u. u)))
        (remove request alone 4 (λ d u. u)))
      staffed-IsUnlockable

frozen_locked : scoreboard_freeze_locked (event_in frozen) 550 ≡ true
unfolding scoreboard_freeze_locked
frozen_locked = refl

-- A change of the title only.
abbrev retitle : ChallengePatch
retitle = record unlink { prerequisite_ids = none; title = some (some "Hello") }

title_allowed : assert_scoring_mutable (event_in frozen) warmup (scoring_of retitle) 550 ≡ ok tt
unfolding assert_scoring_mutable scoring_changed scoring_of
title_allowed = refl

locked_points_example :
    challenge_points exact_floats (apply_values retitle warmup) 3
    ≡ challenge_points exact_floats warmup 3
locked_points_example =
    locked_points exact_floats (event_in frozen) warmup retitle 550 frozen_locked title_allowed 3
