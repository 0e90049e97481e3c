-- ===== src/Admin/Challenges/Locked.antt =====
-- The lock on the scoring formula while the scoreboard is frozen or final.
use ctfnight.Base.{ℕ, ◌≡◌, refl, true, false, none, some, ok, arith}
use ctfnight.Model.{Event, Challenge, ScoringType, fixed, dynamic}
use ctfnight.Event.{
  scoreboard_freeze_locked, assert_scoring_mutable, scoring_changed, scoring_eq, num_eq, differs,
}
use ctfnight.Scoring.{Floats, challenge_points}
use ctfnight.Admin.EventUpdate.{Patch, replaced}
use ctfnight.Admin.Challenges.{ChallengePatch, scoring_of, apply_values}

scoring_eq_sound : (a b : ScoringType) → scoring_eq a b ≡ true → a ≡ b
scoring_eq_sound fixed fixed h = refl
scoring_eq_sound fixed dynamic h = cc h
scoring_eq_sound dynamic fixed h = cc h
scoring_eq_sound dynamic dynamic h = refl

-- A field that does not differ is not changed.
number_kept :
    (patch : Patch ℕ) (old : ℕ) → differs num_eq patch old ≡ false → replaced patch old ≡ old
number_kept none old h = refl
number_kept (some none) old h = refl
number_kept (some (some new)) old h = ground arith

type_kept :
    (patch : Patch ScoringType) (old : ScoringType)
    → differs scoring_eq patch old ≡ false
    → replaced patch old ≡ old
type_kept none old h = refl
type_kept (some none) old h = refl
type_kept (some (some new)) old h = ground (arith, scoring_eq_sound new old)

-- While the scoreboard is frozen or final, an update that passes the guard leaves what the challenge
-- is worth after any number of solves.
pub locked_points :
    (f : Floats) (event : Event) (c : Challenge) (patch : ChallengePatch) (now : ℕ)
    → scoreboard_freeze_locked event now ≡ true
    → assert_scoring_mutable event c (scoring_of patch) now ≡ ok tt
    → (n : ℕ) → challenge_points f (apply_values patch c) n ≡ challenge_points f c n
unfolding assert_scoring_mutable scoring_changed scoring_of apply_values challenge_points
locked_points f event c patch now locked h n =
    let t : differs scoring_eq patch.scoring_type c.scoring_type ≡ false = ground arith in
    let i : differs num_eq patch.initial_points c.initial_points ≡ false = ground arith in
    let m : differs num_eq patch.minimum_points c.minimum_points ≡ false = ground arith in
    let d : differs num_eq patch.decay c.decay ≡ false = ground arith in
    rw
      (
        type_kept patch.scoring_type c.scoring_type t,
        number_kept patch.initial_points c.initial_points i,
        number_kept patch.minimum_points c.minimum_points m,
        number_kept patch.decay c.decay d,
      )
      refl
