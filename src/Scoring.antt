-- ===== src/Scoring.antt =====
-- The points of a challenge (backend/src/alpha/services.py). The source divides and rounds with
-- Python floats, which are the parameter `Floats`.
pub mod Curve
use ctfnight.Base.{ℕ, ◌-◌, ◌*◌, ◌≤◌, ◌<◌, ◌^◌, ◌≡◌, leb, if◌then◌else◌}
use ctfnight.Base.Int.{ℤ, pos, ◌≤ℤ◌, max_ℤ}
use ctfnight.Model.{Challenge, is_fixed}

-- Python's `x / y` on ints, `n - f`, `n + f` and `int(round(f))`, and the order of floats.
pub record Floats : Type 1 where
  pub Float : Type 0
  pub quotient : ℕ → ℕ → Float
  pub minus : ℕ → Float → Float
  pub plus : ℕ → Float → Float
  pub round : Float → ℤ
  pub AtMost : Float → Float → Type 0

-- What IEEE 754 says of these: each operation is rounded correctly, so it is monotone, and a
-- subtraction of zero from an int below 2 ^ 53 is exact.
pub record IsRounded (f : Floats) : Type 0 where
  pub quotient_mono : (x y d : ℕ) → x ≤ y → f.AtMost (f.quotient x d) (f.quotient y d)
  pub minus_anti : (n : ℕ) (p q : f.Float) → f.AtMost p q → f.AtMost (f.minus n q) (f.minus n p)
  pub round_mono : (p q : f.Float) → f.AtMost p q → f.round p ≤ℤ f.round q
  pub minus_zero : (n d : ℕ) → n < 2 ^ 53 → f.round (f.minus n (f.quotient 0 d)) ≡ pos n

module _ (f : Floats) where
  -- A minimum above the initial value makes the subtracted quotient negative.
  pub raw_points : ℕ → ℕ → ℕ → ℕ → f.Float
  raw_points initial minimum decay solve_count =
      if leb minimum initial
      then f.minus initial
          (f.quotient ((initial - minimum) * (solve_count * solve_count)) (decay * decay))
      else f.plus initial
          (f.quotient ((minimum - initial) * (solve_count * solve_count)) (decay * decay))

  unfoldable pub dynamic_points : ℕ → ℕ → ℕ → ℕ → ℕ
  unfolding raw_points
  dynamic_points initial minimum decay solve_count =
      if leb solve_count 0
      then initial
      else max_ℤ minimum (f.round (raw_points initial minimum decay solve_count))

  unfoldable pub challenge_points : Challenge → ℕ → ℕ
  unfolding dynamic_points
  challenge_points challenge solve_count =
      if is_fixed challenge.scoring_type
      then challenge.initial_points
      else dynamic_points challenge.initial_points challenge.minimum_points challenge.decay
          solve_count
