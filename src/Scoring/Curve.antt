-- ===== src/Scoring/Curve.antt =====
-- The scoring curve stays between its ends and never rises.
use ctfnight.Base.{ℕ, ◌-◌, ◌*◌, ◌^◌, ◌≤◌, ◌<◌, ◌≡◌, arith, le→leb}
use ctfnight.Base.Int.{ℤ, pos, ◌≤ℤ◌, max_ℤ}
use ctfnight.Scoring.{Floats, IsRounded, dynamic_points, raw_points}

max_ℤ_mono : (m : ℕ) (a b : ℤ) → a ≤ℤ b → max_ℤ m a ≤ max_ℤ m b
max_ℤ_mono m a b h = ground arith

max_ℤ_ge : (m : ℕ) (a : ℤ) → m ≤ max_ℤ m a
max_ℤ_ge m a = ground arith

square_mono : (n m : ℕ) → n ≤ m → n * n ≤ m * m
square_mono n m h = grind arith

scale_mono : (k a b : ℕ) → a ≤ b → k * a ≤ k * b
scale_mono k a b h = grind arith

mul_zero : (k : ℕ) → k * 0 ≡ 0
mul_zero k = omega arith

module _ (f : Floats) (r : IsRounded f) (initial minimum decay : ℕ)
    (range : minimum ≤ initial) where
  raw_anti :
      (n m : ℕ)
      → n ≤ m
      → f.round (raw_points f initial minimum decay m)
        ≤ℤ f.round (raw_points f initial minimum decay n)
  unfolding raw_points
  raw_anti n m h =
      let grows = scale_mono (initial - minimum) (n * n) (m * m) (square_mono n m h) in
      rw (le→leb minimum initial range)
        (r.round_mono _ _ (r.minus_anti _ _ _ (r.quotient_mono _ _ _ grows)))

  raw_zero : initial < 2 ^ 53 → f.round (raw_points f initial minimum decay 0) ≡ pos initial
  unfolding raw_points
  raw_zero small =
      rw (le→leb minimum initial range, mul_zero (initial - minimum)) (r.minus_zero _ _ small)

  raw_le :
      (n : ℕ) → initial < 2 ^ 53 → f.round (raw_points f initial minimum decay n) ≤ℤ pos initial
  raw_le n small = rw (raw_zero small) at (raw_anti 0 n (omega arith))

  -- Where the minimum is at most the initial value, and that is below 2 ^ 53, the points lie between
  -- the two, are the initial value before the first solve, and never rise with another solve.
  pub dynamic_points_curve :
      initial < 2 ^ 53
      → (n m : ℕ) → n ≤ m
      → (minimum ≤ dynamic_points f initial minimum decay n)
        × (dynamic_points f initial minimum decay n ≤ initial)
        × (dynamic_points f initial minimum decay 0 ≡ initial)
        × (dynamic_points f initial minimum decay m ≤ dynamic_points f initial minimum decay n)
  unfolding dynamic_points
  dynamic_points_curve small n m h =
      let rn = f.round (raw_points f initial minimum decay n) in
      let rm = f.round (raw_points f initial minimum decay m) in
      ground (
        arith,
        max_ℤ_mono minimum rn (pos initial) (raw_le n small),
        max_ℤ_mono minimum rm (pos initial) (raw_le m small),
        max_ℤ_mono minimum rm rn (raw_anti n m h),
        max_ℤ_ge minimum rn,
      )
