-- ===== src/Tests/Scoring.antt =====
-- The scoring curve with exact integer arithmetic for the floats.
use ctfnight.Base.{zero, ℕ, suc, ◌+◌, ◌-◌, ◌/◌, ◌≤◌, ◌≡◌, leb, if◌then◌else◌, arith}
use ctfnight.Base.Int.{ℤ, pos, negsuc, ◌≤ℤ◌}
use ctfnight.Scoring.{Floats, IsRounded, dynamic_points}
use ctfnight.Scoring.Curve.{dynamic_points_curve}
use native.Mathlib.Nat.{div-zero, zero-div, le-div_iff_mul-le, div-mul-le_self}

abbrev minus_ℤ : ℕ → ℕ → ℤ
minus_ℤ n q = if leb q n then pos (n - q) else negsuc (q - n - 1)

-- Quotients rounded down; a float is `below - n` or the sum above it.
abbrev drop : ℕ → ℤ → ℤ
drop n (pos q) = minus_ℤ n q
drop n (negsuc q) = pos (n + suc q)

abbrev add : ℕ → ℤ → ℤ
add n (pos q) = pos (n + q)
add n (negsuc q) = minus_ℤ n (suc q)

abbrev pub exact_floats : Floats
exact_floats = record {
  Float = ℤ;
  quotient = λ x d. pos (x / d);
  minus = drop;
  plus = add;
  round = λ x. x;
  AtMost = λ a b. a ≤ℤ b;
}

drop_anti : (n : ℕ) (p q : ℤ) → p ≤ℤ q → drop n q ≤ℤ drop n p
drop_anti n (pos p) (pos q) h = ground arith
drop_anti n (pos p) (negsuc q) h = ground arith
drop_anti n (negsuc p) (pos q) h = ground arith
drop_anti n (negsuc p) (negsuc q) h = ground arith

div_mono : (x y d : ℕ) → x ≤ y → x / d ≤ y / d
div_mono x y zero h = rw (div-zero x, div-zero y) (omega arith)
div_mono x y (suc d) h =
    (le-div_iff_mul-le {k = suc d} {x = x / suc d} {y = y} (omega arith)).1
      (omega (arith, h, div-mul-le_self x (suc d)))

exact_floats-IsRounded : IsRounded exact_floats
exact_floats-IsRounded = record {
  quotient_mono = λ x y d h. omega (arith, div_mono x y d h);
  minus_anti = drop_anti;
  round_mono = λ p q h. h;
  minus_zero = λ n d h. rw (zero-div d) (ground arith);
}

dynamic_points_curve_example :
    (100 ≤ dynamic_points exact_floats 500 100 20 3)
    × (dynamic_points exact_floats 500 100 20 3 ≤ 500)
    × (dynamic_points exact_floats 500 100 20 0 ≡ 500)
    × (dynamic_points exact_floats 500 100 20 8 ≤ dynamic_points exact_floats 500 100 20 3)
dynamic_points_curve_example =
    dynamic_points_curve exact_floats exact_floats-IsRounded 500 100 20 (omega arith) (omega arith)
      3 8 (omega arith)
