-- ===== src/Prerequisites/Ends.antt =====
-- The depth-first search ends: each of its calls adds a challenge to the set, or asks no further.
use ctfnight.Base.{
  ℕ, zero, suc, ◌<◌, ◌≤◌, ◌≡◌, refl, inl, inr, Bool, true, false, not, Option, some, List, [], ◌∷◌,
  arith, ◌==◌, contains, count_where, Bool-cases, length,
}
use ctfnight.Prerequisites.{any_reaches, reaches_target}

-- How much of the universe the set has not got.
pub unseen : List ℕ → List ℕ → ℕ
unseen universe seen = count_where (λ x. not (contains x seen)) universe

unseen-cons_le :
    (universe seen : List ℕ) (a : ℕ) → unseen universe (a ∷ seen) ≤ unseen universe seen
unfolding unseen count_where contains
unseen-cons_le [] seen a = omega arith
unseen-cons_le (x ∷ xs) seen a = ground (arith, unseen-cons_le xs seen a)

unseen-cons_lt :
    (universe seen : List ℕ) (a : ℕ)
    → contains a universe ≡ true
    → contains a seen ≡ false
    → unseen universe (a ∷ seen) < unseen universe seen
unfolding unseen count_where contains
unseen-cons_lt [] seen a m f = cc
unseen-cons_lt (x ∷ xs) seen a m f = elim (Bool-cases (x == a)) [
  | inl e ↦ ground (arith, unseen-cons_le xs seen a)
  | inr e ↦ ground (arith, unseen-cons_lt xs seen a)
]

pub unseen-nil : (universe : List ℕ) → unseen universe [] ≡ length universe
unfolding unseen count_where contains
unseen-nil [] = refl
unseen-nil (x ∷ xs) = omega (arith, unseen-nil xs)

module _ (prerequisites : ℕ → List ℕ) (target : ℕ) (universe : List ℕ)
    (inside : (a : ℕ) → contains a universe ≡ false → prerequisites a ≡ []) where
  -- The call has a result, and its set is no smaller.
  abbrev pub Ends : Option (Bool × List ℕ) → List ℕ → Type 0
  Ends r seen =
      (b : Bool) × (later : List ℕ) × (r ≡ some (b, later))
      × (unseen universe later ≤ unseen universe seen)

  any-Ends :
      (visit : ℕ → List ℕ → Option (Bool × List ℕ)) (bound : ℕ)
      → ((x : ℕ) (seen : List ℕ) → unseen universe seen < bound → Ends (visit x seen) seen)
      → (xs seen : List ℕ) → unseen universe seen < bound
      → Ends (any_reaches prerequisites target visit xs seen) seen
  unfolding any_reaches
  any-Ends visit bound ends [] seen h = (false, seen, refl, omega arith)
  any-Ends visit bound ends (x ∷ xs) seen h =
      after (ends x seen h) (λ s lt. any-Ends visit bound ends xs s lt)
    where
      after :
          Ends (visit x seen) seen
          → ((s : List ℕ)
              → unseen universe s < bound
              → Ends (any_reaches prerequisites target visit xs s) s)
          → Ends (any_reaches prerequisites target visit (x ∷ xs) seen) seen
      after (true, s, e, le) rest = (true, s, rw (e, any_reaches) refl, le)
      after (false, s, e, le) rest =
          let (b, later, e', le') = rest s (omega arith) in
          (b, later, rw (e, any_reaches) e', omega arith)

  pub reaches_target-Ends :
      (fuel node : ℕ) (seen : List ℕ)
      → unseen universe seen < fuel
      → Ends (reaches_target prerequisites target fuel node seen) seen
  unfolding reaches_target any_reaches
  reaches_target-Ends zero node seen h = absurd (omega arith)
  reaches_target-Ends (suc fuel) node seen h = elim (Bool-cases (node == target)) [
    | inl e ↦ (true, seen, rw e refl, omega arith)
    | inr e ↦ elim (Bool-cases (contains node seen)) [
      | inl f ↦ (false, seen, rw (e, f) refl, omega arith)
      | inr f ↦
          let (b, later, ends, le) : Ends
              (any_reaches prerequisites target (reaches_target prerequisites target fuel)
                (prerequisites node) (node ∷ seen))
              (node ∷ seen) =
            elim (Bool-cases (contains node universe)) [
              | inl m ↦
                  any-Ends (reaches_target prerequisites target fuel) fuel
                    (reaches_target-Ends fuel) (prerequisites node) (node ∷ seen)
                    (omega (arith, unseen-cons_lt universe seen node m f, h))
              | inr out ↦ rw (inside node out) (false, node ∷ seen, refl, omega arith)
            ] in
          (b, later, rw (e, f) ends, omega (arith, unseen-cons_le universe seen node))
    ]
  ]
