-- ===== src/Prerequisites/Search.antt =====
-- What the depth-first search finds: a path to the target if it says so, and otherwise a set that is
-- closed under prerequisites and lacks the target.
use ctfnight.Base.{
  ℕ, zero, suc, ◌≡◌, ◌≢◌, ◌⊎◌, inl, inr, Bool, true, false, Option, some, List, [], ◌∷◌, arith,
  ◌==◌, contains, Option-cases, Bool-cases,
}
use ctfnight.Prerequisites.{any_reaches, reaches_target}

-- A chain of prerequisites from a challenge down to the target, which may be the challenge itself.
pub data Leads (prerequisites : ℕ → List ℕ) (target : ℕ) : ℕ → Type 0 where
  arrived : {a : ℕ} → a ≡ target → Leads prerequisites target a
  via :
      {a : ℕ} (b : ℕ)
      → contains b (prerequisites a) ≡ true
      → Leads prerequisites target b
      → Leads prerequisites target a

module _ (prerequisites : ℕ → List ℕ) (target : ℕ) where
  pub any_sound :
      (visit : ℕ → List ℕ → Option (Bool × List ℕ))
      → ((x : ℕ) (seen later : List ℕ)
          → visit x seen ≡ some (true, later)
          → Leads prerequisites target x)
      → (xs seen later : List ℕ)
      → any_reaches prerequisites target visit xs seen ≡ some (true, later)
      → (x : ℕ) × (contains x xs ≡ true) × Leads prerequisites target x
  unfolding any_reaches contains
  any_sound visit sound [] seen later h = cc
  any_sound visit sound (x ∷ xs) seen later h = elim (Option-cases (visit x seen)) [
    | inl e ↦ ground arith
    | inr ((true, s), e) ↦ (x, ground arith, sound x seen s e)
    | inr ((false, s), e) ↦
        let (y, m, l) = any_sound visit sound xs s later (rw (e, any_reaches) at h) in
        (y, ground arith, l)
  ]

  pub reaches_target_sound :
      (fuel node : ℕ) (seen later : List ℕ)
      → reaches_target prerequisites target fuel node seen ≡ some (true, later)
      → Leads prerequisites target node
  unfolding reaches_target
  reaches_target_sound zero node seen later h = cc
  reaches_target_sound (suc fuel) node seen later h = elim (Bool-cases (node == target)) [
    | inl e ↦ arrived (ground arith)
    | inr e ↦ elim (Bool-cases (contains node seen)) [
      | inl f ↦ ground arith
      | inr f ↦
          let (y, m, l) =
            any_sound (reaches_target prerequisites target fuel) (reaches_target_sound fuel)
              (prerequisites node) (node ∷ seen) later (rw (e, f) at h) in
          via y m l
    ]
  ]

  -- The search has expanded all that it added to the set, and the target is not among it.
  pub record IsExpanded (seen later : List ℕ) : Type 0 where
    pub grows : (x : ℕ) → contains x seen ≡ true → contains x later ≡ true
    pub closed :
        (x : ℕ)
        → contains x later ≡ true
        → (contains x seen ≡ true)
          ⊎ ((x ≢ target)
              × ((y : ℕ) → contains y (prerequisites x) ≡ true → contains y later ≡ true))

  IsExpanded-refl : (seen : List ℕ) → IsExpanded seen seen
  IsExpanded-refl seen = record { grows = λ x m. m; closed = λ x m. inl m }

  IsExpanded-trans : (a b c : List ℕ) → IsExpanded a b → IsExpanded b c → IsExpanded a c
  IsExpanded-trans a b c p q = record {
    grows = λ x m. q.grows x (p.grows x m);
    closed = λ x m. elim (q.closed x m) [
      | inr r ↦ inr r
      | inl old ↦ elim (p.closed x old) [
        | inl o ↦ inl o
        | inr (ne, all) ↦ inr (ne, λ y e. q.grows y (all y e))
      ]
    ];
  }

  any_closed :
      (visit : ℕ → List ℕ → Option (Bool × List ℕ))
      → ((x : ℕ) (seen later : List ℕ)
          → visit x seen ≡ some (false, later)
          → IsExpanded seen later × (contains x later ≡ true))
      → (xs seen later : List ℕ)
      → any_reaches prerequisites target visit xs seen ≡ some (false, later)
      → IsExpanded seen later × ((x : ℕ) → contains x xs ≡ true → contains x later ≡ true)
  unfolding any_reaches contains
  any_closed visit done [] seen later h =
      let e : later ≡ seen = ground arith in rw e (IsExpanded-refl seen, λ x m. cc m)
  any_closed visit done (x ∷ xs) seen later h = elim (Option-cases (visit x seen)) [
    | inl e ↦ ground arith
    | inr ((true, s), e) ↦ ground arith
    | inr ((false, s), e) ↦
        let (first, here) = done x seen s e in
        let (rest, all) = any_closed visit done xs s later (rw (e, any_reaches) at h) in
        (IsExpanded-trans seen s later first rest, λ y m. ground (arith, all y, rest.grows x here))
  ]

  pub reaches_target_closed :
      (fuel node : ℕ) (seen later : List ℕ)
      → reaches_target prerequisites target fuel node seen ≡ some (false, later)
      → IsExpanded seen later × (contains node later ≡ true)
  unfolding reaches_target contains
  reaches_target_closed zero node seen later h = cc
  reaches_target_closed (suc fuel) node seen later h = elim (Bool-cases (node == target)) [
    | inl e ↦ ground arith
    | inr e ↦ elim (Bool-cases (contains node seen)) [
      | inl f ↦ let same : later ≡ seen = ground arith in rw same (IsExpanded-refl seen, f)
      | inr f ↦
          let (rest, all) =
            any_closed (reaches_target prerequisites target fuel) (reaches_target_closed fuel)
              (prerequisites node) (node ∷ seen) later (rw (e, f) at h) in
          (
            record {
              grows = λ x m. rest.grows x (ground arith);
              closed = λ x m. elim (rest.closed x m) [
                | inr r ↦ inr r
                | inl old ↦ elim (Bool-cases (node == x)) [
                  | inl same ↦ inr (ground arith, λ y n. all y (ground arith))
                  | inr other ↦ inl (ground arith)
                ]
              ];
            },
            rest.grows node (ground arith),
          )
    ]
  ]

  -- From a set that is expanded and lacks the target no chain leads to it.
  pub expanded_blocks :
      (later : List ℕ)
      → IsExpanded [] later
      → {a : ℕ} → Leads prerequisites target a
      → contains a later ≡ false
  unfolding contains
  expanded_blocks later q (arrived {a = a} e) = elim (Bool-cases (contains a later)) [
    | inr n ↦ n
    | inl m ↦ elim (q.closed a m) [ inl old ↦ cc old | inr (ne, all) ↦ absurd (ne e) ]
  ]
  expanded_blocks later q (via {a = a} b m l) =
      let ih = expanded_blocks later q l in
      elim (Bool-cases (contains a later)) [
        | inr n ↦ n
        | inl here ↦ elim (q.closed a here) [
          | inl old ↦ cc old
          | inr (ne, all) ↦ ground (arith, all b m)
        ]
      ]
