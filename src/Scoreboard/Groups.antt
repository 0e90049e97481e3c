-- ===== src/Scoreboard/Groups.antt =====
-- Groups of keys: which they are, and how many.
use ctfnight.Base.{
  ℕ, ◌+◌, ◌≤◌, ◌≡◌, refl, ◌∙◌, Bool, true, false, ◌&&◌, ◌||◌, List, [], ◌∷◌, ◌++◌, arith, ◌==◌, leb,
  is_some, select_one, select_all, count_where, contains, length, map, count_where_congr,
  count_where_never, inl, inr, Bool-cases,
}
use ctfnight.Model.{Team}
use ctfnight.Scoreboard.Totals.{groups}

pub contains-groups : (a : ℕ) (xs : List ℕ) → contains a (groups xs) ≡ contains a xs
unfolding contains groups
contains-groups a [] = refl
contains-groups a (x ∷ xs) = elim (Bool-cases (x == a)) [
  | inl e ↦
      let same : x ≡ a = ground arith in
      rw same (elim (Bool-cases (contains a xs)) [
        | inl f ↦ ground (arith, contains-groups a xs)
        | inr f ↦ ground (arith, contains-groups a xs)
      ])
  | inr e ↦ ground (arith, contains-groups a xs)
]

pub contains-append :
    (a : ℕ) (xs ys : List ℕ) → contains a (xs ++ ys) ≡ (contains a xs || contains a ys)
unfolding contains
contains-append a [] ys = refl
contains-append a (x ∷ xs) ys = ground (arith, contains-append a xs ys)

pub contains-map :
    {A : Type 0} (key : A → ℕ) (p : A → Bool) (a : ℕ) (xs : List A)
    → contains a (map key (select_all p xs)) ≡ leb 1 (count_where (λ x. key x == a && p x) xs)
unfolding contains select_all count_where
contains-map key p a [] = refl
contains-map key p a (x ∷ xs) = ground (arith, contains-map key p a xs)

pub is_some-select_one :
    {A : Type 0} (p : A → Bool) (xs : List A) → is_some (select_one p xs) ≡ leb 1 (count_where p xs)
unfolding select_one count_where
is_some-select_one p [] = refl
is_some-select_one p (x ∷ xs) = ground (arith, is_some-select_one p xs)

pub count_where_and_le :
    {A : Type 0} (p q : A → Bool) (xs : List A)
    → count_where (λ x. p x && q x) xs ≤ count_where p xs
unfolding count_where
count_where_and_le p q [] = omega arith
count_where_and_le p q (x ∷ xs) = ground (arith, count_where_and_le p q xs)

count_where-or :
    (p q : Team → Bool) (ts : List Team)
    → ((t : Team) → (p t && q t) ≡ false)
    → count_where (λ t. p t || q t) ts ≡ count_where p ts + count_where q ts
unfolding count_where
count_where-or p q [] apart = refl
count_where-or p q (t ∷ ts) apart = ground (arith, apart t, count_where-or p q ts apart)

-- A key that occurs already, and one that does not.
seen : (x a : ℕ) (xs : List ℕ) → contains x xs ≡ true → contains a xs ≡ (x == a || contains a xs)
seen x a xs h = elim (Bool-cases (x == a)) [
  | inl e ↦ let same : x ≡ a = ground arith in rw (e, ← same) (rw h refl)
  | inr e ↦ rw e refl
]

unseen : (x a : ℕ) (xs : List ℕ) → contains x xs ≡ false → ((x == a) && contains a xs) ≡ false
unseen x a xs h = elim (Bool-cases (x == a)) [
  | inl e ↦ let same : x ≡ a = ground arith in rw (e, ← same) (rw h refl)
  | inr e ↦ rw e refl
]

-- Where each key is the id of one team, there are as many groups as teams with a key.
pub length-groups :
    (xs : List ℕ) (ts : List Team)
    → ((a : ℕ) → contains a xs ≡ true → count_where (λ (t : Team). t.id == a) ts ≡ 1)
    → length (groups xs) ≡ count_where (λ (t : Team). contains t.id xs) ts
unfolding groups contains
length-groups [] ts one = omega (arith, count_where_never (λ (t : Team). false) ts (λ t. refl))
length-groups (x ∷ xs) ts one =
    let rest : length (groups xs) ≡ count_where (λ (t : Team). contains t.id xs) ts =
      length-groups xs ts (λ a h. one a (ground arith)) in
    elim (Bool-cases (contains x xs)) [
      | inl e ↦ rw e (rest ∙ count_where_congr _ _ ts (λ (t : Team). seen x t.id xs e))
      | inr e ↦
          let new : (t : Team) → ((x == t.id) && contains t.id xs) ≡ false =
            λ t. unseen x t.id xs e in
          let mine : count_where (λ (t : Team). x == t.id) ts ≡ 1 =
            count_where_congr _ _ ts (λ (t : Team). ground arith) ∙ one x (ground arith) in
          rw e (
            omega (
              arith,
              rest,
              mine,
              count_where-or (λ (t : Team). x == t.id) (λ (t : Team). contains t.id xs) ts new,
            ))
    ]
