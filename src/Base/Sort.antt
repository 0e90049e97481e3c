-- ===== src/Base/Sort.antt =====
-- `order_by`, `limit` and `offset`: a stable insertion sort, and the parts of a list by position.
use Prim.Native.Nat.{ℕ, zero, suc, ◌+◌, ◌≤◌}
use mathlib.Core.Path.{◌≡◌, refl}
use mathlib.Core.Logic.{inl, inr}
use mathlib.Core.Bool.{Bool, true, false, ◌&&◌}
use mathlib.Core.List.{List, [], ◌∷◌}
use native.Mathlib.Omega.{arith}
use ctfnight.Base.Tests.{if◌then◌else◌, to_num, Bool-cases}
use ctfnight.Base.Table.{count_where, select_all}

module _ {ℓ} {A : Type ℓ} where
  insert_sorted : (A → A → Bool) → A → List A → List A
  insert_sorted le x [] = x ∷ []
  insert_sorted le x (y ∷ ys) =
      let rest = insert_sorted le x ys in if le x y then x ∷ y ∷ ys else y ∷ rest

  unfoldable pub sort_by : (A → A → Bool) → List A → List A
  unfolding insert_sorted
  sort_by le [] = []
  sort_by le (x ∷ xs) = insert_sorted le x (sort_by le xs)

  unfoldable pub limit : ℕ → List A → List A
  limit zero xs = []
  limit (suc n) [] = []
  limit (suc n) (x ∷ xs) = x ∷ limit n xs

  unfoldable pub offset : ℕ → List A → List A
  offset zero xs = xs
  offset (suc n) [] = []
  offset (suc n) (x ∷ xs) = offset n xs

  count_where-insert_sorted :
      (le : A → A → Bool) (p : A → Bool) (x : A) (xs : List A)
      → count_where p (insert_sorted le x xs) ≡ to_num (p x) + count_where p xs
  unfolding count_where insert_sorted
  count_where-insert_sorted le p x [] = refl
  count_where-insert_sorted le p x (y ∷ ys) = elim (Bool-cases (le x y)) [
    | inl e ↦ rw e refl
    | inr e ↦ rw e (omega (arith, count_where-insert_sorted le p x ys))
  ]

  -- Sorting keeps every row.
  pub count_where-sort_by :
      (le : A → A → Bool) (p : A → Bool) (xs : List A)
      → count_where p (sort_by le xs) ≡ count_where p xs
  unfolding count_where sort_by
  count_where-sort_by le p [] = refl
  count_where-sort_by le p (x ∷ xs) =
      omega (arith, count_where-insert_sorted le p x (sort_by le xs), count_where-sort_by le p xs)

  -- Of the rows that pass a test, at most the first `n` stand before the offset `n`.
  pub count_where-offset :
      (p : A → Bool) (n : ℕ) (xs : List A) → count_where p xs ≤ n + count_where p (offset n xs)
  unfolding count_where offset
  count_where-offset p zero xs = omega arith
  count_where-offset p (suc n) [] = omega arith
  count_where-offset p (suc n) (x ∷ xs) = ground (arith, count_where-offset p n xs)

  pub count_where-select_all :
      (p q : A → Bool) (xs : List A)
      → count_where p (select_all q xs) ≡ count_where (λ x. q x && p x) xs
  unfolding count_where select_all
  count_where-select_all p q [] = refl
  count_where-select_all p q (x ∷ xs) = ground (arith, count_where-select_all p q xs)

-- Each element stands in the relation to the next.
unfoldable pub in_order {ℓ} : {A : Type ℓ} → (A → A → Bool) → List A → Bool
in_order r [] = true
in_order r (a ∷ []) = true
in_order r (a ∷ b ∷ xs) = r a b && in_order r (b ∷ xs)

-- Sorting by a test that decides the relation one way or the other puts a list in order.
module _ {ℓ} {A : Type ℓ} (r le : A → A → Bool)
    (decides : (a b : A) → (le a b ≡ true → r a b ≡ true) × (le a b ≡ false → r b a ≡ true)) where
  insert_behind :
      (x a : A) (xs : List A)
      → r a x ≡ true
      → in_order r (a ∷ xs) ≡ true
      → in_order r (a ∷ insert_sorted le x xs) ≡ true
  unfolding in_order insert_sorted
  insert_behind x a [] h o = ground arith
  insert_behind x a (b ∷ xs) h o = elim (Bool-cases (le x b)) [
    | inl e ↦ let xb = (decides x b).0 e in rw e (ground arith)
    | inr e ↦
        let bx = (decides x b).1 e in
        let rest = insert_behind x b xs bx (ground arith) in rw e (ground arith)
  ]

  in_order-insert_sorted :
      (x : A) (xs : List A) → in_order r xs ≡ true → in_order r (insert_sorted le x xs) ≡ true
  unfolding in_order insert_sorted
  in_order-insert_sorted x [] o = refl
  in_order-insert_sorted x (b ∷ xs) o = elim (Bool-cases (le x b)) [
    | inl e ↦ let xb = (decides x b).0 e in rw e (ground arith)
    | inr e ↦ rw e (insert_behind x b xs ((decides x b).1 e) o)
  ]

  pub in_order-sort_by : (xs : List A) → in_order r (sort_by le xs) ≡ true
  unfolding in_order sort_by
  in_order-sort_by [] = refl
  in_order-sort_by (x ∷ xs) = in_order-insert_sorted x (sort_by le xs) (in_order-sort_by xs)

pub in_order-limit {ℓ} :
    {A : Type ℓ} (r : A → A → Bool) (n : ℕ) (xs : List A)
    → in_order r xs ≡ true
    → in_order r (limit n xs) ≡ true
unfolding in_order limit
in_order-limit r zero xs o = refl
in_order-limit r (suc n) [] o = refl
in_order-limit r (suc zero) (a ∷ xs) o = refl
in_order-limit r (suc (suc n)) (a ∷ []) o = refl
in_order-limit r (suc (suc n)) (a ∷ b ∷ xs) o = ground (arith, in_order-limit r (suc n) (b ∷ xs))
