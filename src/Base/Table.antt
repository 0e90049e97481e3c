-- ===== src/Base/Table.antt =====
-- A database table as a list of rows in insertion order, with the statements the program issues:
-- a scalar select, a count, an update and a delete by a condition.
use Prim.Native.Nat.{ℕ, suc, ◌+◌, ◌≤◌}
use mathlib.Core.Path.{◌≡◌, refl}
use mathlib.Core.Bool.{Bool, true, false, ◌&&◌, ◌||◌}
use mathlib.Core.Option.{Option, none, some}
use mathlib.Core.List.{List, [], ◌∷◌, ◌++◌}
use native.Mathlib.Omega.{arith}
use mathlib.Core.Logic.{inl, inr}
use ctfnight.Base.Tests.{◌==◌, if◌then◌else◌, to_num, is_some, Bool-cases}

-- `a in xs`
unfoldable pub contains : ℕ → List ℕ → Bool
contains a [] = false
contains a (x ∷ xs) = x == a || contains a xs

module _ {ℓ} {A : Type ℓ} where
  abbrev pub length : List A → ℕ
  length [] = 0
  length (_ ∷ xs) = suc (length xs)

  -- `db.scalar(select(…).where(p))`: the first row, or None.
  unfoldable pub select_one : (A → Bool) → List A → Option A
  select_one p [] = none
  select_one p (x ∷ xs) = if p x then some x else select_one p xs

  -- `select(func.count()).where(p)`
  unfoldable pub count_where : (A → Bool) → List A → ℕ
  count_where p [] = 0
  count_where p (x ∷ xs) = to_num (p x) + count_where p xs

  unfoldable pub select_all : (A → Bool) → List A → List A
  select_all p [] = []
  select_all p (x ∷ xs) = let rest = select_all p xs in if p x then x ∷ rest else rest

  unfoldable pub delete_where : (A → Bool) → List A → List A
  delete_where p [] = []
  delete_where p (x ∷ xs) = let rest = delete_where p xs in if p x then rest else x ∷ rest

  unfoldable pub update_where : (A → Bool) → (A → A) → List A → List A
  update_where p f [] = []
  update_where p f (x ∷ xs) = (if p x then f x else x) ∷ update_where p f xs

  -- `db.add(row)` followed by a flush.
  abbrev pub insert_row : A → List A → List A
  insert_row x xs = xs ++ x ∷ []

module _ {ℓ} {A : Type ℓ} where
  pub count_where-insert_row :
      (p : A → Bool) (x : A) (xs : List A)
      → count_where p (insert_row x xs) ≡ count_where p xs + to_num (p x)
  unfolding count_where
  count_where-insert_row p x [] = omega arith
  count_where-insert_row p x (y ∷ xs) = omega (arith, count_where-insert_row p x xs)

  -- A select that finds nothing counts nothing.
  pub count_where-none :
      (p : A → Bool) (xs : List A) → select_one p xs ≡ none → count_where p xs ≡ 0
  unfolding select_one count_where
  count_where-none p [] h = refl
  count_where-none p (x ∷ xs) h = ground (arith, count_where-none p xs)

  pub select_one_sound :
      (p : A → Bool) (xs : List A) (y : A) → select_one p xs ≡ some y → p y ≡ true
  unfolding select_one
  select_one_sound p [] y h = cc
  select_one_sound p (x ∷ xs) y h = ground (arith, select_one_sound p xs y)

  pub count_where-some :
      (p : A → Bool) (xs : List A) (y : A) → select_one p xs ≡ some y → 1 ≤ count_where p xs
  unfolding select_one count_where
  count_where-some p [] y h = cc
  count_where-some p (x ∷ xs) y h = ground (arith, count_where-some p xs y)

  pub count_where_found :
      (p : A → Bool) (xs : List A) → is_some (select_one p xs) ≡ true → 1 ≤ count_where p xs
  unfolding select_one count_where
  count_where_found p [] h = cc
  count_where_found p (x ∷ xs) h = ground (arith, count_where_found p xs)

  pub count_where-delete_where :
      (p q : A → Bool) (xs : List A)
      → count_where p (delete_where q xs) + count_where (λ x. p x && q x) xs ≡ count_where p xs
  unfolding count_where delete_where
  count_where-delete_where p q [] = refl
  count_where-delete_where p q (x ∷ xs) = ground (arith, count_where-delete_where p q xs)

  pub count_where-delete_where_le :
      (p q : A → Bool) (xs : List A) → count_where p (delete_where q xs) ≤ count_where p xs
  count_where-delete_where_le p q xs = omega (arith, count_where-delete_where p q xs)

  -- An update of rows whose test it does not move leaves the count.
  pub count_where-update_where_same :
      (p q : A → Bool) (f : A → A) (xs : List A)
      → ((x : A) → q x ≡ true → p (f x) ≡ p x)
      → count_where p (update_where q f xs) ≡ count_where p xs
  unfolding count_where update_where
  count_where-update_where_same p q f [] same = refl
  count_where-update_where_same p q f (x ∷ xs) same =
      ground (arith, same x, count_where-update_where_same p q f xs same)

  update_where_absent :
      (p q : A → Bool) (f : A → A) (xs : List A)
      → count_where q xs ≡ 0
      → count_where p (update_where q f xs) ≡ count_where p xs
  unfolding count_where update_where
  update_where_absent p q f [] h = refl
  update_where_absent p q f (x ∷ xs) h = ground (arith, update_where_absent p q f xs)

  delete_where_absent :
      (p q : A → Bool) (xs : List A)
      → count_where q xs ≡ 0
      → count_where p (delete_where q xs) ≡ count_where p xs
  unfolding count_where delete_where
  delete_where_absent p q [] h = refl
  delete_where_absent p q (x ∷ xs) h = ground (arith, delete_where_absent p q xs)

  -- What an update of the one matching row does to any count.
  pub count_where-update_where_one :
      (p q : A → Bool) (f : A → A) (xs : List A) (y : A)
      → select_one q xs ≡ some y
      → count_where q xs ≤ 1
      → count_where p (update_where q f xs) + to_num (p y) ≡ count_where p xs + to_num (p (f y))
  unfolding count_where update_where select_one
  count_where-update_where_one p q f [] y h u = cc
  count_where-update_where_one p q f (x ∷ xs) y h u =
      ground (arith, count_where-update_where_one p q f xs y, update_where_absent p q f xs)

  pub count_where-delete_where_one :
      (p q : A → Bool) (xs : List A) (y : A)
      → select_one q xs ≡ some y
      → count_where q xs ≤ 1
      → count_where p (delete_where q xs) + to_num (p y) ≡ count_where p xs
  unfolding count_where delete_where select_one
  count_where-delete_where_one p q [] y h u = cc
  count_where-delete_where_one p q (x ∷ xs) y h u =
      ground (arith, count_where-delete_where_one p q xs y, delete_where_absent p q xs)

  -- An update of rows outside the test, before and after, is not seen by a select.
  pub select_one-update_where :
      (p q : A → Bool) (f : A → A) (xs : List A)
      → ((x : A) → q x ≡ true → (p x ≡ false) × (p (f x) ≡ false))
      → select_one p (update_where q f xs) ≡ select_one p xs
  unfolding select_one update_where
  select_one-update_where p q f [] apart = refl
  select_one-update_where p q f (x ∷ xs) apart =
      ground (arith, apart x, select_one-update_where p q f xs apart)

  pub count_where_congr :
      (p q : A → Bool) (xs : List A) → ((x : A) → p x ≡ q x) → count_where p xs ≡ count_where q xs
  unfolding count_where
  count_where_congr p q [] same = refl
  count_where_congr p q (x ∷ xs) same = ground (arith, same x, count_where_congr p q xs same)

  pub count_where_never :
      (p : A → Bool) (xs : List A) → ((x : A) → p x ≡ false) → count_where p xs ≡ 0
  unfolding count_where
  count_where_never p [] never = refl
  count_where_never p (x ∷ xs) never = ground (arith, never x, count_where_never p xs never)

-- A new row that fails the test is not seen.
module _ {ℓ} {A : Type ℓ} (p q : A → Bool) (x : A) (same : (y : A) → p y ≡ q y)
    (out : q x ≡ false) where
  pub select_all_unseen : (xs : List A) → select_all p (insert_row x xs) ≡ select_all q xs
  unfolding select_all
  select_all_unseen [] = rw (same x, out) refl
  select_all_unseen (y ∷ ys) = rw (same y, select_all_unseen ys) refl

  pub is_some_unseen :
      (xs : List A) → is_some (select_one p (insert_row x xs)) ≡ is_some (select_one q xs)
  unfolding select_one
  is_some_unseen [] = rw (same x, out) refl
  is_some_unseen (y ∷ ys) = ground (arith, same y, is_some_unseen ys)

  pub count_where_unseen : (xs : List A) → count_where p (insert_row x xs) ≡ count_where q xs
  unfolding count_where
  count_where_unseen [] = rw (same x, out) refl
  count_where_unseen (y ∷ ys) = rw (same y, count_where_unseen ys) refl

module _ {ℓ} {A : Type ℓ} where
  pub select_all_congr :
      (p q : A → Bool) (xs : List A) → ((x : A) → p x ≡ q x) → select_all p xs ≡ select_all q xs
  unfolding select_all
  select_all_congr p q [] same = refl
  select_all_congr p q (x ∷ xs) same = rw (same x, select_all_congr p q xs same) refl

  -- A new row that is the first to pass the test.
  pub select_one-insert_row :
      (p : A → Bool) (x : A) (xs : List A)
      → is_some (select_one p xs) ≡ false
      → p x ≡ true
      → select_one p (insert_row x xs) ≡ some x
  unfolding select_one
  select_one-insert_row p x [] none_yet h = rw h refl
  select_one-insert_row p x (y ∷ ys) none_yet h = ground (arith, select_one-insert_row p x ys)

  -- An update that only the new row matches.
  pub update_where-insert_row :
      (p : A → Bool) (f : A → A) (x : A) (xs : List A)
      → p x ≡ true
      → is_some (select_one p xs) ≡ false
      → update_where p f (insert_row x xs) ≡ insert_row (f x) xs
  unfolding update_where select_one
  update_where-insert_row p f x [] h none_yet = rw h refl
  update_where-insert_row p f x (y ∷ ys) h none_yet = elim (Bool-cases (p y)) [
    | inl e ↦ ground arith
    | inr e ↦ rw (e, update_where-insert_row p f x ys h (ground arith)) refl
  ]
