-- ===== src/Admin/Challenges/Unlock/Drop.antt =====
-- Deleted challenges, and whether the others stay unlockable.
use ctfnight.Base.{
  ℕ, ◌≡◌, refl, inl, inr, true, false, ◌&&◌, not, none, some, List, [], ◌∷◌, arith, ◌==◌, contains,
  select_one, delete_where, map, Option-cases, if◌then◌else◌, ◌≤◌, count_where,
}
use ctfnight.Model.{Db, Challenge}
use ctfnight.Prerequisites.{prerequisites_of}
use ctfnight.Prerequisites.Grounded.{fewer-IsGrounded}
use ctfnight.Admin.Challenges.{has_id, without, drop_challenge}
use ctfnight.Admin.Challenges.Unlock.{IsUnlockable, Exists}

select_one-delete_where_id :
    (a id : ℕ) (cs : List Challenge)
    → select_one (has_id a) (map (without id) (delete_where (has_id id) cs)) ≡ (
        if id == a
        then none
        else elim (select_one (has_id a) cs) [ none ↦ none | some c ↦ some (without id c) ])
unfolding select_one delete_where
select_one-delete_where_id a id [] = ground arith
select_one-delete_where_id a id (x ∷ xs) = ground (arith, select_one-delete_where_id a id xs)

contains-delete_where :
    (b id : ℕ) (xs : List ℕ)
    → contains b (delete_where (λ x. x == id) xs) ≡ (contains b xs && not (b == id))
unfolding contains delete_where
contains-delete_where b id [] = refl
contains-delete_where b id (x ∷ xs) = ground (arith, contains-delete_where b id xs)

module _ (d : Db) (id : ℕ) where
  dropped :
      (a b : ℕ)
      → contains b (prerequisites_of (drop_challenge id d) a) ≡ true
      → (contains b (prerequisites_of d a) ≡ true) × (b == id ≡ false)
  unfolding prerequisites_of drop_challenge contains
  dropped a b m = elim (Option-cases (select_one (has_id a) d.challenges)) [
    | inl e ↦ ground (arith, select_one-delete_where_id a id d.challenges)
    | inr (c, e) ↦ ground (
      arith,
      select_one-delete_where_id a id d.challenges,
      contains-delete_where b id c.prerequisites,
    )
  ]

  remains : (b : ℕ) → b == id ≡ false → Exists d b → Exists (drop_challenge id d) b
  unfolding drop_challenge
  remains b ne e = ground (arith, select_one-delete_where_id b id d.challenges)

fewer_rows_of :
    (id a : ℕ) (cs : List Challenge)
    → count_where (has_id a) (map (without id) (delete_where (has_id id) cs))
      ≤ count_where (has_id a) cs
unfolding count_where delete_where
fewer_rows_of id a [] = omega arith
fewer_rows_of id a (c ∷ cs) = ground (arith, fewer_rows_of id a cs)

fewer_rows :
    (d : Db) (id a : ℕ)
    → count_where (has_id a) d.challenges ≤ 1
    → count_where (has_id a) (drop_challenge id d).challenges ≤ 1
unfolding drop_challenge
fewer_rows d id a h = omega (arith, fewer_rows_of id a d.challenges)

-- A deleted challenge is nobody's prerequisite any more.
pub drop_challenge-IsUnlockable :
    (d : Db) (id : ℕ) → IsUnlockable d → IsUnlockable (drop_challenge id d)
drop_challenge-IsUnlockable d id u = record {
  ends = λ a.
      fewer-IsGrounded (prerequisites_of d) (prerequisites_of (drop_challenge id d))
        (λ x b m. (dropped d id x b m).0) (u.ends a);
  linked = λ a b m. remains d id b (dropped d id a b m).1 (u.linked a b (dropped d id a b m).0);
  single = λ a. fewer_rows d id a (u.single a);
}
