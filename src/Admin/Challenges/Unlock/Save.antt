-- ===== src/Admin/Challenges/Unlock/Save.antt =====
-- Saved challenges, and whether they stay unlockable.
use ctfnight.Base.{
  ℕ, ◌≡◌, refl, inl, inr, true, none, some, List, [], ◌∷◌, ok, arith, ◌==◌, contains, is_some,
  select_one, update_where, Bool-cases, if◌then◌else◌, ◌≤◌, count_where,
  count_where-update_where_same,
}
use ctfnight.Model.{Db, Challenge}
use ctfnight.Prerequisites.{prerequisites_of}
use ctfnight.Prerequisites.Search.{Leads}
use ctfnight.Prerequisites.Grounded.{set_at, set_at-IsGrounded, fewer-IsGrounded}
use ctfnight.Admin.Challenges.{has_id, save_challenge}
use ctfnight.Admin.Challenges.Unlock.{IsUnlockable, Exists}

select_one-update_where_id :
    (a : ℕ) (c : Challenge) (cs : List Challenge)
    → select_one (has_id a) (update_where (has_id c.id) (λ _. c) cs) ≡ (
        if c.id == a
        then if is_some (select_one (has_id a) cs) then some c else none
        else select_one (has_id a) cs)
unfolding select_one update_where
select_one-update_where_id a c [] = ground arith
select_one-update_where_id a c (x ∷ xs) = ground (arith, select_one-update_where_id a c xs)

saved :
    (d : Db) (c : Challenge) (a : ℕ)
    → Exists d c.id
    → prerequisites_of
        (record d { challenges = update_where (has_id c.id) (λ _. c) d.challenges })
        a
      ≡ set_at (prerequisites_of d) c.id c.prerequisites a
unfolding prerequisites_of
saved d c a h = ground (arith, select_one-update_where_id a c d.challenges)

module _ (d after : Db) (c : Challenge) (u : IsUnlockable d) (there : Exists d c.id)
    (h : save_challenge c d ≡ ok after) where
  stored : after ≡ record d { challenges = update_where (has_id c.id) (λ _. c) d.challenges }
  unfolding save_challenge
  stored = ground arith

  known_after : (b : ℕ) → Exists d b → Exists after b
  known_after b e = rw stored (ground (arith, select_one-update_where_id b c d.challenges))

  relation : (a : ℕ) → prerequisites_of after a ≡ set_at (prerequisites_of d) c.id c.prerequisites a
  relation a = rw stored (saved d c a there)

  linked_after :
      ((b : ℕ) → contains b c.prerequisites ≡ true → Exists d b)
      → (a b : ℕ) → contains b (prerequisites_of after a) ≡ true
      → Exists after b
  linked_after known a b m =
      let m' : contains b (set_at (prerequisites_of d) c.id c.prerequisites a) ≡ true =
        rw (relation a) at m in
      known_after b (ground (arith, known b, u.linked a b))

  single_after : (a : ℕ) → count_where (has_id a) after.challenges ≤ 1
  single_after a = rw stored (
      omega (
        arith,
        u.single a,
        count_where-update_where_same (has_id a) (has_id c.id) (λ _. c) d.challenges
            (λ x e. ground arith),
      ))

  -- A saved challenge whose prerequisites do not lead to it.
  pub save_challenge-IsUnlockable :
      ((b : ℕ)
        → contains b c.prerequisites ≡ true
        → Exists d b × ¬ Leads (prerequisites_of d) c.id b)
      → IsUnlockable after
  save_challenge-IsUnlockable fine = record {
    ends = λ a.
        fewer-IsGrounded (set_at (prerequisites_of d) c.id c.prerequisites) (prerequisites_of after)
          (λ x b m. rw (relation x) at m)
          (set_at-IsGrounded (prerequisites_of d) c.id c.prerequisites
            (λ b m. (u.ends b, (fine b m).1)) (u.ends a));
    linked = linked_after (λ b m. (fine b m).0);
    single = single_after;
  }

  same_relation :
      c.prerequisites ≡ prerequisites_of d c.id
      → (a : ℕ) → prerequisites_of after a ≡ prerequisites_of d a
  same_relation same a = elim (Bool-cases (c.id == a)) [
    | inl e ↦ let here : c.id ≡ a = ground arith in rw (relation a, e, same, here) refl
    | inr e ↦ rw (relation a, e) refl
  ]

  -- A saved challenge whose prerequisites are the old ones.
  pub keep_prerequisites-IsUnlockable :
      c.prerequisites ≡ prerequisites_of d c.id → IsUnlockable after
  keep_prerequisites-IsUnlockable same = record {
    ends = λ a.
        fewer-IsGrounded (prerequisites_of d) (prerequisites_of after)
          (λ x b m. rw (same_relation same x) at m) (u.ends a);
    linked = λ a b m. known_after b (u.linked a b (rw (same_relation same a) at m));
    single = single_after;
  }
