-- ===== src/Admin/Challenges/Unlock.antt =====
-- The order in which challenges can be unlocked, and what the writes of the challenge routes do to it.
pub mod Save
pub mod Drop
pub mod Found
use ctfnight.Base.{
  ℕ, ◌≡◌, refl, inl, inr, true, false, ◌&&◌, not, none, some, List, [], ◌∷◌, ok, arith, ◌==◌,
  contains, is_some, select_one, update_where, delete_where, insert_row, map, Bool-cases,
  Option-cases, if◌then◌else◌, ◌≤◌, select_one_sound, count_where, count_where-insert_row,
  count_where-none, count_where-update_where_same,
}
use ctfnight.Model.{Db, Challenge, Event}
use ctfnight.Prerequisites.{prerequisites_of}
use ctfnight.Prerequisites.Search.{Leads, arrived, via}
use ctfnight.Prerequisites.Grounded.{IsGrounded, set_at, set_at-IsGrounded, fewer-IsGrounded}
use ctfnight.Submit.{find_challenge}
use ctfnight.Admin.Challenges.{
  challenge_or_404, has_id, without, insert_challenge, save_challenge, drop_challenge,
}

abbrev pub Exists : Db → ℕ → Type 0
Exists d a = is_some (select_one (has_id a) d.challenges) ≡ true

-- Every challenge can be unlocked by solving its prerequisites, theirs first and so on, every
-- prerequisite is a challenge, and no two challenges have one id.
pub record IsUnlockable (d : Db) : Type 0 where
  pub ends : (a : ℕ) → IsGrounded (prerequisites_of d) a
  pub linked : (a b : ℕ) → contains b (prerequisites_of d a) ≡ true → Exists d b
  pub single : (a : ℕ) → count_where (has_id a) d.challenges ≤ 1

select_one-insert_row :
    (a : ℕ) (c : Challenge) (cs : List Challenge)
    → select_one (has_id a) (insert_row c cs) ≡ elim (select_one (has_id a) cs) [
      | some old ↦ some old
      | none ↦ if c.id == a then some c else none
    ]
unfolding select_one
select_one-insert_row a c [] = refl
select_one-insert_row a c (x ∷ xs) = ground (arith, select_one-insert_row a c xs)

-- A new row adds its prerequisites where there were none.
inserted :
    (d : Db) (c : Challenge) (a : ℕ)
    → select_one (has_id c.id) d.challenges ≡ none
    → prerequisites_of (record d { challenges = insert_row c d.challenges }) a
      ≡ set_at (prerequisites_of d) c.id c.prerequisites a
unfolding prerequisites_of
inserted d c a fresh = ground (arith, select_one-insert_row a c d.challenges)

-- Nothing leads to a challenge that does not exist.
new_blocks :
    (d : Db) (id : ℕ)
    → IsUnlockable d
    → select_one (has_id id) d.challenges ≡ none
    → {a : ℕ} → Exists d a
    → ¬ Leads (prerequisites_of d) id a
new_blocks d id u fresh {a = a} e (arrived same) =
    let gone : is_some (select_one (has_id a) d.challenges) ≡ false = rw (same, fresh) refl in
    cc (e, gone)
new_blocks d id u fresh {a = a} e (via b m l) = new_blocks d id u fresh (u.linked a b m) l

counted_once :
    (d : Db) (c : Challenge) (a : ℕ)
    → select_one (has_id c.id) d.challenges ≡ none
    → count_where (has_id a) d.challenges ≤ 1
    → count_where (has_id a) (insert_row c d.challenges) ≤ 1
counted_once d c a fresh one = elim (Bool-cases (c.id == a)) [
  | inl e ↦
      let same : c.id ≡ a = ground arith in
      ground (
        arith,
        count_where-insert_row (has_id a) c d.challenges,
        count_where-none (has_id a) d.challenges (rw same at fresh),
      )
  | inr e ↦ ground (arith, count_where-insert_row (has_id a) c d.challenges)
]

pub insert_challenge-IsUnlockable :
    (d after : Db) (c : Challenge)
    → IsUnlockable d
    → ((b : ℕ) → contains b c.prerequisites ≡ true → Exists d b)
    → insert_challenge c d ≡ ok after
    → IsUnlockable after
unfolding insert_challenge
insert_challenge-IsUnlockable d after c u known h =
    let fresh : select_one (has_id c.id) d.challenges ≡ none = ground arith in
    let e : after ≡ record d { challenges = insert_row c d.challenges } = ground arith in
    rw e (record {
      ends = λ a.
          fewer-IsGrounded (set_at (prerequisites_of d) c.id c.prerequisites)
            (prerequisites_of (record d { challenges = insert_row c d.challenges }))
            (λ x b m. rw (inserted d c x fresh) at m)
            (set_at-IsGrounded (prerequisites_of d) c.id c.prerequisites
              (λ b m. (u.ends b, new_blocks d c.id u fresh (known b m))) (u.ends a));
      linked = λ a b m.
          let m' : contains b (set_at (prerequisites_of d) c.id c.prerequisites a) ≡ true =
            rw (inserted d c a fresh) at m in
          ground (arith, known b, u.linked a b, select_one-insert_row b c d.challenges);
      single = λ a. counted_once d c a fresh (u.single a);
    })
