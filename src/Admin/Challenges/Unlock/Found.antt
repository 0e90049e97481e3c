-- ===== src/Admin/Challenges/Unlock/Found.antt =====
-- The challenge that a route finds, where ids are unique.
use ctfnight.Base.{
  ℕ, ◌≡◌, refl, ◌&&◌, some, List, [], ◌∷◌, ok, arith, ◌==◌, select_one, ◌≤◌, select_one_sound,
  count_where,
}
use ctfnight.Model.{Db, Challenge, Event}
use ctfnight.Prerequisites.{prerequisites_of}
use ctfnight.Submit.{find_challenge}
use ctfnight.Admin.Challenges.{challenge_or_404, has_id}
use ctfnight.Admin.Challenges.Unlock.{IsUnlockable, Exists}

found_counts :
    (a e : ℕ) (cs : List Challenge) (c : Challenge)
    → select_one (λ (x : Challenge). x.id == a && x.event_id == e) cs ≡ some c
    → 1 ≤ count_where (has_id a) cs
unfolding select_one count_where
found_counts a e [] c h = cc h
found_counts a e (x ∷ xs) c h = ground (arith, found_counts a e xs c)

-- Where ids are unique, the challenge of an event is the challenge of its id.
found_first :
    (a e : ℕ) (cs : List Challenge) (c : Challenge)
    → count_where (has_id a) cs ≤ 1
    → select_one (λ (x : Challenge). x.id == a && x.event_id == e) cs ≡ some c
    → select_one (has_id a) cs ≡ some c
unfolding select_one count_where
found_first a e [] c one h = cc h
found_first a e (x ∷ xs) c one h = ground (arith, found_first a e xs c, found_counts a e xs c)

pub challenge_or_404-found :
    (d : Db) (event : Event) (id : ℕ) (c : Challenge)
    → IsUnlockable d
    → challenge_or_404 event id d ≡ ok c
    → (c.prerequisites ≡ prerequisites_of d c.id) × Exists d c.id
unfolding challenge_or_404 find_challenge prerequisites_of
challenge_or_404-found d event id c u h =
    let found : select_one (λ (x : Challenge). x.id == id && x.event_id == event.id) d.challenges
        ≡ some c =
      ground arith in
    let first = found_first id event.id d.challenges c (u.single id) found in
    let right : c.id ≡ id = ground (arith, select_one_sound (has_id id) d.challenges c first) in
    let first' : select_one (has_id c.id) d.challenges ≡ some c = simp right first in
    (rw (first', prerequisites_of) refl, rw first' refl)
