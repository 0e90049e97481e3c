-- ===== src/Prerequisites.antt =====
-- `load_prerequisites` (backend/src/alpha/services.py): the checks on a list of prerequisites, and
-- the depth-first search for a cycle. A challenge is its id, a set of ids is a list.
pub mod Search
pub mod Ends
pub mod Decides
pub mod Grounded
pub mod Loaded
use ctfnight.Base.{
  ℕ, zero, suc, ◌+◌, Bool, true, false, ◌&&◌, not, Option, none, some, List, [], ◌∷◌, Result, ok,
  err, api, Code, Error, ◌==◌, leb, if◌then◌else◌, select_one, select_all, contains, length,
  sort_by, map,
}
use ctfnight.Model.{Db, Challenge}

-- `by_id.get(id, …).prerequisites`: the relation is the same wherever the row comes from.
unfoldable pub prerequisites_of : Db → ℕ → List ℕ
prerequisites_of d id = elim (select_one (λ (c : Challenge). c.id == id) d.challenges) [
  | none ↦ []
  | some c ↦ c.prerequisites
]

module _ (prerequisites : ℕ → List ℕ) (target : ℕ) where
  -- `any(reaches_target(…, seen) for item in …)`: it stops at the first that does, and the calls
  -- share the set `seen`.
  unfoldable pub any_reaches :
      (ℕ → List ℕ → Option (Bool × List ℕ)) → List ℕ → List ℕ → Option (Bool × List ℕ)
  any_reaches search [] seen = some (false, seen)
  any_reaches search (x ∷ xs) seen = elim (search x seen) [
    | none ↦ none
    | some (true, later) ↦ some (true, later)
    | some (false, later) ↦ any_reaches search xs later
  ]

  -- `none` is fuel that ran out.
  unfoldable pub reaches_target : ℕ → ℕ → List ℕ → Option (Bool × List ℕ)
  reaches_target zero node seen = none
  reaches_target (suc fuel) node seen =
      if node == target
      then some (true, seen)
      else if contains node seen
      then some (false, seen)
      else any_reaches (reaches_target fuel) (prerequisites node) (node ∷ seen)

  -- `any(reaches_target(row, set()) for row in rows)`
  unfoldable pub creates_cycle : ℕ → List ℕ → Option Bool
  creates_cycle fuel [] = some false
  creates_cycle fuel (row ∷ rows) = elim (reaches_target fuel row []) [
    | none ↦ none
    | some (true, seen) ↦ some true
    | some (false, seen) ↦ creates_cycle fuel rows
  ]

-- `len(set(ids)) != len(ids)`
unfoldable pub has_duplicate : List ℕ → Bool
has_duplicate [] = false
has_duplicate (x ∷ xs) = if contains x xs then true else has_duplicate xs

-- `order`: the position of each id in the request.
position : ℕ → List ℕ → ℕ
position a [] = 0
position a (x ∷ xs) = let rest = position a xs in if x == a then 0 else suc rest

unfoldable pub earlier : List ℕ → Challenge → Challenge → Bool
unfolding position
earlier ids a b = leb (position a.id ids) (position b.id ids)

abbrev pub id_of : Challenge → ℕ
id_of c = c.id

abbrev pub is_listed : ℕ → List ℕ → Challenge → Bool
is_listed event_id ids c = c.event_id == event_id && contains c.id ids

-- No id twice, none of them the challenge itself, and each a challenge of the event.
unfoldable pub listed_rows : Db → ℕ → List ℕ → Option ℕ → Result (List Challenge)
listed_rows d event_id ids challenge_id =
    if has_duplicate ids
    then err (api 422 Code.duplicate_prerequisite)
    else if elim challenge_id [ none ↦ false | some id ↦ contains id ids ]
    then err (api 422 Code.self_prerequisite)
    else let rows = select_all (is_listed event_id ids) d.challenges in
      if length rows == length ids then ok rows else err (api 422 Code.invalid_prerequisite)

-- The search visits each challenge once: one more round than there are challenges is enough.
abbrev pub search_fuel : Db → ℕ
search_fuel d = suc (length d.challenges)

unfoldable pub cycle_guard : Db → Option ℕ → List ℕ → Result (Unit {0})
cycle_guard d none rows = ok tt
cycle_guard d (some id) rows = elim (creates_cycle (prerequisites_of d) id (search_fuel d) rows) [
  | none ↦ err Error.unexpected_error
  | some true ↦ err (api 422 Code.prerequisite_cycle)
  | some false ↦ ok tt
]

unfoldable pub load_prerequisites : Db → ℕ → List ℕ → Option ℕ → Result (List ℕ)
unfolding earlier
load_prerequisites d event_id ids challenge_id = elim (listed_rows d event_id ids challenge_id) [
  | err e ↦ err e
  | ok rows ↦ elim (cycle_guard d challenge_id (map id_of rows)) [
    | err e ↦ err e
    | ok _ ↦ ok (map id_of (sort_by (earlier ids) rows))
  ]
]
