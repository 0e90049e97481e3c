-- ===== src/Tests/Store.antt =====
-- The ephemeral store at concrete inputs.
use ctfnight.Base.{
  ℕ, ◌≡◌, ◌≢◌, refl, true, false, none, ok, [], ◌∷◌, min, length, arith, get, put, some, String,
}
use ctfnight.Model.{CachedBoard}
use ctfnight.Store.{key_eq, Key, MemoryStore, check_rate, acquire_lease, release_lease, same_key}
use ctfnight.Store.Rate.{admitted, admitted_window, retry_after_suffices, IsClosed, is_allowed}
use ctfnight.Store.Lease.{lease_exclusive}

abbrev key : Key
key = record { template = "submit:team"; ids = 1 ∷ 7 ∷ []; digest = "" }

abbrev empty : MemoryStore CachedBoard
empty = record { values = []; counters = []; leases = [] }

empty-IsClosed : IsClosed (get key empty.values) 100
unfolding get
empty-IsClosed = tt

admitted_window_example :
    admitted key 2 60 (100 ∷ 200 ∷ 300 ∷ []) empty ≡ min (length {A = ℕ} (100 ∷ 200 ∷ 300 ∷ [])) 2
admitted_window_example =
    admitted_window key 2 60 100 (200 ∷ 300 ∷ []) empty empty-IsClosed
      (omega arith, (omega arith, tt))

abbrev used : MemoryStore CachedBoard
used = (check_rate key 1 60 100 empty).1

used_up : (check_rate key 1 60 200 used).0 ≡ ok (record { allowed = false; retry_after = 60 })
unfolding check_rate get put same_key
used_up = refl

retry_after_suffices_example :
    is_allowed (check_rate key 1 60 60000200 (check_rate key 1 60 200 used).1).0 ≡ true
retry_after_suffices_example =
    retry_after_suffices key 1 60 200 60 60000200 used used_up (omega arith) (omega arith)

abbrev held : MemoryStore CachedBoard
held = (acquire_lease key 5 "a" 100 empty).1

lease_granted : (acquire_lease key 5 "a" 100 empty).0 ≡ ok (some "a")
unfolding acquire_lease get
lease_granted = refl

lease_exclusive_example :
    (acquire_lease key 5 "b" 200 held ≡ (ok none, held))
    × (◌≢◌ {A = String} "a" "b" → release_lease key "b" held ≡ (false, held))
    × ((acquire_lease key 5 "b" 200 (release_lease key "a" held).1).0 ≡ ok (some "b"))
lease_exclusive_example =
    lease_exclusive key 5 100 "a" empty lease_granted 5 200 "b" (omega arith) (omega arith)
