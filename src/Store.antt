-- ===== src/Store.antt =====
-- `MemoryStore` (backend/src/alpha/store.py): rate windows, cached values, counters and leases.
-- `time.monotonic()` is the argument `now`, in microseconds. The lock of the class makes every
-- method one step.
mod Keys
pub mod Rate
pub mod Lease
pub use Keys.{Key, key_eq}
unfoldable pub use Keys.{same_key}
use ctfnight.Base.{
  ℕ, ◌+◌, ◌-◌, ◌*◌, ◌/◌, max, String, Bool, true, false, Option, none, some, List, [], Result,
  Error, ok, err, ltb, leb, ◌==◌, if◌then◌else◌, Eq, get, put, pop, str_eq,
}

abbrev pub second : ℕ
second = 1000000

pub record RateLimitResult : Type 0 where
  pub allowed : Bool
  pub retry_after : ℕ

-- An entry of `_values` holds the count of a rate window or a dict.
pub data Value {ℓ} (P : Type ℓ) : Type ℓ where
  count : ℕ → Value P
  dict : P → Value P

pub record MemoryStore {ℓ} (P : Type ℓ) : Type ℓ where
  pub values : List (Key × (ℕ × Value P))
  pub counters : List (Key × ℕ)
  pub leases : List (Key × (ℕ × String))

verdict : ℕ → ℕ → ℕ → ℕ → RateLimitResult
verdict expires n limit now =
    if ltb limit n
    then record { allowed = false; retry_after = max 1 ((expires - now) / second + 1) }
    else record { allowed = true; retry_after = 0 }

lease_free : Option (ℕ × String) → ℕ → Bool
lease_free none now = true
lease_free (some (expires, _)) now = leb expires now

holds : Option (ℕ × String) → String → Bool
holds none token = false
holds (some (_, current)) token = str_eq current token

module _ {ℓ} {P : Type ℓ} where
  -- The expiry and the count before this request: a missing or expired entry opens a window.
  -- Counting over a dict is a TypeError.
  window : Option (ℕ × Value P) → ℕ → ℕ → Result (ℕ × ℕ)
  window none now window_seconds = ok (now + window_seconds * second, 0)
  window (some (expires, count n)) now window_seconds =
      if leb expires now then ok (now + window_seconds * second, 0) else ok (expires, n)
  window (some (expires, dict _)) now window_seconds =
      if leb expires now then ok (now + window_seconds * second, 0) else err Error.unexpected_error

  unfoldable pub check_rate :
      Key → ℕ → ℕ → ℕ → MemoryStore P → Result RateLimitResult × MemoryStore P
  unfolding window verdict
  check_rate key limit window_seconds now store =
      elim (window (get key store.values) now window_seconds) [
        | err e ↦ (err e, store)
        | ok (expires, n) ↦ (
          ok (verdict expires (n + 1) limit now),
          record store { values = put key (expires, count (n + 1)) store.values },
        )
      ]

  payload : Value P → Option P
  payload (count _) = none
  payload (dict p) = some p

  unfoldable pub get_json : Key → ℕ → MemoryStore P → Option P × MemoryStore P
  unfolding payload
  get_json key now store = elim (get key store.values) [
    | none ↦ (none, store)
    | some (expires, value) ↦
        if leb expires now
        then (none, record store { values = pop key store.values })
        else (payload value, store)
  ]

  unfoldable pub set_json : Key → P → ℕ → ℕ → MemoryStore P → MemoryStore P
  set_json key value ttl_seconds now store =
      if leb ttl_seconds 0
      then store
      else record store { values = put key (now + ttl_seconds * second, dict value) store.values }

  unfoldable pub delete : Key → MemoryStore P → MemoryStore P
  delete key store = record store { values = pop key store.values }

  unfoldable pub get_counter : Key → MemoryStore P → ℕ
  get_counter key store = elim (get key store.counters) [ none ↦ 0 | some n ↦ n ]

  unfoldable pub increment : Key → MemoryStore P → ℕ × MemoryStore P
  unfolding get_counter
  increment key store =
      let value = get_counter key store + 1 in
      (value, record store { counters = put key value store.counters })

  -- `token` is the fresh random token of the call; a ttl of 0 or less is a ValueError.
  unfoldable pub acquire_lease :
      Key → ℕ → String → ℕ → MemoryStore P → Result (Option String) × MemoryStore P
  unfolding lease_free
  acquire_lease key ttl_seconds token now store =
      if leb ttl_seconds 0
      then (err Error.unexpected_error, store)
      else if lease_free (get key store.leases) now
      then (
        ok (some token),
        record store { leases = put key (now + ttl_seconds * second, token) store.leases },
      )
      else (ok none, store)

  unfoldable pub release_lease : Key → String → MemoryStore P → Bool × MemoryStore P
  unfolding holds
  release_lease key token store =
      if holds (get key store.leases) token
      then (true, record store { leases = pop key store.leases })
      else (false, store)

  unfoldable pub close : MemoryStore P → MemoryStore P
  close store = record { values = []; counters = []; leases = [] }
