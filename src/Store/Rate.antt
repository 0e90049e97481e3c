-- ===== src/Store/Rate.antt =====
-- Rate windows of `MemoryStore.check_rate`: how many requests of a window are admitted, and what
-- the Retry-After of a refusal promises.
use ctfnight.Base.{
  ℕ, ◌+◌, ◌-◌, ◌*◌, ◌≤◌, ◌<◌, min, ◌≡◌, refl, Bool, true, false, Option, none, some, List, [], ◌∷◌,
  Result, ok, err, arith, length, to_num, leb, get, get-put_self,
}
use ctfnight.Store.{
  Key, key_eq, MemoryStore, Value, count, dict, RateLimitResult, check_rate, second,
}

-- All of the list is below a bound.
abbrev pub Before : ℕ → List ℕ → Type 0
Before bound [] = Unit
Before bound (t ∷ ts) = (t < bound) × Before bound ts

-- No window of the key is open: the entry is missing, or it has expired.
abbrev pub IsClosed {ℓ} : {P : Type ℓ} → Option (ℕ × Value P) → ℕ → Type 0
IsClosed none now = Unit
IsClosed (some (expires, _)) now = expires ≤ now

abbrev pub is_allowed : Result RateLimitResult → Bool
is_allowed (ok r) = r.allowed
is_allowed (err _) = false

module _ {ℓ} {P : Type ℓ} (key : Key) (limit window_seconds : ℕ) where
  -- The requests of one key at the listed times, and how many of them are admitted.
  unfoldable pub admitted : List ℕ → MemoryStore P → ℕ
  admitted [] store = 0
  admitted (t ∷ ts) store =
      let r = check_rate key limit window_seconds t store in
      to_num (is_allowed r.0) + admitted ts r.1

  check_rate_open :
      (now e n : ℕ) (store : MemoryStore P)
      → get key store.values ≡ some (e, count n)
      → now < e
      → (is_allowed (check_rate key limit window_seconds now store).0 ≡ leb (n + 1) limit)
        × (get key (check_rate key limit window_seconds now store).1.values
            ≡ some (e, count (n + 1)))
  unfolding check_rate
  check_rate_open now e n store h lt =
      let w : ℕ × Value P = (e, count (n + 1)) in ground (arith, get-put_self key w store.values)

  admitted_open :
      (ts : List ℕ) (e n : ℕ) (store : MemoryStore P)
      → get key store.values ≡ some (e, count n)
      → Before e ts
      → admitted ts store ≡ min (length ts) (limit - n)
  unfolding admitted
  admitted_open [] e n store h b = omega arith
  admitted_open (t ∷ ts) e n store h b =
      let step = check_rate_open t e n store h b.0 in
      let rest =
        admitted_open ts e (n + 1) (check_rate key limit window_seconds t store).1 step.1 b.1 in
      ground (arith, step.0, rest)

  check_rate_fresh :
      (now : ℕ) (store : MemoryStore P)
      → IsClosed (get key store.values) now
      → (is_allowed (check_rate key limit window_seconds now store).0 ≡ leb 1 limit)
        × (get key (check_rate key limit window_seconds now store).1.values
            ≡ some (now + window_seconds * second, count 1))
  unfolding check_rate
  check_rate_fresh now store h =
      let w : ℕ × Value P = (now + window_seconds * second, count 1) in
      ground (arith, get-put_self key w store.values)

  -- Once a request has opened a window, exactly the first `limit` requests of the window are
  -- admitted, itself included, whatever the times of the others within it.
  pub admitted_window :
      (now : ℕ) (ts : List ℕ) (store : MemoryStore P)
      → IsClosed (get key store.values) now
      → Before (now + window_seconds * second) ts
      → admitted (now ∷ ts) store ≡ min (length (now ∷ ts)) limit
  unfolding admitted
  admitted_window now ts store h b =
      let step = check_rate_fresh now store h in
      let rest =
        admitted_open ts (now + window_seconds * second) 1
          (check_rate key limit window_seconds now store).1 step.1 b in
      ground (arith, step.0, rest)

  -- A refusal leaves an entry that has expired once its Retry-After has passed.
  check_rate_refused :
      (now r : ℕ) (store : MemoryStore P) (o : Option (ℕ × Value P))
      → get key store.values ≡ o
      → (check_rate key limit window_seconds now store).0
        ≡ ok (record { allowed = false; retry_after = r })
      → (later : ℕ) → now + r * second ≤ later
      → IsClosed (get key (check_rate key limit window_seconds now store).1.values) later
  unfolding check_rate
  check_rate_refused now r store none e h later w =
      let c : ℕ × Value P = (now + window_seconds * second, count 1) in
      ground (arith, get-put_self key c store.values)
  check_rate_refused now r store (some (x, dict p)) e h later w =
      let c : ℕ × Value P = (now + window_seconds * second, count 1) in
      ground (arith, get-put_self key c store.values)
  check_rate_refused now r store (some (x, count n)) e h later w =
      let c : ℕ × Value P = (x, count (n + 1)) in
      let f : ℕ × Value P = (now + window_seconds * second, count 1) in
      ground (arith, get-put_self key c store.values, get-put_self key f store.values)

  -- After a refusal, a request that comes when its Retry-After has passed is admitted, where the
  -- limit admits anything.
  pub retry_after_suffices :
      (now r later : ℕ) (store : MemoryStore P)
      → (check_rate key limit window_seconds now store).0
        ≡ ok (record { allowed = false; retry_after = r })
      → now + r * second ≤ later
      → 1 ≤ limit
      → is_allowed
          (check_rate key limit window_seconds later
            (check_rate key limit window_seconds now store).1).0
        ≡ true
  retry_after_suffices now r later store h w l =
      let opened =
        check_rate_fresh later (check_rate key limit window_seconds now store).1
          (check_rate_refused now r store (get key store.values) refl h later w) in
      ground (arith, opened.0)
