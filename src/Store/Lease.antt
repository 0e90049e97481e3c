-- ===== src/Store/Lease.antt =====
-- The leases of `MemoryStore`: one holder at a time, and only the holder gives a lease back.
use ctfnight.Base.{
  ℕ, ◌+◌, ◌*◌, ◌<◌, String, ◌≡◌, ◌≢◌, false, none, some, ok, arith, get, get-put_self, get-pop_self,
  eq_iff,
}
use ctfnight.Store.{Key, key_eq, MemoryStore, acquire_lease, release_lease, second}

module _ {ℓ} {P : Type ℓ} (key : Key) where
  granted :
      (ttl now : ℕ) (token : String) (store : MemoryStore P)
      → (acquire_lease key ttl token now store).0 ≡ ok (some token)
      → get key (acquire_lease key ttl token now store).1.leases ≡ some (now + ttl * second, token)
  unfolding acquire_lease
  granted ttl now token store h =
      ground (arith, get-put_self key (now + ttl * second, token) store.leases)

  refused_while :
      (ttl now e : ℕ) (token owner : String) (store : MemoryStore P)
      → get key store.leases ≡ some (e, owner)
      → 0 < ttl
      → now < e
      → acquire_lease key ttl token now store ≡ (ok none, store)
  unfolding acquire_lease
  refused_while ttl now e token owner store h pos lt = ground arith

  kept_from :
      (e : ℕ) (token owner : String) (store : MemoryStore P)
      → get key store.leases ≡ some (e, owner)
      → owner ≢ token
      → release_lease key token store ≡ (false, store)
  unfolding release_lease
  kept_from e token owner store h ne = ground (arith, eq_iff owner token)

  free_after :
      (ttl now e : ℕ) (token owner : String) (store : MemoryStore P)
      → get key store.leases ≡ some (e, owner)
      → 0 < ttl
      → (acquire_lease key ttl token now (release_lease key owner store).1).0 ≡ ok (some token)
  unfolding acquire_lease release_lease
  free_after ttl now e token owner store h pos =
      ground (arith, eq_iff owner owner, get-pop_self key store.leases)

  -- While a granted lease lasts nobody else is granted it, a release with another token changes
  -- nothing, and after the release by its holder the next request is granted at once.
  pub lease_exclusive :
      (ttl now : ℕ) (token : String) (store : MemoryStore P)
      → (acquire_lease key ttl token now store).0 ≡ ok (some token)
      → (ttl' now' : ℕ) (token' : String) → 0 < ttl'
      → now' < now + ttl * second
      → let held = (acquire_lease key ttl token now store).1 in
        (acquire_lease key ttl' token' now' held ≡ (ok none, held))
        × (token ≢ token' → release_lease key token' held ≡ (false, held))
        × ((acquire_lease key ttl' token' now' (release_lease key token held).1).0
            ≡ ok (some token'))
  lease_exclusive ttl now token store h ttl' now' token' pos lt =
      let held = (acquire_lease key ttl token now store).1 in
      let e = granted ttl now token store h in
      (
        refused_while ttl' now' (now + ttl * second) token' token held e pos lt,
        kept_from (now + ttl * second) token' token held e,
        free_after ttl' now' (now + ttl * second) token' token held e pos,
      )
