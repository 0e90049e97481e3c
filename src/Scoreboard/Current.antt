-- ===== src/Scoreboard/Current.antt =====
-- Which boards GET /scoreboard may serve: the generation of the cache against what other requests do
-- meanwhile.
use ctfnight.Base.{
  ℕ, ◌+◌, ◌*◌, ◌≤◌, ◌≡◌, refl, String, inl, inr, Option, none, some, arith, get, get-put_self,
  get-put_ne, get-pop_self, get-pop_ne, Bool-cases, Option-cases, leb, sym, ◌∙◌,
}
use ctfnight.Model.{Db, Event, Scoreboard, CachedBoard}
use ctfnight.Event.{CachePhase}
use ctfnight.Store.{
  Key, key_eq, MemoryStore, Value, dict, get_counter, get_json, set_json, acquire_lease,
  release_lease, second,
}
use ctfnight.App.{Session}
use ctfnight.Scoreboard.{board_key, generation_key}
use ctfnight.Scoreboard.Totals.{Sql}
use ctfnight.Scoreboard.Ranking.{public_scoreboard}
use ctfnight.Scoreboard.Serve.{cached_payload}

-- No counter has changed, and no cached value is new.
pub record IsLess (old new : MemoryStore CachedBoard) : Type 0 where
  pub counters : new.counters ≡ old.counters
  pub values :
      (k : Key) (x : ℕ) (c : CachedBoard)
      → get k new.values ≡ some (x, dict c)
      → get k old.values ≡ some (x, dict c)

get_json-IsLess : (k : Key) (now : ℕ) (t : MemoryStore CachedBoard) → IsLess t (get_json k now t).1
unfolding get_json
get_json-IsLess k now t = elim (Option-cases (get k t.values)) [
  | inl e ↦ rw (e, get_json) (record { counters = refl; values = λ j x c h. h })
  | inr ((expires, value), e) ↦ elim (Bool-cases (leb expires now)) [
    | inr n ↦ rw (e, n, get_json) (record { counters = refl; values = λ j x c h. h })
    | inl y ↦
        rw (e, y, get_json)
          (record {
            counters = refl;
            values = λ j x c h. elim (Bool-cases (key_eq.beq j k)) [
              | inl same ↦
                  let one : j ≡ k = (key_eq.beq_iff j k).0 same in
                  cc (get-pop_self k t.values, one, h)
              | inr other ↦
                  sym (get-pop_ne j k t.values (λ one. cc ((key_eq.beq_iff j k).1 one, other))) ∙ h
            ];
          })
  ]
]

pub acquire_lease-IsLess :
    (k : Key) (ttl : ℕ) (token : String) (now : ℕ) (t : MemoryStore CachedBoard)
    → IsLess t (acquire_lease k ttl token now t).1
unfolding acquire_lease
acquire_lease-IsLess k ttl token now t = record {
  counters = ground arith;
  values = λ j x c h. ground arith;
}

pub release_lease-IsLess :
    (k : Key) (token : String) (t : MemoryStore CachedBoard) → IsLess t (release_lease k token t).1
unfolding release_lease
release_lease-IsLess k token t = record {
  counters = ground arith;
  values = λ j x c h. ground arith;
}

get_json-found :
    (k : Key) (now : ℕ) (t : MemoryStore CachedBoard) (c : CachedBoard)
    → (get_json k now t).0 ≡ some c
    → (x : ℕ) × (get k t.values ≡ some (x, dict c))
unfolding get_json
get_json-found k now t c h = elim (Option-cases (get k t.values)) [
  | inl e ↦ ground arith
  | inr ((x, Value.count n), e) ↦ ground arith
  | inr ((x, dict p), e) ↦ (x, ground arith)
]

module _ (q : Sql) (id : ℕ) (Moment : ℕ → Db → Type 0) where
  abbrev pub generation : Session → ℕ
  generation s = get_counter (generation_key id) s.store

  -- A board whose queries saw databases of this generation.
  abbrev pub IsBoard : ℕ → Scoreboard → Type 0
  IsBoard g b =
      (counted : Db) × (d : Db) × (event : Event) × (t : ℕ) × Moment g counted
      × Moment g d
      × (b ≡ public_scoreboard q counted d event t)

  -- The database is one of the current generation, and a cached board is one of its own.
  pub record IsSound (s : Session) : Type 0 where
    pub moment : Moment (generation s) s.db
    pub boards :
        (phase : CachePhase) (x : ℕ) (c : CachedBoard)
        → get (board_key id phase) s.store.values ≡ some (x, dict c)
        → IsBoard c.generation c.payload

  -- What other requests do: they bring generations and databases of theirs, and never turn the
  -- generation back.
  abbrev pub IsFair : (Session → Session) → Type 0
  IsFair others =
      (s : Session) → IsSound s → IsSound (others s) × (generation s ≤ generation (others s))

  pub less-IsSound :
      (s : Session) (t : MemoryStore CachedBoard)
      → IsLess s.store t
      → IsSound s
      → (generation (record s { store = t }) ≡ generation s) × IsSound (record s { store = t })
  unfolding get_counter
  less-IsSound s t l i =
      let same : generation (record s { store = t }) ≡ generation s = rw l.counters refl in
      (
        same,
        record {
          moment = simp same i.moment;
          boards = λ phase x c h. i.boards phase x c (l.values (board_key id phase) x c h);
        },
      )

  pub set_json-IsSound :
      (s : Session) (phase : CachePhase) (b : Scoreboard) (ttl now : ℕ)
      → IsSound s
      → (g : ℕ) → IsBoard g b
      → IsSound (record s {
        store =
            set_json (board_key id phase) (record { generation = g; payload = b }) ttl now s.store;
      })
  unfolding set_json get_counter
  set_json-IsSound s phase b ttl now i g made = elim (Bool-cases (leb ttl 0)) [
    | inl e ↦ rw e i
    | inr e ↦ rw e (record {
      moment = i.moment;
      boards = λ phase' x c h.
          elim (Bool-cases (key_eq.beq (board_key id phase') (board_key id phase))) [
            | inl same ↦
                let one = (key_eq.beq_iff (board_key id phase') (board_key id phase)).0 same in
                let stored : CachedBoard = record { generation = g; payload = b } in
                let e : c ≡ stored = cc (
                  get-put_self (board_key id phase) (now + ttl * second, dict stored)
                      s.store.values,
                  one,
                  h,
                ) in
                simp e made
            | inr other ↦ i.boards phase' x c (
                sym (
                  get-put_ne (board_key id phase') (board_key id phase)
                    (now + ttl * second, dict (record { generation = g; payload = b }))
                    s.store.values
                    (λ one.
                      cc
                        ((key_eq.beq_iff (board_key id phase') (board_key id phase)).1 one, other)))
                ∙ h)
          ];
    })
  ]

  -- What a look at the cache finds: the generation, and a board only if it is of this generation.
  pub record Looked (s : Session) (found : ℕ × Option Scoreboard) (t : Session) : Type 0 where
    pub before : found.0 ≡ generation s
    pub sound : IsSound t
    pub later : generation s ≤ generation t
    pub hit : (b : Scoreboard) → found.1 ≡ some b → IsBoard found.0 b

  payload_lem :
      (o : Option CachedBoard) (g : ℕ) (b : Scoreboard)
      → cached_payload o g ≡ some b
      → (c : CachedBoard) × (o ≡ some c) × (c.generation ≡ g) × (c.payload ≡ b)
  unfolding cached_payload
  payload_lem none g b h = cc h
  payload_lem (some c) g b h = (c, refl, ground arith, ground arith)

  pub look-Looked :
      (others : Session → Session) (phase : CachePhase) (now : ℕ) (s : Session)
      → IsFair others
      → IsSound s
      → Looked s
          (
            generation s,
            cached_payload (get_json (board_key id phase) now (others s).store).0 (generation s),
          )
          (record (others s) { store = (get_json (board_key id phase) now (others s).store).1 })
  look-Looked others phase now s fair i =
      let (j, up) = fair s i in
      let k = board_key id phase in
      let (same, sound) =
        less-IsSound (others s) (get_json k now (others s).store).1
          (get_json-IsLess k now (others s).store) j in
      record {
        before = refl;
        sound = sound;
        later = omega (arith, up, same);
        hit = λ b h.
            let (c, found, gen, pay) =
              payload_lem (get_json k now (others s).store).0 (generation s) b h in
            let (x, there) = get_json-found k now (others s).store c found in
            simp (← gen, ← pay) (j.boards phase x c there);
      }
