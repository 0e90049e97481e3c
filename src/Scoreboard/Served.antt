-- ===== src/Scoreboard/Served.antt =====
-- GET /scoreboard serves no board that is older than the last invalidation before the request.
use ctfnight.Base.{
  ℕ, ◌≤◌, ◌≡◌, refl, String, inl, inr, Bool, false, not, Option, none, some, Result, ok, err, arith,
  ◌==◌, Bool-cases, Option-cases, Result-cases, raise_if, api, api_error, Code, Error,
}
use ctfnight.Model.{Db, Event, Scoreboard, CachedBoard}
use ctfnight.Event.{CachePhase, public_scoreboard_cache_phase}
use ctfnight.Store.{MemoryStore, set_json, acquire_lease, Key}
use ctfnight.Access.{Request, current_event}
use ctfnight.App.{Session, App, ◌>>=◌, pure, lift, gets, touch, query}
use ctfnight.Scoreboard.{board_key}
use ctfnight.Scoreboard.Totals.{Sql}
use ctfnight.Scoreboard.Serve.{
  with_store, pause, look, releasing, build_board, busy_board, leased_board, scoreboard, BuildDraw,
  lease_key, scoreboard_build_lease_seconds,
}
use ctfnight.Scoreboard.Current.{
  IsLess, IsBoard, IsSound, IsFair, Looked, generation, less-IsSound, set_json-IsSound, look-Looked,
  acquire_lease-IsLess, release_lease-IsLess,
}

module _ (q : Sql) (event : Event) (Moment : ℕ → Db → Type 0) (others : ℕ → Session → Session)
    (fair : (k : ℕ) → IsFair q event.id Moment (others k)) where
  -- A board that is served is of a generation no lower than `low`, and the store stays sound.
  abbrev pub Serves : ℕ → Result Scoreboard × Session → Type 0
  Serves low r =
      ((b : Scoreboard) → r.0 ≡ ok b → (g : ℕ) × (low ≤ g) × IsBoard q event.id Moment g b)
      × IsSound q event.id Moment r.1

  served :
      (low g : ℕ) (b : Scoreboard) (s : Session)
      → low ≤ g
      → IsBoard q event.id Moment g b
      → IsSound q event.id Moment s
      → Serves low (ok b, s)
  served low g b s h made i =
      (λ x e. let same : b ≡ x = ground arith in simp (← same) (g, h, made), i)

  refused :
      (low : ℕ) (e : Error) (s : Session) → IsSound q event.id Moment s → Serves low (err e, s)
  refused low e s i = (λ b h. cc h, i)

  -- One rule for each kind of step.
  Serves-look :
      (low k : ℕ) (phase : CachePhase) (now : ℕ) (f : ℕ × Option Scoreboard → App Scoreboard)
      (s : Session)
      → IsSound q event.id Moment s
      → ((found : ℕ × Option Scoreboard) (t : Session)
          → Looked q event.id Moment s found t
          → Serves low (f found t))
      → Serves low ((look (others k) event.id phase now >>= f) s)
  unfolding look with_store pause ◌>>=◌
  Serves-look low k phase now f s i rest =
      rest _ _ (look-Looked q event.id Moment (others k) phase now s (fair k) i)

  Serves-pause :
      (low k : ℕ) (f : Unit {0} → App Scoreboard) (s : Session)
      → IsSound q event.id Moment s
      → ((t : Session)
          → IsSound q event.id Moment t
          → generation q event.id Moment s ≤ generation q event.id Moment t
          → Serves low (f tt t))
      → Serves low ((pause (others k) >>= f) s)
  unfolding pause ◌>>=◌
  Serves-pause low k f s i rest = let (j, up) = fair k s i in rest (others k s) j up

  Serves-store :
      {A : Type 0} (low : ℕ) (op : MemoryStore CachedBoard → A × MemoryStore CachedBoard)
      (f : A → App Scoreboard) (s : Session)
      → IsSound q event.id Moment s
      → IsLess s.store (op s.store).1
      → ((t : Session)
          → IsSound q event.id Moment t
          → generation q event.id Moment t ≡ generation q event.id Moment s
          → Serves low (f (op s.store).0 t))
      → Serves low ((with_store op >>= f) s)
  unfolding with_store ◌>>=◌
  Serves-store low op f s i less rest =
      let (same, sound) = less-IsSound q event.id Moment s (op s.store).1 less i in
      rest (record s { store = (op s.store).1 }) sound same

  busy_board-Serves :
      (low : ℕ) (draw : BuildDraw) (phase : CachePhase) (s : Session)
      → low ≤ generation q event.id Moment s
      → IsSound q event.id Moment s
      → Serves low (busy_board others draw event phase s)
  unfolding busy_board
  busy_board-Serves low draw phase s h i = Serves-look low 3 phase draw.reread _ s i λ found t l.
      elim (Option-cases found.1) [
        | inl e ↦
            rw e
              (unfold ◌>>=◌ in refused low (api_error 503 Code.scoreboard_busy (some 1)) t l.sound)
        | inr (b, e) ↦
            rw e
              (unfold ◌>>=◌ in served low found.0 b t (omega (arith, l.before)) (l.hit b e) l.sound)
      ]

  Serves-query :
      {A : Type 0} (low : ℕ) (g : Db → Result A) (a : A) (f : A → App Scoreboard) (s : Session)
      → g s.db ≡ ok a
      → Serves low (f a s)
      → Serves low ((query g >>= f) s)
  unfolding ◌>>=◌
  Serves-query low g a f s e h = rw e h

  Serves-gets :
      {A : Type 0} (low : ℕ) (g : Db → A) (f : A → App Scoreboard) (s : Session)
      → Serves low (f (g s.db) s)
      → Serves low ((gets g >>= f) s)
  unfolding ◌>>=◌
  Serves-gets low g f s h = h

  Serves-guard :
      (low : ℕ) (b : Bool) (e : Error) (f : Unit {0} → App Scoreboard) (s : Session)
      → IsSound q event.id Moment s
      → (b ≡ false → Serves low (f tt s))
      → Serves low ((lift (raise_if b e) >>= f) s)
  unfolding ◌>>=◌
  Serves-guard low b e f s i rest = elim (Bool-cases b) [
    | inl y ↦ rw y (refused low e s i)
    | inr n ↦ rw n (rest n)
  ]

  stored_board :
      (low g : ℕ) (phase : CachePhase) (b : Scoreboard) (ttl now : ℕ) (s : Session)
      → low ≤ g
      → IsBoard q event.id Moment g b
      → IsSound q event.id Moment s
      → Serves low (
          (touch (
                set_json
                  (board_key event.id phase)
                  (record { generation = g; payload = b })
                  ttl
                  now)
              >>= λ _. pure b)
            s)
  unfolding ◌>>=◌
  stored_board low g phase b ttl now s h made i =
      served low g b _ h made (set_json-IsSound q event.id Moment s phase b ttl now i g made)

  -- The generation has not moved while the board was computed.
  unmoved : (a b c e : ℕ) → a ≤ b → b ≤ c → c ≤ e → not (e == a) ≡ false → (b ≡ a) × (c ≡ a)
  unmoved a b c e h k l same = ground arith

  build_board-Serves :
      (low : ℕ) (draw : BuildDraw) (phase : CachePhase) (now ttl : ℕ) (s : Session)
      → low ≤ generation q event.id Moment s
      → IsSound q event.id Moment s
      → Serves low (build_board q others draw event phase now ttl s)
  unfolding build_board
  build_board-Serves low draw phase now ttl s h i =
      Serves-look low 3 phase draw.reread _ s i λ found t l. elim (Option-cases found.1) [
        | inr (b, e) ↦
            rw e
              (unfold ◌>>=◌ in served low found.0 b t (omega (arith, l.before)) (l.hit b e) l.sound)
        | inl e ↦ rw e (
            Serves-pause low 4 _ t l.sound λ t₁ i₁ up₁. Serves-gets low _ _ t₁ (
              Serves-pause low 5 _ t₁ i₁ λ t₂ i₂ up₂. Serves-gets low _ _ t₂ (
                Serves-pause low 6 _ t₂ i₂ λ t₃ i₃ up₃.
                  Serves-store low _ _ t₃ i₃ (record { counters = refl; values = λ k x c m. m })
                    λ t₄ i₄ _. Serves-guard low _ _ _ t₄ i₄ λ same.
                      Serves-pause low 7 _ t₄ i₄ λ t₅ i₅ _.
                        let (one, two) =
                          unmoved found.0 (generation q event.id Moment t₁)
                            (generation q event.id Moment t₂) (generation q event.id Moment t₃)
                            (omega (arith, l.before, l.later, up₁)) up₂ up₃ same in
                        stored_board low found.0 phase _ ttl draw.built t₅ (omega (arith, l.before))
                          (
                            t₁.db,
                            t₂.db,
                            event,
                            now,
                            simp (← one) i₁.moment,
                            simp (← two) i₂.moment,
                            refl,
                          )
                          i₅)))
      ]

  releasing-Serves :
      (low : ℕ) (key : Key) (token : String) (m : App Scoreboard) (s : Session)
      → Serves low (m s)
      → Serves low (releasing key token m s)
  unfolding releasing
  releasing-Serves low key token m s (fine, i) = (
    fine,
    (less-IsSound q event.id Moment (m s).1 _ (release_lease-IsLess key token (m s).1.store) i).1,
  )

  leased_board-Serves :
      (low : ℕ) (draw : BuildDraw) (phase : CachePhase) (now ttl : ℕ) (s : Session)
      → low ≤ generation q event.id Moment s
      → IsSound q event.id Moment s
      → Serves low (leased_board q others draw event phase now ttl s)
  unfolding leased_board
  leased_board-Serves low draw phase now ttl s h i =
      let key = lease_key event.id phase in
      Serves-store low _ _ s i
        (acquire_lease-IsLess key scoreboard_build_lease_seconds draw.token now s.store)
        λ t j same. Serves-pause low 2 _ t j λ u k up.
          let low' : low ≤ generation q event.id Moment u = omega (arith, h, same, up) in
          elim (Result-cases
            (acquire_lease key scoreboard_build_lease_seconds draw.token now s.store).0) [
              | inr (x, e) ↦
                  rw e (unfold ◌>>=◌ in refused low (api 503 Code.scoreboard_unavailable) u k)
              | inl (none, e) ↦ rw e (busy_board-Serves low draw phase u low' k)
              | inl (some token, e) ↦ rw e (
                  releasing-Serves low key token (build_board q others draw event phase now ttl) u
                    (build_board-Serves low draw phase now ttl u low' k))
            ]

-- Let a moment be a generation of the scoreboard together with a database of this generation. If at the
-- start the cached boards are of their generations, and other requests, which may commit and invalidate
-- between any two steps, keep it so and never turn the generation back, then a board that is served
-- was computed by queries on databases of one generation, which is at least that at the start: no
-- invalidation that was complete before the request is overlooked. The store is left sound.
pub scoreboard-IsBoard :
    (q : Sql) (request : Request) (event : Event) (Moment : ℕ → Db → Type 0)
    (others : ℕ → Session → Session) (draw : BuildDraw) (s : Session)
    → ((k : ℕ) → IsFair q event.id Moment (others k))
    → current_event s.db ≡ some event
    → IsSound q event.id Moment s
    → ((b : Scoreboard)
        → (scoreboard q request others draw s).0 ≡ ok b
        → (g : ℕ) × (generation q event.id Moment s ≤ g) × IsBoard q event.id Moment g b)
      × IsSound q event.id Moment (scoreboard q request others draw s).1
unfolding scoreboard
scoreboard-IsBoard q request event Moment others draw s fair here i =
    let low = generation q event.id Moment s in
    let phase = public_scoreboard_cache_phase event request.now in
    Serves-query q event Moment others fair low _ event _ s (rw here refl) (
      Serves-look q event Moment others fair low 0 phase request.now _ s i λ found t l.
        elim (Option-cases found.1) [
          | inr (b, e) ↦ rw e (
              unfold ◌>>=◌ in
              served q event Moment others fair low found.0 b t (omega (arith, l.before))
                (l.hit b e) l.sound)
          | inl e ↦ rw e (
              Serves-pause q event Moment others fair low 1 _ t l.sound λ u j up.
                leased_board-Serves q event Moment others fair low draw phase request.now
                  request.settings.scoreboard_cache_seconds u (omega (arith, l.later, up)) j)
        ])
