-- ===== src/App/Keeps.antt =====
-- Rules for a property of the committed database, one for each action at the head of a handler. A
-- rule hands what the action has found out to the rest of the handler.
use ctfnight.Base.{
  ℕ, ◌≡◌, Bool, false, List, [], ◌∷◌, Result, ok, err, Error, raise_if, Code, Result-cases,
  Bool-cases, inl, inr,
}
use ctfnight.Store.{check_rate, MemoryStore}
use ctfnight.Model.{Db, CachedBoard}
use ctfnight.App.{
  Session, App, pure, lift, query, gets, write, modify, commit, rollback, wait_for, catch_integrity,
  on_integrity_error, ◌>>=◌, handled, recover_integrity, touch,
}
use ctfnight.App.Limits.{Tier, check_tiers}

module _ (P : Db → Type 0) where
  -- After the action, whatever it returns or raises, the committed database has the property.
  unfoldable pub Kept : {A : Type 0} → App A → Session → Type 0
  Kept m s = P (m s).1.committed

  module _ {A B : Type 0} (s : Session) where
    pub Kept-query :
        (q : Db → Result A) (f : A → App B)
        → P s.committed
        → ((a : A) → q s.db ≡ ok a → Kept (f a) s)
        → Kept (query q >>= f) s
    unfolding Kept ◌>>=◌
    Kept-query q f h k = elim (Result-cases (q s.db)) [
      | inl (a, e) ↦ rw e (k a e)
      | inr (x, e) ↦ rw e h
    ]

    pub Kept-gets : (g : Db → A) (f : A → App B) → Kept (f (g s.db)) s → Kept (gets g >>= f) s
    unfolding Kept ◌>>=◌
    Kept-gets g f k = k

    -- An action of which nothing is known but that it keeps the property.
    pub Kept-any :
        (m : App A) (f : A → App B)
        → Kept m s
        → ((a : A) (t : Session) → P t.committed → Kept (f a) t)
        → Kept (m >>= f) s
    unfolding Kept ◌>>=◌
    Kept-any m f h k = elim (Result-cases (m s).0) [
      | inl (a, e) ↦ rw (e, ◌>>=◌) (k a (m s).1 h)
      | inr (x, e) ↦ rw (e, ◌>>=◌) h
    ]

  module _ {B : Type 0} (s : Session) where
    pub Kept-guard :
        (b : Bool) (e : Error) (f : Unit {0} → App B)
        → P s.committed
        → (b ≡ false → Kept (f tt) s)
        → Kept (lift (raise_if b e) >>= f) s
    unfolding Kept ◌>>=◌
    Kept-guard b e f h k = elim (Bool-cases b) [ inl y ↦ rw y h | inr n ↦ rw n (k n) ]

    pub Kept-write :
        (w : Db → Result Db) (f : Unit {0} → App B)
        → P s.committed
        → ((d : Db) → w s.db ≡ ok d → Kept (f tt) (record s { db = d }))
        → Kept (write w >>= f) s
    unfolding Kept ◌>>=◌
    Kept-write w f h k = elim (Result-cases (w s.db)) [
      | inl (a, e) ↦ rw (e, write, ◌>>=◌) (rw (e, write) (k a e))
      | inr (x, e) ↦ rw (e, write, ◌>>=◌) (rw (e, write) h)
    ]

    pub Kept-modify :
        (g : Db → Db) (f : Unit {0} → App B)
        → Kept (f tt) (record s { db = g s.db })
        → Kept (modify g >>= f) s
    unfolding Kept ◌>>=◌
    Kept-modify g f k = k

    pub Kept-wait :
        (others : Db → Db) (f : Unit {0} → App B)
        → Kept (f tt) (record s { db = others s.committed; committed = others s.committed })
        → Kept (wait_for others >>= f) s
    unfolding Kept ◌>>=◌
    Kept-wait others f k = k

    pub Kept-rollback :
        (f : Unit {0} → App B)
        → Kept (f tt) (record s { db = s.committed })
        → Kept (rollback >>= f) s
    unfolding Kept ◌>>=◌
    Kept-rollback f k = k

    pub Kept-commit :
        (f : Unit {0} → App B) → Kept (f tt) (record s { committed = s.db }) → Kept (commit >>= f) s
    unfolding Kept ◌>>=◌
    Kept-commit f k = k

  pub Kept-last : (s : Session) → P s.db → Kept commit s
  unfolding Kept ◌>>=◌
  Kept-last s h = h

  pub Kept-pure : {A : Type 0} (a : A) (s : Session) → P s.committed → Kept (pure a) s
  unfolding Kept ◌>>=◌
  Kept-pure a s h = h

  pub Kept-catch :
      {A : Type 0} (s : Session) (x : Error) (m : App A) → Kept m s → Kept (catch_integrity x m) s
  unfolding Kept ◌>>=◌
  Kept-catch {A} s x m h = caught x (m s).0 (m s).1 h
    where
      caught :
          (x : Error) (r : Result A) (t : Session)
          → P t.committed
          → P (on_integrity_error x (r, t)).1.committed
      caught x (ok a) t h = h
      caught x (err (Error.api_error n c o)) t h = h
      caught x (err Error.integrity_error) t h = h
      caught x (err Error.operational_error) t h = h
      caught x (err Error.password_work_busy) t h = h
      caught x (err Error.request_validation_error) t h = h
      caught x (err Error.unexpected_error) t h = h

  pub Kept-recover :
      {A : Type 0} (s : Session) (m h : App A)
      → Kept m s
      → ((t : Session) → P t.committed → Kept h t)
      → Kept (recover_integrity m h) s
  unfolding Kept ◌>>=◌
  Kept-recover {A} s m h k l = resumed (m s).0 (m s).1 k
    where
      resumed : (r : Result A) (t : Session) → P t.committed → P (handled h (r, t)).1.committed
      resumed (ok a) t k = k
      resumed (err (Error.api_error n c o)) t k = k
      resumed (err Error.integrity_error) t k = l (record t { db = t.committed }) k
      resumed (err Error.operational_error) t k = k
      resumed (err Error.password_work_busy) t k = k
      resumed (err Error.request_validation_error) t k = k
      resumed (err Error.unexpected_error) t k = k

  pub Kept-touch :
      {B : Type 0} (s : Session) (g : MemoryStore CachedBoard → MemoryStore CachedBoard)
      (f : Unit {0} → App B)
      → Kept (f tt) (record s { store = g s.store })
      → Kept (touch g >>= f) s
  unfolding Kept ◌>>=◌
  Kept-touch s g f k = k

  pub Kept-touch_last :
      (s : Session) (g : MemoryStore CachedBoard → MemoryStore CachedBoard)
      → P s.committed
      → Kept (touch g) s
  unfolding Kept ◌>>=◌
  Kept-touch_last s g h = h

  pub Kept-lift : {A : Type 0} (r : Result A) (s : Session) → P s.committed → Kept (lift r) s
  unfolding Kept ◌>>=◌
  Kept-lift r s h = h

  pub Kept-query-last :
      {A : Type 0} (s : Session) (q : Db → Result A) → P s.committed → Kept (query q) s
  unfolding Kept ◌>>=◌
  Kept-query-last s q h = h

  pub Kept-gets-last : {A : Type 0} (s : Session) (g : Db → A) → P s.committed → Kept (gets g) s
  unfolding Kept ◌>>=◌
  Kept-gets-last s g h = h

  -- The rate tiers do not touch the database.
  pub Kept-tiers :
      (code : Code) (now : ℕ) (tiers : List Tier) (s : Session)
      → P s.committed
      → Kept (check_tiers code now tiers) s
  unfolding Kept check_tiers
  Kept-tiers code now [] s h = h
  Kept-tiers code now (tier ∷ rest) s h =
      let next =
        Kept-tiers code now rest
          (record s { store = (check_rate tier.key tier.limit tier.window_seconds now s.store).1 })
          h in
      elim (Result-cases (check_rate tier.key tier.limit tier.window_seconds now s.store).0) [
        | inr (x, e) ↦ rw (e, check_tiers) h
        | inl (a, e) ↦
            rw (e, check_tiers)
              (elim (Bool-cases a.allowed) [
                | inl y ↦ rw (y, check_tiers) next
                | inr n ↦ rw (n, check_tiers) h
              ])
      ]
