-- ===== src/App.antt =====
-- A request's database session (backend/src/alpha/db.py, `Database.session`) and the actions that
-- a handler makes on it. Pending changes are in `db`; `committed` is what every other session sees.
-- The session has no autoflush, and closing it drops what was not committed.
pub mod Limits
pub mod Keeps
pub mod Answers
pub mod Sequence
use ctfnight.Base.{
  ℕ, String, Bool, true, false, Option, none, some, List, [], ◌∷◌, Result, Error, ok, err, raise_if,
  or_raise,
}
use ctfnight.Model.{Db, CachedBoard}
use ctfnight.Store.{MemoryStore}

pub record Session : Type 0 where
  pub db : Db
  pub committed : Db
  pub store : MemoryStore CachedBoard

abbrev pub App : Type 0 → Type 0
App A = Session → Result A × Session

module _ {A : Type 0} where
  pub pure : A → App A
  pure a s = (ok a, s)

  pub lift : Result A → App A
  lift r s = (r, s)

  -- A read of the database.
  pub query : (Db → Result A) → App A
  query q s = (q s.db, s)

  pub gets : (Db → A) → App A
  gets f s = (ok (f s.db), s)

-- A flush that a constraint of the schema may refuse.
pub write : (Db → Result Db) → App (Unit {0})
write f s = elim (f s.db) [ ok d ↦ (ok tt, record s { db = d }) | err e ↦ (err e, s) ]

pub modify : (Db → Db) → App (Unit {0})
modify f s = (ok tt, record s { db = f s.db })

pub commit : App (Unit {0})
commit s = (ok tt, record s { committed = s.db })

pub rollback : App (Unit {0})
rollback s = (ok tt, record s { db = s.committed })

-- What the other sessions commit while this one, with nothing pending, waits for a lock or works
-- outside the database.
pub wait_for : (Db → Db) → App (Unit {0})
wait_for others s = (ok tt, record s { db = others s.committed; committed = others s.committed })

-- `except IntegrityError: db.rollback(); raise …`
pub on_integrity_error : {A : Type 0} → Error → Result A × Session → Result A × Session
on_integrity_error e (ok a, s) = (ok a, s)
on_integrity_error e (err Error.integrity_error, s) = (err e, record s { db = s.committed })
on_integrity_error e (err other, s) = (err other, s)

pub catch_integrity : {A : Type 0} → Error → App A → App A
unfolding on_integrity_error
catch_integrity e m s = on_integrity_error e (m s)

handled : {A : Type 0} → App A → Result A × Session → Result A × Session
handled h (ok a, s) = (ok a, s)
handled h (err Error.integrity_error, s) = h (record s { db = s.committed })
handled h (err other, s) = (err other, s)

-- `except IntegrityError: db.rollback(); …`
pub recover_integrity : {A : Type 0} → App A → App A → App A
unfolding handled
recover_integrity m h s = handled h (m s)

-- A change of the ephemeral store.
pub touch : (MemoryStore CachedBoard → MemoryStore CachedBoard) → App (Unit {0})
touch f s = (ok tt, record s { store = f s.store })

infixl 5 ◌>>=◌ ◌>>◌
-- To unfold this is to unfold the actions above.
unfoldable pub ◌>>=◌ : {A B : Type 0} → App A → (A → App B) → App B
unfolding pure lift query gets write modify commit rollback wait_for catch_integrity
    recover_integrity touch
◌>>=◌ m f s = let r = m s in elim r.0 [ ok a ↦ f a r.1 | err e ↦ (err e, r.1) ]

abbrev pub ◌>>◌ : {A B : Type 0} → App A → App B → App B
m >> k = m >>= λ _. k

-- The end of a request: its result, and the session after `db.close()`.
abbrev pub finish {ℓ} : {A : Type ℓ} → Result A × Session → Result A × Session
finish (r, s) = (r, record s { db = s.committed })
