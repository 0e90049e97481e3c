-- ===== src/App/Answers.antt =====
-- Rules for what an action that returns has committed, one for each action at the head of a handler.
-- Where the action raises, nothing is said.
use ctfnight.Base.{
  ◌≡◌, Bool, false, Result, ok, err, Error, raise_if, Result-cases, Bool-cases, inl, inr, refl,
  arith,
}
use ctfnight.Store.{MemoryStore}
use ctfnight.Model.{Db, CachedBoard}
use ctfnight.App.{
  Session, App, pure, lift, query, gets, write, modify, wait_for, ◌>>=◌, handled, recover_integrity,
  touch,
}

-- An answer of the action has the property of what is then committed.
unfoldable pub Answers : {B : Type 0} → (B → Db → Type 0) → App B → Session → Type 0
Answers P m s = (b : _) → (m s).0 ≡ ok b → P b (m s).1.committed

module _ {B : Type 0} (P : B → Db → Type 0) where
  module _ {A : Type 0} (s : Session) where
    pub Answers-query :
        (q : Db → Result A) (f : A → App B)
        → ((a : A) → q s.db ≡ ok a → Answers P (f a) s)
        → Answers P (query q >>= f) s
    unfolding Answers ◌>>=◌
    Answers-query q f k = elim (Result-cases (q s.db)) [
      | inl (a, e) ↦ rw e (k a e)
      | inr (x, e) ↦ rw e (λ b h. cc h)
    ]

    pub Answers-gets :
        (g : Db → A) (f : A → App B) → Answers P (f (g s.db)) s → Answers P (gets g >>= f) s
    unfolding Answers ◌>>=◌
    Answers-gets g f k = k

    -- An action of whose answer and session something is known.
    pub Answers-any :
        (Q : A → Db → Type 0) (m : App A) (f : A → App B)
        → Answers Q m s
        → ((a : A) (t : Session) → Q a t.committed → Answers P (f a) t)
        → Answers P (m >>= f) s
    unfolding Answers ◌>>=◌
    Answers-any Q m f h k = elim (Result-cases (m s).0) [
      | inl (a, e) ↦ rw (e, ◌>>=◌) (k a (m s).1 (h a e))
      | inr (x, e) ↦ rw (e, ◌>>=◌) (λ b g. cc g)
    ]

  module _ (s : Session) where
    pub Answers-guard :
        (b : Bool) (e : Error) (f : Unit {0} → App B)
        → (b ≡ false → Answers P (f tt) s)
        → Answers P (lift (raise_if b e) >>= f) s
    unfolding Answers ◌>>=◌
    Answers-guard b e f k = elim (Bool-cases b) [ inl y ↦ rw y (λ b h. cc h) | inr n ↦ rw n (k n) ]

    pub Answers-write :
        (w : Db → Result Db) (f : Unit {0} → App B)
        → ((d : Db) → w s.db ≡ ok d → Answers P (f tt) (record s { db = d }))
        → Answers P (write w >>= f) s
    unfolding Answers ◌>>=◌
    Answers-write w f k = elim (Result-cases (w s.db)) [
      | inl (a, e) ↦ rw (e, write, ◌>>=◌) (rw (e, write) (k a e))
      | inr (x, e) ↦ rw (e, write, ◌>>=◌) (λ b h. cc h)
    ]

    pub Answers-modify :
        (g : Db → Db) (f : Unit {0} → App B)
        → Answers P (f tt) (record s { db = g s.db })
        → Answers P (modify g >>= f) s
    unfolding Answers ◌>>=◌
    Answers-modify g f k = k

    pub Answers-wait :
        (others : Db → Db) (f : Unit {0} → App B)
        → Answers P (f tt) (record s { db = others s.committed; committed = others s.committed })
        → Answers P (wait_for others >>= f) s
    unfolding Answers ◌>>=◌
    Answers-wait others f k = k

    pub Answers-touch :
        (g : MemoryStore CachedBoard → MemoryStore CachedBoard) (f : Unit {0} → App B)
        → Answers P (f tt) (record s { store = g s.store })
        → Answers P (touch g >>= f) s
    unfolding Answers ◌>>=◌
    Answers-touch g f k = k

    pub Answers-query-last :
        (q : Db → Result B) → ((b : B) → q s.db ≡ ok b → P b s.committed) → Answers P (query q) s
    unfolding Answers ◌>>=◌
    Answers-query-last q k = k

    pub Answers-gets-last : (g : Db → B) → P (g s.db) s.committed → Answers P (gets g) s
    unfolding Answers ◌>>=◌
    Answers-gets-last g h b e = let same : g s.db ≡ b = ground arith in simp (← same) h

    pub Answers-pure : (a : B) → P a s.committed → Answers P (pure a) s
    unfolding Answers ◌>>=◌
    Answers-pure a h b e = let same : a ≡ b = ground arith in simp (← same) h

    -- The handler starts from the committed database.
    pub Answers-recover :
        (m h : App B)
        → Answers P m s
        → ((t : Session) → t.db ≡ t.committed → Answers P h t)
        → Answers P (recover_integrity m h) s
    unfolding Answers ◌>>=◌
    Answers-recover m h k l = resumed (m s).0 (m s).1 k
      where
        resumed :
            (r : Result B) (t : Session)
            → ((b : B) → r ≡ ok b → P b t.committed)
            → (b : B) → (handled h (r, t)).0 ≡ ok b
            → P b (handled h (r, t)).1.committed
        resumed (ok a) t k = k
        resumed (err (Error.api_error n c o)) t k = λ b e. cc e
        resumed (err Error.integrity_error) t k = l (record t { db = t.committed }) refl
        resumed (err Error.operational_error) t k = λ b e. cc e
        resumed (err Error.password_work_busy) t k = λ b e. cc e
        resumed (err Error.request_validation_error) t k = λ b e. cc e
        resumed (err Error.unexpected_error) t k = λ b e. cc e

pub Answers-weaken :
    {B : Type 0} (P Q : B → Db → Type 0) (s : Session) (m : App B)
    → Answers Q m s
    → ((b : B) (d : Db) → Q b d → P b d)
    → Answers P m s
unfolding Answers
Answers-weaken P Q s m h k b e = k b (m s).1.committed (h b e)

-- An action of which nothing is known.
pub Answers-then :
    {A B : Type 0} (P : B → Db → Type 0) (s : Session) (m : App A) (f : A → App B)
    → ((a : A) (t : Session) → Answers P (f a) t)
    → Answers P (m >>= f) s
unfolding Answers
Answers-then P s m f k =
    Answers-any P s (λ a d. Unit {0}) m f (unfold Answers in λ a e. tt) λ a t u. k a t
