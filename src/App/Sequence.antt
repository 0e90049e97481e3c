-- ===== src/App/Sequence.antt =====
-- Actions in sequence are sequences of actions: how a property of the committed database passes
-- through an action that is itself a `do` block.
use ctfnight.Base.{◌≡◌, refl, Result, ok, err}
use ctfnight.Model.{Db}
use ctfnight.App.{Session, App, ◌>>=◌, pure}
use ctfnight.App.Keeps.{Kept}

abbrev pub continued : {A B : Type 0} → (A → App B) → Result A × Session → Result B × Session
continued f r = elim r.0 [ ok a ↦ f a r.1 | err e ↦ (err e, r.1) ]

continued_twice :
    {A B C : Type 0} (f : A → App B) (g : B → App C) (r : Result A × Session)
    → continued g (continued f r) ≡ continued (λ a. f a >>= g) r
unfolding ◌>>=◌
continued_twice f g (ok a, t) = refl
continued_twice f g (err x, t) = refl

associated :
    {A B C : Type 0} (f : A → App B) (g : B → App C) (m : App A) (s : Session)
    → ((m >>= f) >>= g) s ≡ (m >>= λ a. f a >>= g) s
unfolding ◌>>=◌
associated f g m s = continued_twice f g (m s)

pub Kept-assoc :
    (P : Db → Type 0) {A B C : Type 0} (s : Session) (m : App A) (f : A → App B) (g : B → App C)
    → Kept P (m >>= λ a. f a >>= g) s
    → Kept P ((m >>= f) >>= g) s
unfolding Kept
Kept-assoc P s m f g h = rw (associated f g m s) h

pub Kept-pure_then :
    (P : Db → Type 0) (k : Unit {0} → App (Unit {0})) (t : Session)
    → Kept P (k tt) t
    → Kept P (pure tt >>= k) t
unfolding Kept ◌>>=◌
Kept-pure_then P k t h = h
