-- ===== src/Prerequisites/Grounded.antt =====
-- Prerequisites that can be solved one after the other, and that a new list of prerequisites which
-- does not lead back to its challenge leaves them so.
use ctfnight.Base.{ℕ, ◌≡◌, inl, inr, true, List, ◌==◌, contains, Bool-cases, arith, if◌then◌else◌}
use ctfnight.Prerequisites.Search.{Leads, arrived, via}

-- All chains of prerequisites from a challenge end: it can be unlocked by solving them upwards.
pub data IsGrounded (prerequisites : ℕ → List ℕ) : ℕ → Type 0 where
  grounded :
      {a : ℕ}
      → ((b : ℕ) → contains b (prerequisites a) ≡ true → IsGrounded prerequisites b)
      → IsGrounded prerequisites a

-- The relation in which one challenge has a new list.
abbrev pub set_at : (ℕ → List ℕ) → ℕ → List ℕ → ℕ → List ℕ
set_at f id ids a = if id == a then ids else f a

module _ (f : ℕ → List ℕ) (id : ℕ) (ids : List ℕ) where
  -- A challenge that does not lead to the changed one is as grounded as before.
  apart : {a : ℕ} → IsGrounded f a → ¬ Leads f id a → IsGrounded (set_at f id ids) a
  apart {a = a} (grounded below) blocked = elim (Bool-cases (id == a)) [
    | inl e ↦ absurd (blocked (arrived (ground arith)))
    | inr e ↦ grounded (λ b m.
        let old : contains b (f a) ≡ true = rw e at m in
        apart (below b old) (λ l. blocked (via b old l)))
  ]

  changed :
      ((b : ℕ) → contains b ids ≡ true → IsGrounded f b × ¬ Leads f id b)
      → IsGrounded (set_at f id ids) id
  changed all = grounded {a = id} (λ b m.
      let here : contains b ids ≡ true = ground arith in
      let (g, blocked) = all b here in apart g blocked)

  pub set_at-IsGrounded :
      ((b : ℕ) → contains b ids ≡ true → IsGrounded f b × ¬ Leads f id b)
      → {a : ℕ} → IsGrounded f a
      → IsGrounded (set_at f id ids) a
  set_at-IsGrounded all {a = a} (grounded below) = elim (Bool-cases (id == a)) [
    | inl e ↦ let same : a ≡ id = ground arith in rw same (changed all)
    | inr e ↦ grounded (λ b m. set_at-IsGrounded all (below b (rw e at m)))
  ]

-- Fewer prerequisites leave a challenge grounded.
pub fewer-IsGrounded :
    (f g : ℕ → List ℕ)
    → ((a b : ℕ) → contains b (g a) ≡ true → contains b (f a) ≡ true)
    → {a : ℕ} → IsGrounded f a
    → IsGrounded g a
fewer-IsGrounded f g fewer {a = a} (grounded below) =
    grounded (λ b m. fewer-IsGrounded f g fewer (below b (fewer a b m)))
