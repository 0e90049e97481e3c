-- ===== src/Base/Dict.antt =====
-- A Python dict as an association list over a key type with a Boolean equality.
use mathlib.Core.Path.{◌≡◌, refl}
use mathlib.Core.Logic.{◌↔◌}
use mathlib.Core.Bool.{Bool, true}
use mathlib.Core.Option.{Option, none, some}
use mathlib.Core.List.{List, [], ◌∷◌}
use native.Mathlib.Omega.{arith}
use ctfnight.Base.Tests.{if◌then◌else◌}

-- The keys of a dict: equality as a test, and what the test means.
pub record Eq {ℓ} (K : Type ℓ) : Type ℓ where
  pub beq : K → K → Bool
  pub beq_iff : (a b : K) → (beq a b ≡ true) ↔ (a ≡ b)

module _ {ℓ κ} {K : Type ℓ} {V : Type κ} ⦃e : Eq K⦄ where
  -- `d.get(k)`
  unfoldable pub get : K → List (K × V) → Option V
  get k [] = none
  get k ((j, v) ∷ d) = if e.beq k j then some v else get k d

  -- `d[k] = v`
  unfoldable pub put : K → V → List (K × V) → List (K × V)
  put k v [] = (k, v) ∷ []
  put k v ((j, w) ∷ d) = let rest = put k v d in if e.beq k j then (k, v) ∷ d else (j, w) ∷ rest

  -- `d.pop(k, None)`
  unfoldable pub pop : K → List (K × V) → List (K × V)
  pop k [] = []
  pop k ((j, w) ∷ d) = let rest = pop k d in if e.beq k j then rest else (j, w) ∷ rest

  pub get-put_self : (k : K) (v : V) (d : List (K × V)) → get k (put k v d) ≡ some v
  unfolding get put
  get-put_self k v [] = ground (arith, e.beq_iff k k)
  get-put_self k v ((j, w) ∷ d) = ground (arith, e.beq_iff k k, e.beq_iff k j, get-put_self k v d)

  pub get-put_ne : (j k : K) (v : V) (d : List (K × V)) → ¬ (j ≡ k) → get j (put k v d) ≡ get j d
  unfolding get put
  get-put_ne j k v [] h = ground (arith, e.beq_iff j k)
  get-put_ne j k v ((i, w) ∷ d) h =
      ground (arith, e.beq_iff j k, e.beq_iff k i, e.beq_iff j i, get-put_ne j k v d h)

  pub get-pop_self : (k : K) (d : List (K × V)) → get k (pop k d) ≡ none
  unfolding get pop
  get-pop_self k [] = refl
  get-pop_self k ((j, w) ∷ d) = ground (arith, get-pop_self k d)

  pub get-pop_ne : (j k : K) (d : List (K × V)) → ¬ (j ≡ k) → get j (pop k d) ≡ get j d
  unfolding get pop
  get-pop_ne j k [] h = refl
  get-pop_ne j k ((i, w) ∷ d) h =
      ground (arith, e.beq_iff k i, e.beq_iff j i, e.beq_iff j k, get-pop_ne j k d h)
