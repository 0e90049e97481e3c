-- ===== src/Store/Keys.antt =====
-- The keys of the store. The program builds them as `f"…:{id}:…:{digest}"`; a key here keeps the
-- template, the identifiers and the digest apart.
use ctfnight.Base.{
  ℕ, String, Bool, true, false, ◌&&◌, ◌≡◌, ◌↔◌, List, [], ◌∷◌, ◌==◌, str_eq, eq_iff, Eq, arith,
}

pub record Key : Type 0 where
  pub template : String
  pub ids : List ℕ
  pub digest : String

ids_eq : List ℕ → List ℕ → Bool
ids_eq [] [] = true
ids_eq [] (_ ∷ _) = false
ids_eq (_ ∷ _) [] = false
ids_eq (a ∷ as') (b ∷ bs) = a == b && ids_eq as' bs

ids_eq_iff : (xs ys : List ℕ) → (ids_eq xs ys ≡ true) ↔ (xs ≡ ys)
unfolding ids_eq
ids_eq_iff [] [] = ground arith
ids_eq_iff [] (y ∷ ys) = ground arith
ids_eq_iff (x ∷ xs) [] = ground arith
ids_eq_iff (x ∷ xs) (y ∷ ys) = ground (arith, ids_eq_iff xs ys)

unfoldable pub same_key : Key → Key → Bool
unfolding ids_eq
same_key a b = str_eq a.template b.template && (ids_eq a.ids b.ids && str_eq a.digest b.digest)

pub same_key_iff : (a b : Key) → (same_key a b ≡ true) ↔ (a ≡ b)
unfolding same_key
same_key_iff a b =
    ground (arith, eq_iff a.template b.template, eq_iff a.digest b.digest, ids_eq_iff a.ids b.ids)

instance abbrev pub key_eq : Eq Key
unfolding same_key
key_eq = record { beq = same_key; beq_iff = same_key_iff }
