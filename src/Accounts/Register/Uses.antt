-- ===== src/Accounts/Register/Uses.antt =====
-- No registration takes an access code past its uses. The constraint
-- `ck_registration_codes_use_count` is not part of `count_use`: the checks suffice.
use ctfnight.Base.{
  String, ℕ, ◌+◌, ◌≤◌, ◌≡◌, refl, Bool, true, false, Option, none, some, List, [], ◌∷◌, ok, arith,
  ◌==◌, ltb, select_one, count_where, count_where-update_where_one, count_where-update_where_same,
  Option-cases, Result-cases, inl, inr, or_default,
}
use ctfnight.Model.{Db, Event, RegistrationCode}
use ctfnight.Access.{Request}
use ctfnight.Security.{hash_registration_access}
use ctfnight.Accounts.Codes.{registration_code_or_denied, count_use, is_usable, used_up, names_code}
use ctfnight.Accounts.Register.{RegisterRequest, may_register, registering_event}

abbrev pub overused : RegistrationCode → Bool
overused code = elim code.max_uses [ none ↦ false | some m ↦ ltb m code.use_count ]

abbrev pub with_id : ℕ → RegistrationCode → Bool
with_id id code = code.id == id

-- Code identifiers are unique, and no code has been used more often than it may be.
pub record IsWithinUses (d : Db) : Type 0 where
  pub one_code : (id : ℕ) → count_where (with_id id) d.registration_codes ≤ 1
  pub within : count_where overused d.registration_codes ≡ 0

counted :
    (p q : RegistrationCode → Bool) (xs : List RegistrationCode) (c : RegistrationCode)
    → select_one p xs ≡ some c
    → q c ≡ true
    → 1 ≤ count_where q xs
unfolding select_one count_where
counted p q [] c h y = cc
counted p q (x ∷ xs) c h y = ground (arith, counted p q xs c)

-- The row that one test finds is the one that an identifying test finds.
found_by_id :
    (p q : RegistrationCode → Bool) (xs : List RegistrationCode) (c : RegistrationCode)
    → select_one p xs ≡ some c
    → q c ≡ true
    → count_where q xs ≤ 1
    → select_one q xs ≡ some c
unfolding select_one count_where
found_by_id p q [] c h y u = cc
found_by_id p q (x ∷ xs) c h y u = ground (arith, found_by_id p q xs c, counted p q xs c)

abbrev candidate_hash : Request → Option String → String
candidate_hash request access_code =
    hash_registration_access request.crypto request.settings.secret_key (or_default access_code "")

usable_code :
    (request : Request) (event : Event) (access_code : Option String) (now : ℕ) (d : Db)
    (code : RegistrationCode)
    → registration_code_or_denied request event access_code now d ≡ ok (some code)
    → (select_one (names_code event.id (candidate_hash request access_code)) d.registration_codes
        ≡ some code)
      × (used_up code ≡ false)
unfolding registration_code_or_denied is_usable
usable_code request event access_code now d code h =
    elim (Option-cases (
      select_one (names_code event.id (candidate_hash request access_code)) d.registration_codes)) [
        | inl e ↦ ground arith
        | inr (c, e) ↦ ground arith
      ]

allowed_code :
    (request : Request) (payload : RegisterRequest) (now : ℕ) (d : Db) (event : Event)
    (code : RegistrationCode)
    → may_register request payload now d ≡ ok (event, some code)
    → (select_one
          (names_code event.id (candidate_hash request payload.access_code))
          d.registration_codes
        ≡ some code)
      × (used_up code ≡ false)
unfolding may_register
allowed_code request payload now d event code h = elim (Result-cases (registering_event now d)) [
  | inr (x, e) ↦ ground arith
  | inl (found, e) ↦
      elim (Result-cases (registration_code_or_denied request found payload.access_code now d)) [
        | inr (x, f) ↦ ground arith
        | inl (c, f) ↦ ground (arith, usable_code request found payload.access_code now d code)
      ]
]

-- A use of a code that the checks have passed.
pub count_use-IsWithinUses :
    (request : Request) (payload : RegisterRequest) (now : ℕ) (d : Db) (event : Event)
    (code : Option RegistrationCode) (e : Db)
    → may_register request payload now d ≡ ok (event, code)
    → e.registration_codes ≡ d.registration_codes
    → IsWithinUses d
    → IsWithinUses (count_use code e)
unfolding count_use
count_use-IsWithinUses request payload now d event none e h same w = record {
  one_code = rw same w.one_code;
  within = rw same w.within;
}
count_use-IsWithinUses request payload now d event (some code) e h same w =
    let (found, room) = allowed_code request payload now d event code h in
    let bump : RegistrationCode → RegistrationCode =
      λ c. record c { use_count = c.use_count + 1 } in
    let mine : RegistrationCode → Bool = λ c. c.id == code.id in
    let here =
      found_by_id (names_code event.id (candidate_hash request payload.access_code)) mine
        d.registration_codes code found (ground arith) (w.one_code code.id) in
    record {
      one_code = λ id. rw same (
          ground (
            arith,
            w.one_code id,
            count_where-update_where_same (with_id id) mine bump d.registration_codes (λ x y. refl),
          ));
      within = rw same (
          ground (
            arith,
            w.within,
            count_where-update_where_one overused mine bump d.registration_codes code here
                (w.one_code code.id),
          ));
    }
