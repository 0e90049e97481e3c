-- ===== src/Cli/Recovery.antt =====
-- What `set-password` leaves of an account.
use ctfnight.Base.{
  ℕ, ◌≤◌, ◌<◌, ◌≡◌, ◌≢◌, ◌⊎◌, refl, String, Bool, true, false, Option, none, some, List, [], ◌∷◌,
  ok, arith, ◌==◌, ltb, inl, inr, select_one, update_where, Option-cases, Bool-cases,
  select_one-update_where,
}
use ctfnight.Model.{Db, User, SessionToken}
use ctfnight.Security.{Crypto, hash_password}
use ctfnight.Journal.{add_audit}
use ctfnight.Access.{Request, current_user, user_by_id}
use ctfnight.Admin.UserStatus.{revoke_sessions}
use ctfnight.Admin.UserStatus.Revoked.{current_user_session, session_gone}
use ctfnight.Cli.{exit_status, user_by_email, with_recovery, store_recovery, set_password_command}

-- The account is found under its id with the new hash, must change its password, and no request is
-- taken for it; the other accounts are as they were.
abbrev pub IsRecovered : User → String → Db → Db → Type 0
IsRecovered user replacement_hash before after =
    ((v : User) × (user_by_id user.id after ≡ some v)
      × (v.password_hash ≡ replacement_hash)
      × (v.password_change_required ≡ true))
    × ((r : Request) (u : User) → current_user r after ≡ ok u → u.id ≢ user.id)
    × ((id : ℕ) → id ≢ user.id → user_by_id id after ≡ user_by_id id before)

updated_row :
    (id : ℕ) (replacement_hash : String) (p : User → Bool) (xs : List User) (user : User)
    → select_one p xs ≡ some user
    → user.id ≡ id
    → (v : User) × (select_one
          (λ u. u.id == id)
          (update_where (λ (u : User). u.id == id) (with_recovery replacement_hash) xs)
        ≡ some v)
      × (v.password_hash ≡ replacement_hash)
      × (v.password_change_required ≡ true)
unfolding select_one update_where
updated_row id replacement_hash p [] user h same = cc
updated_row id replacement_hash p (x ∷ xs) user h same = elim (Bool-cases (x.id == id)) [
  | inl e ↦ (with_recovery replacement_hash x, ground arith, refl, refl)
  | inr e ↦
      let found : select_one p xs ≡ some user = ground arith in
      let (v, at, hash, must) = updated_row id replacement_hash p xs user found same in
      (v, ground (arith, at), hash, must)
]

recovered :
    (now : ℕ) (user : User) (p : User → Bool) (replacement_hash : String) (d after : Db)
    → select_one p d.users ≡ some user
    → after.users ≡ (store_recovery user.id replacement_hash d).users
    → after.sessions ≡ (revoke_sessions user.id d).sessions
    → IsRecovered user replacement_hash d after
unfolding store_recovery revoke_sessions
recovered now user p replacement_hash d after found rows sessions = (
  rw rows (updated_row user.id replacement_hash p d.users user found refl),
  λ r u c.
      let (token, stored, at, same) = current_user_session r after u c in
      let gone =
        session_gone r token after (λ (x : SessionToken). x.user_id == user.id) d.sessions stored at
          sessions in
      ground (arith, gone, same),
  λ id apart. rw rows (
      select_one-update_where (λ (u : User). u.id == id) (λ (u : User). u.id == user.id)
        (with_recovery replacement_hash) d.users λ x h. (ground arith, ground arith)),
)

-- The configured password is missing or shorter than 12 characters, the address names no account,
-- or no hashing worker is free.
abbrev pub IsRefused : Crypto → Bool → Option String → String → Db → Type 0
IsRefused c slot admin_password email d =
    (admin_password ≡ none)
    ⊎ (((password : String) × (admin_password ≡ some password) × (c.text_length password < 12))
        ⊎ ((user_by_email c email d ≡ none) ⊎ (slot ≡ false)))

-- Either the configured password has at least 12 characters, the address names an account and a
-- hashing worker is free: then the command exits with 0, that account has the hash of the password,
-- which it must change, no request is taken for it before it logs in again, and the other accounts
-- are as they were. Or one of these fails: then it exits with 1 and the database is as it was.
pub set_password_command-IsRecovered :
    (c : Crypto) (slot : Bool) (now : ℕ) (admin_password : Option String) (email : String) (d : Db)
    → let r = set_password_command c slot now admin_password email d in
      ((password : String) × (user : User) × (admin_password ≡ some password)
        × (12 ≤ c.text_length password)
        × (user_by_email c email d ≡ some user)
        × (slot ≡ true)
        × (exit_status r.0 ≡ 0)
        × IsRecovered user (c.argon2_hash password) d r.1)
      ⊎ (IsRefused c slot admin_password email d × (exit_status r.0 ≡ 1) × (r.1 ≡ d))
unfolding set_password_command user_by_email hash_password exit_status store_recovery
    revoke_sessions add_audit
set_password_command-IsRecovered c slot now none email d = inr (inl refl, refl, refl)
set_password_command-IsRecovered c slot now (some password) email d =
    elim (Bool-cases (ltb (c.text_length password) 12)) [
      | inl e ↦ rw e (inr (inr (inl (password, refl, ground arith)), refl, refl))
      | inr e ↦ elim (Option-cases (user_by_email c email d)) [
        | inl f ↦ rw e (rw f (inr (inr (inr (inl refl)), refl, refl)))
        | inr (user, f) ↦ elim (Bool-cases slot) [
          | inr g ↦ rw e (rw f (rw g (inr (inr (inr (inr refl)), refl, refl))))
          | inl g ↦ rw e (
              rw f (
                rw g (
                  inl (
                    password,
                    user,
                    refl,
                    ground arith,
                    refl,
                    refl,
                    refl,
                    recovered now user _ (c.argon2_hash password) d _ f refl refl,
                  ))))
        ]
      ]
    ]
