-- ===== src/Cli/Founded.antt =====
-- The accounts after `bootstrap`.
use ctfnight.Base.{
  ◌≡◌, ◌⊎◌, refl, ◌∙◌, String, Bool, true, false, if◌then◌else◌, some, List, [], ◌∷◌, Result, ok,
  err, arith, inl, inr, is_some, select_one, insert_row, Option-cases, Bool-cases, Result-cases,
  str_eq,
}
use ctfnight.Model.{Db, User, is_admin, Challenge, Event}
use ctfnight.Security.{Crypto, FlagInput, hash_password, apply_flag}
use ctfnight.Journal.{add_audit, add_outbox}
use ctfnight.Accounts.Register.{insert_user}
use ctfnight.Admin.Challenges.{insert_challenge}
use ctfnight.Announcements.{insert_announcement}
use ctfnight.Cli.{done}
use ctfnight.Cli.Bootstrap.{
  BootstrapSettings, BootstrapDraw, Attempt, going, stopped, and_then, flushed, truthy,
  ensure_event, admin_exists, settings_guard, new_admin, add_admin, create_admin, ensure_admin,
  finished, seed_challenge, seed_announcement, seed_demo_rows, bootstrap_rows, bootstrap,
}

from_and_then :
    {A B : Type 0} (m : Attempt A) (f : A → Attempt B) (b : B)
    → and_then m f ≡ going b
    → (a : A) × (m ≡ going a) × (f a ≡ going b)
unfolding and_then
from_and_then (going a) f b h = (a, refl, h)
from_and_then (stopped o) f b h = cc

from_flushed : (r : Result Db) (e : Db) → flushed r ≡ going e → r ≡ ok e
unfolding flushed
from_flushed (ok d) e h = ground arith
from_flushed (err x) e h = cc

ensure_event-users : (draw : BootstrapDraw) (d : Db) → (ensure_event draw d).1.users ≡ d.users
unfolding ensure_event add_audit
ensure_event-users draw d = ground arith

insert_challenge-users :
    (x : Challenge) (d e : Db) → insert_challenge x d ≡ ok e → e.users ≡ d.users
unfolding insert_challenge
insert_challenge-users x d e h = ground arith

insert_user-users :
    (lower : String → String) (row : User) (d e : Db)
    → insert_user lower row d ≡ ok e
    → e.users ≡ insert_row row d.users
unfolding insert_user
insert_user-users lower row d e h = ground arith

found_admin :
    (p : User → Bool) (xs : List User) (u : User)
    → select_one p xs ≡ some u
    → is_admin u.role ≡ true
    → is_some (select_one (λ (x : User). is_admin x.role) xs) ≡ true
unfolding select_one
found_admin p [] u h a = cc
found_admin p (x ∷ xs) u h a = ground (arith, found_admin p xs u)

added_admin :
    (xs : List User) (u : User)
    → is_admin u.role ≡ true
    → is_some (select_one (λ (x : User). is_admin x.role) (insert_row u xs)) ≡ true
unfolding select_one
added_admin [] u a = rw a refl
added_admin (x ∷ xs) u a = elim (Bool-cases (is_admin x.role)) [
  | inl e ↦ rw e refl
  | inr e ↦ rw e (added_admin xs u a)
]

module _ (c : Crypto) (settings : BootstrapSettings) (draw : BootstrapDraw) where
  -- The users that the run adds to those before: none, or the administrator of the settings.
  abbrev pub Grows : Db → Db → Type 0
  Grows d e =
      (e.users ≡ d.users)
      ⊎ ((given : String) × (password : String) × (truthy settings.admin_email ≡ some given)
          × (truthy settings.admin_password ≡ some password)
          × (e.users
              ≡ insert_row (new_admin c settings draw given (c.argon2_hash password)) d.users))

  seed_challenge-users :
      (row : Challenge) (flag : FlagInput) (d e : Db)
      → seed_challenge c settings row flag d ≡ going e
      → e.users ≡ d.users
  unfolding seed_challenge flushed
  seed_challenge-users row flag d e h =
      elim (Result-cases (
        apply_flag c row flag settings.application.secret_key
          settings.application.max_flag_length)) [
            | inr (x, f) ↦ ground arith
            | inl (challenge, f) ↦ elim (Result-cases (insert_challenge challenge d)) [
              | inr (x, g) ↦ ground arith
              | inl (made, g) ↦ ground (arith, insert_challenge-users challenge d made g)
            ]
          ]

  seed_announcement-users :
      (event : Event) (d e : Db)
      → seed_announcement c settings draw event d ≡ going e
      → e.users ≡ d.users
  unfolding seed_announcement flushed insert_announcement
  seed_announcement-users event d e h = ground arith

  seed_demo_rows-users :
      (event : Event) (d e : Db)
      → seed_demo_rows c settings draw event d ≡ going e
      → e.users ≡ d.users
  unfolding seed_demo_rows
  seed_demo_rows-users event d e h =
      let (a, p, q) = from_and_then _ _ e h in
      let (b, r, t) = from_and_then _ _ e q in
      seed_announcement-users event b e t
      ∙ (seed_challenge-users _ _ a b r ∙ seed_challenge-users _ _ d a p)

  add_admin-users :
      (row : User) (d e : Db)
      → add_admin c settings draw row d ≡ going e
      → e.users ≡ insert_row row d.users
  unfolding add_admin add_audit add_outbox
  add_admin-users row d e h =
      let (a, p, q) = from_and_then _ _ e h in
      let made = insert_user-users c.lower row d a (from_flushed _ a p) in ground (arith, made)

  create_admin-Grows :
      (given : String) (d e : Db)
      → truthy settings.admin_email ≡ some given
      → create_admin c settings draw given d ≡ going e
      → Grows d e × (admin_exists c settings e ≡ true)
  unfolding create_admin hash_password admin_exists
  create_admin-Grows given d e set h = elim (Option-cases (truthy settings.admin_password)) [
    | inl f ↦ ground arith
    | inr (password, f) ↦
        let row = new_admin c settings draw given (c.argon2_hash password) in
        let made : add_admin c settings draw row d ≡ going e = ground arith in
        let users = add_admin-users row d e made in
        (inr (given, password, set, f, users), rw users (added_admin d.users row refl))
  ]

  -- Either the run adds no account or it has made one administrator.
  ensure_admin-Grows :
      (d e : Db)
      → ensure_admin c settings draw d ≡ going e
      → (admin_exists c settings d ≡ true) ⊎ (is_some (truthy settings.admin_email) ≡ true)
      → Grows d e × (admin_exists c settings e ≡ true)
  unfolding ensure_admin admin_exists
  ensure_admin-Grows d e h ready = elim (Option-cases (truthy settings.admin_email)) [
    | inl f ↦ (inl (ground arith), ground arith)
    | inr (given, f) ↦
        let by_email = λ (u : User). str_eq (c.lower u.email) (c.lower (c.strip given)) in
        elim (Option-cases (select_one by_email d.users)) [
          | inl g ↦ create_admin-Grows given d e f (ground arith)
          | inr (found, g) ↦ elim (Bool-cases (is_admin found.role)) [
            | inr k ↦ ground arith
            | inl k ↦
                let same : d ≡ e = ground arith in
                (inl (ground arith), rw (← same) (found_admin by_email d.users found g k))
          ]
        ]
  ]

  settings_guard_lem :
      (d : Db)
      → settings.production ≡ true
      → settings_guard c settings d ≡ going tt
      → (admin_exists c settings d ≡ true) ⊎ (is_some (truthy settings.admin_email) ≡ true)
  unfolding settings_guard
  settings_guard_lem d live h = elim (Bool-cases (admin_exists c settings d)) [
    | inl e ↦ inl e
    | inr e ↦ elim (Bool-cases (is_some (truthy settings.admin_email))) [
      | inl f ↦ inr f
      | inr f ↦ ground arith
    ]
  ]

  committed :
      (m : Attempt Db) (d : Db)
      → (finished m d).0 ≡ done
      → (e : Db) × (m ≡ going e) × ((finished m d).1 ≡ e)
  unfolding finished
  committed (going e) d h = (e, refl, refl)
  committed (stopped o) d h = cc

  Grows-same :
      (d begun b e : Db) → begun.users ≡ d.users → e.users ≡ b.users → Grows begun b → Grows d e
  Grows-same d begun b e start last (inl h) = inl (last ∙ (h ∙ start))
  Grows-same d begun b e start last (inr (given, password, email, set, h)) =
      inr (given, password, email, set, rw last (rw (← start) h))

  seeded-users :
      (seed : Bool) (event : Event) (b e : Db)
      → (if seed then seed_demo_rows c settings draw event b else going b) ≡ going e
      → e.users ≡ b.users
  seeded-users true event b e h = seed_demo_rows-users event b e h
  seeded-users false event b e h = ground arith

  bootstrap_rows-Grows :
      (d e : Db)
      → settings.production ≡ true
      → bootstrap_rows c settings draw d ≡ going e
      → Grows d e × (admin_exists c settings e ≡ true)
  unfolding bootstrap_rows admin_exists
  bootstrap_rows-Grows d e live h =
      let (event, begun) = ensure_event draw d in
      let (x, guarded, rest) = from_and_then _ _ e h in
      let (b, ready, last) = from_and_then _ _ e rest in
      let (grown, there) =
        ensure_admin-Grows begun b ready (settings_guard_lem begun live guarded) in
      let same = seeded-users _ event b e last in
      (Grows-same d begun b e (ensure_event-users draw d) same grown, rw same there)

-- In production a run that exits with 0 leaves an administrator, and the only account that it may
-- add is that of the settings, with their password, which must be changed.
pub bootstrap-Grows :
    (c : Crypto) (settings : BootstrapSettings) (draw : BootstrapDraw) (d : Db)
    → settings.production ≡ true
    → (bootstrap c settings draw d).0 ≡ done
    → Grows c settings draw d (bootstrap c settings draw d).1
      × (admin_exists c settings (bootstrap c settings draw d).1 ≡ true)
unfolding bootstrap
bootstrap-Grows c settings draw d live h =
    let (e, rows, same) = committed c settings draw (bootstrap_rows c settings draw d) d h in
    rw same (bootstrap_rows-Grows c settings draw d e live rows)
