-- ===== src/Accounts/Codes.antt =====
-- Registration access codes: `_registration_code_or_denied` (backend/src/alpha/routes_auth.py), and
-- their creation and revocation (backend/src/alpha/routes_admin.py).
use ctfnight.Base.{
  ℕ, ◌+◌, String, Bool, true, false, ◌&&◌, ◌||◌, not, Option, none, some, [], ◌∷◌, Result, ok, err,
  api, Code, Error, ◌==◌, leb, ltb, str_eq, if◌then◌else◌, is_some, or_raise, or_default,
  select_one, update_where, insert_row,
}
use ctfnight.Model.{Db, Event, RegistrationCode, is_code_access, Json, Action, Topic, Target}
use ctfnight.Event.{assert_event_mutable}
use ctfnight.Security.{hash_registration_access}
use ctfnight.Journal.{add_audit, add_outbox}
use ctfnight.Access.{Request, require_admin, current_event}
use ctfnight.App.{App, ◌>>=◌, ◌>>◌, pure, query, write, modify, commit, wait_for, catch_integrity}

-- `code.max_uses is not None and code.use_count >= code.max_uses`
abbrev pub used_up : RegistrationCode → Bool
used_up code = elim code.max_uses [ none ↦ false | some m ↦ leb m code.use_count ]

unfoldable pub is_usable : RegistrationCode → ℕ → Bool
is_usable code now =
    code.active
    && (not (is_some code.revoked_at)
        && (elim code.expires_at [ none ↦ true | some t ↦ ltb now t ] && not (used_up code)))

abbrev pub names_code : ℕ → String → RegistrationCode → Bool
names_code event_id token_hash code = code.event_id == event_id && str_eq code.token_hash token_hash

-- No code is needed while access is open; a missing candidate counts as an empty one.
unfoldable pub registration_code_or_denied :
    Request → Event → Option String → ℕ → Db → Result (Option RegistrationCode)
registration_code_or_denied request event access_code now d =
    if is_code_access event.registration_access_mode
    then (let candidate_hash =
          hash_registration_access request.crypto request.settings.secret_key
            (or_default access_code "") in
        elim (select_one (names_code event.id candidate_hash) d.registration_codes) [
          | none ↦ err (api 403 Code.registration_access_denied)
          | some code ↦
              if is_usable code now
              then ok (some code)
              else err (api 403 Code.registration_access_denied)
        ])
    else ok none

-- `registration_code.use_count += 1`
unfoldable pub count_use : Option RegistrationCode → Db → Db
count_use none d = d
count_use (some code) d = record d {
  registration_codes =
      update_where (λ (c : RegistrationCode). c.id == code.id)
        (λ c. record c { use_count = c.use_count + 1 }) d.registration_codes;
}

-- Primary key and the unique `token_hash`.
unfoldable pub insert_code : RegistrationCode → Db → Result Db
insert_code row d =
    if is_some (select_one (λ (c : RegistrationCode). c.id == row.id) d.registration_codes)
      || is_some (
          select_one (λ (c : RegistrationCode). str_eq c.token_hash row.token_hash)
            d.registration_codes)
    then err Error.integrity_error
    else ok (record d { registration_codes = insert_row row d.registration_codes })

pub record RegistrationCodeCreateRequest : Type 0 where
  pub label : String
  pub max_uses : Option ℕ
  pub expires_at : Option ℕ

unfoldable pub mutable_event : Db → Result Event
mutable_event d = elim (current_event d) [
  | none ↦ err (api 404 Code.event_not_found)
  | some event ↦ elim (assert_event_mutable event) [ ok _ ↦ ok event | err e ↦ err e ]
]

optional_number : Option ℕ → Json
optional_number none = Json.null
optional_number (some n) = Json.number n

-- POST /admin/registration-codes, with the drawn identifier and code
unfoldable pub create_registration_code :
    Request
    → (Db → Db)
    → ℕ
    → String
    → RegistrationCodeCreateRequest
    → App (RegistrationCode × String)
unfolding optional_number
create_registration_code request others id access_code payload = do
  admin ← query (require_admin request)
  wait_for others
  event ← query mutable_event
  let item : RegistrationCode = record {
    id = id;
    event_id = event.id;
    token_hash = hash_registration_access request.crypto request.settings.secret_key access_code;
    label = payload.label;
    max_uses = payload.max_uses;
    use_count = 0;
    expires_at = payload.expires_at;
    active = true;
    created_by = admin.id;
    created_at = request.now;
    revoked_at = none;
  }
  catch_integrity (api 409 Code.registration_code_conflict) (do
    write (insert_code item)
    modify (
        add_audit request.now (some admin.id) Action.registration_code_created
          Target.registration_code (some item.id)
          (("event_id", Json.ident event.id)
            ∷ ("label", Json.text item.label)
            ∷ ("max_uses", optional_number item.max_uses)
            ∷ []))
    modify (
        add_outbox request.now Topic.registration_code_created Target.registration_code item.id
          (("event_id", Json.ident event.id) ∷ ("registration_code_id", Json.ident item.id) ∷ []))
    commit)
  pure (item, access_code)

-- `item.active = False; item.revoked_at = item.revoked_at or utcnow()`
unfoldable pub mark_revoked : ℕ → ℕ → Db → Db
mark_revoked id now d = record d {
  registration_codes =
      update_where (λ (c : RegistrationCode). c.id == id)
        (λ c. record c { active = false; revoked_at = some (or_default c.revoked_at now) })
        d.registration_codes;
}

find_code : ℕ → Event → Db → Result RegistrationCode
find_code id event d =
    or_raise
      (select_one (λ (c : RegistrationCode). c.id == id && c.event_id == event.id)
        d.registration_codes)
      (api 404 Code.registration_code_not_found)

revoke_it : Request → ℕ → Event → RegistrationCode → App (Unit {0})
revoke_it request admin_id event item = do
  modify (mark_revoked item.id request.now)
  modify (
      add_audit request.now (some admin_id) Action.registration_code_revoked
        Target.registration_code (some item.id) (("event_id", Json.ident event.id) ∷ []))
  modify (
      add_outbox request.now Topic.registration_code_revoked Target.registration_code item.id
        (("event_id", Json.ident event.id) ∷ ("registration_code_id", Json.ident item.id) ∷ []))
  commit

-- DELETE /admin/registration-codes/{registration_code_id}
unfoldable pub revoke_registration_code : Request → (Db → Db) → ℕ → App (Unit {0})
unfolding find_code revoke_it
revoke_registration_code request others id = do
  admin ← query (require_admin request)
  wait_for others
  event ← query mutable_event
  item ← query (find_code id event)
  (if item.active || not (is_some item.revoked_at)
      then revoke_it request admin.id event item
      else pure tt)
