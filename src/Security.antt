-- ===== src/Security.antt =====
-- Keyed hashes, flag comparison and CSRF contexts (backend/src/alpha/security.py). What the module
-- calls of other packages is the record `Crypto`.
pub mod Flags
use ctfnight.Base.{
  ℕ, String, Bool, true, false, Option, none, some, Result, ok, err, api, Code, Error, ltb, str_eq,
  if◌then◌else◌, text_append,
}
use ctfnight.Model.{Challenge, FlagType, exact, regex}

-- The outcome of `regex.fullmatch` under a timeout: a match or none, the timeout, or a pattern
-- that does not compile.
pub data RegexOutcome : Type 0 where
  full_match no_match timed_out regex_error : RegexOutcome

pub record Crypto : Type 0 where
  -- `hmac.new(secret, message, sha256).hexdigest()`
  pub hmac_hex : String → String → String
  -- `regex.compile(pattern)` succeeds
  pub compiles : String → Bool
  pub fullmatch : String → String → RegexOutcome
  -- The Argon2 hasher: hash of a password, verification, and whether a hash is outdated.
  pub argon2_hash : String → String
  pub argon2_verify : String → String → Bool
  pub argon2_needs_rehash : String → Bool
  -- `str.strip`
  pub strip : String → String
  -- `func.lower` of the database and `str.lower`
  pub lower : String → String
  pub text_length : String → ℕ

module _ (c : Crypto) where
  pub keyed_hash : String → String → String → String
  keyed_hash secret domain value = c.hmac_hex secret (text_append domain (text_append "\0" value))

  unfoldable pub hash_session : String → String → String
  unfolding keyed_hash
  hash_session secret token = keyed_hash secret "session" token

  unfoldable pub hash_invite : String → String → String
  unfolding keyed_hash
  hash_invite secret invite = keyed_hash secret "invite" invite

  unfoldable pub hash_registration_access : String → String → String
  unfolding keyed_hash
  hash_registration_access secret access_code = keyed_hash secret "registration-access" access_code

  unfoldable pub hash_flag : String → String → String
  unfolding keyed_hash
  hash_flag secret flag = keyed_hash secret "flag" flag

  unfoldable pub hash_submission : String → String → String
  unfolding keyed_hash
  hash_submission secret flag = keyed_hash secret "submission" flag

  unfoldable pub hash_ip : String → String → String
  unfolding keyed_hash
  hash_ip secret ip = keyed_hash secret "ip" ip

  -- An empty stored hash is no hash.
  unfoldable pub compare_exact_flag : String → Option String → String → Bool
  unfolding hash_flag
  compare_exact_flag secret none candidate = false
  compare_exact_flag secret (some stored_hash) candidate =
      if str_eq stored_hash "" then false else str_eq stored_hash (hash_flag secret candidate)

  unfoldable pub compare_regex_flag : Option String → String → Bool
  compare_regex_flag none candidate = false
  compare_regex_flag (some pattern_text) candidate =
      if str_eq pattern_text ""
      then false
      else elim (c.fullmatch pattern_text candidate) [ full_match ↦ true | _ ↦ false ]

  -- The branch on `flag_type` that `submit_flag` makes, once before and once after the lock.
  unfoldable pub matches_flag : String → Challenge → String → Bool
  unfolding compare_exact_flag compare_regex_flag
  matches_flag secret challenge candidate = elim challenge.flag_type [
    | exact ↦ compare_exact_flag secret challenge.flag_hash candidate
    | regex ↦ compare_regex_flag challenge.flag_regex candidate
  ]

  unfoldable pub csrf_context : String → String → String → String
  unfolding keyed_hash
  csrf_context secret session_token browser_token =
      if str_eq session_token ""
      then if str_eq browser_token "" then "" else keyed_hash secret "csrf-browser" browser_token
      else keyed_hash secret "csrf-session" session_token

-- Whether one of the two hashing slots is free depends on the other requests.
unfoldable pub hash_password : Crypto → Bool → String → Result String
hash_password c slot password =
    if slot then ok (c.argon2_hash password) else err Error.password_work_busy

unfoldable pub verify_password : Crypto → Bool → String → String → Result Bool
verify_password c slot stored password =
    if slot then ok (c.argon2_verify stored password) else err Error.password_work_busy

-- `hash_password(…) if password_needs_rehash(stored) else None`
unfoldable pub rehash_password : Crypto → Bool → String → String → Result (Option String)
unfolding hash_password
rehash_password c slot stored password =
    if c.argon2_needs_rehash stored
    then elim (hash_password c slot password) [ ok h ↦ ok (some h) | err e ↦ err e ]
    else ok none

-- A flag of a create or update request.
pub record FlagInput : Type 0 where
  pub type : FlagType
  pub value : String

module _ (c : Crypto) where
  -- `apply_flag` of backend/src/alpha/services.py
  unfoldable pub apply_flag : Challenge → FlagInput → String → ℕ → Result Challenge
  unfolding hash_flag
  apply_flag challenge flag secret max_length =
      if ltb max_length (c.text_length flag.value)
      then err (api 422 Code.flag_too_long)
      else elim flag.type [
        | exact ↦ ok (record challenge {
          flag_type = exact;
          flag_hash = some (hash_flag c secret flag.value);
          flag_regex = none;
        })
        | regex ↦
            if c.compiles flag.value
            then ok (record challenge {
              flag_type = regex;
              flag_hash = none;
              flag_regex = some flag.value;
            })
            else err (api 422 Code.invalid_flag_regex)
      ]
