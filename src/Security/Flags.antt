-- ===== src/Security/Flags.antt =====
-- What a stored flag accepts, for both kinds of flag.
use ctfnight.Base.{ℕ, String, ◌≡◌, ◌≢◌, ◌↔◌, true, ok, arith, eq_iff, text_append}
use ctfnight.Model.{Challenge, exact, regex}
use ctfnight.Security.{Crypto, FlagInput, apply_flag, matches_flag, hash_flag, full_match}

-- What the database may store as a flag accepts a candidate: for an exact flag an equal keyed hash,
-- for a regular expression a full match of a pattern that is not empty.
abbrev pub Accepts : Crypto → String → FlagInput → String → Type 0
Accepts c secret flag candidate = elim flag.type [
  | exact ↦ hash_flag c secret flag.value ≡ hash_flag c secret candidate
  | regex ↦ (flag.value ≢ "") × (c.fullmatch flag.value candidate ≡ full_match)
]

module _ (c : Crypto) (secret : String) (nonempty : (m : String) → c.hmac_hex secret m ≢ "") where
  hash_flag-nonempty : (value : String) → hash_flag c secret value ≢ ""
  unfolding hash_flag
  hash_flag-nonempty value = nonempty (text_append "flag" (text_append "\0" value))

  -- A challenge to which a flag was applied takes exactly the candidates of that flag, whatever
  -- flag the challenge had before.
  pub matches_flag-apply_flag :
      (challenge stored : Challenge) (flag : FlagInput) (max_length : ℕ) (candidate : String)
      → apply_flag c challenge flag secret max_length ≡ ok stored
      → (matches_flag c secret stored candidate ≡ true) ↔ Accepts c secret flag candidate
  unfolding apply_flag matches_flag
  matches_flag-apply_flag challenge stored flag max_length candidate h = ground (
    arith,
    hash_flag-nonempty flag.value,
    eq_iff (hash_flag c secret flag.value) (hash_flag c secret candidate),
    eq_iff (hash_flag c secret flag.value) "",
    eq_iff flag.value "",
  )
