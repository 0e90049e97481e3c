-- ===== src/Middleware/Csrf/Issued.antt =====
-- A browser that returns the cookies and the token that it was given passes the check.
use ctfnight.Base.{
  ℕ, ◌≤◌, ◌≡◌, ◌≢◌, inl, inr, String, true, false, Option, none, some, arith, eq_iff, Option-cases,
  text_append, ok, ap,
}
use ctfnight.Security.{Crypto, csrf_context}
use ctfnight.Middleware.Csrf.{
  Serializer, CsrfValue, CsrfRequest, CsrfCookies, issue_csrf, verify_csrf, csrf_valid, dispatch,
  set_csrf_cookie, compare_digest,
}

-- What a browser sends with the cookies that it got and the token in the header.
abbrev pub returned : CsrfCookies → CsrfRequest → CsrfRequest
returned cookies r = record r {
  csrf_cookie = cookies.csrf;
  csrf_header = cookies.csrf;
  session_token = cookies.session;
  browser_token = cookies.browser;
}

csrf_context-nonempty :
    (c : Crypto) (secret session_token browser_token : String)
    → ((m : String) → c.hmac_hex secret m ≢ "")
    → (session_token ≡ "" → browser_token ≢ "")
    → csrf_context c secret session_token browser_token ≢ ""
unfolding csrf_context
csrf_context-nonempty c secret s b nonempty some_token = ground (
  arith,
  eq_iff s "",
  eq_iff b "",
  nonempty (text_append "csrf-session" (text_append "\0" s)),
  nonempty (text_append "csrf-browser" (text_append "\0" b)),
)

abbrev pub value_of : String → String → CsrfValue
value_of nonce context = record { nonce = some nonce; context = some context }

verify_csrf-issue_csrf :
    (z : Serializer) (secret context nonce : String) (ttl : ℕ)
    → z.loads secret (z.dumps secret (value_of nonce context)) ttl
      ≡ some (some (value_of nonce context))
    → 24 ≤ z.text_length nonce
    → z.is_ascii context ≡ true
    → verify_csrf z secret (issue_csrf z secret context nonce) ttl context ≡ ok true
unfolding verify_csrf issue_csrf compare_digest
verify_csrf-issue_csrf z secret context nonce ttl fresh long ascii =
    rw (fresh, verify_csrf) (ground (arith, eq_iff context context))

-- Hashes are texts of ASCII that are not empty, and so are tokens of a context; a token that is no older
-- than its age limit says what it was made from.
pub record IsSigned (c : Crypto) (z : Serializer) (secret : String) (ttl : ℕ) (nonce : String)
    : Type 0 where
  pub hash_nonempty : (m : String) → c.hmac_hex secret m ≢ ""
  pub hash_ascii : (m : String) → z.is_ascii (c.hmac_hex secret m) ≡ true
  pub token_nonempty : (x : String) → x ≢ "" → z.dumps secret (value_of nonce x) ≢ ""
  pub token_ascii : (x : String) → x ≢ "" → z.is_ascii (z.dumps secret (value_of nonce x)) ≡ true
  pub loads_dumps :
      (x : String)
      → x ≢ ""
      → z.loads secret (z.dumps secret (value_of nonce x)) ttl ≡ some (some (value_of nonce x))

module _ (c : Crypto) (z : Serializer) (secret : String) (ttl : ℕ) (nonce : String)
    (sound : IsSigned c z secret ttl nonce) (session_token browser_token : String)
    (identified : session_token ≡ "" → browser_token ≢ "") (long : 24 ≤ z.text_length nonce) where
  abbrev context : String
  context = csrf_context c secret session_token browser_token

  abbrev token : String
  token = issue_csrf z secret context nonce

  context_nonempty : context ≢ ""
  context_nonempty =
      csrf_context-nonempty c secret session_token browser_token sound.hash_nonempty identified

  context_ascii : z.is_ascii context ≡ true
  unfolding csrf_context
  context_ascii = ground (
    arith,
    eq_iff session_token "",
    eq_iff browser_token "",
    identified,
    sound.hash_ascii (text_append "csrf-session" (text_append "\0" session_token)),
    sound.hash_ascii (text_append "csrf-browser" (text_append "\0" browser_token)),
  )

  token_shape : (token ≢ "") × (z.is_ascii token ≡ true)
  unfolding issue_csrf
  token_shape =
      (sound.token_nonempty context context_nonempty, sound.token_ascii context context_nonempty)

  accepted :
      (r : CsrfRequest)
      → csrf_valid c z secret ttl
          (returned (record { csrf = token; session = session_token; browser = browser_token }) r)
        ≡ ok true
  unfolding csrf_valid compare_digest
  accepted r = ground (
    arith,
    token_shape,
    context_nonempty,
    eq_iff token "",
    eq_iff token token,
    eq_iff context "",
    verify_csrf-issue_csrf z secret context nonce ttl (sound.loads_dumps context context_nonempty)
        long context_ascii,
  )

dispatch-valid :
    (c : Crypto) (z : Serializer) (secret : String) (ttl : ℕ) (r : CsrfRequest)
    → csrf_valid c z secret ttl r ≡ ok true
    → dispatch c z secret ttl r ≡ ok true
unfolding dispatch
dispatch-valid c z secret ttl r h = ground arith

-- Where hashes and tokens are texts of ASCII that are not empty, a nonce has at least 24 characters
-- and a fresh token says what it was made from, a browser that sends back the cookies that it was given, and the token as a header, is
-- let through with any method, whether it had a session, a browser token or neither.
pub dispatch-set_csrf_cookie :
    (c : Crypto) (z : Serializer) (secret : String) (ttl : ℕ) (r later : CsrfRequest)
    (given : Option String) (drawn nonce : String)
    → IsSigned c z secret ttl nonce
    → drawn ≢ ""
    → 24 ≤ z.text_length nonce
    → dispatch c z secret ttl (returned (set_csrf_cookie c z secret r given drawn nonce) later)
      ≡ ok true
unfolding set_csrf_cookie
dispatch-set_csrf_cookie c z secret ttl r later given drawn nonce sound some_drawn long =
    let cookies = set_csrf_cookie c z secret r given drawn nonce in
    let identified : cookies.session ≡ "" → cookies.browser ≢ "" =
      λ e. ground (arith, eq_iff cookies.session "", eq_iff r.browser_token "") in
    dispatch-valid c z secret ttl (returned cookies later)
      (accepted c z secret ttl nonce sound cookies.session cookies.browser identified long later)

verified_lem :
    (z : Serializer) (secret token context : String) (ttl : ℕ)
    → verify_csrf z secret token ttl context ≡ ok true
    → (v : CsrfValue) × (z.loads secret token ttl ≡ some (some v)) × (v.context ≡ some context)
unfolding verify_csrf compare_digest
verified_lem z secret token context ttl h = elim (Option-cases (z.loads secret token ttl)) [
  | inl e ↦ ground arith
  | inr (none, e) ↦ ground arith
  | inr (some v, e) ↦ elim (Option-cases v.context) [
    | inl k ↦ ground arith
    | inr (x, k) ↦
        let same : x ≡ context = ground (arith, eq_iff x context) in (v, e, rw k (ap some same))
  ]
]

valid_lem :
    (c : Crypto) (z : Serializer) (secret : String) (ttl : ℕ) (r : CsrfRequest)
    → csrf_valid c z secret ttl r ≡ ok true
    → (r.csrf_cookie ≡ r.csrf_header)
      × (csrf_context c secret r.session_token r.browser_token ≢ "")
      × (verify_csrf z secret r.csrf_header ttl
            (csrf_context c secret r.session_token r.browser_token)
          ≡ ok true)
unfolding csrf_valid compare_digest
valid_lem c z secret ttl r h = ground (
  arith,
  eq_iff r.csrf_cookie r.csrf_header,
  eq_iff (csrf_context c secret r.session_token r.browser_token) "",
)

-- A request under /api/v1/ of a changing method that is let through has a header equal to its cookie, and the header is
-- a token whose context is that of the request's own session or browser, which is not empty.
pub dispatch-bound :
    (c : Crypto) (z : Serializer) (secret : String) (ttl : ℕ) (r : CsrfRequest)
    → r.is_api ≡ true
    → r.is_safe ≡ false
    → dispatch c z secret ttl r ≡ ok true
    → (r.csrf_cookie ≡ r.csrf_header)
      × (csrf_context c secret r.session_token r.browser_token ≢ "")
      × ((v : CsrfValue) × (z.loads secret r.csrf_header ttl ≡ some (some v))
          × (v.context ≡ some (csrf_context c secret r.session_token r.browser_token)))
unfolding dispatch
dispatch-bound c z secret ttl r api changing h =
    let valid : csrf_valid c z secret ttl r ≡ ok true = ground arith in
    let (same, some_context, verified) = valid_lem c z secret ttl r valid in
    (
      same,
      some_context,
      verified_lem z secret r.csrf_header (csrf_context c secret r.session_token r.browser_token)
          ttl verified,
    )
