-- ===== src/Middleware/Csrf.antt =====
-- `CSRFMiddleware` (backend/src/alpha/main.py), `issue_csrf` and `verify_csrf`
-- (backend/src/alpha/security.py) and `_set_csrf_cookie` (backend/src/alpha/routes_auth.py). The
-- signed tokens of itsdangerous are the parameter `Serializer`.
pub mod Issued
use ctfnight.Base.{
  ℕ, String, Bool, true, false, ◌&&◌, ◌||◌, not, Option, none, some, leb, str_eq, if◌then◌else◌,
  Result, ok, err, Error,
}
use ctfnight.Security.{Crypto, csrf_context}

-- What a token carries: a dict with a nonce and a context, which may be missing or no text.
pub record CsrfValue : Type 0 where
  pub nonce : Option String
  pub context : Option String

-- `URLSafeTimedSerializer`: a token of a dict, and what a token says that is no older than `max_age`
-- and rightly signed; a token may hold something other than a dict.
pub record Serializer : Type 0 where
  pub dumps : String → CsrfValue → String
  pub loads : String → String → ℕ → Option (Option CsrfValue)
  pub text_length : String → ℕ
  -- `hmac.compare_digest` takes texts of ASCII only.
  pub is_ascii : String → Bool

-- `nonce` is `random_token(24)`.
unfoldable pub issue_csrf : Serializer → String → String → String → String
issue_csrf z secret context nonce =
    z.dumps secret (record { nonce = some nonce; context = some context })

-- `hmac.compare_digest`, a TypeError on a text that is not ASCII.
unfoldable pub compare_digest : Serializer → String → String → Result Bool
compare_digest z a b =
    if z.is_ascii a && z.is_ascii b then ok (str_eq a b) else err Error.unexpected_error

checked : Serializer → String → Option CsrfValue → Result Bool
unfolding compare_digest
checked z context none = ok false
checked z context (some value) =
    if elim value.nonce [ none ↦ false | some n ↦ leb 24 (z.text_length n) ]
    then elim value.context [ none ↦ ok false | some c ↦ compare_digest z c context ]
    else ok false

unfoldable pub verify_csrf : Serializer → String → String → ℕ → String → Result Bool
unfolding checked
verify_csrf z secret token max_age context = elim (z.loads secret token max_age) [
  | none ↦ ok false
  | some value ↦ checked z context value
]

-- A request as the middleware sees it; a missing cookie or header is the empty text. `is_api` is that
-- the path starts with `/api/v1/`, `is_safe` that the method is GET, HEAD or OPTIONS.
pub record CsrfRequest : Type 0 where
  pub is_api : Bool
  pub is_safe : Bool
  pub csrf_cookie : String
  pub csrf_header : String
  pub session_token : String
  pub browser_token : String

is_empty : String → Bool
is_empty t = str_eq t ""

-- `valid`, where each test is made only if those before have passed.
unfoldable pub csrf_valid : Crypto → Serializer → String → ℕ → CsrfRequest → Result Bool
unfolding is_empty compare_digest
csrf_valid c z secret ttl r =
    let context = csrf_context c secret r.session_token r.browser_token in
    if is_empty r.csrf_cookie || is_empty r.csrf_header
    then ok false
    else elim (compare_digest z r.csrf_cookie r.csrf_header) [
      | err e ↦ err e
      | ok false ↦ ok false
      | ok true ↦
          if is_empty context then ok false else verify_csrf z secret r.csrf_header ttl context
    ]

-- Whether the request is passed on; otherwise it is answered with 403 `csrf_failed`.
unfoldable pub dispatch : Crypto → Serializer → String → ℕ → CsrfRequest → Result Bool
unfolding csrf_valid
dispatch c z secret ttl r =
    if r.is_api && not r.is_safe then csrf_valid c z secret ttl r else ok true

-- The cookies of a browser after `_set_csrf_cookie`. `given` is the session token of the caller, where
-- it has one, `drawn` a fresh browser token and `nonce` a fresh nonce.
pub record CsrfCookies : Type 0 where
  pub csrf : String
  pub session : String
  pub browser : String

unfoldable pub set_csrf_cookie :
    Crypto → Serializer → String → CsrfRequest → Option String → String → String → CsrfCookies
set_csrf_cookie c z secret r given drawn nonce =
    let session_token : String = elim given [ none ↦ r.session_token | some t ↦ t ] in
    let browser_token : String =
      if str_eq session_token ""
      then if str_eq r.browser_token "" then drawn else r.browser_token
      else "" in
    record {
      csrf = issue_csrf z secret (csrf_context c secret session_token browser_token) nonce;
      session = session_token;
      browser = browser_token;
    }
