-- ===== src/Tests/Middleware.antt =====
-- The middleware at concrete inputs.
use ctfnight.Base.{
  ◌≡◌, ◌≢◌, refl, String, true, false, ◌&&◌, none, some, ok, [], ◌∷◌, List, arith, leb, length,
  if◌then◌else◌, text_append, eq_iff,
}
use ctfnight.Base.Int.{pos}
use ctfnight.Security.{csrf_context}
use ctfnight.Middleware.Body.{
  HttpMessage, http_disconnect, http_request, other_message, forwarded, rejected, Wire,
  headers_refused, limit_body, max_chunks, content_lengths, bad_length, receive_body,
}
use ctfnight.Middleware.Body.Fits.{sent, chunk_count, is_cut_off, limit_body-fits}
use ctfnight.Middleware.Csrf.{
  Serializer, CsrfValue, CsrfRequest, set_csrf_cookie, dispatch, compare_digest, verify_csrf,
  csrf_valid,
}
use ctfnight.Middleware.Csrf.Issued.{returned, IsSigned, dispatch-set_csrf_cookie, dispatch-bound}
use ctfnight.Tests.Data.{crypto}
use text.Mathlib.TextLemmas.{append-eq-nil_iff}

abbrev wire : Wire
wire = record { lower = λ t. t; int_of = λ t. some (pos 3) }

abbrev headers : List (String × String)
headers = ("content-length", "3") ∷ []

abbrev messages : List HttpMessage
messages = http_request (1 ∷ 2 ∷ []) true ∷ other_message ∷ http_request (3 ∷ []) false ∷ []

headers_fine : headers_refused wire 3 headers ≡ false
unfolding headers_refused content_lengths bad_length
headers_fine = refl

limit_body-fits_example : limit_body wire 3 headers messages ≡ (
    if leb (length (sent messages)) 3 && leb (chunk_count messages) max_chunks
    then forwarded
        (if is_cut_off messages then http_disconnect else http_request (sent messages) false)
        (http_request [] false)
    else rejected)
limit_body-fits_example = limit_body-fits wire 3 headers messages headers_fine refl

-- A client that goes away before its last chunk.
hung_up :
    limit_body wire 9 [] (http_request (1 ∷ []) true ∷ http_disconnect ∷ [])
    ≡ forwarded http_disconnect (http_request [] false)
unfolding limit_body headers_refused content_lengths bad_length receive_body
hung_up = refl

too_long : limit_body wire 2 [] messages ≡ rejected
unfolding limit_body headers_refused content_lengths bad_length receive_body
too_long = refl

-- A token is its context; it never expires.
abbrev serializer : Serializer
serializer = record {
  dumps = λ secret v. elim v.context [ none ↦ "" | some c ↦ c ];
  loads = λ secret t age. some (some (record { nonce = some "nonce"; context = some t }));
  text_length = λ t. 32;
  is_ascii = λ t. true;
}

abbrev post : CsrfRequest
post = record {
  is_api = true;
  is_safe = false;
  csrf_cookie = "#csrf-session\0s";
  csrf_header = "#csrf-session\0s";
  session_token = "s";
  browser_token = "";
}

post_passes : dispatch crypto serializer "k" 60 post ≡ ok true
unfolding dispatch csrf_valid csrf_context compare_digest verify_csrf
post_passes = refl

dispatch-bound_example :
    (post.csrf_cookie ≡ post.csrf_header)
    × (csrf_context crypto "k" "s" "" ≢ "")
    × ((v : CsrfValue) × (serializer.loads "k" post.csrf_header 60 ≡ some (some v))
        × (v.context ≡ some (csrf_context crypto "k" "s" "")))
dispatch-bound_example = dispatch-bound crypto serializer "k" 60 post refl refl post_passes

starts_with_hash : (m : String) → text_append "#" m ≢ ""
starts_with_hash m h = ground (arith, eq_iff "#" "", (append-eq-nil_iff {p = "#"} {q = m}).0 h)

serializer-IsSigned : IsSigned crypto serializer "k" 60 "nonce"
serializer-IsSigned = record {
  hash_nonempty = starts_with_hash;
  hash_ascii = λ m. refl;
  token_nonempty = λ x h. h;
  token_ascii = λ x h. refl;
  loads_dumps = λ x h. refl;
}

abbrev drawn : String
drawn = "drawn"

drawn-nonempty : drawn ≢ ""
drawn-nonempty h = ground (arith, eq_iff "drawn" "")

dispatch-set_csrf_cookie_example :
    dispatch crypto serializer "k" 60
      (returned (set_csrf_cookie crypto serializer "k" post none drawn "nonce") post)
    ≡ ok true
dispatch-set_csrf_cookie_example =
    dispatch-set_csrf_cookie crypto serializer "k" 60 post post none drawn "nonce"
      serializer-IsSigned drawn-nonempty (omega arith)
