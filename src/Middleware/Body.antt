-- ===== src/Middleware/Body.antt =====
-- `RequestBodyLimitMiddleware` (backend/src/alpha/main.py). A byte is a number; the messages that the
-- server delivers are a list, and a list that ends is a server that delivers nothing more.
pub mod Fits
use ctfnight.Base.{
  ℕ, zero, suc, ◌+◌, String, Bool, true, false, ◌&&◌, ◌||◌, not, Option, none, some, List, [], ◌∷◌,
  ◌++◌, ltb, leb, if◌then◌else◌, length, str_eq,
}
use ctfnight.Base.Int.{ℤ, pos, negsuc}

pub data HttpMessage : Type 0 where
  http_request : List ℕ → Bool → HttpMessage
  http_disconnect other_message : HttpMessage

-- What becomes of a request: the 413, the application with the message that `replay_receive` gives it
-- first and the one that it gives ever after, or nothing yet.
pub data Forwarding : Type 0 where
  rejected : Forwarding
  forwarded : HttpMessage → HttpMessage → Forwarding
  waiting : Forwarding

abbrev pub max_chunks : ℕ
max_chunks = 4096

-- `bytes.lower` and `int(…)`, which fails on what is no number.
pub record Wire : Type 0 where
  pub lower : String → String
  pub int_of : String → Option ℤ

-- `value < 0 or value > max_bytes`; what is no number counts as too large.
unfoldable pub bad_length : ℕ → Option ℤ → Bool
bad_length max_bytes none = true
bad_length max_bytes (some (pos n)) = ltb max_bytes n
bad_length max_bytes (some (negsuc n)) = true

unfoldable pub content_lengths : Wire → List (String × String) → List (Option ℤ)
content_lengths w [] = []
content_lengths w ((name, value) ∷ headers) =
    let rest = content_lengths w headers in
    if str_eq (w.lower name) "content-length" then w.int_of value ∷ rest else rest

any_bad : ℕ → List (Option ℤ) → Bool
unfolding bad_length
any_bad max_bytes [] = false
any_bad max_bytes (value ∷ rest) = bad_length max_bytes value || any_bad max_bytes rest

-- More than one Content-Length, or a bad one.
unfoldable pub headers_refused : Wire → ℕ → List (String × String) → Bool
unfolding content_lengths any_bad
headers_refused w max_bytes headers =
    let lengths = content_lengths w headers in ltb 1 (length lengths) || any_bad max_bytes lengths

-- `replay_receive`: once the disconnect or the whole body, then empty bodies.
unfoldable pub replayed : Bool → List ℕ → Forwarding
replayed disconnected body =
    forwarded (if disconnected then http_disconnect else http_request body false)
      (http_request [] false)

-- The loop over `receive()`.
unfoldable pub receive_body : ℕ → ℕ → ℕ → List ℕ → List HttpMessage → Forwarding
unfolding replayed
receive_body max_bytes received chunks body [] = waiting
receive_body max_bytes received chunks body (http_disconnect ∷ _) = replayed true body
receive_body max_bytes received chunks body (other_message ∷ messages) =
    receive_body max_bytes received chunks body messages
receive_body max_bytes received chunks body (http_request chunk more ∷ messages) =
    let rest =
      receive_body max_bytes (received + length chunk) (chunks + 1) (body ++ chunk) messages in
    if ltb max_bytes (received + length chunk) || ltb max_chunks (chunks + 1)
    then rejected
    else if more
    then rest
    else replayed false (body ++ chunk)

-- `__call__` on an HTTP request.
unfoldable pub limit_body : Wire → ℕ → List (String × String) → List HttpMessage → Forwarding
unfolding headers_refused receive_body
limit_body w max_bytes headers messages =
    if headers_refused w max_bytes headers then rejected else receive_body max_bytes 0 0 [] messages
