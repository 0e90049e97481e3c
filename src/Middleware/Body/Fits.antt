-- ===== src/Middleware/Body/Fits.antt =====
-- The body that reaches the application is what the client sent, and fits; a client that is gone
-- reaches it as a disconnect.
use ctfnight.Base.{
  ℕ, ◌+◌, ◌≤◌, ◌≡◌, refl, sym, inl, inr, String, Bool, true, false, ◌&&◌, ◌||◌, List, [], ◌∷◌, ◌++◌,
  arith, ltb, leb, length, if◌then◌else◌, Bool-cases,
}
use ctfnight.Middleware.Body.{
  HttpMessage, http_request, http_disconnect, other_message, rejected, forwarded, max_chunks, Wire,
  headers_refused, receive_body, limit_body,
}

-- Up to the last chunk or the disconnect: the bytes, the number of chunks, and how it ends.
abbrev pub sent : List HttpMessage → List ℕ
sent [] = []
sent (http_disconnect ∷ _) = []
sent (other_message ∷ messages) = sent messages
sent (http_request chunk false ∷ messages) = chunk
sent (http_request chunk true ∷ messages) = chunk ++ sent messages

abbrev pub chunk_count : List HttpMessage → ℕ
chunk_count [] = 0
chunk_count (http_disconnect ∷ _) = 0
chunk_count (other_message ∷ messages) = chunk_count messages
chunk_count (http_request chunk false ∷ messages) = 1
chunk_count (http_request chunk true ∷ messages) = chunk_count messages + 1

abbrev pub is_complete : List HttpMessage → Bool
is_complete [] = false
is_complete (http_disconnect ∷ _) = true
is_complete (other_message ∷ messages) = is_complete messages
is_complete (http_request chunk false ∷ messages) = true
is_complete (http_request chunk true ∷ messages) = is_complete messages

abbrev pub is_cut_off : List HttpMessage → Bool
is_cut_off [] = false
is_cut_off (http_disconnect ∷ _) = true
is_cut_off (other_message ∷ messages) = is_cut_off messages
is_cut_off (http_request chunk false ∷ messages) = false
is_cut_off (http_request chunk true ∷ messages) = is_cut_off messages

length-append : (xs ys : List ℕ) → length (xs ++ ys) ≡ length xs + length ys
length-append [] ys = omega arith
length-append (x ∷ xs) ys = omega (arith, length-append xs ys)

append_assoc : (xs ys zs : List ℕ) → (xs ++ ys) ++ zs ≡ xs ++ (ys ++ zs)
append_assoc [] ys zs = refl
append_assoc (x ∷ xs) ys zs = rw (append_assoc xs ys zs) refl

abbrev fits : ℕ → ℕ → ℕ → List HttpMessage → Bool
fits max_bytes received chunks messages =
    leb (received + length (sent messages)) max_bytes
    && leb (chunks + chunk_count messages) max_chunks

receive_body-fits :
    (max_bytes received chunks : ℕ) (body : List ℕ) (messages : List HttpMessage)
    → is_complete messages ≡ true
    → received ≤ max_bytes
    → chunks ≤ max_chunks
    → receive_body max_bytes received chunks body messages ≡ (
        if fits max_bytes received chunks messages
        then forwarded
            (if is_cut_off messages
              then http_disconnect
              else http_request (body ++ sent messages) false)
            (http_request [] false)
        else rejected)
unfolding receive_body
receive_body-fits m r n body [] h a b = cc h
receive_body-fits m r n body (http_disconnect ∷ messages) h a b = ground arith
receive_body-fits m r n body (other_message ∷ messages) h a b =
    receive_body-fits m r n body messages h a b
receive_body-fits m r n body (http_request chunk false ∷ messages) h a b = ground arith
receive_body-fits m r n body (http_request chunk true ∷ messages) h a b =
    elim (Bool-cases (ltb m (r + length chunk) || ltb max_chunks (n + 1))) [
      | inl over ↦
          let e : fits m r n (http_request chunk true ∷ messages) ≡ false =
            ground (arith, length-append chunk (sent messages)) in
          rw (over, e) refl
      | inr in_bounds ↦
          let e : fits m r n (http_request chunk true ∷ messages)
              ≡ fits m (r + length chunk) (n + 1) messages =
            ground (arith, length-append chunk (sent messages)) in
          rw (in_bounds, e, sym (append_assoc body chunk (sent messages)))
            (receive_body-fits m (r + length chunk) (n + 1) (body ++ chunk) messages h
              (ground arith) (ground arith))
    ]

-- A request with acceptable headers whose messages come to an end is rejected if it has more than
-- `max_bytes` bytes or more than 4096 chunks. Otherwise the application receives exactly the bytes that
-- the client sent, as one whole body, or nothing but a disconnect if the client is gone before the last
-- chunk, and empty bodies after that.
pub limit_body-fits :
    (w : Wire) (max_bytes : ℕ) (headers : List (String × String)) (messages : List HttpMessage)
    → headers_refused w max_bytes headers ≡ false
    → is_complete messages ≡ true
    → limit_body w max_bytes headers messages ≡ (
        if leb (length (sent messages)) max_bytes && leb (chunk_count messages) max_chunks
        then forwarded
            (if is_cut_off messages then http_disconnect else http_request (sent messages) false)
            (http_request [] false)
        else rejected)
unfolding limit_body
limit_body-fits w max_bytes headers messages h complete =
    let same : fits max_bytes 0 0 messages
        ≡ (leb (length (sent messages)) max_bytes && leb (chunk_count messages) max_chunks) =
      ground arith in
    rw (h, sym same)
      (receive_body-fits max_bytes 0 0 [] messages complete (omega arith) (omega arith))
