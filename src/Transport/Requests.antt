-- ===== src/Transport/Requests.antt =====
-- internal/transport/h2c.go, `WriteRequest` and `RoundTrip`.
use go_http.Base.{
  ℕ, zero, suc, Bool, true, false, not, ◌&&◌, ◌||◌, ◌≡◌, ◌≢◌, ◌↔◌, inl, inr, refl, arith, ℤ, pos,
  negsuc, List, [], ◌∷◌, ◌++◌, Option, none, some, Bytes, codes, equal, append_assoc, if◌then◌else◌,
  Bool-cases,
}
use go_http.Strconv.{format_int}
use go_http.Textproto.{Headers}
use go_http.Request.{PreparedRequest}
use go_http.Streams.Lives.{Link, reset}
use go_http.Transport.Errors.{
  GoError, nil, stream_error, h2_code, foreign, stream_cancelled, framer_write, req_body_read,
  at_stream, wrap, errors_is, matches,
}
use go_http.Transport.Responses.{is_pseudo}

-- The values of one key.
abbrev key_fields : Bytes → List Bytes → List (Bytes × Bytes)
key_fields k [] = []
key_fields k (v ∷ vs) = (k, v) ∷ key_fields k vs

-- The two loops over `req.Header`.
unfoldable pub header_fields : Headers → List (Bytes × Bytes)
header_fields [] = []
header_fields ((k, vs) ∷ h) = key_fields k vs ++ header_fields h

abbrev map_of : Option Headers → Headers
map_of none = []
map_of (some h) = h

-- `FormatInt` of a content length
abbrev signed_text : ℤ → Bytes
signed_text (pos n) = format_int n
signed_text (negsuc n) = codes "-" ++ format_int (suc n)

abbrev announced : Bool → ℤ → List (Bytes × Bytes)
announced false n = []
announced true (negsuc zero) = []
announced true n = (codes "content-length", signed_text n) ∷ []

-- The calls of `f` in the enumeration of `WriteRequest`, in their order.
unfoldable pub enum_headers : PreparedRequest → Bool → List (Bytes × Bytes)
unfolding header_fields
enum_headers req has_body =
    (codes ":method", req.method)
    ∷ (codes ":authority", req.header_host)
    ∷ ((if equal req.method (codes "CONNECT")
          then []
          else (codes ":scheme", req.url.scheme) ∷ (codes ":path", req.url.request_uri) ∷ [])
        ++ (header_fields (map_of req.header) ++ announced has_body req.content_length))

-- How the goroutine of `WriteRequest` ends: with its error, or without having closed `done`.
pub data Written : Type 0 where
  closed_done : GoError → Written
  left : Written

-- The goroutine, where the errors of `WriteHeaders` and `WriteRequestBody` are given.
unfoldable pub write_parts : Bool → GoError → GoError → Written
write_parts has_body nil body = closed_done (if has_body then body else nil)
write_parts has_body headers body = left

-- The `select`: `cancelled` says that the context is done by then, `first` that `done` is taken if both
-- are. With none it waits.
unfoldable pub await : ℕ → Written → Bool → Bool → Option GoError
unfolding at_stream
await id (closed_done e) cancelled first =
    some (if cancelled && not first then at_stream stream_cancelled id else e)
await id left cancelled first = if cancelled then some (at_stream stream_cancelled id) else none

-- The code that the stream is reset with.
unfoldable pub reset_code : GoError → Option ℕ
unfolding errors_is
reset_code nil = none
reset_code e =
    if errors_is e stream_cancelled
    then some 8
    else if errors_is e framer_write
    then some 1
    else some 2

unfoldable pub reset_with : Link → ℕ → Option ℕ → Link
unfolding reset
reset_with l id none = l
reset_with l id (some code) = reset l id code false

-- `WriteRequest` behind the opening of the stream, as the link that it leaves and its error; `none`: it
-- waits.
unfoldable pub write_request :
    Link → ℕ → Bool → GoError → GoError → Bool → Bool → Option (Link × GoError)
unfolding write_parts await reset_code reset_with
write_request l id has_body headers body cancelled first =
    elim (await id (write_parts has_body headers body) cancelled first) [
      | none ↦ none
      | some e ↦ some (reset_with l id (reset_code e), e)
    ]

-- The pseudo-headers are in front of all other fields.
unfoldable pub pseudo_first : Bool → List (Bytes × Bytes) → Bool
pseudo_first regular [] = true
pseudo_first regular (f ∷ fs) =
    not (regular && is_pseudo f.0) && pseudo_first (regular || not (is_pseudo f.0)) fs

-- No key of the map is a pseudo-header's.
unfoldable pub plain_keys : Headers → Bool
plain_keys [] = true
plain_keys ((k, vs) ∷ h) = not (is_pseudo k) && plain_keys h

key_fields-first :
    (k : Bytes) (vs : List Bytes) (fs : List (Bytes × Bytes)) (regular : Bool)
    → is_pseudo k ≡ false
    → ((r : Bool) → pseudo_first r fs ≡ true)
    → pseudo_first regular (key_fields k vs ++ fs) ≡ true
unfolding pseudo_first
key_fields-first k [] fs regular p h = h regular
key_fields-first k (v ∷ vs) fs regular p h = ground (arith, p, key_fields-first k vs fs true p h)

header_fields-first :
    (h : Headers) (fs : List (Bytes × Bytes)) (regular : Bool)
    → plain_keys h ≡ true
    → ((r : Bool) → pseudo_first r fs ≡ true)
    → pseudo_first regular (header_fields h ++ fs) ≡ true
unfolding header_fields plain_keys
header_fields-first [] fs regular p h = h regular
header_fields-first ((k, vs) ∷ m) fs regular p h =
    rw (append_assoc (key_fields k vs) (header_fields m) fs, header_fields)
      (key_fields-first k vs (header_fields m ++ fs) regular (ground (arith, p))
        (λ r. header_fields-first m fs r (ground (arith, p)) h))

announced-first :
    (has_body : Bool) (n : ℤ) (r : Bool) → pseudo_first r (announced has_body n) ≡ true
unfolding pseudo_first
announced-first false n r = refl
announced-first true (pos n) r = ground arith
announced-first true (negsuc zero) r = refl
announced-first true (negsuc (suc n)) r = ground arith

-- The fields of a request start with the method and the host, the scheme and the path come next unless
-- the method is CONNECT, and no pseudo-header follows a field of another kind, if no key of the
-- request's headers starts with a colon.
pub enum_headers-first :
    (req : PreparedRequest) (has_body : Bool)
    → plain_keys (map_of req.header) ≡ true
    → pseudo_first false (enum_headers req has_body) ≡ true
unfolding enum_headers pseudo_first
enum_headers-first req has_body p =
    let rest =
      header_fields-first (map_of req.header) (announced has_body req.content_length) false p
        (announced-first has_body req.content_length) in
    elim (Bool-cases (equal req.method (codes "CONNECT"))) [
      | inl e ↦ rw (e, enum_headers) rest
      | inr e ↦ rw (e, enum_headers) rest
    ]

-- `WriteRequest` on a live context returns if and only if writing the headers succeeds: after an error
-- of `WriteHeaders` it waits until the context is done.
pub write_request-waits :
    (l : Link) (id : ℕ) (has_body first : Bool) (headers body : GoError)
    → (write_request l id has_body headers body false first ≡ none) ↔ (headers ≢ nil)
unfolding write_request write_parts await
write_request-waits l id has_body first nil body = ground arith
write_request-waits l id has_body first (stream_error msg i inner) body = ground arith
write_request-waits l id has_body first (h2_code code) body = ground arith
write_request-waits l id has_body first (foreign which) body = ground arith

write_request-cancelled :
    (l : Link) (id : ℕ) (headers body : GoError)
    → write_request l id true headers body true false
      ≡ some (reset l id 8 false, at_stream stream_cancelled id)
unfolding write_request write_parts await reset_code reset_with at_stream errors_is matches equal
write_request-cancelled l id nil body = refl
write_request-cancelled l id (stream_error msg i inner) body = refl
write_request-cancelled l id (h2_code code) body = refl
write_request-cancelled l id (foreign which) body = refl

-- When `WriteRequest` returns, the stream is reset exactly if there is an error: with CANCEL for one
-- of the context, with PROTOCOL_ERROR for one of the framer and else with INTERNAL_ERROR, whatever these
-- wrap.
pub write_request-reset :
    (l : Link) (id which : ℕ) (headers body : GoError)
    → (write_request l id true nil nil false true ≡ some (l, nil))
      × (write_request l id true nil (wrap (at_stream framer_write id) (foreign which)) false true
          ≡ some (reset l id 1 false, wrap (at_stream framer_write id) (foreign which)))
      × (write_request l id true nil (wrap (at_stream req_body_read id) (foreign which)) false true
          ≡ some (reset l id 2 false, wrap (at_stream req_body_read id) (foreign which)))
      × (write_request l id true headers body true false
          ≡ some (reset l id 8 false, at_stream stream_cancelled id))
unfolding write_request write_parts await reset_code reset_with at_stream wrap errors_is matches
    equal
write_request-reset l id which headers body =
    (refl, refl, refl, write_request-cancelled l id headers body)
