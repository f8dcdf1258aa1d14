-- ===== src/Request/Preparing.antt =====
-- What `Prepare` of internal/http/prepared.go promises.
use go_http.Base.{
  Bool, false, ◌||◌, ◌≡◌, ◌≢◌, ◌↔◌, ◌⊎◌, inl, inr, refl, arith, Option, none, some, [], ◌∷◌, ◌==◌,
  if◌then◌else◌, Bytes, codes, equal, length, ℤ, pos, negsuc, map, Option-cases,
}
use go_http.Strconv.{lower, parse_int}
use go_http.Textproto.{Headers}
use go_http.Request.{
  Body, nil_body, string_body, byte_slice, buffer, bytes_reader, strings_reader, reader, other,
  Request, Url, GetBody, no_body, fresh, once, PreparedRequest, prepared, prepare, prepare_at, keep,
  update_body, scan_headers, scan_clone, first_or, length_or, get_body, Got,
}

-- The bytes of a body whose size is known from its type.
abbrev pub sized? : Body → Option Bytes
sized? (string_body bs) = some bs
sized? (byte_slice bs) = some bs
sized? (buffer bs) = some bs
sized? (bytes_reader bs) = some bs
sized? (strings_reader bs) = some bs
sized? _ = none

update_body-sized :
    (b : Body) (bs : Bytes) (len : ℤ)
    → sized? b ≡ some bs
    → update_body b len ≡ some (pos (length bs), fresh bs)
unfolding update_body
update_body-sized (string_body x) bs len h = ground arith
update_body-sized nil_body bs len h = cc
update_body-sized other bs len h = cc
update_body-sized (reader size pieces fault) bs len h = cc
update_body-sized _ bs len h = ground arith

-- A prepared request with a body in memory has that body's length as its content length, whatever
-- the user's headers say, and each call of `GetBody` gives the whole body again.
pub prepare-sized :
    (r : Request) (u : Url) (bs : Bytes) (p : PreparedRequest)
    → sized? r.body ≡ some bs
    → prepare r (some u) ≡ prepared p
    → (p.content_length ≡ pos (length bs))
      × (get_body p.body ≡ (p.body, Got.stream (record { pieces = bs ∷ []; fault = none })))
unfolding prepare prepare_at get_body
prepare-sized r u bs p h e =
    ground (arith, update_body-sized r.body bs (scan_clone r.header u.host).cl h)

-- The keys that the loop of `Prepare` takes out, in any case of letters.
abbrev taken : Bytes → Bool
taken k = equal (map lower k) (codes "host") || equal (map lower k) (codes "content-length")

-- The headers that the loop leaves.
unfoldable pub others : Headers → Headers
others [] = []
others ((k, v) ∷ hs) = if taken k then others hs else (k, v) ∷ others hs

scan_headers-others :
    (hs : Headers) (host : Bytes) (cl : ℤ) → (scan_headers hs host cl).kept ≡ others hs
unfolding scan_headers others
scan_headers-others [] host cl = refl
scan_headers-others ((k, v) ∷ hs) host cl = ground (
  arith,
  scan_headers-others hs (if equal (map lower k) (codes "host") then first_or v host else host)
      (if equal (map lower k) (codes "content-length") then length_or v cl else cl),
)

-- The headers of a prepared request are the user's, in their order, without `Host` and
-- `Content-Length` in any case of letters.
pub prepare-header :
    (r : Request) (u : Url) (hs : Headers) (p : PreparedRequest)
    → r.header ≡ some hs
    → prepare r (some u) ≡ prepared p
    → p.header ≡ some (others hs)
unfolding prepare prepare_at
prepare-header r u hs p h e =
    let kept : (scan_clone r.header u.host).kept ≡ others hs =
      rw h (unfold scan_clone in scan_headers-others hs u.host (negsuc 0)) in
    ground (arith, kept)

-- The last of the values that stand first under a key, in any case of letters, or else `d`.
unfoldable pub last_first : Bytes → Headers → Bytes → Bytes
last_first key [] d = d
last_first key ((k, []) ∷ hs) d = last_first key hs d
last_first key ((k, v ∷ vs) ∷ hs) d = last_first key hs (if equal (map lower k) key then v else d)

-- The last number that stands first under `Content-Length`, or else `d`.
unfoldable pub last_length : Headers → ℤ → ℤ
last_length [] d = d
last_length ((k, []) ∷ hs) d = last_length hs d
last_length ((k, v ∷ vs) ∷ hs) d = last_length hs (
    if equal (map lower k) (codes "content-length")
    then elim (parse_int v) [ none ↦ d | some n ↦ n ]
    else d)

abbrev pub user_host : Option Headers → Bytes → Bytes
user_host none d = d
user_host (some hs) d = last_first (codes "host") hs d

-- -1 if the user gives no length.
abbrev pub user_length : Option Headers → ℤ
user_length none = negsuc 0
user_length (some hs) = last_length hs (negsuc 0)

-- The length of a body, where none and a reader that does not know its own have the user's, and an
-- unsupported body has none.
unfoldable pub body_length : Body → ℤ → Option ℤ
body_length other len = none
body_length nil_body len = some len
body_length (reader none pieces fault) len = some len
body_length (reader (some size) pieces fault) len = some size
body_length (string_body bs) len = some (pos (length bs))
body_length (byte_slice bs) len = some (pos (length bs))
body_length (buffer bs) len = some (pos (length bs))
body_length (bytes_reader bs) len = some (pos (length bs))
body_length (strings_reader bs) len = some (pos (length bs))

scan_headers-host :
    (hs : Headers) (host : Bytes) (cl : ℤ)
    → (scan_headers hs host cl).host ≡ last_first (codes "host") hs host
unfolding scan_headers last_first
scan_headers-host [] host cl = refl
scan_headers-host ((k, []) ∷ hs) host cl = ground (arith, scan_headers-host hs host cl)
scan_headers-host ((k, v ∷ vs) ∷ hs) host cl = ground (
  arith,
  scan_headers-host hs (if equal (map lower k) (codes "host") then v else host)
      (if equal (map lower k) (codes "content-length") then length_or (v ∷ vs) cl else cl),
)

scan_headers-length :
    (hs : Headers) (host : Bytes) (cl : ℤ) → (scan_headers hs host cl).cl ≡ last_length hs cl
unfolding scan_headers last_length
scan_headers-length [] host cl = refl
scan_headers-length ((k, []) ∷ hs) host cl = ground (arith, scan_headers-length hs host cl)
scan_headers-length ((k, v ∷ vs) ∷ hs) host cl = ground (
  arith,
  scan_headers-length hs (if equal (map lower k) (codes "host") then v else host)
      (if equal (map lower k) (codes "content-length") then length_or (v ∷ vs) cl else cl),
)

scan_clone-host : (h : Option Headers) (host : Bytes) → (scan_clone h host).host ≡ user_host h host
unfolding scan_clone
scan_clone-host none host = refl
scan_clone-host (some hs) host = scan_headers-host hs host (negsuc 0)

scan_clone-length : (h : Option Headers) (host : Bytes) → (scan_clone h host).cl ≡ user_length h
unfolding scan_clone
scan_clone-length none host = refl
scan_clone-length (some hs) host = scan_headers-length hs host (negsuc 0)

update_body-length :
    (b : Body) (len : ℤ)
    → ((n : ℤ) (body : GetBody) → update_body b len ≡ some (n, body) → body_length b len ≡ some n)
      × ((n : ℤ)
          → body_length b len ≡ some n
          → (body : GetBody) × (update_body b len ≡ some (n, body)))
unfolding update_body body_length
update_body-length other len = (λ n body e. cc, λ n e. cc)
update_body-length nil_body len = (λ n body e. ground arith, λ n e. (no_body, ground arith))
update_body-length (reader none p f) len =
    (λ n body e. ground arith, λ n e. (once false (record { pieces = p; fault = f }), ground arith))
update_body-length (reader (some z) p f) len =
    (λ n body e. ground arith, λ n e. (once false (record { pieces = p; fault = f }), ground arith))
update_body-length (string_body bs) len =
    (λ n body e. ground arith, λ n e. (fresh bs, ground arith))
update_body-length (byte_slice bs) len = (λ n body e. ground arith, λ n e. (fresh bs, ground arith))
update_body-length (buffer bs) len = (λ n body e. ground arith, λ n e. (fresh bs, ground arith))
update_body-length (bytes_reader bs) len =
    (λ n body e. ground arith, λ n e. (fresh bs, ground arith))
update_body-length (strings_reader bs) len =
    (λ n body e. ground arith, λ n e. (fresh bs, ground arith))

nonempty : (s : Bytes) → s ≢ [] → (length s == 0) ≡ false
nonempty [] k = absurd (k refl)
nonempty (c ∷ s) k = ground arith

-- `Prepare` on a parsed URL gives a request with the host `host` and the length `len` exactly if `host` is
-- the user's `Host`, or else that of the URL, and is not empty, and `len` is the length of a supported
-- body and does not contradict the user's `Content-Length`. Without a body, and with a reader that does
-- not know its size, the length is the user's, or -1.
pub prepare_iff :
    (r : Request) (u : Url) (host : Bytes) (len : ℤ)
    → ((p : PreparedRequest) × (prepare r (some u) ≡ prepared p)
        × (p.header_host ≡ host)
        × (p.content_length ≡ len))
      ↔ ((host ≡ user_host r.header u.host)
          × (host ≢ [])
          × (body_length r.body (user_length r.header) ≡ some len)
          × ((user_length r.header ≡ negsuc 0) ⊎ (len ≡ user_length r.header)))
unfolding prepare prepare_at
prepare_iff r u host len =
    let sh = scan_clone-host r.header u.host in
    let sl = scan_clone-length r.header u.host in
    let cl = (scan_clone r.header u.host).cl in
    let lengths : (n : ℤ) (body : GetBody)
        → update_body r.body cl ≡ some (n, body)
        → body_length r.body (user_length r.header) ≡ some n =
      λ n body q. rw⁻¹ sl ((update_body-length r.body cl).0 n body q) in
    (
      λ (p, e, eh, el). elim (Option-cases (update_body r.body cl)) [
        | inl q ↦ absurd (ground arith)
        | inr ((n, body), q) ↦
            let known = lengths n body q in ground (arith, sh, sl, known, q, e, eh, el)
      ],
      λ (h, ne, b, c).
          let made = (update_body-length r.body cl).1 len (rw (sl) b) in
          (
            record {
              method = r.method;
              url = u;
              body = made.0;
              header = keep r.header (scan_clone r.header u.host).kept;
              header_host = (scan_clone r.header u.host).host;
              content_length = len;
              written = false;
            },
            ground (
              arith,
              made.1,
              sh,
              sl,
              nonempty (scan_clone r.header u.host).host (rw (sh) (rw⁻¹ h ne)),
            ),
            ground (arith, sh, h),
            refl,
          ),
    )

-- With no body, `Prepare` keeps the length of the user's headers: no other length is known, and so
-- there is no conflict.
pub prepare-no_body :
    (r : Request) (u : Url) (p : PreparedRequest)
    → r.body ≡ nil_body
    → prepare r (some u) ≡ prepared p
    → (p.content_length ≡ (scan_clone r.header u.host).cl)
      × (get_body p.body ≡ (no_body, Got.nothing))
unfolding prepare prepare_at get_body update_body
prepare-no_body r u p h e = ground arith
