-- ===== src/Request.antt =====
-- internal/http: `Request`, `PreparedRequest` and `Prepare`.
pub mod Preparing
use go_http.Base.{
  ℕ, suc, Bool, true, false, not, ◌&&◌, Option, none, some, List, [], ◌∷◌, ◌++◌, ◌==◌,
  if◌then◌else◌, Bytes, codes, equal, length, ℤ, pos, negsuc, map,
}
use go_http.Io.{Error}
use go_http.Strconv.{parse_int, lower}
use go_http.Textproto.{Headers}

-- A body as the user gives it. The bytes of a reader come in pieces, and end with an error or not;
-- `size` is what its method `Size` answers, if it has one. `other` is any other type.
pub data Body : Type 0 where
  nil_body other : Body
  string_body byte_slice buffer bytes_reader strings_reader : Bytes → Body
  reader : (size : Option ℤ) → (pieces : List Bytes) → (fault : Option Error) → Body

-- An `io.ReadCloser`: its pieces, and the error at its end if that is not `io.EOF`.
pub record Stream : Type 0 where
  pub pieces : List Bytes
  pub fault : Option Error

-- `header` is `none` for a nil map.
pub record Request : Type 0 where
  pub method : Bytes
  pub body : Body
  pub header : Option Headers

-- what `url.Parse` gives of the request's URL
pub record Url : Type 0 where
  pub scheme : Bytes
  pub host : Bytes
  pub request_uri : Bytes

-- The closures that `GetBody` may be. `once` holds the flag of its `CompareAndSwap`.
pub data GetBody : Type 0 where
  no_body : GetBody
  fresh : Bytes → GetBody
  once : Bool → Stream → GetBody

pub record PreparedRequest : Type 0 where
  pub method : Bytes
  pub url : Url
  pub body : GetBody
  pub header : Option Headers
  pub header_host : Bytes
  pub content_length : ℤ
  pub written : Bool

pub data PrepareError : Type 0 where
  invalid_url empty_host unsupported_body conflicting_length : PrepareError

pub data Prepared : Type 0 where
  prepared : PreparedRequest → Prepared
  rejected : PrepareError → Prepared

-- `GetBody()`: the closure as the call leaves it, and the body (`none` for `NoBody`) or an error.
pub data Got : Type 0 where
  nothing read_after_close : Got
  stream : Stream → Got

abbrev one_piece : Bytes → Stream
one_piece bs = record { pieces = bs ∷ []; fault = none }

unfoldable pub get_body : GetBody → GetBody × Got
get_body no_body = (no_body, nothing)
get_body (fresh bs) = (fresh bs, stream (one_piece bs))
get_body (once false s) = (once true s, stream s)
get_body (once true s) = (once true s, read_after_close)

-- the switch of `updateBody`: the length and the closure, or `none` for an unsupported type
unfoldable pub update_body : Body → ℤ → Option (ℤ × GetBody)
update_body nil_body len = some (len, no_body)
update_body (string_body bs) len = some (pos (length bs), fresh bs)
update_body (byte_slice bs) len = some (pos (length bs), fresh bs)
update_body (buffer bs) len = some (pos (length bs), fresh bs)
update_body (bytes_reader bs) len = some (pos (length bs), fresh bs)
update_body (strings_reader bs) len = some (pos (length bs), fresh bs)
update_body (reader none pieces fault) len =
    some (len, once false (record { pieces = pieces; fault = fault }))
update_body (reader (some size) pieces fault) len =
    some (size, once false (record { pieces = pieces; fault = fault }))
update_body other len = none

-- what the loop over the headers computes
pub record Scanned : Type 0 where
  pub host : Bytes
  pub cl : ℤ
  pub kept : Headers

abbrev pub first_or : List Bytes → Bytes → Bytes
first_or [] d = d
first_or (v ∷ vs) d = v

abbrev pub length_or : List Bytes → ℤ → ℤ
length_or [] d = d
length_or (v ∷ vs) d = elim (parse_int v) [ none ↦ d | some n ↦ n ]

-- The loop over the headers, in the order of the list: Go may take any order.
unfoldable pub scan_headers : Headers → Bytes → ℤ → Scanned
scan_headers [] host cl = record { host = host; cl = cl; kept = [] }
scan_headers ((k, v) ∷ hs) host cl =
    let is_host = equal (map lower k) (codes "host") in
    let is_length = equal (map lower k) (codes "content-length") in
    let r =
      scan_headers hs (if is_host then first_or v host else host)
        (if is_length then length_or v cl else cl) in
    if is_host then r else if is_length then r else record r { kept = (k, v) ∷ r.kept }

unfoldable pub scan_clone : Option Headers → Bytes → Scanned
scan_clone none host = record { host = host; cl = negsuc 0; kept = [] }
scan_clone (some hs) host = scan_headers hs host (negsuc 0)

abbrev pub keep : Option Headers → Headers → Option Headers
keep none kept = none
keep (some hs) kept = some kept

-- equality on int64
abbrev pub eqℤ : ℤ → ℤ → Bool
eqℤ (pos a) (pos b) = a == b
eqℤ (negsuc a) (negsuc b) = a == b
eqℤ (pos a) (negsuc b) = false
eqℤ (negsuc a) (pos b) = false

unfoldable pub prepare_at : Request → Url → Prepared
prepare_at r u =
    let s = scan_clone r.header u.host in
    if length s.host == 0 then rejected empty_host else elim (update_body r.body s.cl) [
      | none ↦ rejected unsupported_body
      | some (len, body) ↦
          if not (eqℤ s.cl (negsuc 0)) && not (eqℤ len s.cl)
          then rejected conflicting_length
          else prepared (record {
            method = r.method;
            url = u;
            body = body;
            header = keep r.header s.kept;
            header_host = s.host;
            content_length = len;
            written = false;
          })
    ]

-- `Prepare`, on what `url.Parse` answers (`none` for an error).
unfoldable pub prepare : Request → Option Url → Prepared
prepare r none = rejected invalid_url
prepare r (some u) = prepare_at r u
