-- ===== src/Http1/Header.antt =====
-- internal/transport/http1/http1.go: `readRawHeader` and `readHeader`. What they change of the
-- response is returned with it.
pub mod ContentLength
pub mod Rules
use go_http.Base.{
  ℕ, zero, suc, ◌+◌, ◌-◌, ◌*◌, ◌/◌, ◌%◌, ◌^◌, ◌<◌, Bool, true, false, not, ◌&&◌, ◌||◌, Option, none,
  some, List, [], ◌∷◌, ◌++◌, ltb, leb, ◌==◌, if◌then◌else◌, Bytes, codes, equal, length, pos,
  negsuc, ◌≡◌, refl,
}
use mathlib.Core.Option
use Prim.Native.Nat.{bit_or}
use go_http.Io.{Error, eof, unexpected, Source}
use go_http.Strconv.{parse_uint, parse_int, trim_left_space, trim_string}
use go_http.Textproto.{
  Headers, io, malformed_mime, TextError, values, values?, set_values, get, text_line, Mime,
  read_mime_header,
}
use go_http.Http1.Utils.{cut, has_prefix, byte_at, walk_reverse, last_element}
use go_http.Http1.Response.{
  HeaderError, text, headers_eof, malformed_response, malformed_status_code, malformed_version,
  empty_content_length, multiple_content_length, invalid_content_length, Response,
}

-- what `readRawHeader` leaves behind
pub record RawHeader : Type 0 where
  pub source : Source
  pub response : Response
  pub error : Option HeaderError

-- `"Pragma: no-cache"` without `Cache-Control` stands for `"Cache-Control: no-cache"`.
unfoldable pub pragma : Headers → Headers
pragma h = elim (values? (codes "Pragma") h) [
  | none ↦ h
  | some [] ↦ h
  | some (v ∷ vs) ↦ elim (values? (codes "Cache-Control") h) [
    | some cc ↦ h
    | none ↦
        if equal v (codes "no-cache")
        then set_values (codes "Cache-Control") (codes "no-cache" ∷ []) h
        else h
  ]
]

abbrev io_eof : TextError → TextError
io_eof (io e) = io (unexpected e)
io_eof malformed_mime = malformed_mime

-- behind the status line: the header block
unfoldable pub raw_fields : Source → Response → RawHeader
unfolding pragma
raw_fields s resp =
    let m = read_mime_header s in
    elim m.error [
      | some e ↦ record { source = m.source; response = resp; error = some (text (io_eof e)) }
      | none ↦ record {
        source = m.source;
        response = record resp { header = pragma m.headers };
        error = none;
      }
    ]

-- The status line, read into the response. The source also leaves a negative status in the
-- response that goes with the error; here the old one stays.
unfoldable pub raw_status : Source → Response → Bytes → RawHeader
unfolding cut trim_left_space
raw_status s resp line =
    let first = cut line (codes " ") in
    let resp1 = record resp { proto = first.0; status = trim_left_space first.1 } in
    let code = (cut resp1.status (codes " ")).0 in
    let failed : RawHeader = record {
      source = s;
      response = resp1;
      error = some malformed_status_code;
    } in
    if not first.2
    then record { source = s; response = resp; error = some malformed_response }
    else if not (length code == 3)
    then failed
    else elim (parse_int code) [
      | none ↦ record failed { response = record resp1 { status_code = 0 } }
      | some (negsuc n) ↦ failed
      | some (pos n) ↦ raw_fields s (record resp1 { status_code = n })
    ]

abbrev line_error : Error → HeaderError
line_error eof = headers_eof
line_error e = text (io e)

-- `readRawHeader`
unfoldable pub read_raw_header : Source → Response → RawHeader
unfolding raw_status
read_raw_header s resp =
    let l = text_line s in
    elim l.1 [
      | none ↦ record { source = l.0; response = resp; error = some (line_error s.fault) }
      | some line ↦ raw_status l.0 resp line
    ]

-- `len(resp.Proto) == len("HTTP/X.Y")` and the two tests beside it
unfoldable pub proto_ok : Bytes → Bool
proto_ok p = has_prefix p (codes "HTTP/") && (length p == 8) && (byte_at p 6 == b'.')

-- `int(resp.Proto[5]-'0')<<4 | int(resp.Proto[7]-'0')`, the differences on bytes; the operands of
-- `|` share no bit when the second is below 16.
abbrev pub byte_sub : ℕ → ℕ → ℕ
byte_sub a b = (a + 2 ^ 8 - b) % 2 ^ 8

unfoldable pub http_version : Bytes → ℕ
http_version p = bit_or (byte_sub (byte_at p 5) b'0' * 2 ^ 4) (byte_sub (byte_at p 7) b'0')

-- the callback on the elements of a `Content-Length` value
abbrev pub check_element : Bytes → Option HeaderError → Bytes → Option HeaderError × Bool
check_element first err s = (
  if length s == 0
      then some empty_content_length
      else if not (equal first s)
      then some multiple_content_length
      else err,
  true,
)

-- the loop over the values
unfoldable pub check_values : Bytes → List Bytes → Option HeaderError → Option HeaderError
check_values first [] err = err
check_values first (v ∷ vs) err =
    check_values first vs (Option.get_or (walk_reverse v (check_element first) err) err)

pub data Declared : Type 0 where
  length_is : Option ℕ → Declared
  bad : Bool → HeaderError → Declared

-- The block on `Content-Length`: the declared length (`none` is -1), or an error with `close`.
unfoldable pub declared_length : List Bytes → Declared
declared_length [] = length_is none
declared_length (v ∷ vs) =
    let first = last_element v in
    elim (check_values first (v ∷ vs) none) [
      | some e ↦ bad true e
      | none ↦ elim (parse_uint first 63) [
        | none ↦ bad false invalid_content_length
        | some n ↦ length_is (some n)
      ]
    ]

-- further values of `Transfer-Encoding`
unfoldable pub append_codings : Bytes → List Bytes → Bytes
append_codings acc [] = acc
append_codings acc (v ∷ vs) = append_codings (acc ++ (b',' ∷ b' ' ∷ trim_string v)) vs

-- The block on `Transfer-Encoding`; `httpver < 11` is the test of the source.
unfoldable pub transfer_coding : Bytes → ℕ → List Bytes → Bytes
unfolding append_codings
transfer_coding prior httpver [] = prior
transfer_coding prior httpver (v ∷ vs) =
    if ltb httpver 11 then [] else append_codings (trim_string v) vs

-- What the response says of its body, and whether the connection is closed after it.
pub record Framing : Type 0 where
  pub content_length : Option ℕ
  pub transfer_encoding : Bytes
  pub close : Bool

-- rules 1 and 2 of RFC 9112, section 6.3
abbrev pub no_body : Bytes → ℕ → Bool
no_body method status =
    equal method (codes "HEAD") || (status / 100 == 1) || (status == 204) || (status == 304)

abbrev pub tunnels : Bytes → ℕ → Bool
tunnels method status = equal method (codes "CONNECT") && leb 200 status && ltb status 300

unfoldable pub rules_1_2 : Bytes → ℕ → Option ℕ → Bytes → Framing
rules_1_2 method status len te =
    let len1 = if no_body method status then some 0 else len in
    if tunnels method status
    then record { content_length = none; transfer_encoding = []; close = false }
    else record { content_length = len1; transfer_encoding = te; close = false }

abbrev pub is_none {ℓ} : {A : Type ℓ} → Option A → Bool
is_none none = true
is_none (some a) = false

-- rules 3 and 4, and the rule on a body without a length
unfoldable pub rules_3_4 : Framing → Framing
rules_3_4 f =
    if not (length f.transfer_encoding == 0)
    then record f {
      content_length = none;
      close = not (equal (last_element f.transfer_encoding) (codes "chunked"));
    }
    else record f { close = is_none f.content_length }

-- the last test of `readHeader`, on the `Connection` headers of both messages
unfoldable pub connection_close : Bytes → Bytes → Framing → Framing
connection_close resp_conn req_conn f =
    if equal resp_conn (codes "close") || equal req_conn (codes "close")
    then record f { close = true }
    else f

unfoldable pub framing : Bytes → Bytes → Response → Option ℕ → Bytes → Framing
unfolding rules_1_2 rules_3_4 connection_close
framing method req_conn resp len te =
    connection_close (get (codes "Connection") resp.header) req_conn
      (rules_3_4 (rules_1_2 method resp.status_code len te))

-- what `readHeader` returns
pub record HeaderResult : Type 0 where
  pub source : Source
  pub response : Response
  pub close : Bool
  pub error : Option HeaderError

-- behind `readRawHeader`
unfoldable pub interpret : Bytes → Bytes → Source → Response → HeaderResult
unfolding declared_length transfer_coding
interpret method req_conn s resp =
    let unknown = record resp { content_length = none } in
    let te =
      transfer_coding resp.transfer_encoding (http_version resp.proto)
        (values (codes "Transfer-Encoding") resp.header) in
    if not (proto_ok resp.proto)
    then record { source = s; response = resp; close = true; error = some malformed_version }
    else elim (declared_length (values (codes "Content-Length") resp.header)) [
      | bad close e ↦ record { source = s; response = unknown; close = close; error = some e }
      | length_is len ↦
          let f = framing method req_conn resp len te in
          record {
            source = s;
            response = record resp {
              content_length = f.content_length;
              transfer_encoding = f.transfer_encoding;
            };
            close = f.close;
            error = none;
          }
    ]

-- `readHeader`: `method` and `req_conn` are the request's method and its `Connection` header.
unfoldable pub read_header : Bytes → Bytes → Source → Response → HeaderResult
unfolding read_raw_header interpret
read_header method req_conn s resp =
    let raw = read_raw_header s resp in
    elim raw.error [
      | some e ↦ record {
        source = raw.source;
        response = raw.response;
        close = true;
        error = some e;
      }
      | none ↦ interpret method req_conn raw.source raw.response
    ]
