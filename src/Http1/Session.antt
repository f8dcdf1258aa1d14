-- ===== src/Http1/Session.antt =====
-- internal/transport/http1/http1.go: `Session`, the body of a response on its connection, and how a
-- response starts it.
pub mod Body
pub mod Counted
pub mod Start
pub mod Loops
pub mod Steps
pub mod Ordered
pub mod Reuse
pub mod Answering
use go_http.Base.{
  ℕ, suc, ◌+◌, ◌-◌, Bool, true, false, not, ◌&&◌, Option, none, some, List, [], ◌∷◌, ◌++◌, ltb, leb,
  ◌==◌, if◌then◌else◌, Bytes, codes, equal, length, take, drop,
}
use mathlib.Core.Option
use go_http.Io.{Error, eof, Source, read}
use go_http.Chunked.Reader.{ChunkedReader, new_chunked_reader, read_chunked}
use go_http.Http1.Utils.{walk_reverse}
use go_http.Http1.Response.{Response, HeaderError, unsupported_transfer_encoding}
use go_http.Http1.Header.{HeaderResult, read_header}

-- `s.reader`: not set, the connection's reader, a chunked reader on that, or one on another chunked
-- reader.
pub data Decoder : Type 0 where
  unset nested : Decoder
  plain : Source → Decoder
  chunked : ChunkedReader → Decoder

-- `remaining` is `none` for -1. `buffered` is what the connection's reader holds, and `net` is the
-- connection behind it; `held` says that `Sess` is not nil.
pub record Session : Type 0 where
  pub need_close : Bool
  pub readraw : Bool
  pub remaining : Option ℕ
  pub decoder : Decoder
  pub buffered : Bytes
  pub net : Source
  pub held : Bool

-- What `Read` returns, or a panic (a nil `s.reader`). Bodies coded twice are not modelled.
pub data Reply : Type 0 where
  returns : Session → Bytes → Option Error → Reply
  panics not_modelled : Reply

-- what `ReadRaw` leaves behind and returns
pub record Raw : Type 0 where
  pub buffered : Bytes
  pub net : Source
  pub bytes : Bytes
  pub error : Option Error

-- behind the buffered bytes
unfoldable pub raw_from_net : Source → Bytes → ℕ → Raw
raw_from_net net got n =
    let r = read net n in record { buffered = []; net = r.0; bytes = got ++ r.1; error = r.2 }

-- `ReadRaw` into `n` bytes
unfoldable pub read_raw : Bytes → Source → ℕ → Raw
read_raw buffered net n =
    let held = length buffered in
    if held == 0
    then raw_from_net net [] n
    else if leb n held
    then record { buffered = drop n buffered; net = net; bytes = take n buffered; error = none }
    else if ltb (n - held) 32
    then record { buffered = []; net = net; bytes = buffered; error = none }
    else raw_from_net net buffered (n - held)

-- `if s.remaining > 0 { s.remaining -= int64(read) }`
abbrev pub spend : Option ℕ → ℕ → Option ℕ
spend none n = none
spend (some r) n = some (r - n)

unfoldable pub read_decoder : Session → Decoder → ℕ → Reply
read_decoder s unset n = panics
read_decoder s nested n = not_modelled
read_decoder s (plain src) n =
    let r = read src n in
    returns (record s { decoder = plain r.0; remaining = spend s.remaining (length r.1) }) r.1 r.2
read_decoder s (chunked c) n =
    let r = read_chunked c n in
    returns
      (record s { decoder = chunked r.reader; remaining = spend s.remaining (length r.bytes) })
      r.bytes r.error

-- `Read` into a buffer already cut to what remains
unfoldable pub read_within : Session → ℕ → Reply
read_within s n =
    let r = read_raw s.buffered s.net n in
    if s.readraw
    then returns
        (record s {
          buffered = r.buffered;
          net = r.net;
          remaining = spend s.remaining (length r.bytes);
        })
        r.bytes r.error
    else read_decoder s s.decoder n

-- `Read` into a buffer of `n` bytes
unfoldable pub read_body : Session → ℕ → Reply
read_body s n = elim s.remaining [
  | none ↦ read_within s n
  | some r ↦ if r == 0 then returns s [] (some eof) else read_within s (if ltb r n then r else n)
]

-- `Close`: what it tells the pool (`true` to close the connection), if it holds a session of it, and
-- whether it closes the connection itself.
pub record Closed : Type 0 where
  pub session : Session
  pub released : Option Bool
  pub closes_conn : Bool

unfoldable pub close : Session → Closed
close s = record {
  session = record s { held = false };
  released = if s.held then some s.need_close else none;
  closes_conn = s.need_close;
}

-- the callback of `readResponse` on the codings, last one first
abbrev pub decode : Decoder × Option HeaderError → Bytes → (Decoder × Option HeaderError) × Bool
decode (plain src, err) enc =
    if equal enc (codes "chunked")
    then ((chunked (new_chunked_reader src), err), true)
    else ((plain src, some unsupported_transfer_encoding), true)
decode (chunked c, err) enc =
    if equal enc (codes "chunked")
    then ((nested, err), true)
    else ((chunked c, some unsupported_transfer_encoding), true)
decode (nested, err) enc =
    if equal enc (codes "chunked")
    then ((nested, err), true)
    else ((nested, some unsupported_transfer_encoding), true)
decode (unset, err) enc =
    if equal enc (codes "chunked")
    then ((unset, err), true)
    else ((unset, some unsupported_transfer_encoding), true)

-- what `readResponse` leaves behind and returns
pub record Started : Type 0 where
  pub session : Session
  pub response : Response
  pub error : Option HeaderError

-- The session as `readHeader` leaves it: `ahead` is how many of the bytes to come the connection's
-- reader holds.
unfoldable pub fresh_session : ℕ → HeaderResult → Session
fresh_session ahead h = record {
  need_close = h.close;
  readraw = false;
  remaining = h.response.content_length;
  decoder = unset;
  buffered = take ahead h.source.pending;
  net = record (h.source) { pending = drop ahead h.source.pending };
  held = true;
}

-- the walk over the transfer codings
unfoldable pub decode_codings : Bytes → Decoder × Option HeaderError → Decoder × Option HeaderError
decode_codings te start = Option.get_or (walk_reverse te decode start) start

-- behind `readHeader`, with a transfer coding
unfoldable pub start_coded : ℕ → HeaderResult → Started
start_coded ahead h =
    let decoded = decode_codings h.response.transfer_encoding (plain h.source, h.error) in
    record {
      session = record (fresh_session ahead h) { decoder = decoded.0 };
      response = h.response;
      error = decoded.1;
    }

-- and without
unfoldable pub start_plain : ℕ → HeaderResult → Option ℕ → Started
start_plain ahead h none = record {
  session = fresh_session ahead h;
  response = h.response;
  error = h.error;
}
start_plain ahead h (some n) = record {
  session = record (fresh_session ahead h) { readraw = not (n == 0) };
  response = h.response;
  error = h.error;
}

unfoldable pub start_body : ℕ → HeaderResult → Started
start_body ahead h =
    if not (length h.response.transfer_encoding == 0)
    then start_coded ahead h
    else start_plain ahead h h.response.content_length

-- `readResponse`, for the request's method and its `Connection` header
unfoldable pub read_response : Bytes → Bytes → ℕ → Source → Response → Started
read_response method req_conn ahead s resp = start_body ahead (read_header method req_conn s resp)
