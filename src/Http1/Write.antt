-- ===== src/Http1/Write.antt =====
-- internal/transport/http1/http1.go: `expectContentLength`, `writeHeader` and `writeRequest`. A nil
-- map of headers is `none`; writing to it panics.
pub mod Sent
use go_http.Base.{
  ℕ, zero, suc, ◌+◌, ◌-◌, Bool, true, false, not, ◌&&◌, ◌||◌, Option, none, some, List, [], ◌∷◌,
  ◌++◌, leb, ◌==◌, if◌then◌else◌, Bytes, codes, equal, length, take, drop, ℤ, pos, negsuc,
}
use go_http.Io.{Error, short_write, Wire, write, buffer_size}
use go_http.Strconv.{format_int}
use go_http.Textproto.{Headers, get, set_values}
use go_http.Chunked.Writer.{crlf, write_chunk, close_with_trailer}
use go_http.Request.{
  GetBody, PreparedRequest, Stream, Got, nothing, read_after_close, stream, get_body,
}

abbrev pub header_of : Option Headers → Headers
header_of none = []
header_of (some h) = h

unfoldable pub expect_content_length : PreparedRequest → Bool
expect_content_length r =
    if equal r.method (codes "POST")
      || equal r.method (codes "PUT")
      || equal r.method (codes "PATCH")
    then true
    else if equal r.method (codes "CONNECT")
    then false
    else if equal (get (codes "Transfer-Encoding") (header_of r.header)) (codes "identity")
    then not (equal r.method (codes "GET") || equal r.method (codes "HEAD"))
    else false

-- the lines of one header
unfoldable pub value_lines : Bytes → List Bytes → Bytes
value_lines k [] = []
value_lines k (v ∷ vs) = k ++ (codes ": " ++ (v ++ (crlf ++ value_lines k vs)))

-- The lines of all headers, in the order of the list: Go may take any order.
unfoldable pub header_lines : Headers → Bytes
unfolding value_lines
header_lines [] = []
header_lines ((k, vs) ∷ hs) = value_lines k vs ++ header_lines hs

-- what is written behind the `Host` line's value
unfoldable pub length_lines : PreparedRequest → ℤ → Bytes
length_lines r (pos (suc n)) = crlf ++ (codes "Content-Length: " ++ (format_int (suc n) ++ crlf))
length_lines r (pos zero) =
    if expect_content_length r then crlf ++ codes "Content-Length: 0\r\n" else crlf
length_lines r (negsuc n) = crlf

-- The text that `writeHeader` puts together.
unfoldable pub header_text : PreparedRequest → Bytes
unfolding length_lines header_lines
header_text r =
    r.method
    ++ (codes " "
        ++ (r.url.request_uri
            ++ (codes " HTTP/1.1\r\nHost: "
                ++ (r.header_host
                    ++ (length_lines r r.content_length
                        ++ (header_lines (header_of r.header) ++ crlf))))))

-- `bufio.Writer` over the connection: pieces of the buffer's size, the last one flushed at the end. It stops
-- at the first error. The bytes themselves are fuel enough.
unfoldable pub write_pieces : ℕ → ℕ → Wire → Bytes → Wire × Option Error
write_pieces size zero w bs = (w, none)
write_pieces size (suc fuel) w bs =
    let piece = take size bs in
    let r = write w piece in
    elim r.2 [
      | some e ↦ (r.0, some e)
      | none ↦
          if not (r.1 == length piece)
          then (r.0, some short_write)
          else (let next = write_pieces size fuel r.0 (drop size bs) in
              if leb (length bs) size then (r.0, none) else next)
    ]

-- `writeHeader`; it marks the request as written, also when it fails.
unfoldable pub write_header : Wire → PreparedRequest → Wire × PreparedRequest × Option Error
write_header w r =
    let text = header_text r in
    let sent = write_pieces buffer_size (suc (length text)) w text in
    (sent.0, record r { written = true }, sent.1)

-- `io.Copy` to the connection: the number of bytes copied, and the first error.
unfoldable pub copy : Wire → List Bytes → Option Error → ℕ → Wire × ℕ × Option Error
copy w [] fault n = (w, n, fault)
copy w (p ∷ ps) fault n =
    let r = write w p in
    elim r.2 [
      | some e ↦ (r.0, n + r.1, some e)
      | none ↦
          if not (r.1 == length p)
          then (r.0, n + r.1, some short_write)
          else copy r.0 ps fault (n + r.1)
    ]

-- `io.Copy` to a chunked writer
unfoldable pub copy_chunked : Wire → List Bytes → Option Error → Wire × Option Error
copy_chunked w [] fault = (w, fault)
copy_chunked w (p ∷ ps) fault =
    let r = write_chunk w p in
    elim r.2 [
      | some e ↦ (r.0, some e)
      | none ↦ if not (r.1 == length p) then (r.0, some short_write) else copy_chunked r.0 ps fault
    ]

pub data WriteError : Type 0 where
  io : Error → WriteError
  body_read_after_close : WriteError

-- How `writeRequest` ends: it returns, with an error or not, or it panics.
pub data Written : Type 0 where
  returns : Wire → PreparedRequest → Option WriteError → Written
  panics : Written

abbrev as_error : Option Error → Option WriteError
as_error none = none
as_error (some e) = some (io e)

-- `r.Header.Set("Transfer-Encoding", "chunked")`
unfoldable pub mark_chunked : PreparedRequest → Option PreparedRequest
mark_chunked r = elim r.header [
  | none ↦ none
  | some h ↦
      some (record r {
        header = some (set_values (codes "Transfer-Encoding") (codes "chunked" ∷ []) h);
      })
]

-- the body behind the header
unfoldable pub write_stream : Wire → PreparedRequest → Stream → Written
write_stream w r s = elim r.content_length [
  | negsuc zero ↦
      let body = copy_chunked w s.pieces s.fault in
      elim body.1 [
        | some e ↦ returns body.0 r (some (io e))
        | none ↦ let end = close_with_trailer body.0 in returns end.0 r (as_error end.1)
      ]
  | pos n ↦
      let body = copy w s.pieces s.fault 0 in
      elim body.2 [
        | some e ↦ returns body.0 r (some (io e))
        | none ↦ returns body.0 r (if not (body.1 == n) then some (io short_write) else none)
      ]
  | negsuc (suc n) ↦
      let body = copy w s.pieces s.fault 0 in
      elim body.2 [
        | some e ↦ returns body.0 r (some (io e))
        | none ↦ returns body.0 r (some (io short_write))
      ]
]

abbrev pub is_minus_1 : ℤ → Bool
is_minus_1 (negsuc zero) = true
is_minus_1 _ = false

unfoldable pub write_with_stream : Wire → PreparedRequest → Stream → Written
write_with_stream w r s =
    let h = write_header w r in
    elim h.2 [ some e ↦ returns h.0 h.1 (some (io e)) | none ↦ write_stream h.0 h.1 s ]

-- The stream of a body, with or without a known length.
unfoldable pub write_by_length : Bool → Wire → PreparedRequest → Stream → Written
write_by_length false w r s = write_with_stream w r s
write_by_length true w r s = elim (mark_chunked r) [
  | none ↦ panics
  | some q ↦ write_with_stream w q s
]

-- `writeRequest`
unfoldable pub write_request : Wire → PreparedRequest → Written
write_request w r =
    let b = get_body r.body in
    let r1 = record r { body = b.0 } in
    elim b.1 [
      | read_after_close ↦ returns w r1 (some body_read_after_close)
      | nothing ↦ let h = write_header w r1 in returns h.0 h.1 (as_error h.2)
      | stream s ↦ write_by_length (is_minus_1 r.content_length) w r1 s
    ]
