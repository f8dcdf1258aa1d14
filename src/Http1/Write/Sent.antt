-- ===== src/Http1/Write/Sent.antt =====
-- What `writeRequest` of internal/transport/http1/http1.go puts on the connection.
use go_http.Base.{
  ℕ, zero, suc, ◌+◌, ◌<◌, true, ◌≡◌, inl, inr, refl, ap, ◌∙◌, arith, Option, none, some, List, [],
  ◌∷◌, ◌++◌, append_assoc, append-nil, leb, ◌==◌, if◌then◌else◌, Bytes, length, length-append,
  length-drop, take, drop, take_ge, take-append-drop, Bool-cases, codes, pos, negsuc,
}
use go_http.Io.{Error, short_write, Wire, buffer_size}
use go_http.Chunked.Writer.{hex, crlf, write_chunk, close_with_trailer}
use go_http.Chunked.Decoding.{encoded, flatten}
use go_http.Chunked.RoundTrip.{
  Obliging, write-all, write_chunk-all, sent_assoc, close_with_trailer-all,
}
use go_http.Request.{PreparedRequest, Stream, stream, get_body, GetBody}
use go_http.Textproto.{Headers, set_values}
use go_http.Http1.Write.{
  value_lines, header_lines, length_lines, header_text, write_pieces, write_header, copy,
  copy_chunked, returns, panics, io, is_minus_1, mark_chunked, write_by_length, write_stream,
  Written, write_with_stream, write_request,
}

-- One piece of `size` bytes, and what follows it.
pieces_join : (size : ℕ) (sent bs : Bytes) → (sent ++ take size bs) ++ drop size bs ≡ sent ++ bs
pieces_join size sent bs =
    append_assoc sent (take size bs) (drop size bs) ∙ ap (◌++◌ sent) (take-append-drop size bs)

write_pieces-all :
    (size fuel : ℕ) (w : Wire) (bs : Bytes)
    → 0 < size
    → w.plan ≡ []
    → length bs < fuel
    → write_pieces size fuel w bs ≡ (record w { sent = w.sent ++ bs }, none)
unfolding write_pieces
write_pieces-all size zero w bs some_size o h = absurd (omega arith)
write_pieces-all size (suc fuel) w bs some_size o h =
    let w' : Wire = record w { sent = w.sent ++ take size bs } in
    elim (Bool-cases (leb (length bs) size)) [
      | inl last ↦
          ground (arith, last, write-all w (take size bs) o, take_ge size bs (ground arith))
      | inr more ↦ ground (
        arith,
        more,
        write-all w (take size bs) o,
        write_pieces-all size fuel w' (drop size bs) some_size o
            (ground (arith, length-drop size bs)),
        pieces_join size w.sent bs,
      )
    ]

-- On a writer that takes everything, `writeHeader` sends its text.
pub write_header-all :
    (w : Wire) (r : PreparedRequest)
    → w.plan ≡ []
    → write_header w r
      ≡ (record w { sent = w.sent ++ header_text r }, record r { written = true }, none)
unfolding write_header
write_header-all w r o =
    let text = header_text r in
    rw (write_pieces-all buffer_size (suc (length text)) w text (omega arith) o (omega arith))

copy-all :
    (w : Wire) (ps : List Bytes) (n : ℕ)
    → w.plan ≡ []
    → copy w ps none n ≡ (record w { sent = w.sent ++ flatten ps }, n + length (flatten ps), none)
unfolding copy
copy-all w [] n o = ground (arith, append-nil w.sent)
copy-all w (p ∷ ps) n o = ground (
  arith,
  write-all w p o,
  copy-all (record w { sent = w.sent ++ p }) ps (n + length p) o,
  append_assoc w.sent p (flatten ps),
  length-append p (flatten ps),
)

-- The chunked copy and the last chunk are `write_body` of the pieces.
copy_chunked-write_body :
    (w : Wire) (ps : List Bytes)
    → Obliging w
    → (w' : Wire) × (copy_chunked w ps none ≡ (w', none))
      × (close_with_trailer w' ≡ (record w { sent = w.sent ++ encoded ps [] }, none))
unfolding copy_chunked
copy_chunked-write_body w [] o = (w, refl, close_with_trailer-all w o.0)
copy_chunked-write_body w ([] ∷ ps) o =
    let (w', e, f) = copy_chunked-write_body w ps o in (w', write_empty e, f)
  where
    write_empty :
        {r : Wire × Option Error} → copy_chunked w ps none ≡ r → copy_chunked w ([] ∷ ps) none ≡ r
    write_empty e = unfold write_chunk in e
copy_chunked-write_body w ((c ∷ d) ∷ ps) o =
    let next : Wire = record w {
      sent = w.sent ++ (hex (length (c ∷ d)) ++ crlf) ++ (c ∷ d) ++ crlf;
    } in
    let (w', e, f) = copy_chunked-write_body next ps o in
    (
      w',
      ground (arith, write_chunk-all w c d o, e),
      ground (arith, f, sent_assoc w.sent (hex (length (c ∷ d))) crlf (c ∷ d) crlf (encoded ps [])),
    )

write_request-stream :
    (w : Wire) (r : PreparedRequest) (body : GetBody) (s : Stream)
    → get_body r.body ≡ (body, stream s)
    → write_request w r
      ≡ write_by_length (is_minus_1 r.content_length) w (record r { body = body }) s
unfolding write_request
write_request-stream w r body s g = ground (arith, g)

write_with_stream-all :
    (w : Wire) (r : PreparedRequest) (s : Stream)
    → w.plan ≡ []
    → write_with_stream w r s
      ≡ write_stream (record w { sent = w.sent ++ header_text r }) (record r { written = true }) s
unfolding write_with_stream
write_with_stream-all w r s o = ground (arith, write_header-all w r o)

write_stream-counted :
    (w : Wire) (r : PreparedRequest) (s : Stream) (n : ℕ)
    → w.plan ≡ []
    → s.fault ≡ none
    → r.content_length ≡ pos n
    → write_stream w r s
      ≡ returns
          (record w { sent = w.sent ++ flatten s.pieces })
          r
          (if length (flatten s.pieces) == n then none else some (io short_write))
unfolding write_stream
write_stream-counted w r s n o f e = ground (arith, e, f, copy-all w s.pieces 0 o)

-- On a writer that takes everything, a body with an announced length that ends without an error is sent
-- behind the header as it is. One of another length is sent too, and then reported as a short write.
pub write_request-counted :
    (w : Wire) (r : PreparedRequest) (body : GetBody) (s : Stream) (n : ℕ)
    → w.plan ≡ []
    → get_body r.body ≡ (body, stream s)
    → s.fault ≡ none
    → r.content_length ≡ pos n
    → write_request w r
      ≡ returns
          (record w { sent = w.sent ++ header_text (record r { body = body }) ++ flatten s.pieces })
          (record r { body = body; written = true })
          (if length (flatten s.pieces) == n then none else some (io short_write))
unfolding write_by_length
write_request-counted w r body s n o g f e =
    write_request-stream w r body s g
    ∙ ap (λ b. write_by_length (is_minus_1 b) w (record r { body = body }) s) e
    ∙ write_with_stream-all w (record r { body = body }) s o
    ∙ write_stream-counted _ (record r { body = body; written = true }) s n o f e

write_stream-chunked :
    (w : Wire) (r : PreparedRequest) (s : Stream)
    → Obliging w
    → s.fault ≡ none
    → r.content_length ≡ negsuc 0
    → write_stream w r s ≡ returns (record w { sent = w.sent ++ encoded s.pieces [] }) r none
unfolding write_stream
write_stream-chunked w r s o f e =
    let (w', c, d) = copy_chunked-write_body w s.pieces o in ground (arith, e, f, c, d)

mark_chunked-length :
    (r q : PreparedRequest) → mark_chunked r ≡ some q → q.content_length ≡ r.content_length
unfolding mark_chunked
mark_chunked-length r q m = ground arith

write_request-marked :
    (w : Wire) (r q : PreparedRequest) (body : GetBody) (s : Stream)
    → Obliging w
    → get_body r.body ≡ (body, stream s)
    → s.fault ≡ none
    → r.content_length ≡ negsuc 0
    → mark_chunked (record r { body = body }) ≡ some q
    → write_request w r
      ≡ returns
          (record w { sent = w.sent ++ header_text q ++ encoded s.pieces [] })
          (record q { written = true })
          none
unfolding write_by_length
write_request-marked w r q body s o g f e m =
    write_request-stream w r body s g
    ∙ ap (λ b. write_by_length (is_minus_1 b) w (record r { body = body }) s) e
    ∙ rw (m, write_by_length)
        (write_with_stream-all w q s o.0
          ∙ write_stream-chunked _ (record q { written = true }) s o f
              (mark_chunked-length (record r { body = body }) q m ∙ e))

-- The lines of the fields, one for each value.
unfoldable pub field_lines : Headers → Bytes
field_lines [] = []
field_lines ((k, []) ∷ hs) = field_lines hs
field_lines ((k, v ∷ vs) ∷ hs) =
    k ++ (codes ": " ++ (v ++ (codes "\r\n" ++ field_lines ((k, vs) ∷ hs))))

value_lines-field_lines :
    (k : Bytes) (vs : List Bytes) (hs : Headers)
    → header_lines hs ≡ field_lines hs
    → value_lines k vs ++ header_lines hs ≡ field_lines ((k, vs) ∷ hs)
unfolding value_lines field_lines
value_lines-field_lines k [] hs e = e
value_lines-field_lines k (v ∷ vs) hs e =
    let rest = value_lines-field_lines k vs hs e in
    append_assoc k (codes ": " ++ (v ++ (crlf ++ value_lines k vs))) (header_lines hs)
    ∙ ap (λ x. k ++ (codes ": " ++ x))
        (append_assoc v (crlf ++ value_lines k vs) (header_lines hs)
          ∙ ap (λ x. v ++ (crlf ++ x)) rest)

header_lines-field_lines : (hs : Headers) → header_lines hs ≡ field_lines hs
unfolding header_lines field_lines
header_lines-field_lines [] = refl
header_lines-field_lines ((k, vs) ∷ hs) =
    value_lines-field_lines k vs hs (header_lines-field_lines hs)

-- The header of a request without a length, whose fields are `hs`.
abbrev pub chunked_head : PreparedRequest → Headers → Bytes
chunked_head r hs =
    r.method
    ++ (codes " "
        ++ (r.url.request_uri
            ++ (codes " HTTP/1.1\r\nHost: "
                ++ (r.header_host ++ (codes "\r\n" ++ (field_lines hs ++ codes "\r\n"))))))

header_text-chunked :
    (r : PreparedRequest) (hs : Headers)
    → r.content_length ≡ negsuc 0
    → r.header ≡ some hs
    → header_text r ≡ chunked_head r hs
unfolding header_text length_lines
header_text-chunked r hs e h =
    rw (e, h, header_text)
      (ap
        (λ x.
          r.method
          ++ (codes " "
              ++ (r.url.request_uri
                  ++ (codes " HTTP/1.1\r\nHost: " ++ (r.header_host ++ (crlf ++ (x ++ crlf)))))))
        (header_lines-field_lines hs))

-- Without any headers (a nil map) a body of unknown length makes `writeRequest` panic.
pub write_request_panics :
    (w : Wire) (r : PreparedRequest) (body : GetBody) (s : Stream)
    → get_body r.body ≡ (body, stream s)
    → r.content_length ≡ negsuc 0
    → r.header ≡ none
    → write_request w r ≡ panics
unfolding write_by_length mark_chunked
write_request_panics w r body s g e h =
    write_request-stream w r body s g
    ∙ ap (λ b. write_by_length (is_minus_1 b) w (record r { body = body }) s) e
    ∙ ground (arith, h)

-- What becomes of a request without a length, by its map of headers.
abbrev pub chunked_outcome : Wire → PreparedRequest → GetBody → Stream → Option Headers → Written
chunked_outcome w r body s none = panics
chunked_outcome w r body s (some h) =
    let hs = set_values (codes "Transfer-Encoding") (codes "chunked" ∷ []) h in
    returns (record w { sent = w.sent ++ chunked_head r hs ++ encoded s.pieces [] })
      (record r { body = body; header = some hs; written = true }) none

module _ (w : Wire) (r : PreparedRequest) (body : GetBody) (s : Stream) (o : Obliging w)
    (g : get_body r.body ≡ (body, stream s)) (f : s.fault ≡ none)
    (e : r.content_length ≡ negsuc 0) where
  write_request-by_header :
      (headers : Option Headers)
      → r.header ≡ headers
      → write_request w r ≡ chunked_outcome w r body s headers
  unfolding mark_chunked
  write_request-by_header none n = write_request_panics w r body s g e n
  write_request-by_header (some h) n =
      let hs = set_values (codes "Transfer-Encoding") (codes "chunked" ∷ []) h in
      let q : PreparedRequest = record r { body = body; header = some hs } in
      let m : mark_chunked (record r { body = body }) ≡ some q = ground (arith, n) in
      write_request-marked w r q body s o g f e m
      ∙ ap
          (λ t.
            returns (record w { sent = w.sent ++ t ++ encoded s.pieces [] })
              (record q { written = true }) none)
          (header_text-chunked q hs e refl)

-- On a writer that takes everything, a body of unknown length that ends without an error is sent in the
-- chunked coding, behind a header whose fields are those of the request with `Transfer-Encoding` set to
-- `chunked`, if the request has a map of headers. Without one `writeRequest` panics.
pub write_request-chunked :
    (w : Wire) (r : PreparedRequest) (body : GetBody) (s : Stream)
    → Obliging w
    → get_body r.body ≡ (body, stream s)
    → s.fault ≡ none
    → r.content_length ≡ negsuc 0
    → write_request w r ≡ chunked_outcome w r body s r.header
write_request-chunked w r body s o g f e = write_request-by_header w r body s o g f e r.header refl
