-- ===== src/Tests/Bodies.antt =====
-- Bodies of responses and requests on a connection (internal/transport/http1).
use go_http.Base.{
  ℕ, true, false, ◌≡◌, refl, arith, Option, none, some, [], ◌∷◌, ◌++◌, Bytes, codes, length, take,
  drop, pos, negsuc, ◌==◌, leb, if◌then◌else◌,
}
use go_http.Io.{Source, eof, Wire, short_write, flush_error}
use go_http.Chunked.Decoding.{flatten}
use go_http.Request.{PreparedRequest, Stream, once, get_body, Url}
use go_http.Http1.Response.{new_response}
use go_http.Http1.Header.{HeaderResult}
use go_http.Http1.Write.{header_text, returns, write_request, io}
use go_http.Http1.Write.Sent.{chunked_outcome, write_request-counted, write_request-chunked}
use go_http.Http1.Session.{start_body}
use go_http.Http1.Session.Counted.{Delivers, read_all}
use go_http.Http1.Session.Start.{counted_body}
use go_http.Textproto.{Headers}

abbrev net : Source
net = record { pending = codes "Hello, worldHTTP"; grants = 2 ∷ 0 ∷ []; fault = eof }

-- A header that announces `len` bytes, in front of them.
abbrev header : Option ℕ → Bytes → HeaderResult
header len te = record {
  source = net;
  response = record new_response { content_length = len; transfer_encoding = te };
  close = false;
  error = none;
}

counted_body_example :
    Delivers
      (take 12 net.pending)
      (if leb 12 (length net.pending) then eof else net.fault)
      (drop 12 net.pending)
      (read_all 20 (λ i. 5) (start_body 3 (header (some 12) [])).session [])
counted_body_example =
    counted_body 3 (header (some 12) []) refl (λ i. 5) 20 11 (λ i. omega arith) (omega arith) refl

abbrev url : Url
url = record { scheme = codes "http"; host = codes "example.org"; request_uri = codes "/" }

abbrev wire : Wire
wire = record { sent = []; plan = []; flush = some none }

abbrev body : Stream
body = record { pieces = codes "Hello, " ∷ codes "world" ∷ []; fault = none }

abbrev post : Option Headers → PreparedRequest
post headers = record {
  method = codes "POST";
  url = url;
  body = once false body;
  header = headers;
  header_host = codes "example.org";
  content_length = negsuc 0;
  written = false;
}

abbrev post_12 : PreparedRequest
post_12 = record (post none) { content_length = pos 12 }

write_request-counted_example :
    write_request wire post_12
    ≡ returns
        (record wire {
          sent =
              wire.sent
              ++ header_text (record post_12 { body = once true body })
              ++ flatten body.pieces;
        })
        (record post_12 { body = once true body; written = true })
        (if length (flatten body.pieces) == 12 then none else some (io short_write))
unfolding get_body
write_request-counted_example =
    write_request-counted wire post_12 (once true body) body 12 refl refl refl refl

write_request-chunked_example :
    write_request wire (post (some []))
    ≡ chunked_outcome wire (post (some [])) (once true body) body (some [])
unfolding get_body flush_error
write_request-chunked_example =
    write_request-chunked wire (post (some [])) (once true body) body (refl, refl) refl refl refl
