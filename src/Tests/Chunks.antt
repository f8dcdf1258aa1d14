-- ===== src/Tests/Chunks.antt =====
-- The chunked coding (internal/transport/chunked) on concrete bodies.
use go_http.Base.{◌≡◌, refl, arith, none, some, List, [], ◌∷◌, ◌++◌, Bytes, codes}
use go_http.Io.{Source, Wire, eof, broken, flush_error}
use go_http.Chunked.Writer.{crlf, hex}
use go_http.Chunked.Reader.{new_chunked_reader, read_chunk_header}
use go_http.Chunked.Bounds.{Returns, read_chunk_header-Returns}
use go_http.Chunked.Decoding.{encoded, flatten}
use go_http.Chunked.RoundTrip.{
  Delivered, Carries, at_header, read_all, write_body, read_all-write_body,
}

abbrev greeting : List Bytes
greeting = codes "Hello, " ∷ [] ∷ codes "world" ∷ []

abbrev wire : Wire
wire = record { sent = []; plan = []; flush = some none }

encoded-greeting : encoded greeting [] ≡ codes "7\r\nHello, \r\n5\r\nworld\r\n0\r\n\r\n"
unfolding hex
encoded-greeting = refl

read_all-write_body_example : Delivered (flatten greeting) (codes "HTTP") (
    read_all 20
      (λ i. 3)
      (new_chunked_reader (record {
        pending = (write_body wire greeting).0.sent ++ codes "HTTP";
        grants = 1 ∷ 0 ∷ [];
        fault = broken 5;
      }))
      [])
unfolding flush_error
read_all-write_body_example =
    read_all-write_body greeting wire (codes "HTTP") (1 ∷ 0 ∷ []) (broken 5) 20 (λ i. 3)
      (omega arith, (omega arith, (omega arith, tt))) (refl, refl) refl (λ i. omega arith)
      (omega arith)

abbrev line : Source
line = record { pending = hex 26 ++ (crlf ++ codes "abc"); grants = []; fault = eof }

read_chunk_header-Returns_example : Returns (read_chunk_header line)
read_chunk_header-Returns_example = read_chunk_header-Returns line

abbrev coded_source : Source
coded_source = record { pending = encoded greeting (codes "HTTP"); grants = 0 ∷ []; fault = eof }

greeting-Carries : Carries (new_chunked_reader coded_source) (flatten greeting) (codes "HTTP")
unfolding new_chunked_reader
greeting-Carries =
    at_header greeting (omega arith, (omega arith, (omega arith, tt)))
      (record { unknown = refl; zero_count = refl; at_input = refl }) refl
