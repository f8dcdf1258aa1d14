-- ===== src/Chunked/RoundTrip.antt =====
-- The chunked coding both ways (internal/transport/chunked): what `chunkedWriter` writes,
-- `chunkedReader` reads back, however the bytes arrive.
use go_http.Base.{
  ℕ, zero, suc, ◌≤◌, ◌<◌, ◌≡◌, inl, inr, refl, sym, ap, subst, ◌∙◌, arith, Option, none, some, List,
  [], ◌∷◌, ◌++◌, append_assoc, Bytes, length, length-append,
}
use go_http.Io.{Wire, Error, eof, write, write_as, flush_error}
use go_http.Chunked.Writer.{hex, crlf, last_chunk, write_chunk, close_with_trailer}
use go_http.Chunked.Reader.{ChunkedReader, Reply, read_chunked, new_chunked_reader}
use go_http.Chunked.Decoding.{
  encoded, Sized, flatten, InChunk, AtHeader, Gives, InChunk-Gives, AtHeader-Gives, AtHeader-eof,
}

-- The reader will give `bytes`, then the end, and leave `tail`.
pub data Carries (c : ChunkedReader) (bytes tail : Bytes) : Type 0 where
  at_header :
      (ds : List Bytes)
      → Sized ds
      → AtHeader c (encoded ds tail)
      → bytes ≡ flatten ds
      → Carries c bytes tail
  inside :
      (d : Bytes) (ds : List Bytes)
      → Sized ds
      → InChunk c d (encoded ds tail)
      → bytes ≡ d ++ flatten ds
      → Carries c bytes tail

-- What one call of `Read` does to such a reader.
pub data Served (c : ChunkedReader) (bytes tail : Bytes) (n : ℕ) (r : Reply) : Type 0 where
  ended :
      bytes ≡ []
      → r.bytes ≡ []
      → r.error ≡ some eof
      → r.reader.source.pending ≡ tail
      → Served c bytes tail n r
  served :
      (left : Bytes)
      → bytes ≡ r.bytes ++ left
      → 0 < length r.bytes
      → length r.bytes ≤ n
      → r.error ≡ none
      → Carries r.reader left tail
      → Served c bytes tail n r

Gives-Served :
    (c : ChunkedReader) (d : Bytes) (ds : List Bytes) (bytes tail : Bytes) (n : ℕ) (r : Reply)
    → Sized ds
    → bytes ≡ d ++ flatten ds
    → Gives d (encoded ds tail) n r
    → Served c bytes tail n r
Gives-Served c d ds bytes tail n r sized e g =
    let splits =
      e
      ∙ ap (λ t. t ++ flatten ds) g.splits
      ∙ append_assoc g.got g.left (flatten ds)
      ∙ ap (λ t. t ++ (g.left ++ flatten ds)) (sym g.returned) in
    served (g.left ++ flatten ds) splits (ground (arith, g.returned, g.some_bytes))
      (ground (arith, g.returned, g.fits)) g.no_error
      (elim g.now [
        | inl i ↦ inside g.left ds sized i refl
        | inr (done, h) ↦ at_header ds sized h (ap (λ t. t ++ flatten ds) done)
      ])

serve_header :
    (c : ChunkedReader) (ds : List Bytes) (bytes tail : Bytes) (n : ℕ)
    → 0 < n
    → Sized ds
    → AtHeader c (encoded ds tail)
    → bytes ≡ flatten ds
    → Served c bytes tail n (read_chunked c n)
serve_header c [] bytes tail n hn sized h e = let r = AtHeader-eof c tail n h in ended e r.1 r.0 r.2
serve_header c ([] ∷ ds) bytes tail n hn sized h e = serve_header c ds bytes tail n hn sized.1 h e
serve_header c ((x ∷ d) ∷ ds) bytes tail n hn sized h e =
    Gives-Served c (x ∷ d) ds bytes tail n _ sized.1 e
      (AtHeader-Gives c (x ∷ d) (encoded ds tail) n hn (omega arith) sized.0 h)

-- One `Read` of a reader that carries bytes gives at least one of them, in order, or the end if there
-- are none.
pub Carries-Served :
    (c : ChunkedReader) (bytes tail : Bytes) (n : ℕ)
    → 0 < n
    → Carries c bytes tail
    → Served c bytes tail n (read_chunked c n)
Carries-Served c bytes tail n hn (at_header ds sized h e) =
    serve_header c ds bytes tail n hn sized h e
Carries-Served c bytes tail n hn (inside d ds sized i e) =
    Gives-Served c d ds bytes tail n _ sized e (InChunk-Gives c d (encoded ds tail) n hn i)

-- A caller that reads until an error, the buffer's size at its own choice for each call. `none`
-- means that the fuel ran out.
unfoldable pub read_all :
    ℕ → (ℕ → ℕ) → ChunkedReader → Bytes → Option (Bytes × Error × ChunkedReader)
read_all zero sizes c acc = none
read_all (suc fuel) sizes c acc =
    let r = read_chunked c (sizes fuel) in
    elim r.error [
      | some e ↦ some (acc ++ r.bytes, e, r.reader)
      | none ↦ read_all fuel sizes r.reader (acc ++ r.bytes)
    ]

-- The caller got `bytes` and the end of the body, and the connection stands at `tail`.
pub record Delivered (bytes tail : Bytes) (result : Option (Bytes × Error × ChunkedReader))
    : Type 0 where
  pub reader : ChunkedReader
  pub result_is : result ≡ some (bytes, eof, reader)
  pub connection : reader.source.pending ≡ tail

read_all-Delivered :
    (fuel : ℕ) (sizes : ℕ → ℕ) (c : ChunkedReader) (acc bytes tail : Bytes)
    → ((i : ℕ) → 0 < sizes i)
    → length bytes < fuel
    → Carries c bytes tail
    → Delivered (acc ++ bytes) tail (read_all fuel sizes c acc)
unfolding read_all
read_all-Delivered zero sizes c acc bytes tail pos enough k = absurd (omega arith)
read_all-Delivered (suc fuel) sizes c acc bytes tail pos enough k =
    elim (Carries-Served c bytes tail (sizes fuel) (pos fuel) k) [
      | ended e b err p ↦
          rw (err, read_all)
            (record {
              reader = (read_chunked c (sizes fuel)).reader;
              result_is = rw (e, b);
              connection = p;
            })
      | served left e some_bytes fits err next ↦
          let got = (read_chunked c (sizes fuel)).bytes in
          rw (err, read_all)
            (subst
              (λ t.
                Delivered t tail
                  (read_all fuel sizes (read_chunked c (sizes fuel)).reader (acc ++ got)))
              (append_assoc acc got left ∙ ap (◌++◌ acc) (sym e))
              (read_all-Delivered fuel sizes _ (acc ++ got) left tail pos
                (omega (arith, ap length e, length-append got left)) next))
    ]

-- `Write` for each of the pieces of a body, up to an error, then `CloseWithTrailer(nil)`.
unfoldable pub write_body : Wire → List Bytes → Wire × Option Error
write_body w [] = close_with_trailer w
write_body w (d ∷ ds) =
    let r = write_chunk w d in elim r.2 [ some e ↦ (r.0, some e) | none ↦ write_body r.0 ds ]

-- A writer that takes everything.
abbrev pub Obliging : Wire → Type 0
Obliging w = (w.plan ≡ []) × (flush_error w.flush ≡ none)

pub write-all :
    (w : Wire) (bs : Bytes)
    → w.plan ≡ []
    → write w bs ≡ (record w { sent = w.sent ++ bs }, length bs, none)
unfolding write write_as
write-all w bs e = rw e

pub write_chunk-all :
    (w : Wire) (c : ℕ) (d : Bytes)
    → Obliging w
    → write_chunk w (c ∷ d) ≡ (
      record w { sent = w.sent ++ (hex (length (c ∷ d)) ++ crlf) ++ (c ∷ d) ++ crlf },
      length (c ∷ d),
      none,
    )
unfolding write_chunk
write_chunk-all w c d o =
    let head = hex (length (c ∷ d)) ++ crlf in
    let w1 : Wire = record w { sent = w.sent ++ head } in
    let w2 : Wire = record w { sent = w.sent ++ head ++ (c ∷ d) } in
    ground (arith, o.0, o.1, write-all w head o.0, write-all w1 (c ∷ d) o.0, write-all w2 crlf o.0)

pub close_with_trailer-all :
    (w : Wire)
    → w.plan ≡ []
    → close_with_trailer w ≡ (record w { sent = w.sent ++ last_chunk }, none)
unfolding close_with_trailer
close_with_trailer-all w e = ground (arith, write-all w last_chunk e)

pub sent_assoc :
    (a b c d e f : Bytes) → (a ++ (b ++ c) ++ d ++ e) ++ f ≡ a ++ (b ++ (c ++ (d ++ (e ++ f))))
sent_assoc a b c d e f = simp append_assoc

-- On a writer that takes everything, a body is sent as the coding of its pieces.
pub write_body-encoded :
    (w : Wire) (ds : List Bytes)
    → Obliging w
    → write_body w ds ≡ (record w { sent = w.sent ++ encoded ds [] }, none)
unfolding write_body
write_body-encoded w [] o = close_with_trailer-all w o.0
write_body-encoded w ([] ∷ ds) o = write_empty (write_body-encoded w ds o)
  where
    write_empty : {r : Wire × Option Error} → write_body w ds ≡ r → write_body w ([] ∷ ds) ≡ r
    write_empty e = unfold write_chunk in e
write_body-encoded w ((c ∷ d) ∷ ds) o =
    let w' : Wire = record w {
      sent = w.sent ++ (hex (length (c ∷ d)) ++ crlf) ++ (c ∷ d) ++ crlf;
    } in
    ground (
      arith,
      write_chunk-all w c d o,
      write_body-encoded w' ds o,
      sent_assoc w.sent (hex (length (c ∷ d))) crlf (c ∷ d) crlf (encoded ds []),
    )

encoded-append : (ds : List Bytes) (tail : Bytes) → encoded ds [] ++ tail ≡ encoded ds tail
encoded-append [] tail = refl
encoded-append ([] ∷ ds) tail = encoded-append ds tail
encoded-append ((c ∷ d) ∷ ds) tail = simp (append_assoc, encoded-append ds tail)

-- A body in any pieces below 2 ^ 60 bytes, written by `chunkedWriter` and closed, is read back by
-- `chunkedReader` byte for byte, then ends, and the reader leaves exactly what follows the body:
-- however the bytes arrive, and for buffers of any positive sizes.
pub read_all-write_body :
    (ds : List Bytes) (w : Wire) (tail : Bytes) (grants : List ℕ) (fault : Error) (fuel : ℕ)
    (sizes : ℕ → ℕ)
    → Sized ds
    → Obliging w
    → w.sent ≡ []
    → ((i : ℕ) → 0 < sizes i)
    → length (flatten ds) < fuel
    → Delivered (flatten ds) tail (
        read_all fuel sizes
          (new_chunked_reader
            (record { pending = (write_body w ds).0.sent ++ tail; grants = grants; fault = fault }))
          [])
unfolding new_chunked_reader
read_all-write_body ds w tail grants fault fuel sizes sized o clean pos enough =
    let sent : (write_body w ds).0.sent ++ tail ≡ encoded ds tail =
      rw (write_body-encoded w ds o, clean) (encoded-append ds tail) in
    read_all-Delivered fuel sizes _ [] (flatten ds) tail pos enough
      (at_header ds sized (record { unknown = refl; zero_count = refl; at_input = sent }) refl)
