-- ===== src/Chunked/Decoding.antt =====
-- `chunkedReader.Read` of internal/transport/chunked/reader.go on well-formed input: one call.
use go_http.Base.{
  ℕ, zero, suc, ◌+◌, ◌-◌, ◌^◌, ◌≤◌, ◌<◌, ◌≡◌, ◌≢◌, ◌⊎◌, inl, inr, refl, sym, ap, ◌∙◌, arith, none,
  some, List, [], ◌∷◌, ◌++◌, ltb, ◌==◌, if◌then◌else◌, Bytes, length, take, drop, length-append,
  length-take, length-drop, take-append, drop-append, take-append-drop, Bool-cases, ==_iff,
}
use go_http.Io.{Source, eof, read, read_some, granted, later, read_byte}
use go_http.Chunked.Writer.{hex, crlf, last_chunk}
use go_http.Chunked.Reader.{
  ChunkedReader, Reply, close_chunk, read_chunk, after_header, read_from, read_chunked,
}
use go_http.Chunked.Framing.{read_chunk_header-hex}

-- The coding of a list of chunks with no trailer, in front of what follows on the connection. An
-- empty chunk is not written.
abbrev pub encoded : List Bytes → Bytes → Bytes
encoded [] tail = last_chunk ++ tail
encoded ([] ∷ ds) tail = encoded ds tail
encoded ((c ∷ d) ∷ ds) tail =
    hex (length (c ∷ d)) ++ (crlf ++ ((c ∷ d) ++ (crlf ++ encoded ds tail)))

abbrev pub Sized : List Bytes → Type 0
Sized [] = Unit {0}
Sized (d ∷ ds) = (length d < 2 ^ 60) × Sized ds

abbrev pub flatten : List Bytes → Bytes
flatten [] = []
flatten (d ∷ ds) = d ++ flatten ds

-- The reader stands inside a chunk: `d` is what is left of it, and `rest` follows its end.
pub record InChunk (c : ChunkedReader) (d rest : Bytes) : Type 0 where
  pub chunk_size : ℕ
  pub known : c.current_chunk_size ≡ some chunk_size
  pub counted : c.current_count + length d ≡ chunk_size
  pub left : 0 < length d
  pub input : c.source.pending ≡ d ++ (crlf ++ rest)

-- The reader stands in front of a chunk's length.
pub record AtHeader (c : ChunkedReader) (input : Bytes) : Type 0 where
  pub unknown : c.current_chunk_size ≡ none
  pub zero_count : c.current_count ≡ 0
  pub at_input : c.source.pending ≡ input

pub granted-pos :
    (s : Source) (n : ℕ)
    → 0 < n
    → 0 < length s.pending
    → (0 < granted s n) × (granted s n ≤ n) × (granted s n ≤ length s.pending)
unfolding granted
granted-pos s n hn hp = ground arith

pub read-pending :
    (s : Source) (n : ℕ) (p : Bytes)
    → 0 < n
    → s.pending ≡ p
    → 0 < length p
    → let k = granted s n in
      read s n
      ≡ (record s { pending = drop k s.pending; grants = later s.grants }, take k s.pending, none)
unfolding read read_some
read-pending s n [] hn e hp = absurd (omega arith)
read-pending s n (c ∷ p) hn e hp = ground arith

-- A read that is offered no more than is left of a piece gives a part of the piece.
read-piece :
    (s : Source) (n : ℕ) (d rest : Bytes)
    → 0 < n
    → n ≤ length d
    → s.pending ≡ d ++ rest
    → let k = granted s n in
      read s n ≡ (record s { pending = drop k d ++ rest; grants = later s.grants }, take k d, none)
read-piece s n d rest hn hd e =
    let len = length-append d rest in
    let pos = granted-pos s n hn (omega (arith, ap length e)) in
    let dropped = ap (drop (granted s n)) e ∙ drop-append (granted s n) d rest (omega arith) in
    let taken = ap (take (granted s n)) e ∙ take-append (granted s n) d rest (omega arith) in
    ground (arith, read-pending s n (d ++ rest) hn e (omega arith), dropped, taken)

-- One call of `Read` gives some bytes of the data, at least one and at most `n`, and no error.
-- `left` is what is left of the chunk.
pub record Gives (d rest : Bytes) (n : ℕ) (r : Reply) : Type 0 where
  pub got : Bytes
  pub left : Bytes
  pub splits : d ≡ got ++ left
  pub some_bytes : 0 < length got
  pub fits : length got ≤ n
  pub returned : r.bytes ≡ got
  pub no_error : r.error ≡ none
  pub now : InChunk r.reader left rest ⊎ ((left ≡ []) × AtHeader r.reader rest)

read_byte-cons :
    (s : Source) (c : ℕ) (p : Bytes)
    → s.pending ≡ c ∷ p
    → read_byte s ≡ (record s { pending = p }, c, none)
unfolding read_byte
read_byte-cons s c p e = rw e

-- The two bytes behind a chunk.
close_chunk-crlf :
    (c : ChunkedReader) (chunk_size : ℕ) (bytes rest : Bytes)
    → c.current_count ≡ chunk_size
    → 0 < chunk_size
    → c.source.pending ≡ crlf ++ rest
    → close_chunk c chunk_size bytes ≡ record {
      reader = record {
        source = record (c.source) { pending = rest };
        current_count = 0;
        current_chunk_size = none;
      };
      bytes = bytes;
      error = none;
    }
unfolding close_chunk
close_chunk-crlf c chunk_size bytes rest e pos input = ground (
  arith,
  read_byte-cons c.source b'\r' (b'\n' ∷ rest) input,
  read_byte-cons (record (c.source) { pending = b'\n' ∷ rest }) b'\n' rest refl,
)

close_chunk-inside :
    (c : ChunkedReader) (chunk_size : ℕ) (bytes : Bytes)
    → c.current_count ≢ chunk_size
    → close_chunk c chunk_size bytes ≡ record { reader = c; bytes = bytes; error = none }
unfolding close_chunk
close_chunk-inside c chunk_size bytes h = ground arith

drop_all : (k : ℕ) (d : Bytes) → length d ≤ k → drop k d ≡ []
drop_all zero [] h = refl
drop_all zero (c ∷ d) h = absurd (omega arith)
drop_all (suc k) [] h = refl
drop_all (suc k) (c ∷ d) h = drop_all k d (omega arith)

-- Where the reader stands when `k` bytes of `d` have been read.
abbrev moved : ChunkedReader → Bytes → Bytes → ℕ → ChunkedReader
moved c d rest k = record c {
  source = record (c.source) {
    pending = drop k d ++ (crlf ++ rest);
    grants = later c.source.grants;
  };
  current_count = c.current_count + length (take k d);
}

read_chunk-moved :
    (c : ChunkedReader) (d rest : Bytes) (n chunk_size : ℕ)
    → 0 < n
    → c.current_count + length d ≡ chunk_size
    → 0 < length d
    → c.source.pending ≡ d ++ (crlf ++ rest)
    → (k : ℕ) × (0 < k)
      × (k ≤ n)
      × (k ≤ length d)
      × (read_chunk c chunk_size n ≡ close_chunk (moved c d rest k) chunk_size (take k d))
unfolding read_chunk
read_chunk-moved c d rest n chunk_size hn counted left input =
    let m : ℕ = if ltb (chunk_size - c.current_count) n then chunk_size - c.current_count else n in
    let m_pos : 0 < m = ground arith in
    let m_le : m ≤ length d = ground arith in
    let m_fits : m ≤ n = ground arith in
    let pos =
      granted-pos c.source m m_pos
        (omega (arith, ap length input, length-append d (crlf ++ rest))) in
    (
      granted c.source m,
      pos.0,
      omega (arith, pos.1),
      omega (arith, pos.1),
      ground (arith, read-piece c.source m d (crlf ++ rest) m_pos m_le input),
    )

close_chunk-Gives :
    (c : ChunkedReader) (d rest : Bytes) (n chunk_size k : ℕ)
    → 0 < k
    → k ≤ n
    → k ≤ length d
    → c.current_chunk_size ≡ some chunk_size
    → c.current_count + length d ≡ chunk_size
    → Gives d rest n (close_chunk (moved c d rest k) chunk_size (take k d))
close_chunk-Gives c d rest n chunk_size k pos fits le known counted =
    let len = length-take k d in
    elim (Bool-cases (k == length d)) [
      | inl all ↦
          let done = drop_all k d (ground arith) in
          let closed =
            close_chunk-crlf (moved c d rest k) chunk_size (take k d) rest
              (omega (arith, len, (==_iff k (length d)).0 all)) (omega arith)
              (ap (λ t. t ++ (crlf ++ rest)) done) in
          rw closed (record {
            got = take k d;
            left = drop k d;
            splits = sym (take-append-drop k d);
            some_bytes = omega (arith, len);
            fits = omega (arith, len);
            returned = refl;
            no_error = refl;
            now = inr (done, record { unknown = refl; zero_count = refl; at_input = refl });
          })
      | inr part ↦
          let more : k < length d = ground arith in
          let open_still =
            close_chunk-inside (moved c d rest k) chunk_size (take k d) (omega (arith, len)) in
          rw open_still (record {
            got = take k d;
            left = drop k d;
            splits = sym (take-append-drop k d);
            some_bytes = omega (arith, len);
            fits = omega (arith, len);
            returned = refl;
            no_error = refl;
            now = inl (record {
              chunk_size = chunk_size;
              known = known;
              counted = omega (arith, len, length-drop k d);
              left = omega (arith, length-drop k d);
              input = refl;
            });
          })
    ]

-- A call of `Read` inside a chunk.
pub InChunk-Gives :
    (c : ChunkedReader) (d rest : Bytes) (n : ℕ)
    → 0 < n
    → InChunk c d rest
    → Gives d rest n (read_chunked c n)
unfolding read_chunked read_from
InChunk-Gives c d rest n hn i =
    let (k, pos, fits, le, e) =
      read_chunk-moved c d rest n i.chunk_size hn i.counted i.left i.input in
    rw (i.known, read_from, e)
      (close_chunk-Gives c d rest n i.chunk_size k pos fits le i.known i.counted)

-- In front of a chunk `Read` first reads its length.
pub AtHeader-Gives :
    (c : ChunkedReader) (d rest : Bytes) (n : ℕ)
    → 0 < n
    → 0 < length d
    → length d < 2 ^ 60
    → AtHeader c (hex (length d) ++ (crlf ++ (d ++ (crlf ++ rest))))
    → Gives d rest n (read_chunked c n)
unfolding read_chunked read_from after_header
AtHeader-Gives c d rest n hn pos small h =
    let s' : Source = record (c.source) { pending = d ++ (crlf ++ rest) } in
    let c' : ChunkedReader = record c { source = s'; current_chunk_size = some (length d) } in
    let header = read_chunk_header-hex c.source (length d) (d ++ (crlf ++ rest)) small h.at_input in
    let inside : InChunk c' d rest = record {
      chunk_size = length d;
      known = refl;
      counted = omega (arith, h.zero_count);
      left = pos;
      input = refl;
    } in
    rw (h.unknown, read_from, header, after_header) (InChunk-Gives c' d rest n hn inside)

-- At the last chunk `Read` reports the end and leaves what follows.
pub AtHeader-eof :
    (c : ChunkedReader) (tail : Bytes) (n : ℕ)
    → AtHeader c (last_chunk ++ tail)
    → (read_chunked c n).error ≡ some eof
      × ((read_chunked c n).bytes ≡ [])
      × ((read_chunked c n).reader.source.pending ≡ tail)
unfolding read_chunked read_from after_header read_chunk close_chunk
AtHeader-eof c tail n h =
    let zero_line : c.source.pending ≡ hex 0 ++ (crlf ++ (crlf ++ tail)) =
      unfold hex in h.at_input in
    let s' : Source = record (c.source) { pending = crlf ++ tail } in
    ground (
      arith,
      read_chunk_header-hex c.source 0 (crlf ++ tail) (omega arith) zero_line,
      read_byte-cons s' b'\r' (b'\n' ∷ tail) refl,
      read_byte-cons (record s' { pending = b'\n' ∷ tail }) b'\n' tail refl,
    )
