-- ===== src/Chunked/Reader.antt =====
-- internal/transport/chunked/reader.go
use go_http.Base.{
  ℕ, zero, suc, ◌+◌, ◌-◌, ◌*◌, ◌%◌, ◌^◌, not, ◌&&◌, ◌||◌, Option, none, some, [], ◌∷◌, ltb, leb,
  ◌==◌, if◌then◌else◌, Bytes, length,
}
use go_http.Io.{
  Error, eof, invalid_chunk_byte, chunk_too_large, malformed_chunk, unexpected, Source, read,
  read_byte, read_line,
}

-- `current_chunk_size` is `none` for -1. The sizes stay below 2 ^ 60, so int64 does not wrap.
pub record ChunkedReader : Type 0 where
  pub source : Source
  pub current_count : ℕ
  pub current_chunk_size : Option ℕ

unfoldable pub new_chunked_reader : Source → ChunkedReader
new_chunked_reader s = record { source = s; current_count = 0; current_chunk_size = none }

-- the `switch` on a byte of the length
unfoldable pub digit_value : ℕ → Option ℕ
digit_value b =
    if leb b'0' b && leb b b'9'
    then some (b - b'0')
    else if leb b'a' b && leb b b'f'
    then some (b - b'a' + 10)
    else if leb b'A' b && leb b b'F'
    then some (b - b'A' + 10)
    else none

-- The loop over the bytes of a line, with `cnt` and `len`; the low bits of the shifted `len` are
-- clear, so `|=` adds.
unfoldable pub add_digits : Bytes → ℕ → ℕ → Option (ℕ × ℕ)
add_digits [] cnt len = some (cnt, len)
add_digits (b ∷ line) cnt len = elim (digit_value b) [
  | none ↦ none
  | some d ↦ add_digits line (cnt + 1) (len * 2 ^ 4 % 2 ^ 64 + d)
]

pub data Header : Type 0 where
  size : Source → ℕ → Header
  fails : Source → Error → Header
  no_fuel : Header

-- The loop `for isPref`.
unfoldable pub header_loop : ℕ → Source → ℕ → ℕ → Header
header_loop zero s cnt len = no_fuel
header_loop (suc fuel) s cnt len =
    let l = read_line s in
    elim l.error [
      | some e ↦ fails l.source (unexpected e)
      | none ↦ elim (add_digits l.line cnt len) [
        | none ↦ fails l.source invalid_chunk_byte
        | some (cnt', len') ↦
            let next = header_loop fuel l.source cnt' len' in
            if leb 16 cnt'
            then fails l.source chunk_too_large
            else if l.is_prefix
            then next
            else size l.source len'
      ]
    ]

-- `readChunkHeader`; a line is a part of the buffer twice at most.
unfoldable pub read_chunk_header : Source → Header
unfolding header_loop
read_chunk_header s = header_loop 2 s 0 0

-- what a call of `Read` leaves behind and returns
pub record Reply : Type 0 where
  pub reader : ChunkedReader
  pub bytes : Bytes
  pub error : Option Error

-- the end of `Read`: at the end of a chunk its two closing bytes are read
unfoldable pub close_chunk : ChunkedReader → ℕ → Bytes → Reply
close_chunk c chunk_size bytes =
    if c.current_count == chunk_size
    then (let dr = read_byte c.source in
        let dn = read_byte dr.0 in
        let c' = record c { source = dn.0 } in
        elim dn.2 [
          | some e ↦ record { reader = c'; bytes = bytes; error = some (unexpected e) }
          | none ↦
              if not (dr.1 == b'\r') || not (dn.1 == b'\n')
              then record { reader = c'; bytes = bytes; error = some malformed_chunk }
              else if chunk_size == 0
              then record { reader = c'; bytes = bytes; error = some eof }
              else record {
                reader = record c' { current_count = 0; current_chunk_size = none };
                bytes = bytes;
                error = none;
              }
        ])
    else record { reader = c; bytes = bytes; error = none }

-- `Read` into `n` bytes, with the chunk's size at hand
unfoldable pub read_chunk : ChunkedReader → ℕ → ℕ → Reply
read_chunk c chunk_size n =
    if chunk_size == 0
    then close_chunk c chunk_size []
    else (let left = chunk_size - c.current_count in
        let got = read c.source (if ltb left n then left else n) in
        let c' = record c { source = got.0; current_count = c.current_count + length got.1 } in
        elim got.2 [
          | some e ↦ record { reader = c'; bytes = got.1; error = some (unexpected e) }
          | none ↦ close_chunk c' chunk_size got.1
        ])

unfoldable pub after_header : ChunkedReader → ℕ → Header → Reply
after_header c n (size s len) =
    read_chunk (record c { source = s; current_chunk_size = some len }) len n
after_header c n (fails s e) = record {
  reader = record c { source = s };
  bytes = [];
  error = some e;
}
after_header c n no_fuel = record { reader = c; bytes = []; error = none }

unfoldable pub read_from : ChunkedReader → ℕ → Option ℕ → Reply
read_from c n none = after_header c n (read_chunk_header c.source)
read_from c n (some chunk_size) = read_chunk c chunk_size n

-- `Read` into a buffer of `n` bytes
unfoldable pub read_chunked : ChunkedReader → ℕ → Reply
read_chunked c n = read_from c n c.current_chunk_size
