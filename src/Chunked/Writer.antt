-- ===== src/Chunked/Writer.antt =====
-- internal/transport/chunked/writer.go. The receiver `cw` is its `Wire`.
use go_http.Base.{
  ℕ, zero, suc, ◌+◌, ◌-◌, ◌/◌, ◌%◌, not, Option, none, some, [], ◌∷◌, ◌++◌, ltb, ◌==◌,
  if◌then◌else◌, Bytes, length,
}
use go_http.Io.{Error, short_write, Wire, write, flush_error}

-- A digit of `%x`.
unfoldable pub hex_digit : ℕ → ℕ
hex_digit d = if ltb d 10 then b'0' + d else b'a' + (d - 10)

unfoldable pub hex_onto : ℕ → ℕ → Bytes → Bytes
hex_onto zero n acc = acc
hex_onto (suc f) n acc =
    let rest = hex_onto f (n / 16) (hex_digit (n % 16) ∷ acc) in
    if ltb n 16 then hex_digit n ∷ acc else rest

-- `%x` of a length: sixteen digits are enough for 64 bits.
unfoldable pub hex : ℕ → Bytes
unfolding hex_onto hex_digit
hex n = hex_onto 16 n []

abbrev pub crlf : Bytes
crlf = b'\r' ∷ b'\n' ∷ []

-- `Write` returns the number of bytes of `data` written.
unfoldable pub write_chunk : Wire → Bytes → Wire × ℕ × Option Error
write_chunk w [] = (w, 0, none)
write_chunk w (c ∷ cs) =
    let payload = c ∷ cs in
    let head = write w (hex (length payload) ++ crlf) in
    elim head.2 [
      | some e ↦ (head.0, 0, some e)
      | none ↦
          let body = write head.0 payload in
          elim body.2 [
            | some e ↦ (body.0, body.1, some e)
            | none ↦
                if not (body.1 == length payload)
                then (body.0, body.1, some short_write)
                else (let end = write body.0 crlf in
                    elim end.2 [
                      | some e ↦ (end.0, body.1, some e)
                      | none ↦ (end.0, body.1, flush_error end.0.flush)
                    ])
          ]
    ]

abbrev pub last_chunk : Bytes
last_chunk = b'0' ∷ b'\r' ∷ b'\n' ∷ b'\r' ∷ b'\n' ∷ []

-- `CloseWithTrailer(nil)`
unfoldable pub close_with_trailer : Wire → Wire × Option Error
close_with_trailer w =
    let end = write w last_chunk in
    elim end.2 [
      | some e ↦ (end.0, some e)
      | none ↦ (end.0, if not (end.1 == 5) then some short_write else none)
    ]
