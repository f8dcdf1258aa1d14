-- ===== src/Io.antt =====
-- What the program uses of Go's `io` and `bufio`: a buffered reader over a connection, and a writer
-- that may fail.
use go_http.Base.{
  ℕ, zero, suc, Bool, true, false, Option, none, some, List, [], ◌∷◌, ◌++◌, min, ◌==◌,
  if◌then◌else◌, Bytes, take, drop, length,
}

-- The errors of reading and writing: `io.EOF`, `io.ErrUnexpectedEOF`, `io.ErrShortWrite`, those of
-- the connection, and those that internal/transport/chunked makes.
pub data Error : Type 0 where
  eof unexpected_eof short_write : Error
  broken : ℕ → Error
  invalid_chunk_byte chunk_too_large malformed_chunk : Error

-- `if err == io.EOF { err = io.ErrUnexpectedEOF }`
unfoldable pub unexpected : Error → Error
unexpected eof = unexpected_eof
unexpected e = e

-- A reader: the bytes that are still to come, the error behind them, and how many bytes more than
-- one each coming read is served at most (any number when the list has run out).
pub record Source : Type 0 where
  pub pending : Bytes
  pub grants : List ℕ
  pub fault : Error

unfoldable pub granted : Source → ℕ → ℕ
granted s n = elim s.grants [
  | [] ↦ min n (length s.pending)
  | g ∷ gs ↦ min n (min (suc g) (length s.pending))
]

abbrev pub later : List ℕ → List ℕ
later [] = []
later (g ∷ gs) = gs

unfoldable pub read_some : Source → ℕ → Bytes → Source × Bytes × Option Error
read_some s n [] = (s, [], some s.fault)
read_some s n (c ∷ cs) =
    let k = granted s n in
    (record s { pending = drop k s.pending; grants = later s.grants }, take k s.pending, none)

-- `Read` into `n` bytes; into none it gives no bytes and no error.
unfoldable pub read : Source → ℕ → Source × Bytes × Option Error
unfolding read_some
read s n = if n == 0 then (s, [], none) else read_some s n s.pending

unfoldable pub read_byte_of : Source → Bytes → Source × ℕ × Option Error
read_byte_of s [] = (s, 0, some s.fault)
read_byte_of s (c ∷ cs) = (record s { pending = cs }, c, none)

unfoldable pub read_byte : Source → Source × ℕ × Option Error
unfolding read_byte_of
read_byte s = read_byte_of s s.pending

-- How a line ended: at a newline, at the end of the buffer, or at the end of the input.
pub data Ending : Type 0 where
  newline full exhausted : Ending

-- At most `n` bytes up to a newline, the newline left out, and what follows.
unfoldable pub scan_line : ℕ → Bytes → Bytes × Bytes × Ending
scan_line zero s = ([], s, full)
scan_line (suc n) [] = ([], [], exhausted)
scan_line (suc n) (c ∷ s) =
    let r = scan_line n s in if c == b'\n' then ([], s, newline) else (c ∷ r.0, r.1, r.2)

-- Drops a last `\r`, and tells whether there was one.
unfoldable pub drop_cr : Bytes → Bytes × Bool
drop_cr [] = ([], false)
drop_cr (c ∷ []) = if c == b'\r' then ([], true) else (c ∷ [], false)
drop_cr (c ∷ d ∷ s) = let r = drop_cr (d ∷ s) in (c ∷ r.0, r.1)

-- The buffer size of `bufio.NewReader`.
abbrev pub buffer_size : ℕ
buffer_size = 4096

pub record Line : Type 0 where
  pub source : Source
  pub line : Bytes
  pub is_prefix : Bool
  pub error : Option Error

unfoldable pub end_line : Source → Bytes → Bytes → Ending → Line
unfolding drop_cr
end_line s line rest newline = record {
  source = record s { pending = rest };
  line = (drop_cr line).0;
  is_prefix = false;
  error = none;
}
end_line s line rest full =
    let kept = if (drop_cr line).1 then b'\r' ∷ rest else rest in
    record {
      source = record s { pending = kept };
      line = (drop_cr line).0;
      is_prefix = true;
      error = none;
    }
end_line s [] rest exhausted = record {
  source = s;
  line = [];
  is_prefix = false;
  error = some s.fault;
}
end_line s (c ∷ line) rest exhausted = record {
  source = record s { pending = rest };
  line = c ∷ line;
  is_prefix = false;
  error = none;
}

-- `ReadLine`: a line without its end. A `\r` at the end of a full buffer is put back, and a last
-- line with no end is a line.
unfoldable pub read_line : Source → Line
read_line s = let r = scan_line buffer_size s.pending in end_line s r.0 r.1 r.2

-- What one call of `Write` does: how many bytes it takes at most, and the error that it returns.
pub record Outcome : Type 0 where
  pub count : ℕ
  pub error : Option Error

-- A writer: what was sent, the outcomes of the coming calls (those behind the list take everything),
-- and what `Flush` returns, if the writer has that method.
pub record Wire : Type 0 where
  pub sent : Bytes
  pub plan : List Outcome
  pub flush : Option (Option Error)

unfoldable pub write_as : Wire → Bytes → List Outcome → Wire × ℕ × Option Error
write_as w bs [] = (record w { sent = w.sent ++ bs }, length bs, none)
write_as w bs (o ∷ os) =
    (record w { sent = w.sent ++ take o.count bs; plan = os }, min o.count (length bs), o.error)

unfoldable pub write : Wire → Bytes → Wire × ℕ × Option Error
unfolding write_as
write w bs = write_as w bs w.plan

-- `Flush`, where there is one.
unfoldable pub flush_error : Option (Option Error) → Option Error
flush_error none = none
flush_error (some e) = e
