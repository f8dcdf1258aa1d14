-- ===== src/Streams/Body.antt =====
-- internal/transport/h2c/stream.go, `WriteRequestBody`: its loop, in rounds. What a round meets from
-- outside, the context and the windows that `takeOutflow` finds behind its wait, is given to it. The
-- buffer is the first `buf` bytes of one of the pool.
use go_http.Base.{
  ℕ, ◌+◌, ◌-◌, ◌^◌, Bool, true, false, not, ◌&&◌, ◌||◌, ◌==◌, ltb, leb, List, [], ◌∷◌, ◌++◌, Option,
  none, some, Bytes, length, take, drop, min, if◌then◌else◌,
}
use go_http.Io.{Source, read, eof, unexpected_eof}
use go_http.Io
use go_http.Flow.Take.{Windows, draw}
use go_http.Controller.Frames.{Sent, Framer, NetError, write_frame}

pub data BodyError : Type 0 where
  cancelled too_long : BodyError
  framer_write : NetError → BodyError
  body_read : Option Io.Error → BodyError

pub record Round : Type 0 where
  pub cancelled : Bool
  pub windows : Windows

-- The variables of the loop: `chunk` is its first `current` bytes.
pub record Sending : Type 0 where
  pub source : Source
  pub chunk : Bytes
  pub read : ℕ
  pub saw_eof : Bool
  pub last_error : Option Io.Error
  pub framer : Framer

pub data Progress : Type 0 where
  runs : Sending → Progress
  finished : Sending → Option BodyError → Progress

-- `bufSz`, where none is the size -1.
unfoldable pub buffer_size : ℕ → Option ℕ → ℕ
buffer_size max_frame none = max_frame
buffer_size max_frame (some sz) = min max_frame sz

-- `uint32(min(bufSz-1024, 512))`
unfoldable pub read_threshold : ℕ → ℕ
read_threshold buf = if leb 1024 buf then min (buf - 1024) 512 else 2 ^ 32 - (1024 - buf)

unfoldable pub is_eof : Option Io.Error → Bool
is_eof (some eof) = true
is_eof other = false

-- The read at the head of a round.
unfoldable pub fill : ℕ → Sending → Sending
unfolding is_eof read_threshold
fill buf s =
    let r = read s.source (buf - length s.chunk) in
    if not s.saw_eof && ltb (length s.chunk) (read_threshold buf)
    then record s {
      source = r.0;
      chunk = s.chunk ++ r.1;
      read = s.read + length r.1;
      last_error = r.2;
      saw_eof = is_eof r.2;
    }
    else s

abbrev pub longer : Option ℕ → ℕ → Bool
longer none n = false
longer (some sz) n = ltb sz n

abbrev pub shorter : Option ℕ → ℕ → Bool
shorter none n = false
shorter (some sz) n = ltb n sz

-- What is returned once the stream is ended.
unfoldable pub verdict : Option ℕ → Sending → Option BodyError
unfolding is_eof
verdict sz s =
    let e =
      if is_eof s.last_error && shorter sz s.read then some unexpected_eof else s.last_error in
    if is_eof e then none else some (body_read e)

-- The end of a round.
unfoldable pub conclude : Option ℕ → Bool → Sending → Progress
unfolding verdict
conclude sz end_stream s =
    if longer sz s.read
    then finished s (some too_long)
    else if end_stream
    then finished s (verdict sz s)
    else runs s

-- The frame of a round, with `w` bytes of the buffer, and the end of the round.
unfoldable pub write_chunk : ℕ → Option ℕ → Bool → ℕ → Sending → Progress
unfolding conclude
write_chunk id sz end_stream w s =
    let f = write_frame s.framer (Sent.body id end_stream (take w s.chunk)) in
    let s' = record s { framer = f.0 } in
    elim (f.1) [
      | some e ↦ finished s' (some (framer_write e))
      | none ↦ conclude sz end_stream (record s' { chunk = drop w s.chunk })
    ]

-- The part of a round behind the read.
unfoldable pub send_filled : ℕ → Option ℕ → Bool → Windows → Sending → Progress
unfolding write_chunk conclude
send_filled id sz last windows s =
    let w = (draw windows (length s.chunk)).1 in
    let end_stream = last && (s.saw_eof && (w == length s.chunk)) in
    if ltb 0 w || end_stream then write_chunk id sz end_stream w s else conclude sz end_stream s

unfoldable pub send_round : ℕ → ℕ → Option ℕ → Bool → Sending → Round → Progress
unfolding fill send_filled
send_round id buf sz last s r =
    if r.cancelled
    then finished s (some cancelled)
    else send_filled id sz last r.windows (fill buf s)

-- The loop, for some rounds.
unfoldable pub send_rounds : ℕ → ℕ → Option ℕ → Bool → Sending → List Round → Progress
unfolding send_round
send_rounds id buf sz last s [] = runs s
send_rounds id buf sz last s (r ∷ rs) = elim (send_round id buf sz last s r) [
  | finished s' e ↦ finished s' e
  | runs s' ↦ send_rounds id buf sz last s' rs
]

-- The variables at first.
abbrev pub start : Framer → Source → Sending
start framer source = record {
  source = source;
  chunk = [];
  read = 0;
  saw_eof = false;
  last_error = none;
  framer = framer;
}

-- `WriteRequestBody`, for some rounds of its loop.
unfoldable pub write_request_body :
    ℕ → ℕ → Framer → Source → Option ℕ → Bool → List Round → Progress
unfolding buffer_size send_rounds
write_request_body id max_frame framer source sz last rounds =
    send_rounds id (buffer_size max_frame sz) sz last (start framer source) rounds
