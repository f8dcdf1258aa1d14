-- ===== src/Streams/Stalls.antt =====
-- internal/transport/h2c/stream.go, `WriteRequestBody`: bodies with which its loop never ends.
use go_http.Base.{
  ℕ, ◌-◌, ◌≤◌, ◌≡◌, inl, inr, refl, arith, true, false, ◌&&◌, ◌==◌, ltb, List, [], ◌∷◌, Option,
  none, some, Bytes, length, min, Bool-cases,
}
use go_http.Io.{Source, broken}
use go_http.Flow.Take.{draw}
use go_http.Controller.Frames.{Framer, write_frame}
use go_http.Http1.Session.Body.{read-NetGives}
use go_http.Streams.Body.{
  Round, Sending, runs, buffer_size, fill, conclude, is_eof, read_threshold, send_filled,
  send_round, send_rounds, write_request_body, start,
}
use go_http.Streams.Rounds.{write_chunk-works, sent_chunk}
use go_http.Streams.Sending.{IsReady, AllReady, ready, draw-some}

-- Nothing was read.
record Idle (s : Sending) : Type 0 where
  empty : s.chunk ≡ []
  unseen : s.saw_eof ≡ false
  count : s.read ≡ 0

send_round-live :
    (id buf : ℕ) (sz : Option ℕ) (s : Sending) (r : Round)
    → IsReady r
    → send_round id buf sz true s r ≡ send_filled id sz true r.windows (fill buf s)
unfolding send_round
send_round-live id buf sz s r i = let live = i.live in rw (live, send_round) refl

fill-idle : (s : Sending) → fill 1024 s ≡ s
unfolding fill read_threshold
fill-idle s = ground arith

send_round-Idle :
    (id : ℕ) (s : Sending) (r : Round)
    → IsReady r
    → Idle s
    → send_round id 1024 (some 1024) true s r ≡ runs s
unfolding send_filled conclude
send_round-Idle id s r i d =
    let w =
      draw-some r.windows 0 i.stream_word i.conn_word (omega arith) i.stream_open i.conn_open in
    let empty = d.empty in
    let unseen = d.unseen in
    let count = d.count in
    let nothing : (draw r.windows (length s.chunk)).1 ≡ 0 = rw (empty) (omega (arith, w.0)) in
    let goes_on : conclude (some 1024) false s ≡ runs s = rw (count, conclude) refl in
    let w' = (draw r.windows (length s.chunk)).1 in
    let not_yet : (s.saw_eof && (w' == length s.chunk)) ≡ false = ground (arith, unseen) in
    rw (send_round-live id 1024 (some 1024) s r i, fill-idle s, not_yet, nothing, send_filled)
      goes_on

send_rounds-Idle :
    (id : ℕ) (s : Sending) (rounds : List Round)
    → AllReady rounds
    → Idle s
    → send_rounds id 1024 (some 1024) true s rounds ≡ runs s
unfolding send_rounds
send_rounds-Idle id s [] a d = refl
send_rounds-Idle id s (r ∷ rs) (ready i a) d =
    rw (send_round-Idle id s r i d, send_rounds) (send_rounds-Idle id s rs a d)

-- A body that is announced with 1024 bytes, if the peer takes frames of that size: after any number of
-- rounds that meet a live context and positive windows the loop still goes on, and has neither read nor
-- sent a byte.
pub write_request_body-1024 :
    (id max_frame : ℕ) (framer : Framer) (source : Source) (rounds : List Round)
    → 1024 ≤ max_frame
    → AllReady rounds
    → (s : Sending) × (write_request_body id max_frame framer source (some 1024) true rounds
        ≡ runs s)
      × (s.source ≡ source)
      × (s.framer ≡ framer)
unfolding write_request_body buffer_size
write_request_body-1024 id max_frame framer source rounds h a =
    let size : min max_frame 1024 ≡ 1024 = omega arith in
    (
      start framer source,
      rw (size, write_request_body, buffer_size)
          (send_rounds-Idle id (start framer source) rounds a
            (record { empty = refl; unseen = refl; count = refl })),
      refl,
      refl,
    )

-- The body's reader fails.
record Failing (e : ℕ) (s : Sending) : Type 0 where
  fault : s.source.fault ≡ broken e
  unseen : s.saw_eof ≡ false
  works : s.framer.plan ≡ []

fill-Failing : (buf e : ℕ) (s : Sending) → Failing e s → Failing e (fill buf s)
unfolding fill is_eof
fill-Failing buf e s f =
    let g = read-NetGives s.source s.source.pending (buf - length s.chunk) refl in
    record {
      fault = ground (arith, f.fault, g.2);
      unseen = ground (arith, f.unseen, f.fault, g.3);
      works = ground (arith, f.works);
    }

send_filled-Failing :
    (id e : ℕ) (s : Sending) (r : Round)
    → Failing e s
    → (s' : Sending) × (send_filled id none true r.windows s ≡ runs s') × Failing e s'
unfolding send_filled conclude write_frame
send_filled-Failing id e s r f =
    let unseen = f.unseen in
    let works = f.works in
    let w = (draw r.windows (length s.chunk)).1 in
    let not_yet : (s.saw_eof && (w == length s.chunk)) ≡ false = ground (arith, unseen) in
    elim (Bool-cases (ltb 0 w)) [
      | inl z ↦ (
        sent_chunk id false w s,
        rw (not_yet, z, write_chunk-works id w none false s works, send_filled, conclude) refl,
        record { fault = f.fault; unseen = f.unseen; works = ground (arith, f.works) },
      )
      | inr z ↦ (s, rw (not_yet, z, send_filled) refl, f)
    ]

send_rounds-Failing :
    (id buf e : ℕ) (s : Sending) (rounds : List Round)
    → AllReady rounds
    → Failing e s
    → (s' : Sending) × (send_rounds id buf none true s rounds ≡ runs s')
unfolding send_rounds
send_rounds-Failing id buf e s [] a f = (s, refl)
send_rounds-Failing id buf e s (r ∷ rs) (ready i a) f =
    let g = send_filled-Failing id e (fill buf s) r (fill-Failing buf e s f) in
    let rest = send_rounds-Failing id buf e g.0 rs a g.2 in
    (rest.0, rw (send_round-live id buf none s r i, g.1, send_rounds) (rest.1))

-- A body of unknown length whose reader fails with an error that is not `io.EOF`: after any number of
-- rounds that meet a live context and positive windows, while the framer works, the loop still goes on,
-- and has not reported it.
pub write_request_body-Failing :
    (id max_frame e : ℕ) (framer : Framer) (content : Bytes) (grants : List ℕ) (rounds : List Round)
    → framer.plan ≡ []
    → AllReady rounds
    → (s : Sending) × (write_request_body id max_frame framer
          (record { pending = content; grants = grants; fault = broken e })
          none
          true
          rounds
        ≡ runs s)
unfolding write_request_body buffer_size
write_request_body-Failing id max_frame e framer content grants rounds w a =
    send_rounds-Failing id max_frame e
      (start framer (record { pending = content; grants = grants; fault = broken e })) rounds a
      (record { fault = refl; unseen = refl; works = w })
