-- ===== src/Streams/Fitting.antt =====
-- internal/transport/h2c/stream.go, `WriteRequestBody`: the size of the frames, whatever the rounds meet.
use go_http.Base.{
  ℕ, ◌-◌, ◌≤◌, ◌≡◌, refl, arith, inl, inr, Bool, true, ◌&&◌, ◌||◌, ltb, leb, ◌==◌, List, [], ◌∷◌,
  Option, none, some, Bytes, length, take, Bool-cases, Option-cases, length-append, length-take,
  length-drop,
}
use go_http.Io.{read, Source}
use go_http.Http1.Session.Body.{read-NetGives}
use go_http.Controller.Frames.{Sent, Framer, write_frame}
use go_http.Flow.Take.{Windows, draw}
use go_http.Streams.Body.{
  Sending, Round, Progress, runs, finished, buffer_size, fill, longer, conclude, write_chunk,
  send_filled, send_round, send_rounds, write_request_body, start,
}

abbrev fits : ℕ → Sent → Bool
fits max (Sent.body id ended bs) = leb (length bs) max
fits max other = true

-- No DATA frame is longer.
unfoldable pub all_fit : ℕ → List Sent → Bool
all_fit max [] = true
all_fit max (s ∷ ss) = fits max s && all_fit max ss

-- The frames, and what is in the buffer.
record Fits (max : ℕ) (s : Sending) : Type 0 where
  frames : all_fit max s.framer.sent ≡ true
  chunk : length s.chunk ≤ max

abbrev pub sent_by : Progress → List Sent
sent_by (runs s) = s.framer.sent
sent_by (finished s e) = s.framer.sent

abbrev Sized : ℕ → Progress → Type 0
Sized max (runs s) = Fits max s
Sized max (finished s e) = all_fit max s.framer.sent ≡ true

read-length : (src : Source) (n : ℕ) → length (read src n).1 ≤ n
read-length src n = (read-NetGives src src.pending n refl).1

fill-Fits : (max buf : ℕ) (s : Sending) → buf ≤ max → Fits max s → Fits max (fill buf s)
unfolding fill
fill-Fits max buf s b f = ground (
  arith,
  f.frames,
  read-length s.source (buf - length s.chunk),
  length-append s.chunk (read s.source (buf - length s.chunk)).1,
)

conclude-Sized :
    (max : ℕ) (sz : Option ℕ) (ends : Bool) (s : Sending)
    → Fits max s
    → Sized max (conclude sz ends s)
unfolding conclude
conclude-Sized max sz ends s f = elim (Bool-cases (longer sz s.read)) [
  | inl l ↦ rw (l, conclude) (f.frames)
  | inr l ↦ elim (Bool-cases ends) [
    | inl e ↦ rw (l, e, conclude) (f.frames)
    | inr e ↦ rw (l, e, conclude) f
  ]
]

write_frame-fits :
    (max : ℕ) (f : Framer) (id : ℕ) (ends : Bool) (bs : Bytes)
    → length bs ≤ max
    → all_fit max f.sent ≡ true
    → all_fit max (write_frame f (Sent.body id ends bs)).0.sent ≡ true
unfolding write_frame all_fit
write_frame-fits max f id ends bs h k = ground (arith, h, k)

write_chunk-Sized :
    (max id : ℕ) (sz : Option ℕ) (ends : Bool) (w : ℕ) (s : Sending)
    → Fits max s
    → Sized max (write_chunk id sz ends w s)
unfolding write_chunk
write_chunk-Sized max id sz ends w s f =
    let sent = Sent.body id ends (take w s.chunk) in
    let head : length (take w s.chunk) ≤ max = omega (arith, length-take w s.chunk, f.chunk) in
    let frames = write_frame-fits max s.framer id ends (take w s.chunk) head f.frames in
    elim (Option-cases ((write_frame s.framer sent).1)) [
      | inr e ↦ rw (e.1, write_chunk) frames
      | inl e ↦
          rw (e, write_chunk)
            (conclude-Sized max sz ends _
              (record { frames = frames; chunk = omega (arith, length-drop w s.chunk, f.chunk) }))
    ]

send_filled-Sized :
    (max id : ℕ) (sz : Option ℕ) (last : Bool) (windows : Windows) (s : Sending)
    → Fits max s
    → Sized max (send_filled id sz last windows s)
unfolding send_filled
send_filled-Sized max id sz last windows s f =
    let w = (draw windows (length s.chunk)).1 in
    let end_stream = last && (s.saw_eof && (w == length s.chunk)) in
    elim (Bool-cases (ltb 0 w || end_stream)) [
      | inl e ↦ rw (e, send_filled) (write_chunk-Sized max id sz end_stream w s f)
      | inr e ↦ rw (e, send_filled) (conclude-Sized max sz end_stream s f)
    ]

send_round-Sized :
    (max buf id : ℕ) (sz : Option ℕ) (last : Bool) (s : Sending) (r : Round)
    → buf ≤ max
    → Fits max s
    → Sized max (send_round id buf sz last s r)
unfolding send_round
send_round-Sized max buf id sz last s r b f = elim (Bool-cases r.cancelled) [
  | inl e ↦ rw (e, send_round) (f.frames)
  | inr e ↦
      rw (e, send_round)
        (send_filled-Sized max id sz last r.windows (fill buf s) (fill-Fits max buf s b f))
]

send_rounds-fit :
    (max buf id : ℕ) (sz : Option ℕ) (last : Bool) (rs : List Round) (s : Sending)
    → buf ≤ max
    → Fits max s
    → all_fit max (sent_by (send_rounds id buf sz last s rs)) ≡ true
unfolding send_rounds
send_rounds-fit max buf id sz last [] s b f = f.frames
send_rounds-fit max buf id sz last (r ∷ rs) s b f =
    behind (send_round id buf sz last s r) (send_round-Sized max buf id sz last s r b f)
      (λ s' k. send_rounds-fit max buf id sz last rs s' b k)
  where
    behind :
        (p : Progress)
        → Sized max p
        → ((s' : Sending)
            → Fits max s'
            → all_fit max (sent_by (send_rounds id buf sz last s' rs)) ≡ true)
        → all_fit max (
            sent_by (elim (p) [
              | finished s' e ↦ finished s' e
              | runs s' ↦ send_rounds id buf sz last s' rs
            ]))
          ≡ true
    behind (finished s' e) k rest = k
    behind (runs s') k rest = rest s' k

-- No DATA frame that `WriteRequestBody` sends is longer than the size that it got as SETTINGS_MAX_FRAME_SIZE
-- of the peer, whatever the size of the body and the announced one, the windows, the context and the
-- errors of the framer.
pub write_request_body-fits :
    (id max_frame : ℕ) (framer : Framer) (source : Source) (sz : Option ℕ) (last : Bool)
    (rounds : List Round)
    → all_fit max_frame framer.sent ≡ true
    → all_fit max_frame (sent_by (write_request_body id max_frame framer source sz last rounds))
      ≡ true
unfolding write_request_body
write_request_body-fits id max_frame framer source none last rounds f =
    send_rounds-fit max_frame (buffer_size max_frame none) id none last rounds (start framer source)
      (unfold buffer_size in omega arith) (record { frames = f; chunk = omega arith })
write_request_body-fits id max_frame framer source (some n) last rounds f =
    send_rounds-fit max_frame (buffer_size max_frame (some n)) id (some n) last rounds
      (start framer source) (unfold buffer_size in omega arith)
      (record { frames = f; chunk = omega arith })
