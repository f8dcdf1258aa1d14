-- ===== src/Streams/Rounds.antt =====
-- internal/transport/h2c/stream.go, `WriteRequestBody`: how a round of its loop may end.
use go_http.Base.{
  ℕ, ◌≤◌, ◌<◌, ◌≡◌, inl, inr, refl, sym, ap, ◌∙◌, arith, Bool, true, false, ◌&&◌, ◌==◌, List, [],
  ◌∷◌, ◌++◌, Option, none, some, Bytes, length, take, drop, if◌then◌else◌, Bool-cases, append_assoc,
  append-nil, take-append-drop, ==_iff, length-drop,
}
use go_http.Io.{eof, unexpected_eof}
use go_http.Controller.Frames.{Sent, write_frame}
use go_http.Streams.Body.{
  BodyError, too_long, body_read, Sending, Progress, runs, finished, is_eof, longer, shorter,
  verdict, conclude, write_chunk,
}
-- The bytes that the DATA frames of a stream carry, in the order of the frames; the newest frame is
-- first in the list.
use go_http.Streams.Uploads.{carried, unended, Underway, measure}

-- The result for a body of `n` bytes.
abbrev pub expected : Option ℕ → ℕ → Option BodyError
expected sz n =
    if longer sz n
    then some too_long
    else if shorter sz n
    then some (body_read (some unexpected_eof))
    else none

-- The newest frame ends the stream and no other does.
unfoldable pub ended_last : ℕ → List Sent → Bool
ended_last id [] = false
ended_last id (Sent.body j ended bs ∷ ss) = (j == id) && (ended && unended id ss)
ended_last id (s ∷ ss) = false

-- How the loop may stop.
pub record Stops (id : ℕ) (content : Bytes) (sz : Option ℕ) (s : Sending) (e : Option BodyError)
    : Type 0 where
  pub result : e ≡ expected sz (length content)
  pub complete :
      e ≡ none → (carried id s.framer.sent ≡ content) × (ended_last id s.framer.sent ≡ true)

-- How a round may end.
pub data Went (id : ℕ) (content : Bytes) (sz : Option ℕ) (m : ℕ) : Progress → Type 0 where
  goes_on : (s : Sending) → Underway id content s → measure s < m → Went id content sz m (runs s)
  stops :
      (s : Sending) (e : Option BodyError)
      → Stops id content sz s e
      → Went id content sz m (finished s e)

-- A frame with the head of the buffer, as the state behind it.
abbrev pub sent_chunk : ℕ → Bool → ℕ → Sending → Sending
sent_chunk id end_stream w s = record s {
  framer = (write_frame s.framer (Sent.body id end_stream (take w s.chunk))).0;
  chunk = drop w s.chunk;
}

carried-sent_chunk :
    (id w : ℕ) (end_stream : Bool) (content : Bytes) (s : Sending)
    → Underway id content s
    → carried id (sent_chunk id end_stream w s).framer.sent ++ (drop w s.chunk ++ s.source.pending)
      ≡ content
unfolding carried write_frame
carried-sent_chunk id w end_stream content s u =
    let sent = carried id s.framer.sent in
    let head = take w s.chunk in
    let tail = drop w s.chunk in
    rw ((==_iff id id).1 refl, carried)
      (append_assoc sent head (tail ++ s.source.pending)
        ∙ ap (λ bs. sent ++ bs)
            (sym (append_assoc head tail s.source.pending)
              ∙ ap (λ bs. bs ++ s.source.pending) (take-append-drop w s.chunk))
        ∙ u.split)

pub write_chunk-works :
    (id w : ℕ) (sz : Option ℕ) (end_stream : Bool) (s : Sending)
    → s.framer.plan ≡ []
    → write_chunk id sz end_stream w s ≡ conclude sz end_stream (sent_chunk id end_stream w s)
unfolding write_chunk write_frame
write_chunk-works id w sz end_stream s p = rw (p) refl

-- A frame that does not end the stream.
pub more-Went :
    (id w : ℕ) (sz : Option ℕ) (content : Bytes) (s : Sending)
    → 1 ≤ w
    → w ≤ length s.chunk
    → Underway id content s
    → Went id content sz (measure s) (conclude sz false (sent_chunk id false w s))
unfolding conclude measure write_frame unended
more-Went id w sz content s h k u = elim (Bool-cases (longer sz s.read)) [
  | inl e ↦
      rw (e, conclude)
        (stops _ _
          (record { result = ground (arith, e, u.count); complete = λ q. ground (arith, q) }))
  | inr e ↦
      rw (e, conclude)
        (goes_on _
          (record {
            split = carried-sent_chunk id w false content s u;
            count = u.count;
            fault = u.fault;
            open_ended = ground (arith, u.open_ended);
            works = ground (arith, u.works);
            seen = u.seen;
          })
          (omega (arith, length-drop w s.chunk)))
]

verdict-expected :
    (sz : Option ℕ) (s : Sending)
    → s.last_error ≡ some eof
    → longer sz s.read ≡ false
    → verdict sz s ≡ expected sz s.read
unfolding verdict is_eof
verdict-expected none s e l = ground (arith, e)
verdict-expected (some n) s e l = ground (arith, e, l)

nil_of_length : (xs : Bytes) → length xs ≡ 0 → xs ≡ []
nil_of_length [] e = refl
nil_of_length (x ∷ xs) e = absurd (omega (arith, e))

-- The frame that ends the stream.
pub last-Went :
    (id w : ℕ) (sz : Option ℕ) (content : Bytes) (s : Sending)
    → w ≡ length s.chunk
    → s.saw_eof ≡ true
    → Underway id content s
    → Went id content sz (measure s) (conclude sz true (sent_chunk id true w s))
unfolding conclude write_frame ended_last
last-Went id w sz content s h e u =
    let seen = u.seen e in
    let all = ap length seen.0 in
    let same : s.read ≡ length content = omega (arith, u.count, all) in
    let rest = length-drop w s.chunk in
    let none_left : drop w s.chunk ++ s.source.pending ≡ [] =
      rw (seen.0, nil_of_length (drop w s.chunk) (omega (arith, rest, h))) refl in
    let sent = carried id (sent_chunk id true w s).framer.sent in
    let whole : sent ≡ content =
      sym (append-nil sent)
      ∙ ap (λ bs. sent ++ bs) (sym none_left)
      ∙ carried-sent_chunk id w true content s u in
    elim (Bool-cases (longer sz s.read)) [
      | inl e ↦
          rw (e, conclude)
            (stops _ _
              (record { result = ground (arith, e, u.count); complete = λ q. ground (arith, q) }))
      | inr e ↦
          rw (e, conclude)
            (stops _ _ (record {
              result =
                  verdict-expected sz (sent_chunk id true w s) seen.1 e ∙ ap (expected sz) same;
              complete = λ q. (whole, ground (arith, u.open_ended));
            }))
    ]
