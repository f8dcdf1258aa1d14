-- ===== src/Streams/Uploads.antt =====
-- internal/transport/h2c/stream.go, `WriteRequestBody`: what its loop has sent, and what its read leaves.
use go_http.Base.{
  ℕ, ◌+◌, ◌-◌, ◌≤◌, ◌≡◌, ◌≢◌, inl, inr, refl, ap, ◌∙◌, arith, Bool, true, false, not, ◌&&◌, ◌==◌,
  ltb, List, [], ◌∷◌, ◌++◌, Option, some, Bytes, length, if◌then◌else◌, Bool-cases, append_assoc,
  length-append,
}
use go_http.Io.{Source, read, read_some, granted, eof, unexpected_eof}
use go_http.Io
use go_http.Controller.Frames.{Sent}
use go_http.Http1.Session.Body.{NetGives, read-NetGives}
use go_http.Streams.Body.{Sending, read_threshold, is_eof, fill}

-- The bytes that the DATA frames of a stream carry, in the order of the frames; the newest frame is
-- first in the list.

unfoldable pub carried : ℕ → List Sent → Bytes
carried id [] = []
carried id (Sent.body j ended bs ∷ ss) = if j == id then carried id ss ++ bs else carried id ss
carried id (s ∷ ss) = carried id ss

-- No DATA frame of the stream has END_STREAM.
unfoldable pub unended : ℕ → List Sent → Bool
unended id [] = true
unended id (Sent.body j ended bs ∷ ss) = not ((j == id) && ended) && unended id ss
unended id (s ∷ ss) = unended id ss

-- The state of the loop on a body: what was sent, is in the buffer and is to come make it up; nothing
-- is ended yet, and once the end was seen nothing is to come.
pub record Underway (id : ℕ) (content : Bytes) (s : Sending) : Type 0 where
  pub split : carried id s.framer.sent ++ (s.chunk ++ s.source.pending) ≡ content
  pub count : s.read + length s.source.pending ≡ length content
  pub fault : s.source.fault ≡ eof
  pub open_ended : unended id s.framer.sent ≡ true
  pub works : s.framer.plan ≡ []
  pub seen : s.saw_eof ≡ true → (s.source.pending ≡ []) × (s.last_error ≡ some eof)

-- How many rounds are left at most, less one.
unfoldable pub measure : Sending → ℕ
measure s = length s.chunk + length s.source.pending

-- What the read leaves.
pub record Filled (id : ℕ) (content : Bytes) (s s' : Sending) : Type 0 where
  pub underway : Underway id content s'
  pub same_measure : measure s' ≡ measure s
  pub progress : s'.chunk ≡ [] → s'.saw_eof ≡ true

read_threshold-pos : (buf : ℕ) → 1 ≤ buf → buf ≢ 1024 → 1 ≤ read_threshold buf
unfolding read_threshold
read_threshold-pos buf h k = ground (arith, k)

fill_read-Filled :
    (id buf : ℕ) (content : Bytes) (s : Sending) (r : Source × Bytes × Option Io.Error)
    → NetGives s.source s.source.pending (buf - length s.chunk) r
    → 1 ≤ buf
    → s.saw_eof ≡ false
    → Underway id content s
    → Filled id content s (record s {
      source = r.0;
      chunk = s.chunk ++ r.1;
      read = s.read + length r.1;
      last_error = r.2;
      saw_eof = is_eof r.2;
    })
unfolding measure is_eof
fill_read-Filled id buf content s r g h e u =
    let all = ap length g.0 in
    let more = length-append r.1 (r.0).pending in
    let chunk = length-append s.chunk r.1 in
    record {
      underway = record {
        split =
            ap (λ bs. carried id s.framer.sent ++ bs)
              (append_assoc s.chunk r.1 (r.0).pending ∙ ap (λ bs. s.chunk ++ bs) g.0)
            ∙ u.split;
        count = omega (arith, all, more, u.count);
        fault = g.2 ∙ u.fault;
        open_ended = u.open_ended;
        works = u.works;
        seen = λ q. ground (arith, g.3, u.fault, q);
      };
      same_measure = omega (arith, all, more, chunk);
      progress = λ q. ground (arith, g.3, u.fault, ap length q, chunk, h);
    }

pub fill-Filled :
    (id buf : ℕ) (content : Bytes) (s : Sending)
    → 1 ≤ buf
    → buf ≢ 1024
    → Underway id content s
    → Filled id content s (fill buf s)
unfolding fill
fill-Filled id buf content s h k u =
    elim (Bool-cases (not s.saw_eof && ltb (length s.chunk) (read_threshold buf))) [
      | inl e ↦
          rw (e, fill)
            (fill_read-Filled id buf content s (read s.source (buf - length s.chunk))
              (read-NetGives s.source s.source.pending _ refl) h (ground arith) u)
      | inr e ↦
          rw (e, fill)
            (record {
              underway = u;
              same_measure = refl;
              progress = λ q. ground (arith, q, ap length q, read_threshold-pos buf h k);
            })
    ]
