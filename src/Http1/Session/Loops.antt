-- ===== src/Http1/Session/Loops.antt =====
-- internal/transport/http1/http1.go, `Conn.Setup`: the goroutines that write requests and read
-- responses, one session after the other. A session that finds no goroutine to take it waits until its
-- context is done.
use go_http.Base.{
  ◌&&◌, ◌||◌, Bool, true, false, not, ◌≡◌, ◌⊎◌, inl, inr, refl, arith, Option, none, some, List, [],
  ◌∷◌, if◌then◌else◌,
}

-- The errors of writing a request and of reading a response, for any two types of errors.
module _ (WriteFailure ReadFailure : Type 0) where
  -- `werr`, `rerr`, and whether the goroutines still run
  pub record Loops : Type 0 where
    pub werr : Option WriteFailure
    pub rerr : Option ReadFailure
    pub writing : Bool
    pub reading : Bool

  -- `Setup`
  abbrev pub started : Loops
  started = record { werr = none; rerr = none; writing = true; reading = true }

  -- What a session receives on `doneCh`: success, an error of its own, or that of an earlier session; or
  -- it is never taken up.
  pub data Answer : Type 0 where
    ok waits : Answer
    write_failed broken_write : WriteFailure → Answer
    read_failed broken_read : ReadFailure → Answer

  -- What happens to one session: its answer, whether it was released with `close`, and whether its
  -- request was written in full.
  pub record Turn : Type 0 where
    pub loops : Loops
    pub answer : Answer
    pub released : Bool
    pub request_written : Bool

  -- The reading goroutine, on a session whose request is written and whose response is read with the result
  -- `result`. Once it has returned, the writing goroutine waits for it with the session for good.
  unfoldable pub read_turn : Loops → Option ReadFailure → Turn
  read_turn l result =
      if not l.reading
      then record {
        loops = record l { writing = false };
        answer = waits;
        released = false;
        request_written = true;
      }
      else elim l.rerr [
        | some e ↦ record {
          loops = record l { reading = false };
          answer = broken_read e;
          released = false;
          request_written = true;
        }
        | none ↦ elim result [
          | none ↦ record { loops = l; answer = ok; released = false; request_written = true }
          | some e ↦ record {
            loops = record l { rerr = some e };
            answer = read_failed e;
            released = true;
            request_written = true;
          }
        ]
      ]

  -- The writing goroutine, on a session whose request is written with the result `wrote`, and what
  -- follows.
  unfoldable pub turn : Loops → Option WriteFailure → Option ReadFailure → Turn
  unfolding read_turn
  turn l wrote result =
      if not l.writing
      then record { loops = l; answer = waits; released = false; request_written = false }
      else elim l.werr [
        | some e ↦ record {
          loops = record l { writing = false };
          answer = broken_write e;
          released = false;
          request_written = false;
        }
        | none ↦ elim wrote [
          | some e ↦ record {
            loops = record l { werr = some e; writing = false };
            answer = write_failed e;
            released = true;
            request_written = false;
          }
          | none ↦ read_turn l result
        ]
      ]

  -- One session after the other, each with what comes of its write and of its read.
  unfoldable pub answers : Loops → List (Option WriteFailure × Option ReadFailure) → List Answer
  answers l [] = []
  answers l (r ∷ rs) = let t = turn l r.0 r.1 in t.answer ∷ answers t.loops rs

  unfoldable is_ok : Answer → Bool
  is_ok ok = true
  is_ok _ = false

  unfoldable pub none_ok : List Answer → Bool
  unfolding is_ok
  none_ok [] = true
  none_ok (a ∷ rest) = not (is_ok a) && none_ok rest

  unfoldable pub successes_first : List Answer → Bool
  unfolding is_ok
  successes_first [] = true
  successes_first (a ∷ rest) = if is_ok a then successes_first rest else none_ok rest

  -- A goroutine has seen an error, or the writing one is no longer there.
  unfoldable is_broken : Loops → Bool
  is_broken l = elim l.werr [
    | some e ↦ true
    | none ↦ elim l.rerr [ some e ↦ true | none ↦ not l.writing || not l.reading ]
  ]

  -- A broken connection stays broken and answers no session with success.
  turn-broken :
      (l : Loops) (wrote : Option WriteFailure) (result : Option ReadFailure)
      → is_broken l ≡ true
      → (is_ok (turn l wrote result).answer ≡ false)
        × (is_broken (turn l wrote result).loops ≡ true)
  unfolding turn read_turn is_broken is_ok
  turn-broken l wrote result b = ground arith

  answers-broken :
      (l : Loops) (rs : List (Option WriteFailure × Option ReadFailure))
      → is_broken l ≡ true
      → none_ok (answers l rs) ≡ true
  unfolding answers none_ok
  answers-broken l [] b = refl
  answers-broken l (r ∷ rs) b =
      let t = turn-broken l r.0 r.1 b in
      let rest = answers-broken (turn l r.0 r.1).loops rs t.1 in ground arith

  -- A session that is not answered with success leaves the connection broken.
  turn-ok :
      (l : Loops) (wrote : Option WriteFailure) (result : Option ReadFailure)
      → (is_ok (turn l wrote result).answer ≡ true) ⊎ (is_broken (turn l wrote result).loops ≡ true)
  unfolding turn read_turn is_broken is_ok
  turn-ok l wrote result = ground arith

  -- The sessions of a connection that succeed come before all that do not: after the first error, of a
  -- write or of a read, no session is answered with success.
  pub answers-first :
      (l : Loops) (rs : List (Option WriteFailure × Option ReadFailure))
      → successes_first (answers l rs) ≡ true
  unfolding answers successes_first
  answers-first l [] = refl
  answers-first l (r ∷ rs) =
      let t = turn-ok l r.0 r.1 in
      let rest = answers-first (turn l r.0 r.1).loops rs in
      elim t [
        | inl e ↦ rw (e) rest
        | inr e ↦ let none_left = answers-broken (turn l r.0 r.1).loops rs e in ground arith
      ]
