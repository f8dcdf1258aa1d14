-- ===== src/Controller/Once.antt =====
-- internal/transport/h2c/controller/controller.go: `doneOnce` lets the first end of a connection decide.
use go_http.Base.{
  ℕ, ◌+◌, Bool, true, false, not, ◌&&◌, ◌≡◌, refl, arith, Option, none, some, List, [], ◌∷◌, Bytes,
  if◌then◌else◌,
}
use go_http.Controller.Frames.{
  Sent, preface, settings_ack, settings, go_away, rst_stream, window_update, ping, headers, body,
  Framer, write_frame,
}
use go_http.Controller.Closing.{
  Controller, new_controller, Reason, gone_away, broken, valid, ended, validity, Event,
  go_away_locally, go_away_remotely, reading_fails, sends, after, run, go_away_debug,
  receive_go_away, break_off,
}

abbrev pub is_go_away : Sent → Bool
is_go_away (go_away last code debug) = true
is_go_away preface = false
is_go_away settings_ack = false
is_go_away (settings s) = false
is_go_away (rst_stream id code) = false
is_go_away (window_update id inc) = false
is_go_away (ping ack payload) = false
is_go_away (headers id) = false
is_go_away (body id end_stream bs) = false

unfoldable pub go_aways : List Sent → ℕ
go_aways [] = 0
go_aways (s ∷ ss) = (if is_go_away s then 1 else 0) + go_aways ss

-- Frames of `GOAWAY` are sent by `GoAwayDebug` alone.
unfoldable pub only_others : List Event → Bool
only_others [] = true
only_others (sends s ∷ es) = not (is_go_away s) && only_others es
only_others (go_away_locally last code debug ∷ es) = only_others es
only_others (go_away_remotely code debug ∷ es) = only_others es
only_others (reading_fails e ∷ es) = only_others es

-- The first event that ends the connection: its reason, and whether it is the client's own `GOAWAY`.
unfoldable pub first_end : List Event → Option (Reason × Bool)
first_end [] = none
first_end (go_away_locally last code debug ∷ es) = some (gone_away code debug false, true)
first_end (go_away_remotely code debug ∷ es) = some (gone_away code debug true, false)
first_end (reading_fails e ∷ es) = some (broken e, false)
first_end (sends s ∷ es) = first_end es

-- What the events leave of a controller, `sent` being the number of its `GOAWAY` frames before them.
pub record Decided (end : Option (Reason × Bool)) (sent : ℕ) (c : Controller) : Type 0 where
  pub validity_is : validity c ≡ elim end [ none ↦ valid | some e ↦ ended e.0 ]
  pub closing_is : c.closing ≡ elim end [ none ↦ false | some e ↦ e.1 ]
  pub conn_closed_is : c.conn_closed ≡ elim end [ none ↦ false | some e ↦ e.1 ]
  pub go_aways_are :
      go_aways c.framer.sent ≡ sent + elim end [ none ↦ 0 | some e ↦ if e.1 then 1 else 0 ]

-- A controller that has come to its end.
record Settled (e : Reason × Bool) (sent : ℕ) (c : Controller) : Type 0 where
  used : c.once ≡ true
  is_done : c.done ≡ true
  reason_is : c.done_reason ≡ some e.0
  closing_is : c.closing ≡ e.1
  closed_is : c.conn_closed ≡ e.1
  sent_is : go_aways c.framer.sent ≡ sent

-- Nothing changes it any more.
Settled-after :
    (e : Reason × Bool) (sent : ℕ) (c : Controller) (x : Event)
    → only_others (x ∷ []) ≡ true
    → Settled e sent c
    → Settled e sent (after c x)
unfolding only_others go_aways go_away_debug receive_go_away break_off write_frame
Settled-after e sent c (go_away_locally last code debug) o s = ground arith
Settled-after e sent c (go_away_remotely code debug) o s = ground arith
Settled-after e sent c (reading_fails x) o s = ground arith
Settled-after e sent c (sends x) o s = ground arith

only_others-head :
    (x : Event) (es : List Event) → only_others (x ∷ es) ≡ true → only_others (x ∷ []) ≡ true
unfolding only_others
only_others-head (go_away_locally last code debug) es o = refl
only_others-head (go_away_remotely code debug) es o = refl
only_others-head (reading_fails x) es o = refl
only_others-head (sends x) es o = ground arith

only_others-tail :
    (x : Event) (es : List Event) → only_others (x ∷ es) ≡ true → only_others es ≡ true
unfolding only_others
only_others-tail (go_away_locally last code debug) es o = o
only_others-tail (go_away_remotely code debug) es o = o
only_others-tail (reading_fails x) es o = o
only_others-tail (sends x) es o = ground arith

Settled-run :
    (e : Reason × Bool) (sent : ℕ) (c : Controller) (es : List Event)
    → only_others es ≡ true
    → Settled e sent c
    → Settled e sent (run c es)
unfolding run
Settled-run e sent c [] o s = s
Settled-run e sent c (x ∷ es) o s =
    Settled-run e sent (after c x) es (only_others-tail x es o)
      (Settled-after e sent c x (only_others-head x es o) s)

Settled-Decided :
    (e : Reason × Bool) (sent : ℕ) (c : Controller)
    → Settled e (sent + (if e.1 then 1 else 0)) c
    → Decided (some e) sent c
unfolding validity
Settled-Decided e sent c s = ground arith

-- A controller that has not come to its end.
record Open (sent : ℕ) (c : Controller) : Type 0 where
  unused : c.once ≡ false
  not_done : c.done ≡ false
  not_closing : c.closing ≡ false
  not_closed : c.conn_closed ≡ false
  so_far : go_aways c.framer.sent ≡ sent

Open-Decided : (sent : ℕ) (c : Controller) → Open sent c → Decided none sent c
unfolding validity
Open-Decided sent c s = ground arith

module _ (sent : ℕ) (c : Controller) (s : Open sent c) where
  Open-locally :
      (last code : ℕ) (debug : Bytes)
      → Settled
          (gone_away code debug false, true)
          (sent + 1)
          (after c (go_away_locally last code debug))
  unfolding go_away_debug write_frame go_aways
  Open-locally last code debug = ground arith

  Open-remotely :
      (code : ℕ) (debug : Bytes)
      → Settled
          (gone_away code debug true, false)
          (sent + 0)
          (after c (go_away_remotely code debug))
  unfolding receive_go_away
  Open-remotely code debug = ground arith

  Open-fails : (e : ℕ) → Settled (broken e, false) (sent + 0) (after c (reading_fails e))
  unfolding break_off
  Open-fails e = ground arith

  Open-sends : (x : Sent) → is_go_away x ≡ false → Open sent (after c (sends x))
  unfolding write_frame go_aways
  Open-sends x h = ground arith

Open-run :
    (sent : ℕ) (c : Controller) (es : List Event)
    → only_others es ≡ true
    → Open sent c
    → Decided (first_end es) sent (run c es)
unfolding run first_end only_others
Open-run sent c [] o s = Open-Decided sent c s
Open-run sent c (go_away_locally last code debug ∷ es) o s =
    Settled-Decided _ sent _
      (Settled-run _ (sent + 1) _ es o (Open-locally sent c s last code debug))
Open-run sent c (go_away_remotely code debug ∷ es) o s =
    Settled-Decided _ sent _ (Settled-run _ (sent + 0) _ es o (Open-remotely sent c s code debug))
Open-run sent c (reading_fails e ∷ es) o s =
    Settled-Decided _ sent _ (Settled-run _ (sent + 0) _ es o (Open-fails sent c s e))
Open-run sent c (sends x ∷ es) o s =
    Open-run sent (after c (sends x)) es (ground arith) (Open-sends sent c s x (ground arith))

-- The first event that ends a new connection decides, whatever else happens before and after it: `Valid`
-- returns its reason, and never the error of a missing reason; the connection is closed, the read loop is
-- told to stop and a `GOAWAY` is sent exactly if it was the client's own, and no second one is sent.
pub run-Decided :
    (f : Framer) (es : List Event)
    → only_others es ≡ true
    → Decided (first_end es) (go_aways f.sent) (run (new_controller f) es)
unfolding new_controller
run-Decided f es o = Open-run (go_aways f.sent) (new_controller f) es o (record {
  unused = refl;
  not_done = refl;
  not_closing = refl;
  not_closed = refl;
  so_far = refl;
})
