-- ===== src/Controller/Closing.antt =====
-- internal/transport/h2c/controller/controller.go: how a connection comes to its end. `GOAWAY` sent,
-- `GOAWAY` received and a failed handshake all go through `doneOnce`.
use go_http.Base.{ℕ, Bool, true, false, Option, none, some, List, [], ◌∷◌, Bytes, if◌then◌else◌}
use go_http.Controller.Frames.{Sent, go_away, Framer, NetError, write_frame}

-- `doneReason`: a `ReasonGoAway` or an error of the handshake.
pub data Reason : Type 0 where
  gone_away : (code : ℕ) → (debug : Bytes) → (remote : Bool) → Reason
  broken : NetError → Reason

-- `Controller`: `once` is the state of `doneOnce`, `done` says that the channel is closed, and
-- `conn_closed` that `Close` of the connection was called.
pub record Controller : Type 0 where
  pub framer : Framer
  pub closing : Bool
  pub once : Bool
  pub done : Bool
  pub done_reason : Option Reason
  pub conn_closed : Bool

-- `NewController`, over a fresh framer
unfoldable pub new_controller : Framer → Controller
new_controller f = record {
  framer = f;
  closing = false;
  once = false;
  done = false;
  done_reason = none;
  conn_closed = false;
}

-- The error of `GoAway`.
pub data GoAwayError : Type 0 where
  multiple_go_away : GoAwayError
  write_failed : NetError → GoAwayError

abbrev pub of_write : Option NetError → Option GoAwayError
of_write none = none
of_write (some e) = some (write_failed e)

-- `GoAwayDebug`
unfoldable pub go_away_debug : Controller → ℕ → ℕ → Bytes → Controller × Option GoAwayError
go_away_debug c last code debug =
    let w = write_frame c.framer (go_away last code debug) in
    if c.once then (c, some multiple_go_away) else (
      record {
        framer = w.0;
        closing = true;
        once = true;
        done = true;
        done_reason = some (gone_away code debug false);
        conn_closed = true;
      },
      of_write w.1,
    )

-- The handler of `GOAWAY` in `NewController`, up to the callback, and whether it is called.
unfoldable pub receive_go_away : Controller → ℕ → Bytes → Controller × Bool
receive_go_away c code debug = if c.once then (c, false) else (
  record c { once = true; done = true; done_reason = some (gone_away code debug true) },
  true,
)

-- The function that `Handshake` passes to `doneOnce` when reading fails.
unfoldable pub break_off : Controller → NetError → Controller
break_off c e =
    if c.once then c else record c { once = true; done = true; done_reason = some (broken e) }

-- What `Valid` returns; `reason_nil` is `ErrReasonNil`.
pub data Validity : Type 0 where
  valid reason_nil : Validity
  ended : Reason → Validity

-- `Valid`
unfoldable pub validity : Controller → Validity
validity c = if c.done then (elim c.done_reason [ none ↦ reason_nil | some r ↦ ended r ]) else valid

-- An event in the life of a controller, from whichever goroutine.
pub data Event : Type 0 where
  go_away_locally : (last_stream_id : ℕ) → (code : ℕ) → (debug : Bytes) → Event
  go_away_remotely : (code : ℕ) → (debug : Bytes) → Event
  reading_fails : NetError → Event
  sends : Sent → Event

abbrev pub after : Controller → Event → Controller
after c (go_away_locally last code debug) = (go_away_debug c last code debug).0
after c (go_away_remotely code debug) = (receive_go_away c code debug).0
after c (reading_fails e) = break_off c e
after c (sends s) = record c { framer = (write_frame c.framer s).0 }

unfoldable pub run : Controller → List Event → Controller
unfolding go_away_debug receive_go_away break_off write_frame
run c [] = c
run c (e ∷ es) = run (after c e) es
