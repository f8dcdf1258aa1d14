-- ===== src/Streams/Lives.antt =====
-- internal/transport/h2c: the end of a stream (`CloseWithError` and `Reset` of stream.go) and the state
-- that it is a part of, the `Connection` of conn.go with its controller.
use go_http.Base.{ℕ, Bool, true, false, not, ◌==◌, Option, none, some, [], Bytes, if◌then◌else◌}
use go_http.Flow.Inflow.{Inflow}
use go_http.Flow.Outflow.{Outflow}
use go_http.Controller.Frames.{Framer, write_frame}
use go_http.Controller.Frames
use go_http.Controller.Closing.{Controller}
use go_http.Streams.Settings.{Settings}
use go_http.Streams.Opening.{Connection, stream_at, release_stream_id}

-- `doneReason` of a stream; `done_with` is any other error, and none stands for nil.
pub data StreamEnd : Type 0 where
  reset_local : (code : ℕ) → StreamEnd
  reset_remote : (code : ℕ) → StreamEnd

-- The write end of the pipe for the response body.
pub data PipeEnd : Type 0 where
  writable closed : PipeEnd
  closed_with : StreamEnd → PipeEnd

-- What a `Stream` has beside its windows: `done` is the state of `doneOnce` and of the channel,
-- `rst_used` that of `rstOnce`, `delivered` the bytes that the reader of the body took from the pipe.
pub record Life : Type 0 where
  pub done : Bool
  pub done_reason : Option StreamEnd
  pub rst_used : Bool
  pub delivered : Bytes
  pub pipe : PipeEnd

abbrev pub new_life : Life
new_life = record {
  done = false;
  done_reason = none;
  rst_used = false;
  delivered = [];
  pipe = writable;
}

-- `Connection` in full. The streams are named by their identifiers; `conn` has the map of those that are
-- active.
pub record Link : Type 0 where
  pub conn : Connection
  pub controller : Controller
  pub peer : Settings
  pub inflow : Inflow
  pub outflow : Outflow
  pub lives : ℕ → Life

unfoldable pub set_life : Link → ℕ → Life → Link
set_life l id life = record l { lives = λ j. if j == id then life else l.lives j }

-- `WriteRSTStream`, `WriteWindowUpdate` and the like, where the error is not looked at.
unfoldable pub send : Link → Frames.Sent → Link
send l s = record l {
  controller = record (l.controller) { framer = (write_frame l.controller.framer s).0 };
}

abbrev end_pipe : Option StreamEnd → PipeEnd → PipeEnd
end_pipe none p = p
end_pipe (some e) p = closed_with e

-- `CloseWithError`; with none it is `Close`.
unfoldable pub close_with_error : Link → ℕ → Option StreamEnd → Link
unfolding set_life release_stream_id
close_with_error l id e =
    let life = l.lives id in
    if life.done
    then l
    else set_life (record l { conn = release_stream_id l.conn id }) id
        (record life { done = true; done_reason = e; pipe = end_pipe e life.pipe })

abbrev pub use_rst : Link → ℕ → Link
use_rst l id = set_life l id (record (l.lives id) { rst_used = true })

-- `Reset`
unfoldable pub reset : Link → ℕ → ℕ → Bool → Link
unfolding set_life send
reset l id code received =
    if (l.lives id).rst_used
    then l
    else if received
    then close_with_error (use_rst l id) id (some (reset_remote code))
    else close_with_error (send (use_rst l id) (Frames.Sent.rst_stream id code)) id
        (some (reset_local code))

-- `Valid` of what the map has for an identifier.
unfoldable pub is_valid : Link → ℕ → Bool
unfolding stream_at
is_valid l id = elim (stream_at id l.conn.active_streams) [
  | none ↦ false
  | some s ↦ not (l.lives id).done
]
