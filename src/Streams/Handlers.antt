-- ===== src/Streams/Handlers.antt =====
-- internal/transport/h2c/conn.go: the handlers of the frames that are not part of a message, and the
-- table of handlers that `NewConnection` sets up.
use go_http.Base.{
  ℕ, Bool, true, false, not, ◌||◌, ◌==◌, ltb, leb, Option, none, some, List, [], ◌∷◌, Bytes, codes,
  if◌then◌else◌, sub32,
}
use go_http.Flow.Outflow.{Outflow}
use go_http.Flow.Outflow
use go_http.Flow.Inflow
use go_http.Controller.Frames.{Received, Sent, Framer}
use go_http.Controller.Closing.{new_controller, receive_go_away, validity, Validity}
use go_http.Streams.Settings.{
  Setting, Settings, update_from, new_peer_settings, initial_window_size, max_concurrent_streams,
}
use go_http.Streams.Opening.{
  Stream, new_connection, stream_at, put, delete, move_windows, assign_stream_id,
}
use go_http.Streams.Lives.{Link, new_life, set_life, send, reset, use_rst}
use go_http.Streams.Dispatch.{
  Handled, returns, blocks, ◌>>=◌, Reader, go_away, with_stream, on_data, on_header,
  flow_control_error,
}

-- The handler of RST_STREAM
unfoldable pub on_stream_reset : Link → ℕ → ℕ → Handled
unfolding with_stream reset
on_stream_reset l id code =
    if code == 0
    then returns l
    else with_stream l id (λ l'. (returns (reset l' id code true), false))

-- `Reset` and `delete` for one stream, under `muActive`: `Reset` of a stream that is not done waits for
-- that lock.
unfoldable pub drop_stream : Link → ℕ → Handled
unfolding set_life
drop_stream l id =
    let life = l.lives id in
    if life.rst_used || life.done
    then returns (record (use_rst l id) {
      conn = record (l.conn) { active_streams = delete id l.conn.active_streams };
    })
    else blocks

-- The loop of the callback on the peer's `GOAWAY`.
unfoldable pub reset_above : Link → ℕ → List (ℕ × Stream) → Handled
unfolding drop_stream
reset_above l last [] = returns l
reset_above l last (p ∷ ps) = elim (ltb last p.0) [
  | false ↦ reset_above l last ps
  | true ↦ drop_stream l p.0 >>= λ l'. reset_above l' last ps
]

-- The handler of GOAWAY
unfoldable pub on_go_away : Link → ℕ → ℕ → Bytes → Handled
unfolding receive_go_away reset_above
on_go_away l last code debug =
    let r = receive_go_away l.controller code debug in
    let l' = record l { controller = r.0 } in
    if r.1 then reset_above l' last l'.conn.active_streams else returns l'

-- `Refund` of a stream's window, in the handler of WINDOW_UPDATE.
unfoldable pub widen : ℕ → ℕ → Link → Handled × Bool
unfolding reset
widen id increment l = elim (stream_at id l.conn.active_streams) [
  | none ↦ (returns l, false)
  | some s ↦
      let r = Outflow.refund s.outflow increment in
      let streams = put id (record s { outflow = r.0 }) l.conn.active_streams in
      (
        returns (
            if r.1
            then record l { conn = record (l.conn) { active_streams = streams } }
            else reset l id flow_control_error false),
        false,
      )
]

-- The handler of WINDOW_UPDATE
unfoldable pub on_window_update : Link → ℕ → ℕ → Handled
unfolding go_away with_stream widen
on_window_update l id increment =
    let r = Outflow.refund l.outflow increment in
    if id == 0
    then returns (
        if r.1
        then record l { outflow = r.0 }
        else go_away (record l { outflow = r.0 }) flow_control_error [])
    else with_stream l id (widen id increment)

-- The callback of `UpdatePeerSettings`
unfoldable pub apply_settings : List (ℕ × ℕ × ℕ) → List (ℕ × Stream) → List (ℕ × Stream)
unfolding move_windows
apply_settings [] ps = ps
apply_settings (c ∷ cs) ps =
    apply_settings cs (if c.0 == initial_window_size then move_windows (sub32 c.2 c.1) ps else ps)

-- The peer's settings as the connection reads them.
abbrev with_peer : Link → Settings → List (ℕ × Stream) → Link
with_peer l settings ps = record l {
  peer = settings;
  conn = record (l.conn) {
    active_streams = ps;
    max_streams = settings max_concurrent_streams;
    peer_window = settings initial_window_size;
  };
}

-- `NewConnection`, over a fresh framer and the settings of its own side.
unfoldable pub new_link : Framer → Settings → Link
new_link framer self_settings = record {
  conn =
      new_connection (new_peer_settings max_concurrent_streams)
        (new_peer_settings initial_window_size) (self_settings initial_window_size);
  controller = new_controller framer;
  peer = new_peer_settings;
  inflow =
      (Inflow.reset_initial_balance (record { remaining = 0; queued = 0 })
        (self_settings initial_window_size)).0;
  outflow = (Outflow.refund (record { n = 0 }) (new_peer_settings initial_window_size)).0;
  lives = λ id. new_life;
}

-- `Stream`, which does not change the connection, and `AssignStreamID` up to the windows of the stream;
-- the stream has had no life before. `none`: the connection is at its end, or has no room for now.
unfoldable pub open_stream : Link → Option (Link × ℕ)
unfolding validity assign_stream_id set_life
open_stream l = elim (validity l.controller) [
  | Validity.reason_nil ↦ none
  | Validity.ended r ↦ none
  | Validity.valid ↦ elim (assign_stream_id l.conn) [
    | none ↦ none
    | some r ↦ some (set_life (record l { conn = r.0 }) r.1 new_life, r.1)
  ]
]

-- `ShouldProcess`
unfoldable pub should_process : Link → ℕ → Bool
unfolding validity
should_process l id = elim (validity l.controller) [
  | Validity.valid ↦ true
  | Validity.reason_nil ↦ leb id l.conn.last_stream_id
  | Validity.ended r ↦ leb id l.conn.last_stream_id
]

-- The parameter: `Setting.Valid`, whose errors are connection errors with a code; `none` for nil.
module _ (valid : Setting → Option ℕ) where
  -- The handler of SETTINGS
  unfoldable pub on_settings : Link → Bool → List Setting → Link
  unfolding update_from apply_settings send go_away
  on_settings l ack settings =
      let u = update_from valid 1 l.peer settings in
      let l' = with_peer l u.settings (apply_settings u.calls l.conn.active_streams) in
      if ack then l else (elim (u.error) [
        | none ↦ send l' Sent.settings_ack
        | some code ↦ go_away l' code (codes "received invalid settings frame")
      ])

  -- `c.on[type](f)`. An acknowledgement of a PING concerns no stream.
  unfoldable pub handle : Link → Received → Reader → Bool → Handled
  unfolding on_settings on_stream_reset on_go_away on_window_update on_data on_header
  handle l (Received.settings ack ss) reader taken = returns (on_settings l ack ss)
  handle l (Received.go_away last code debug) reader taken = on_go_away l last code debug
  handle l (Received.rst_stream id code) reader taken = on_stream_reset l id code
  handle l (Received.window_update id inc) reader taken = on_window_update l id inc
  handle l (Received.ping ack id payload) reader taken =
      returns (if ack || not (id == 0) then l else send l (Sent.ping true payload))
  handle l (Received.headers id ended) reader taken = on_header l id ended taken
  handle l (Received.body id ended bs padding) reader taken = on_data l id bs ended padding reader
  handle l Received.other reader taken = returns l
