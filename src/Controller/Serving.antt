-- ===== src/Controller/Serving.antt =====
-- internal/transport/h2c/controller/controller.go: `Handshake` and the read loop, `consumer`. The state
-- `S` is the whole connection, of which the controller is a part; `on` is the table of handlers, where
-- the one of SETTINGS is always set.
use go_http.Base.{
  ℕ, Bool, true, false, ◌≡◌, ◌&&◌, arith, Option, none, some, List, [], ◌∷◌, ◌++◌, if◌then◌else◌,
}
use go_http.Streams.Settings.{Setting}
use go_http.Controller.Frames.{Sent, preface, Received, NetError, write_frame}
use go_http.Controller.Closing.{Controller, go_away_debug, break_off}

-- What `ReadFrame` returns.
pub data Read : Type 0 where
  frame : Received → Read
  fails : NetError → Read

pub data HandshakeError : Type 0 where
  write_error : NetError → HandshakeError
  read_error : NetError → HandshakeError
  first_not_settings : HandshakeError

abbrev pub protocol_error : ℕ
protocol_error = 1

abbrev pub is_settings : Received → Bool
is_settings (Received.settings ack ss) = true
is_settings (Received.go_away last code debug) = false
is_settings (Received.rst_stream id code) = false
is_settings (Received.window_update id inc) = false
is_settings (Received.ping ack id payload) = false
is_settings (Received.headers id last) = false
is_settings (Received.body id last bs padding) = false
is_settings Received.other = false

module _ {S : Type 0} (controller : S → Controller) (with_controller : S → Controller → S) where
  pub data Handshaken : Type 0 where
    serving : S → Handshaken
    failed : S → HandshakeError → Handshaken

  -- One write in the handshake: the state, and the error.
  unfoldable pub hand_over : S → Sent → S × Option NetError
  hand_over s f =
      let w = write_frame (controller s).framer f in
      (with_controller s (record (controller s) { framer = w.0 }), w.1)

  -- `Handshake` behind its writes, on what `ReadFrame` returns.
  unfoldable pub first_frame : (S → Received → S) → S → Read → Handshaken
  first_frame on_settings s (fails e) =
      failed (with_controller s (break_off (controller s) e)) (read_error e)
  first_frame on_settings s (frame f) =
      if is_settings f
      then serving (on_settings s f)
      else failed (with_controller s (go_away_debug (controller s) 0 protocol_error []).0)
          first_not_settings

  -- `Handshake` with the settings that `advertiseSettings` sends, where `after` is what
  -- `onAfterHandshake` does.
  unfoldable pub handshake : (S → Received → S) → (S → S) → List Setting → S → Read → Handshaken
  unfolding hand_over first_frame
  handshake on_settings after advertised s r =
      let a = hand_over s preface in
      elim a.1 [
        | some e ↦ failed a.0 (write_error e)
        | none ↦
            let b = hand_over a.0 (Sent.settings advertised) in
            elim b.1 [
              | some e ↦ failed b.0 (write_error e)
              | none ↦ elim (first_frame on_settings b.0 r) [
                | serving s' ↦ serving (after s')
                | failed s' e ↦ failed s' e
              ]
            ]
      ]

  -- How the read loop stands after some reads.
  pub data Served : Type 0 where
    stopped waiting : S → Served
    read_failed : S → NetError → Served

  -- What `c.on[type]` does, if there is a handler.
  abbrev handled : (Received → Option (S → S)) → S → Received → S
  handled on s f = elim (on f) [ none ↦ s | some h ↦ h s ]

  -- `consumer`
  unfoldable pub consumer : (Received → Option (S → S)) → S → List Read → Served
  consumer on s [] = if (controller s).closing then stopped s else waiting s
  consumer on s (fails e ∷ rs) = if (controller s).closing then stopped s else read_failed s e
  consumer on s (frame f ∷ rs) = elim ((controller s).closing) [
    | true ↦ stopped s
    | false ↦ consumer on (handled on s f) rs
  ]

  -- The frames in their order, each handled; `none` once the connection is closing with frames left.
  unfoldable pub all_handled : (Received → Option (S → S)) → S → List Received → S
  all_handled on s [] = s
  all_handled on s (f ∷ fs) = all_handled on (handled on s f) fs

  -- No frame before the last finds the connection closing.
  unfoldable pub open_through : (Received → Option (S → S)) → S → List Received → Bool
  open_through on s [] = true
  open_through on s (f ∷ fs) = elim ((controller s).closing) [
    | true ↦ false
    | false ↦ open_through on (handled on s f) fs
  ]

  unfoldable pub reads : List Received → List Read
  reads [] = []
  reads (f ∷ fs) = frame f ∷ reads fs

  -- The read loop handles each frame in its order while the connection is not closing. Once it is, no
  -- further frame is handled, whatever comes; otherwise it waits for the next, or ends with its error.
  pub consumer-reads :
      (on : Received → Option (S → S)) (s : S) (fs : List Received) (rs : List Read)
      → open_through on s fs ≡ true
      → consumer on s (reads fs ++ rs) ≡ (
          if (controller (all_handled on s fs)).closing
          then stopped (all_handled on s fs)
          else consumer on (all_handled on s fs) rs)
  unfolding consumer all_handled open_through reads
  consumer-reads on s [] [] o = ground arith
  consumer-reads on s [] (fails e ∷ rs) o = ground arith
  consumer-reads on s [] (frame f ∷ rs) o = ground arith
  consumer-reads on s (f ∷ fs) rs o = ground (arith, consumer-reads on (handled on s f) fs rs)

  unfoldable pub succeeds : Handshaken → Bool
  succeeds (serving s) = true
  succeeds (failed s e) = false

  abbrev pub is_none : Option NetError → Bool
  is_none none = true
  is_none (some e) = false

  abbrev pub first_is_settings : Read → Bool
  first_is_settings (fails e) = false
  first_is_settings (frame f) = is_settings f

  -- The handshake succeeds exactly if the preface and the settings behind it are written without an
  -- error and the first frame that can be read is a SETTINGS frame.
  pub handshake-succeeds :
      (on_settings : S → Received → S) (after : S → S) (advertised : List Setting) (s : S)
      (r : Read)
      → succeeds (handshake on_settings after advertised s r) ≡ (
          is_none (hand_over s preface).1
          && is_none (hand_over (hand_over s preface).0 (Sent.settings advertised)).1
          && first_is_settings r)
  unfolding handshake first_frame succeeds
  handshake-succeeds on_settings after advertised s (fails e) = ground arith
  handshake-succeeds on_settings after advertised s (frame f) = ground arith
