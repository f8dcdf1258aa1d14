-- ===== src/Streams/Greeting.antt =====
-- internal/transport/h2c: a `Connection` (conn.go) under its controller's `Handshake` and read loop
-- (controller/controller.go).
use go_http.Base.{
  ℕ, ◌≡◌, refl, arith, inl, inr, true, false, List, [], ◌∷◌, ◌++◌, ◌^◌, ◌-◌, Option, none, some,
  codes, Option-cases,
}
use go_http.Controller.Frames.{Sent, preface, Received, Framer, write_frame}
use go_http.Controller.Closing.{Controller, new_controller, go_away_debug, break_off}
use go_http.Controller.Serving.{
  Read, frame, fails, Handshaken, serving, failed, handshake, hand_over, first_frame,
}
use go_http.Streams.Opening.{new_connection}
use go_http.Streams.Settings.{Setting, Settings, new_peer_settings, advertised, update_from}
use go_http.Streams.Lives.{Link, send}
use go_http.Streams.Dispatch.{go_away}
use go_http.Streams.Handlers.{new_link, on_settings}

-- The controller in the connection.
abbrev pub with_controller : Link → Controller → Link
with_controller l c = record l { controller = c }

-- The parameter: `Setting.Valid`, with the code of its error.
module _ (valid : Setting → Option ℕ) where
  -- The handler of SETTINGS, as `Handshake` calls it.
  unfoldable pub first_settings : Link → Received → Link
  unfolding on_settings
  first_settings l (Received.settings ack ss) = on_settings valid l ack ss
  first_settings l _ = l

  -- `Handshake` of a new connection, on what `ReadFrame` returns.
  unfoldable pub greet :
      Framer → Settings → Read → Handshaken {S = Link} (λ l. l.controller) with_controller
  unfolding first_settings
  greet framer self_settings r =
      handshake (λ l. l.controller) with_controller first_settings (λ l. l)
        (advertised valid 1 self_settings 6 1) (new_link framer self_settings) r

  -- The frames that were sent at the end of a handshake, the newest first.
  abbrev pub sent_by : Handshaken {S = Link} (λ l. l.controller) with_controller → List Sent
  sent_by (serving l) = l.controller.framer.sent
  sent_by (failed l e) = l.controller.framer.sent

  -- What the server's first frame is answered with.
  unfoldable pub answer : Read → List Sent
  answer (fails e) = []
  answer (frame (Received.settings true ss)) = []
  answer (frame (Received.settings false ss)) =
      elim ((update_from valid 1 new_peer_settings ss).error) [
        | none ↦ Sent.settings_ack ∷ []
        | some code ↦ Sent.go_away (2 ^ 32 - 1) code (codes "received invalid settings frame") ∷ []
      ]
  answer (frame f) = Sent.go_away 0 1 [] ∷ []

  -- A handshake on a connection that takes everything sends the preface and then the settings that
  -- are advertised. If the server's first frame is a SETTINGS frame that is no acknowledgement, it is
  -- answered with an acknowledgement, or, if it is not valid, with GOAWAY, the code of its first error and
  -- the last stream 2^32 - 1; a first frame of another kind is answered with GOAWAY and PROTOCOL_ERROR.
  -- Nothing more is sent after an acknowledgement, or if no frame can be read.
  pub greet-sent :
      (self_settings : Settings) (r : Read)
      → sent_by (greet (record { sent = []; plan = [] }) self_settings r)
        ≡ answer r ++ (Sent.settings (advertised valid 1 self_settings 6 1) ∷ preface ∷ [])
  unfolding greet answer first_settings handshake hand_over first_frame new_link new_controller
      on_settings go_away go_away_debug send write_frame new_connection new_peer_settings break_off
  greet-sent self_settings (fails e) = refl
  greet-sent self_settings (frame (Received.settings true ss)) = refl
  greet-sent self_settings (frame (Received.settings false ss)) =
      elim (Option-cases ((update_from valid 1 new_peer_settings ss).error)) [
        | inl e ↦ ground (arith, e)
        | inr e ↦ ground (arith, e.1)
      ]
  greet-sent self_settings (frame (Received.go_away last code debug)) = refl
  greet-sent self_settings (frame (Received.rst_stream id code)) = refl
  greet-sent self_settings (frame (Received.window_update id inc)) = refl
  greet-sent self_settings (frame (Received.ping ack id payload)) = refl
  greet-sent self_settings (frame (Received.headers id last)) = refl
  greet-sent self_settings (frame (Received.body id last bs padding)) = refl
  greet-sent self_settings (frame Received.other) = refl
