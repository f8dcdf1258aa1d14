-- ===== src/Tests/Uploads.antt =====
-- Request bodies of HTTP/2 (internal/transport/h2c/stream.go), the events of a controller, and the
-- read loop at concrete values.
use go_http.Base.{ℕ}
use go_http.Base.{◌≡◌, refl, false, List, [], ◌∷◌, ◌++◌, Option, none}
use go_http.Controller.Frames.{Framer, Received, Sent}
use go_http.Controller.Closing.{
  Event, go_away_locally, go_away_remotely, reading_fails, sends, new_controller, run,
}
use go_http.Controller.Once.{Decided, first_end, go_aways, only_others, run-Decided}
use go_http.Streams.Body.{Round, Sending}
use go_http.Streams.Settings.{Setting, new_self_settings, advertised}
use go_http.Streams.Greeting.{greet, sent_by, answer, greet-sent}
use go_http.Controller.Frames.{preface}
use go_http.Controller.Serving.{frame}

abbrev all_valid : Setting → Option ℕ
all_valid s = none

abbrev wire : Framer
wire = record { sent = []; plan = [] }

abbrev round : Round
round = record {
  cancelled = false;
  windows = record { stream = record { n = 4 }; conn = record { n = 100 } };
}

abbrev rounds : List Round
rounds = round ∷ round ∷ round ∷ round ∷ round ∷ round ∷ []

abbrev events : List Event
events =
    sends (Sent.ping false 1)
    ∷ go_away_locally 5 2 []
    ∷ go_away_remotely 1 []
    ∷ reading_fails 3
    ∷ []

run-Decided_example :
    Decided (first_end events) (go_aways wire.sent) (run (new_controller wire) events)
unfolding only_others
run-Decided_example = run-Decided wire events refl

greet-sent_example :
    sent_by all_valid (
      greet all_valid
        (record { sent = []; plan = [] })
        new_self_settings
        (frame (Received.settings false [])))
    ≡ answer all_valid (frame (Received.settings false []))
      ++ (Sent.settings (advertised all_valid 1 new_self_settings 6 1) ∷ preface ∷ [])
greet-sent_example = greet-sent all_valid new_self_settings (frame (Received.settings false []))
