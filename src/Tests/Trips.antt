-- ===== src/Tests/Trips.antt =====
-- Uploads on an HTTP/2 stream, and the settings behind them (internal/transport/h2c), at concrete values.
use go_http.Base.{ℕ, ◌≡◌, ◌≢◌, refl, true, false, [], ◌∷◌, ◌++◌, Option, none, codes}
use go_http.Io.{eof}
use go_http.Controller.Frames.{Framer}
use go_http.Streams.Settings.{Setting, new_peer_settings}
use go_http.Streams.Settings.Locking.{Shared, shared, use_setting, Current, Reach-Current}
use go_http.Streams.Settings.Locking
use go_http.Streams.Body.{Round, write_request_body}
use go_http.Streams.Fitting.{all_fit, sent_by, write_request_body-fits}
use go_http.Flow.Outflow.{available}
use go_http.Flow.Take.{take_outflow}
use go_http.Streams.Standstill
use go_http.Streams.Standstill.{Reach-Stuck}

abbrev all_valid : Setting → Option ℕ
all_valid s = none

abbrev wire : Framer
wire = record { sent = []; plan = [] }

-- Two uses of settings of the peer.
abbrev one_use : Shared
one_use = record (shared new_peer_settings) {
  mutex = record { readers = 1; writing = false };
  uses = (5, 16384) ∷ [];
}

abbrev in_use : Shared
in_use = record (shared new_peer_settings) {
  mutex = record { readers = 2; writing = false };
  uses = (4, 65535) ∷ (5, 16384) ∷ [];
}

Reach-Current_example :
    Current in_use.settings in_use.uses × (in_use.handler ≢ none → in_use.uses ≡ [])
unfolding new_peer_settings use_setting
Reach-Current_example = Reach-Current all_valid 1 new_peer_settings {m = in_use} (
    Locking.next (Locking.next Locking.here (Locking.uses 5 16384 one_use refl))
      (Locking.uses 4 65535 in_use refl))

abbrev round : Round
round = record {
  cancelled = false;
  windows = record { stream = record { n = 65535 }; conn = record { n = 65535 } };
}

write_request_body-fits_example :
    all_fit 4 (
      sent_by (
        write_request_body 1 4 wire
          (record { pending = codes "hello, world"; grants = []; fault = eof })
          none
          true
          (round ∷ round ∷ round ∷ [])))
    ≡ true
unfolding all_fit
write_request_body-fits_example =
    write_request_body-fits 1 4 wire
      (record { pending = codes "hello, world"; grants = []; fault = eof }) none true
      (round ∷ round ∷ round ∷ []) refl

-- An upload has drawn the window of the stream away and asks for more.
abbrev waiting : Standstill.Shared
waiting = record {
  uploader = Standstill.Uploader.drawing 50;
  windows = record { stream = record { n = 0 }; conn = record { n = 65435 } };
  incoming = Standstill.Incoming.ack ∷ Standstill.Incoming.settings 5 ∷ [];
}

-- The acknowledgement is handled, and a WINDOW_UPDATE comes that would be enough.
abbrev later : Standstill.Shared
later = record waiting {
  incoming = (Standstill.Incoming.settings 5 ∷ []) ++ Standstill.Incoming.for_stream 1000 ∷ [];
}

Reach-Stuck_example :
    (later.uploader ≡ Standstill.Uploader.drawing 50) × (take_outflow later.windows 50 ≡ none)
unfolding take_outflow available Standstill.Blocked
Reach-Stuck_example =
    Reach-Stuck {s = waiting} {t = later} 50 refl (refl, refl)
      (Standstill.next
        (Standstill.next Standstill.here
          (Standstill.acknowledges (Standstill.Incoming.settings 5 ∷ []) refl))
        (Standstill.arrives (Standstill.Incoming.for_stream 1000)))
