-- ===== src/Tests/Links.antt =====
-- The streams of an HTTP/2 connection (internal/transport/h2c/conn.go, stream.go) at concrete frames.
use go_http.Base.{
  ℕ, ◌+◌, ◌≡◌, refl, arith, true, false, [], Option, none, some, codes, length, if◌then◌else◌,
}
use go_http.Controller.Frames.{Framer, Received}
use go_http.Controller.Closing.{receive_go_away, new_controller}
use go_http.Streams.Settings.{Setting, new_self_settings, new_peer_settings}
use go_http.Flow.Inflow
use go_http.Streams.Opening.{new_connection, delete, put}
use go_http.Streams.Lives.{Link, reset, is_valid}
use go_http.Streams.Dispatch.{Handled, returns, panics, blocks, Reader, on_data}
use go_http.Streams.Handlers.{new_link, open_stream, handle, on_go_away}
use go_http.Streams.Ends.{Settled, is_active, only_connection}
use go_http.Streams.Runs.{
  opens, resets, handles, here, next, Reach-Settled, Reach-only_connection, on_go_away-blocks,
}
use go_http.Streams.Starting.{any_above}
use go_http.Streams.Accounts.{counted, lost, on_data-counted}

abbrev all_valid : Setting → Option ℕ
all_valid s = none

abbrev wire : Framer
wire = record { sent = []; plan = [] }

abbrev fresh_link : Link
fresh_link = new_link wire new_self_settings

-- The state behind a step that succeeds.
abbrev opened : Option (Link × ℕ) → Link
opened none = fresh_link
opened (some r) = r.0

abbrev returned : Handled → Link
returned (returns l) = l
returned panics = fresh_link
returned blocks = fresh_link

abbrev with_stream_1 : Link
with_stream_1 = opened (open_stream fresh_link)

abbrev after_reset : Link
after_reset = reset with_stream_1 1 8 false

abbrev late_data : Received
late_data = Received.body 1 true (codes "hi") 0

abbrev after_data : Link
after_data = returned (handle all_valid after_reset late_data Reader.reads_on true)

Reach-Settled_example :
    Settled 1 after_reset after_data × (is_active 1 after_data.conn.active_streams ≡ false)
unfolding new_link new_controller new_connection new_peer_settings Inflow.reset_initial_balance
    new_self_settings open_stream reset handle Inflow.check_and_pay delete put
Reach-Settled_example =
    Reach-Settled all_valid 1 wire new_self_settings {l = after_reset} {l' = after_data}
      (next (next here (opens 1 with_stream_1 refl refl)) (resets 1 8)) refl
      (next here (handles late_data Reader.reads_on true after_data refl))

Reach-only_connection_example : only_connection after_reset.controller.framer.sent ≡ true
unfolding new_link new_controller new_connection new_peer_settings Inflow.reset_initial_balance
    new_self_settings open_stream only_connection
Reach-only_connection_example =
    Reach-only_connection all_valid wire new_self_settings {l = after_reset} refl
      (next (next here (opens 1 with_stream_1 refl refl)) (resets 1 8))

on_go_away-blocks_example : on_go_away with_stream_1 0 2 [] ≡ (
    if any_above 0 with_stream_1.conn.active_streams
    then blocks
    else returns
        (record with_stream_1 { controller = (receive_go_away with_stream_1.controller 2 []).0 }))
unfolding new_link new_controller new_connection new_peer_settings Inflow.reset_initial_balance
    new_self_settings open_stream
on_go_away-blocks_example =
    on_go_away-blocks all_valid wire new_self_settings 0 2 [] {l = with_stream_1}
      (next here (opens 1 with_stream_1 refl refl)) refl

on_data-counted_example :
    (l : Link) × (on_data with_stream_1 3 (codes "hello") true 2 Reader.reads_on ≡ returns l)
    × (counted l + lost (is_valid with_stream_1 3) (length (codes "hello")) Reader.reads_on
        ≡ counted with_stream_1)
unfolding new_link new_controller new_connection new_peer_settings Inflow.reset_initial_balance
    new_self_settings open_stream counted
on_data-counted_example =
    on_data-counted with_stream_1 3 (codes "hello") true 2 Reader.reads_on (λ e. ground arith)
      (omega arith) (omega arith)
