-- ===== src/Streams/Padding.antt =====
-- internal/transport/h2c/conn.go, the handler of DATA: what becomes of the padding of a frame.
use go_http.Base.{ℕ, ◌+◌, ◌-◌, ◌≤◌, ◌<◌, ◌≡◌, arith, false, ◌==◌}
use go_http.Flow.Inflow
use go_http.Flow.Inflow.{max_flow_control_window}
use go_http.Streams.Lives.{Link}
use go_http.Streams.Dispatch.{returns, refund_inflow, pay_data}
use go_http.Streams.Accounts.{counted, charge-counted}

-- Padding that brings what waits to be announced to 4096 bytes or more: the handler adds all of that to
-- the window, forgets it and sends no frame, so that the peer never learns of it. The frame is within
-- the window, and the count is below 2^31.
pub pay_data-unannounced :
    (l : Link) (size padding : ℕ)
    → 0 < padding
    → padding ≤ size
    → size ≤ l.inflow.remaining
    → counted l ≤ max_flow_control_window
    → Inflow.inflow_min_refresh ≤ l.inflow.queued + padding
    → pay_data l size padding
      ≡ returns (record l {
        inflow = record {
          remaining = l.inflow.remaining - size + (l.inflow.queued + padding);
          queued = 0;
        };
      })
unfolding pay_data refund_inflow Inflow.refund counted
pay_data-unannounced l size padding z p h k q =
    let c = charge-counted l size h (omega arith) in
    let some_padding : (padding == 0) ≡ false = ground arith in
    rw (some_padding, c, pay_data) (ground arith)
