-- ===== src/Tests/Windows.antt =====
-- The windows of HTTP/2 connections (internal/transport/h2c) at concrete values.
use go_http.Base.{◌+◌, ◌-◌, ◌^◌, true, ◌≡◌, ◌↔◌, refl, arith, min, some, ◌+ℤ◌, signed32, InInt32}
use go_http.Flow.Outflow.{Outflow, available, refund, refund_accepts}
use go_http.Flow.Inflow
use go_http.Flow.Inflow.{Ledger, Step, opened, check_and_pay, Reach-no_panic, check_and_pay_credit}
use go_http.Flow.Take.{Windows, take_outflow, take_outflow_exact}

-- A window of -5, as its pattern.
abbrev negative : Outflow
negative = record { n = 2 ^ 32 - 5 }

refund_accepts_example :
    ((refund negative 7).1 ≡ true) ↔ InInt32 (signed32 negative.n +ℤ signed32 7)
refund_accepts_example = refund_accepts negative 7 (omega arith) (omega arith)

-- 100 bytes for the stream, 30 for the connection.
abbrev windows : Windows
windows = record { stream = record { n = 100 }; conn = record { n = 30 } }

take_outflow_exact_example : take_outflow windows 64 ≡ (
    let k = min 64 (min windows.stream.n windows.conn.n) in
    some (
      record {
        stream = record { n = windows.stream.n - k };
        conn = record { n = windows.conn.n - k };
      },
      k,
    ))
unfolding available
take_outflow_exact_example =
    take_outflow_exact windows 64 (omega arith) (omega arith) (omega arith) refl refl

-- A window of 65535 bytes behind a frame of 1000.
abbrev after_frame : Ledger
after_frame = record {
  fm = (check_and_pay (opened 65535).fm 1000).0;
  held = (opened 65535).held + 1000;
  paid = (opened 65535).paid + 1000;
  over = 0;
  told = 0;
  lost = 0;
}
