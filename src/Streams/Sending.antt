-- ===== src/Streams/Sending.antt =====
-- internal/transport/h2c/stream.go, `WriteRequestBody`: the whole loop.
use go_http.Base.{ℕ, ◌≤◌, ◌≡◌, arith, true, false, List, [], ◌∷◌, IsWord}
use go_http.Flow.Outflow.{available}
use go_http.Flow.Take.{Windows, draw, take_outflow, take_outflow_exact}
use go_http.Streams.Body.{Round}

-- A round that meets no cancellation, and windows that are positive.
pub record IsReady (r : Round) : Type 0 where
  pub live : r.cancelled ≡ false
  pub stream_word : IsWord r.windows.stream.n
  pub conn_word : IsWord r.windows.conn.n
  pub stream_open : available r.windows.stream ≡ true
  pub conn_open : available r.windows.conn ≡ true

pub data AllReady : List Round → Type 0 where
  no_more : AllReady []
  ready : {r : Round} {rs : List Round} → IsReady r → AllReady rs → AllReady (r ∷ rs)

-- What a round may send: not more than the buffer has, and something if that has anything.
pub draw-some :
    (w : Windows) (n : ℕ)
    → IsWord w.stream.n
    → IsWord w.conn.n
    → IsWord n
    → available w.stream ≡ true
    → available w.conn ≡ true
    → ((draw w n).1 ≤ n) × (1 ≤ n → 1 ≤ (draw w n).1)
unfolding available take_outflow
draw-some w n hs hc hn os oc =
    let e = take_outflow_exact w n hs hc hn os oc in (ground (arith, e), λ h. ground (arith, e, h))
