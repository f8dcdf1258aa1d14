-- ===== src/Flow/Take.antt =====
-- internal/transport/h2c/stream.go, `takeOutflow`: a stream draws on its own window and on the
-- connection's, under the lock of `condOutflow`.
use go_http.Base.{
  ℕ, ◌-◌, true, ◌&&◌, ◌≡◌, ◌⊎◌, ◌↔◌, ◌≤ℤ◌, arith, ltb, if◌then◌else◌, sub32, IsWord, pos, signed32,
  Option, none, some, min,
}
use go_http.Flow.Outflow.{Outflow, available, pay, refund}

-- The two windows, the stream's first.
pub record Windows : Type 0 where
  pub stream : Outflow
  pub conn : Outflow

-- The body of `takeOutflow` behind the wait.
abbrev pub draw : Windows → ℕ → Windows × ℕ
draw w sz =
    let first = pay w.stream sz in
    let second = pay w.conn first.1 in
    let stream =
      if ltb second.1 first.1 then (refund first.0 (sub32 first.1 second.1)).0 else first.0 in
    (record { stream = stream; conn = second.0 }, second.1)

-- `none`: the loop goes on waiting.
unfoldable pub take_outflow : Windows → ℕ → Option (Windows × ℕ)
take_outflow w sz = if available w.stream && available w.conn then some (draw w sz) else none

-- With both windows positive, the call takes the smallest of the size and the two windows, and both
-- windows go down by exactly that.
pub take_outflow_exact :
    (w : Windows) (sz : ℕ)
    → IsWord w.stream.n
    → IsWord w.conn.n
    → IsWord sz
    → available w.stream ≡ true
    → available w.conn ≡ true
    → take_outflow w sz ≡ (
        let k = min sz (min w.stream.n w.conn.n) in
        some (
          record { stream = record { n = w.stream.n - k }; conn = record { n = w.conn.n - k } },
          k,
        ))
unfolding take_outflow available pay refund
take_outflow_exact w sz hs hc hz open_stream open_conn = ground arith

-- `takeOutflow` waits exactly while the stream's or the connection's window is not positive, whatever
-- the size, 0 included.
pub take_outflow_waits :
    (w : Windows) (sz : ℕ)
    → IsWord w.stream.n
    → IsWord w.conn.n
    → (take_outflow w sz ≡ none) ↔ ((signed32 w.stream.n ≤ℤ pos 0) ⊎ (signed32 w.conn.n ≤ℤ pos 0))
unfolding take_outflow available
take_outflow_waits w sz hs hc = ground arith
