-- ===== src/Streams/Accounts.antt =====
-- internal/transport/h2c/conn.go: what a DATA frame does to the receive window of the connection.
use go_http.Base.{
  ℕ, ◌+◌, ◌-◌, ◌≤◌, ◌≡◌, ◌≢◌, refl, arith, inl, inr, Bool, true, false, ◌==◌, leb, Bool-cases, some,
  if◌then◌else◌, length, take, Bytes, add32,
}
use go_http.Flow.Inflow
use go_http.Flow.Inflow.{Inflow, check_and_pay, max_flow_control_window}
use go_http.Controller.Frames.{Sent}
use go_http.Streams.Lives.{Link, close_with_error, set_life, send, reset, is_valid}
use go_http.Streams.Dispatch.{
  returns, Reader, refund_inflow, give_back, close_pipe, end_stream, with_stream, deliver, pass_all,
  take_data, pay_data, on_data, charge, internal_error, stream_closed,
}

-- What the connection's window counts: what the peer may send, and what waits to be announced.
unfoldable pub counted : Link → ℕ
counted l = l.inflow.remaining + l.inflow.queued

refund_inflow-counted :
    (l : Link) (n : ℕ)
    → counted l + n ≤ max_flow_control_window
    → (inflow : Inflow) × (increment : ℕ) × (refund_inflow l n
        ≡ some (record l { inflow = inflow }, increment))
      × (inflow.remaining + inflow.queued ≡ counted l + n)
unfolding refund_inflow Inflow.refund counted
refund_inflow-counted l n h =
    elim (Bool-cases (leb Inflow.inflow_min_refresh (add32 l.inflow.queued n))) [
      | inl e ↦ (
        record { remaining = l.inflow.remaining + l.inflow.queued + n; queued = 0 },
        l.inflow.queued + n,
        ground arith,
        omega arith,
      )
      | inr e ↦ (
        record { remaining = l.inflow.remaining; queued = l.inflow.queued + n },
        0,
        ground arith,
        omega arith,
      )
    ]

give_back-counted :
    (l : Link) (n : ℕ)
    → counted l + n ≤ max_flow_control_window
    → (l' : Link) × (give_back l n ≡ returns l') × (counted l' ≡ counted l + n)
unfolding give_back send counted
give_back-counted l n h =
    let r = refund_inflow-counted l n h in
    (
      if r.1 == 0
          then record l { inflow = r.0 }
          else send (record l { inflow = r.0 }) (Sent.window_update 0 r.1),
      rw (r.2, give_back) refl,
      ground (arith, r.3),
    )

end_stream-counted :
    (l : Link) (id : ℕ) (ended : Bool) → counted (end_stream ended l id) ≡ counted l
unfolding end_stream close_pipe close_with_error set_life counted
end_stream-counted l id ended = ground arith

reset-counted :
    (l : Link) (id code : ℕ) (received : Bool) → counted (reset l id code received) ≡ counted l
unfolding reset close_with_error set_life send counted
reset-counted l id code received = ground arith

pass_all-counted :
    (l : Link) (id : ℕ) (bs : Bytes) (ended : Bool)
    → counted l + length bs ≤ max_flow_control_window
    → (l' : Link) × (pass_all id bs ended l ≡ (returns l', false))
      × (counted l' ≡ counted l + length bs)
unfolding pass_all deliver set_life counted
pass_all-counted l id bs ended h = elim (Bool-cases (length bs == 0)) [
  | inl z ↦ (
    end_stream ended (deliver l id bs) id,
    rw (z, pass_all) refl,
    ground (arith, end_stream-counted (deliver l id bs) id ended),
  )
  | inr z ↦
      let g = give_back-counted (deliver l id bs) (length bs) h in
      (
        end_stream ended g.0 id,
        rw (z, g.1, pass_all) refl,
        ground (arith, end_stream-counted g.0 id ended, g.2),
      )
]

-- The bytes of a frame that are never counted again.
abbrev pub lost : Bool → ℕ → Reader → ℕ
lost false size reader = size
lost true size Reader.reads_on = 0
lost true size Reader.stops = 0
lost true size (Reader.closes taken) = if leb size taken then 0 else taken

take_data-counted :
    (l : Link) (id : ℕ) (bs : Bytes) (ended : Bool) (reader : Reader)
    → reader ≢ Reader.stops
    → counted l + length bs ≤ max_flow_control_window
    → (l' : Link) × (failed : Bool) × (take_data id bs ended reader l ≡ (returns l', failed))
      × (counted l' + lost true (length bs) reader ≡ counted l + length bs)
unfolding take_data deliver set_life counted
take_data-counted l id bs ended Reader.reads_on r h =
    let p = pass_all-counted l id bs ended h in (p.0, false, p.1, ground (arith, p.2))
take_data-counted l id bs ended Reader.stops r h = absurd (r refl)
take_data-counted l id bs ended (Reader.closes n) r h = elim (Bool-cases (leb (length bs) n)) [
  | inl z ↦
      let p = pass_all-counted l id bs ended h in
      (p.0, false, rw (z, take_data) (p.1), ground (arith, p.2))
  | inr z ↦
      let g = give_back-counted (deliver l id (take n bs)) (length bs - n) (ground arith) in
      (g.0, true, rw (z, g.1, take_data) refl, ground (arith, g.2))
]

with_stream-counted :
    (l : Link) (id : ℕ) (bs : Bytes) (ended : Bool) (reader : Reader)
    → reader ≢ Reader.stops
    → counted l + length bs ≤ max_flow_control_window
    → (l' : Link) × (with_stream l id (take_data id bs ended reader) ≡ returns l')
      × (counted l' + lost (is_valid l id) (length bs) reader ≡ counted l + length bs)
unfolding with_stream send counted
with_stream-counted l id bs ended reader r h = elim (Bool-cases (is_valid l id)) [
  | inr v ↦
      (send l (Sent.rst_stream id stream_closed), rw (v, with_stream) refl, rw (v) (ground arith))
  | inl v ↦
      let t = take_data-counted l id bs ended reader r h in
      elim (Bool-cases (t.1)) [
        | inl f ↦ (
          reset t.0 id internal_error false,
          rw (v, t.2, f, with_stream) refl,
          rw (v) (ground (arith, t.3, reset-counted t.0 id internal_error false)),
        )
        | inr f ↦ (t.0, rw (v, t.2, f, with_stream) refl, rw (v) (t.3))
      ]
]

pub charge-counted :
    (l : Link) (size : ℕ)
    → size ≤ l.inflow.remaining
    → l.inflow.remaining ≤ max_flow_control_window
    → (charge l size ≡ record l {
      inflow = record { remaining = l.inflow.remaining - size; queued = l.inflow.queued };
    })
unfolding charge check_and_pay
charge-counted l size h k = ground arith

pay_data-counted :
    (l : Link) (size padding : ℕ)
    → size ≤ l.inflow.remaining
    → padding ≤ size
    → counted l ≤ max_flow_control_window
    → (inflow : Inflow) × (pay_data l size padding ≡ returns (record l { inflow = inflow }))
      × (inflow.remaining + inflow.queued + size ≡ counted l + padding)
unfolding pay_data counted
pay_data-counted l size padding h p k =
    let c = charge-counted l size h (omega arith) in
    elim (Bool-cases (padding == 0)) [
      | inl z ↦ (
        record { remaining = l.inflow.remaining - size; queued = l.inflow.queued },
        rw (z, c, pay_data) refl,
        ground arith,
      )
      | inr z ↦
          let r =
            refund_inflow-counted
              (record l {
                inflow = record { remaining = l.inflow.remaining - size; queued = l.inflow.queued };
              })
              padding (omega arith) in
          (r.0, rw (z, c, r.2, pay_data) refl, ground (arith, r.3))
    ]

-- A DATA frame that fits the connection's window, whose count is below 2^31: the handler returns unless
-- the reader has stopped, and the window counts as before but for the bytes that are lost. Those are all
-- of the frame's data if the stream is not valid, and for a reader that closes its end within the frame
-- the bytes that it still took.
pub on_data-counted :
    (l : Link) (id : ℕ) (bs : Bytes) (ended : Bool) (padding : ℕ) (reader : Reader)
    → reader ≢ Reader.stops
    → counted l ≤ max_flow_control_window
    → length bs + padding ≤ l.inflow.remaining
    → (l' : Link) × (on_data l id bs ended padding reader ≡ returns l')
      × (counted l' + lost (is_valid l id) (length bs) reader ≡ counted l)
unfolding on_data counted is_valid
on_data-counted l id bs ended padding reader r k h =
    let p = pay_data-counted l (length bs + padding) padding h (omega arith) k in
    let w =
      with_stream-counted (record l { inflow = p.0 }) id bs ended reader r (omega (arith, p.2)) in
    (w.0, rw (p.1, on_data) (w.1), ground (arith, w.2, p.2))
