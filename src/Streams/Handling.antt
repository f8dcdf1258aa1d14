-- ===== src/Streams/Handling.antt =====
-- internal/transport/h2c/conn.go and controller/pinger.go: every handler is good for every stream.
use go_http.Base.{
  ℕ, ◌≡◌, refl, arith, inl, inr, Bool, true, false, ◌||◌, ◌==◌, ltb, Bool-cases, Option-cases,
  Option, List, [], ◌∷◌, Bytes, sub32,
}
use go_http.Flow.Outflow
use go_http.Flow.Outflow.{Outflow}
use go_http.Controller.Frames.{write_frame, Received}
use go_http.Controller.Closing.{receive_go_away}
use go_http.Streams.Settings.{Setting, update_from}
use go_http.Streams.Opening.{Stream, stream_at, move_windows}
use go_http.Streams.Lives.{Link, send, set_life, reset}
use go_http.Streams.Dispatch.{returns, Reader, go_away}
use go_http.Streams.Handlers.{
  on_stream_reset, drop_stream, reset_above, on_go_away, widen, on_window_update, apply_settings,
  on_settings, handle,
}
use go_http.Streams.Ends.{
  only_connection, Goes, same-Goes, is_active, is_active-delete, is_active-put,
  is_active-move_windows, Outcome, Outcome-after, Outcome-bind, choose_handled, stream_at-active,
  with_stream-Goes, reset-Goes,
}
use go_http.Streams.Messages.{on_data-Goes, on_header-Goes}

on_stream_reset-Goes :
    (j : ℕ) (l : Link) (id code : ℕ) → Outcome (Goes j l) (on_stream_reset l id code)
unfolding on_stream_reset
on_stream_reset-Goes j l id code = elim (Bool-cases (code == 0)) [
  | inl e ↦ rw (e, on_stream_reset) (same-Goes refl refl (λ q. q))
  | inr e ↦
      rw (e, on_stream_reset)
        (with_stream-Goes j l id (λ l'. (returns (reset l' id code true), false))
          (λ live. reset-Goes j l id code true))
]

drop_stream-Goes : (j : ℕ) (l : Link) (id : ℕ) → Outcome (Goes j l) (drop_stream l id)
unfolding drop_stream set_life
drop_stream-Goes j l id =
    let a = is_active-delete j id l.conn.active_streams in
    elim (Bool-cases ((l.lives id).rst_used || (l.lives id).done)) [
      | inr e ↦ rw (e, drop_stream) (record {})
      | inl e ↦
          rw (e, drop_stream)
            (record {
              sound = λ s. record {
                active = ground (arith, s.active, a);
                used = ground (arith, s.used, a);
              };
              settled = λ s d. record {
                still_done = ground arith;
                reason = ground arith;
                bytes = ground arith;
              };
              updates = λ q. ground arith;
            })
    ]

reset_above-Goes :
    (j : ℕ) (l : Link) (last : ℕ) (ps : List (ℕ × Stream))
    → Outcome (Goes j l) (reset_above l last ps)
unfolding reset_above
reset_above-Goes j l last [] = same-Goes refl refl (λ q. q)
reset_above-Goes j l last (p ∷ ps) = elim (Bool-cases (ltb last p.0)) [
  | inr e ↦ rw (e, reset_above) (reset_above-Goes j l last ps)
  | inl e ↦
      rw (e, reset_above)
        (Outcome-bind (Goes j l) (drop_stream l p.0) _ (drop_stream-Goes j l p.0)
          (λ l' h. Outcome-after (reset_above l' last ps) h (reset_above-Goes j l' last ps)))
]

on_go_away-Goes :
    (j : ℕ) (l : Link) (last code : ℕ) (debug : Bytes)
    → Outcome (Goes j l) (on_go_away l last code debug)
unfolding on_go_away receive_go_away
on_go_away-Goes j l last code debug =
    let r = receive_go_away l.controller code debug in
    let l' = record l { controller = r.0 } in
    let kept : Goes j l l' = same-Goes refl refl (λ q. ground arith) in
    choose_handled (Goes j l) r.1 _ _
      (Outcome-after (reset_above l' last l.conn.active_streams) kept
        (reset_above-Goes j l' last l.conn.active_streams))
      kept

widen-Goes :
    (j : ℕ) (l : Link) (id increment : ℕ)
    → (l.lives id).done ≡ false
    → Outcome (Goes j l) (widen id increment l).0
unfolding widen
widen-Goes j l id increment live = elim (Option-cases (stream_at id l.conn.active_streams)) [
  | inl e ↦ rw (e, widen) (same-Goes refl refl (λ q. q))
  | inr e ↦ elim (Bool-cases ((Outflow.refund e.0.outflow increment).1)) [
    | inl k ↦
        rw (e.1, k, widen)
          (same-Goes refl
            (ground (
              arith,
              is_active-put j id
                  (record (e.0) { outflow = (Outflow.refund e.0.outflow increment).0 })
                  l.conn.active_streams,
              stream_at-active id e.0 l.conn.active_streams,
            ))
            (λ q. q))
    | inr k ↦ rw (e.1, k, widen) (reset-Goes j l id _ false)
  ]
]

on_window_update-Goes :
    (j : ℕ) (l : Link) (id increment : ℕ) → Outcome (Goes j l) (on_window_update l id increment)
unfolding on_window_update go_away only_connection write_frame
on_window_update-Goes j l id increment =
    choose_handled (Goes j l) (id == 0) _ _
      (same-Goes (ground arith) (ground arith) (λ q. ground arith))
      (with_stream-Goes j l id (widen id increment) (widen-Goes j l id increment))

is_active-apply_settings :
    (j : ℕ) (calls : List (ℕ × ℕ × ℕ)) (ps : List (ℕ × Stream))
    → is_active j (apply_settings calls ps) ≡ is_active j ps
unfolding apply_settings
is_active-apply_settings j [] ps = refl
is_active-apply_settings j (c ∷ cs) ps = ground (
  arith,
  is_active-apply_settings j cs ps,
  is_active-apply_settings j cs (move_windows (sub32 c.2 c.1) ps),
  is_active-move_windows j (sub32 c.2 c.1) ps,
)

-- The parameter: `Setting.Valid`, with the code of its error.
module _ (valid : Setting → Option ℕ) where
  on_settings-Goes :
      (j : ℕ) (l : Link) (ack : Bool) (ss : List Setting) → Goes j l (on_settings valid l ack ss)
  unfolding on_settings go_away send only_connection write_frame
  on_settings-Goes j l ack ss =
      let calls = (update_from valid 1 l.peer ss).calls in
      let a = is_active-apply_settings j calls l.conn.active_streams in
      same-Goes (ground arith) (ground (arith, a)) (λ q. ground arith)

  pub handle-Goes :
      (j : ℕ) (l : Link) (f : Received) (reader : Reader) (taken : Bool)
      → Outcome (Goes j l) (handle valid l f reader taken)
  unfolding handle send only_connection write_frame
  handle-Goes j l (Received.settings ack ss) reader taken = on_settings-Goes j l ack ss
  handle-Goes j l (Received.go_away last code debug) reader taken =
      on_go_away-Goes j l last code debug
  handle-Goes j l (Received.rst_stream id code) reader taken = on_stream_reset-Goes j l id code
  handle-Goes j l (Received.window_update id inc) reader taken = on_window_update-Goes j l id inc
  handle-Goes j l (Received.ping ack id payload) reader taken =
      same-Goes (ground arith) (ground arith) (λ q. ground arith)
  handle-Goes j l (Received.headers id ended) reader taken = on_header-Goes j l id ended taken
  handle-Goes j l (Received.body id ended bs padding) reader taken =
      on_data-Goes j l id bs ended padding reader
  handle-Goes j l Received.other reader taken = same-Goes refl refl (λ q. q)
