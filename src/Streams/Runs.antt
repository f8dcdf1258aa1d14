-- ===== src/Streams/Runs.antt =====
-- internal/transport/h2c/conn.go and stream.go: what holds over all frames and calls on a connection.
use go_http.Base.{
  ℕ, ◌≡◌, refl, subst, arith, Bool, true, false, ◌||◌, Option, none, some, List, ◌∷◌, if◌then◌else◌,
  Bytes,
}
use go_http.Controller.Frames.{write_frame, Received, Sent, Framer}
use go_http.Controller.Closing.{receive_go_away, new_controller}
use go_http.Streams.Settings.{Setting, Settings}
use go_http.Streams.Opening.{Stream, stream_at, put, fund}
use go_http.Streams.Lives.{Link, new_life, send, close_with_error, reset}
use go_http.Streams.Dispatch.{returns, blocks, Reader, go_away}
use go_http.Streams.Handlers.{on_go_away, handle, new_link, open_stream}
use go_http.Streams.Ends.{
  only_connection, Goes, Goes-trans, Settled, Sound, same-Goes, is_active, is_active-put, Outcome,
  stream_at-active, reset-Goes, close_with_error-Goes,
}
use go_http.Streams.Handling.{handle-Goes}
use go_http.Flow.Take.{Windows, take_outflow}
use go_http.Streams.Starting.{
  is_active-fund, opens-Goes, any_above, reset_above-blocks, receive_go_away-calls,
}

-- The frames that a stream sends for its request.
abbrev pub of_request : Sent → Bool
of_request (Sent.headers id) = true
of_request (Sent.body id ended bs) = true
of_request other = false

of_request-only :
    (s : Sent) (ss : List Sent)
    → of_request s ≡ true
    → only_connection ss ≡ true
    → only_connection (s ∷ ss) ≡ true
unfolding only_connection
of_request-only s ss e q = ground arith

-- The parameter: `Setting.Valid`, with the code of its error.
module _ (valid : Setting → Option ℕ) where
  -- What can happen on a connection: the read loop handles a frame and returns from it, a stream is
  -- opened, whose identifier has not been in use, and gets its windows, is reset or closed from this
  -- side, sends a part of its request, or draws on the windows; or the connection says GOAWAY.
  pub data Step (l : Link) : Link → Type 0 where
    handles :
        (f : Received) (reader : Reader) (taken : Bool) (l' : Link)
        → handle valid l f reader taken ≡ returns l'
        → Step l l'
    opens : (id : ℕ) (l' : Link) → l.lives id ≡ new_life → open_stream l ≡ some (l', id) → Step l l'
    funds : (id : ℕ) → Step l (record l { conn = fund l.conn id })
    resets : (id code : ℕ) → Step l (reset l id code false)
    closes : (id : ℕ) → Step l (close_with_error l id none)
    sends : (s : Sent) → of_request s ≡ true → Step l (send l s)
    draws :
        (id sz : ℕ) (s : Stream) (w : Windows) (k : ℕ)
        → stream_at id l.conn.active_streams ≡ some s
        → take_outflow (record { stream = s.outflow; conn = l.outflow }) sz ≡ some (w, k)
        → Step l (record l {
          outflow = w.conn;
          conn = record (l.conn) {
            active_streams = put id (record s { outflow = w.stream }) l.conn.active_streams;
          };
        })
    goes_away : (code : ℕ) (debug : Bytes) → Step l (go_away l code debug)

  pub data Reach (s : Link) : Link → Type 0 where
    here : Reach s s
    next : {l m : Link} → Reach s l → Step l m → Reach s m

  Step-Goes : (j : ℕ) {l l' : Link} → Step l l' → Goes j l l'
  unfolding send go_away only_connection write_frame
  Step-Goes j {l} (handles f reader taken l' e) =
      subst (Outcome (Goes j l)) e (handle-Goes valid j l f reader taken)
  Step-Goes j {l} (opens id l' fresh e) = opens-Goes j l id l' fresh e
  Step-Goes j {l} (funds id) = same-Goes refl (is_active-fund j l.conn id) (λ q. q)
  Step-Goes j {l} (resets id code) = reset-Goes j l id code false
  Step-Goes j {l} (closes id) = close_with_error-Goes j l id none
  Step-Goes j {l} (sends s e) =
      same-Goes refl refl (λ q. of_request-only s l.controller.framer.sent e q)
  Step-Goes j {l} (draws id sz s w k e t) =
      same-Goes refl
        (ground (
          arith,
          is_active-put j id (record s { outflow = w.stream }) l.conn.active_streams,
          stream_at-active id s l.conn.active_streams e,
        ))
        (λ q. q)
  Step-Goes j {l} (goes_away code debug) =
      same-Goes (ground arith) (ground arith) (λ q. ground arith)

  pub Reach-Goes : (j : ℕ) {l l' : Link} → Reach l l' → Goes j l l'
  Reach-Goes j here = same-Goes refl refl (λ q. q)
  Reach-Goes j (next r s) = Goes-trans (Reach-Goes j r) (Step-Goes j s)

  -- At every point of a connection's life, a stream that is in the map is not done, and a stream that
  -- was reset is done.
  pub Reach-Sound :
      (id : ℕ) (framer : Framer) (self_settings : Settings) {l : Link}
      → Reach (new_link framer self_settings) l
      → Sound id l
  unfolding new_link is_active
  Reach-Sound id framer self_settings r =
      (Reach-Goes id r).sound (record { active = λ e. ground arith; used = λ e. ground arith })

  -- Once a stream is done, it stays done and out of the map, and neither the reason of its end nor the
  -- bytes that its reader got change, whatever frames come and whatever else happens.
  pub Reach-Settled :
      (id : ℕ) (framer : Framer) (self_settings : Settings) {l l' : Link}
      → Reach (new_link framer self_settings) l
      → (l.lives id).done ≡ true
      → Reach l l'
      → Settled id l l' × (is_active id l'.conn.active_streams ≡ false)
  Reach-Settled id framer self_settings {l} {l'} r d later =
      let sound = Reach-Sound id framer self_settings r in
      let g = Reach-Goes id later in
      let settled = g.settled sound d in
      (settled, ground (arith, (g.sound sound).active, settled.still_done))

  -- Every WINDOW_UPDATE that a connection sends in its life is for the connection, never for a stream.
  pub Reach-only_connection :
      (framer : Framer) (self_settings : Settings) {l : Link}
      → only_connection framer.sent ≡ true
      → Reach (new_link framer self_settings) l
      → only_connection l.controller.framer.sent ≡ true
  unfolding new_link new_controller
  Reach-only_connection framer self_settings q r = (Reach-Goes 0 r).updates q

  -- `GOAWAY` of the peer, on a connection that has not come to its end: the handler never returns if a
  -- stream is active whose identifier is above the peer's last one, and otherwise it leaves the streams
  -- as they are.
  pub on_go_away-blocks :
      (framer : Framer) (self_settings : Settings) (last code : ℕ) (debug : Bytes) {l : Link}
      → Reach (new_link framer self_settings) l
      → l.controller.once ≡ false
      → on_go_away l last code debug ≡ (
          if any_above last l.conn.active_streams
          then blocks
          else returns (record l { controller = (receive_go_away l.controller code debug).0 }))
  unfolding on_go_away
  on_go_away-blocks framer self_settings last code debug {l} r o =
      let l' = record l { controller = (receive_go_away l.controller code debug).0 } in
      let live : (id : ℕ)
          → is_active id l.conn.active_streams ≡ true
          → ((l.lives id).done || (l.lives id).rst_used) ≡ false =
        λ id a.
          let sound = Reach-Sound id framer self_settings r in
          ground (arith, sound.active, sound.used, a) in
      rw (receive_go_away-calls l.controller code debug o, on_go_away)
        (reset_above-blocks l' last l.conn.active_streams live)
