-- ===== src/Streams/Starting.antt =====
-- internal/transport/h2c/conn.go: what the opening of a stream and the peer's GOAWAY do to the map of
-- streams.
use go_http.Base.{
  ℕ, ◌≡◌, refl, subst, arith, inl, inr, Bool, true, false, ◌||◌, ◌==◌, ltb, Bool-cases,
  Option-cases, some, List, [], ◌∷◌, if◌then◌else◌, Bytes,
}
use go_http.Controller.Closing.{Controller, receive_go_away}
use go_http.Streams.Opening.{
  Connection, Stream, stream_at, put, assign_stream_id, fund, new_stream, open_windows,
}
use go_http.Streams.Lives.{Link, new_life, set_life}
use go_http.Streams.Dispatch.{returns, blocks}
use go_http.Streams.Handlers.{drop_stream, reset_above, open_stream}
use go_http.Streams.Ends.{Goes, is_active, is_active-put, stream_at-active}

pub is_active-fund :
    (j : ℕ) (c : Connection) (id : ℕ)
    → is_active j (fund c id).active_streams ≡ is_active j c.active_streams
unfolding fund
is_active-fund j c id = elim (Option-cases (stream_at id c.active_streams)) [
  | inl e ↦ rw (e, fund) refl
  | inr e ↦
      rw (e.1, fund)
        (ground (
          arith,
          is_active-put j id (open_windows c.peer_window c.self_window e.0) c.active_streams,
          stream_at-active id e.0 c.active_streams,
        ))
]

-- What `AssignStreamID` leaves, in a successful opening.
open_stream-assigned :
    (l : Link) (id : ℕ) (l' : Link)
    → open_stream l ≡ some (l', id)
    → (d : Connection) × (assign_stream_id l.conn ≡ some (d, id))
      × (set_life (record l { conn = d }) id new_life ≡ l')
unfolding open_stream
open_stream-assigned l id l' e = elim (Option-cases (assign_stream_id l.conn)) [
  | inl n ↦ ground arith
  | inr a ↦ (a.0.0, ground (arith, a.1), ground (arith, a.1))
]

pub opens-Goes :
    (j : ℕ) (l : Link) (id : ℕ) (l' : Link)
    → l.lives id ≡ new_life
    → open_stream l ≡ some (l', id)
    → Goes j l l'
unfolding set_life assign_stream_id
opens-Goes j l id l' fresh e =
    let o = open_stream-assigned l id l' e in
    let streams : put id new_stream l.conn.active_streams ≡ (o.0).active_streams =
      ground (arith, o.1) in
    let a : is_active j (o.0).active_streams ≡ ((j == id) || is_active j l.conn.active_streams) =
      subst (λ ps. is_active j ps ≡ ((j == id) || is_active j l.conn.active_streams)) streams
        (is_active-put j id new_stream l.conn.active_streams) in
    subst (Goes j l) o.2 (record {
      sound =
          λ s. record { active = ground (arith, s.active, a); used = ground (arith, s.used, a) };
      settled =
          λ s d. record { still_done = ground arith; reason = ground arith; bytes = ground arith };
      updates = λ q. q;
    })

-- Some identifier is above `last`.
unfoldable pub any_above : ℕ → List (ℕ × Stream) → Bool
any_above last [] = false
any_above last (p ∷ ps) = ltb last p.0 || any_above last ps

-- The loop blocks at the first stream above, if no stream above is done.
pub reset_above-blocks :
    (l : Link) (last : ℕ) (ps : List (ℕ × Stream))
    → ((id : ℕ) → is_active id ps ≡ true → ((l.lives id).done || (l.lives id).rst_used) ≡ false)
    → reset_above l last ps ≡ (if any_above last ps then blocks else returns l)
unfolding reset_above any_above drop_stream is_active stream_at
reset_above-blocks l last [] live = refl
reset_above-blocks l last (p ∷ ps) live =
    let here = live p.0 (ground arith) in
    let rest = reset_above-blocks l last ps (λ id a. live id (ground (arith, a))) in
    elim (Bool-cases (ltb last p.0)) [
      | inr e ↦ rw (e, reset_above, any_above) rest
      | inl e ↦ rw (e, reset_above, any_above) (ground (arith, here))
    ]

pub receive_go_away-calls :
    (c : Controller) (code : ℕ) (debug : Bytes)
    → c.once ≡ false
    → (receive_go_away c code debug).1 ≡ true
unfolding receive_go_away
receive_go_away-calls c code debug o = ground arith
