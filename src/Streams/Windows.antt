-- ===== src/Streams/Windows.antt =====
-- internal/transport/h2c/conn.go: the send window of a stream that is opened while the peer changes its
-- initial window.
use go_http.Base.{
  ℕ, ◌+◌, ◌*◌, ◌^◌, ◌<◌, ◌≡◌, refl, ap, sym, subst, ◌∙◌, arith, List, [], ◌∷◌, Option, none, some,
  sub32, pos, ◌-ℤ◌, signed32,
}
use go_http.Flow.Outflow.{refund}
use go_http.Streams.Opening.{
  Stream, Connection, new_stream, stream_at, put, assign_stream_id, open_windows, fund,
  move_windows, change_window,
}

-- The send window of a stream, 0 without it.
unfoldable pub window_of : Connection → ℕ → ℕ
unfolding stream_at
window_of c id = elim (stream_at id c.active_streams) [ none ↦ 0 | some s ↦ s.outflow.n ]

stream_at-put : (id : ℕ) (s : Stream) (ps : List (ℕ × Stream)) → stream_at id (put id s ps) ≡ some s
unfolding stream_at put
stream_at-put id s [] = ground arith
stream_at-put id s (p ∷ ps) = ground (arith, stream_at-put id s ps)

moved : ℕ → Option Stream → Option Stream
moved delta none = none
moved delta (some s) = some (record s { outflow = (refund s.outflow delta).0 })

stream_at-move_windows :
    (delta id : ℕ) (ps : List (ℕ × Stream))
    → stream_at id (move_windows delta ps) ≡ moved delta (stream_at id ps)
unfolding stream_at move_windows moved
stream_at-move_windows delta id [] = refl
stream_at-move_windows delta id (p ∷ ps) = ground (arith, stream_at-move_windows delta id ps)

funded_then_moved :
    (old new : ℕ)
    → old < 2 ^ 31
    → new < 2 ^ 31
    → (refund (refund (record { n = 0 }) old).0 (sub32 new old)).0.n ≡ new
unfolding refund
funded_then_moved old new h k = ground arith

moved_then_funded :
    (old new : ℕ)
    → old < 2 ^ 31
    → 2 * new < 2 ^ 31 + old
    → new < 2 ^ 31
    → signed32 (refund (refund (record { n = 0 }) (sub32 new old)).0 new).0.n
      ≡ pos (2 * new) -ℤ pos old
unfolding refund
moved_then_funded old new h k l = ground arith

window_of-some :
    (c : Connection) (id : ℕ) (s : Stream)
    → stream_at id c.active_streams ≡ some s
    → window_of c id ≡ s.outflow.n
unfolding window_of
window_of-some c id s e = rw (e, window_of) refl

assigned_new :
    (c d : Connection) (id : ℕ)
    → assign_stream_id c ≡ some (d, id)
    → (stream_at id d.active_streams ≡ some new_stream) × (d.peer_window ≡ c.peer_window)
unfolding assign_stream_id
assigned_new c d id e =
    let streams : put id new_stream c.active_streams ≡ d.active_streams = ground arith in
    (
      subst (λ ps. stream_at id ps ≡ some new_stream) streams
          (stream_at-put id new_stream c.active_streams),
      ground arith,
    )

fund_at :
    (c : Connection) (id : ℕ) (s : Stream)
    → stream_at id c.active_streams ≡ some s
    → (stream_at id (fund c id).active_streams ≡ some (open_windows c.peer_window c.self_window s))
      × ((fund c id).peer_window ≡ c.peer_window)
unfolding fund
fund_at c id s e = (
  rw (e, fund) (stream_at-put id (open_windows c.peer_window c.self_window s) c.active_streams),
  rw (e, fund) refl,
)

change_at :
    (c : Connection) (id new : ℕ) (s : Stream)
    → stream_at id c.active_streams ≡ some s
    → stream_at id (change_window c new).active_streams
      ≡ some (record s { outflow = (refund s.outflow (sub32 new c.peer_window)).0 })
unfolding change_window moved
change_at c id new s e =
    stream_at-move_windows (sub32 new c.peer_window) id c.active_streams
    ∙ ap (moved (sub32 new c.peer_window)) e

-- A stream that gets its windows before the peer's change of its initial window ends with a send window
-- of the new value, for values below 2^31.
pub fund-then-change :
    (c d : Connection) (id new : ℕ)
    → c.peer_window < 2 ^ 31
    → new < 2 ^ 31
    → assign_stream_id c ≡ some (d, id)
    → window_of (change_window (fund d id) new) id ≡ new
unfolding open_windows change_window
fund-then-change c d id new h k e =
    let a = assigned_new c d id e in
    let f = fund_at d id new_stream a.0 in
    let g =
      change_at (fund d id) id new (open_windows d.peer_window d.self_window new_stream) f.0 in
    let w = window_of-some (change_window (fund d id) new) id _ g in
    let same_window = f.1 in
    let old = a.1 in w ∙ rw (same_window) (funded_then_moved d.peer_window new (omega arith) k)

-- If the change falls between the two steps of `AssignStreamID`, the stream ends with the difference of
-- the new and the old value on top of the new one, for values below 2^31 whose result fits an int32.
pub change-then-fund :
    (c d : Connection) (id new : ℕ)
    → c.peer_window < 2 ^ 31
    → 2 * new < 2 ^ 31 + c.peer_window
    → new < 2 ^ 31
    → assign_stream_id c ≡ some (d, id)
    → signed32 (window_of (fund (change_window d new) id) id) ≡ pos (2 * new) -ℤ pos c.peer_window
unfolding open_windows change_window
change-then-fund c d id new h k l e =
    let a = assigned_new c d id e in
    let g = change_at d id new new_stream a.0 in
    let f = (fund_at (change_window d new) id _ g).0 in
    let w = window_of-some (fund (change_window d new) id) id _ f in
    let old = a.1 in
    rw (w, sym old) (moved_then_funded d.peer_window new (omega arith) (omega arith) l)
