-- ===== src/Streams/Opening.antt =====
-- internal/transport/h2c/conn.go: the streams of a connection, `AssignStreamID`, `ReleaseStreamID`, and
-- the part of the settings callback that moves the streams' windows. `AssignStreamID` gives the new
-- stream its windows after it has let go of `muActive` and of the settings, so it is two steps:
-- `assign_stream_id` and `fund`.
use go_http.Base.{
  ℕ, suc, ◌-◌, ◌^◌, Bool, true, false, ◌&&◌, ◌==◌, leb, ltb, ◌≡◌, List, [], ◌∷◌, Option, none, some,
  if◌then◌else◌, length, add32, sub32,
}
use go_http.Flow.Outflow.{Outflow, refund}
use go_http.Flow.Inflow.{Inflow, reset_initial_balance}

-- The windows of a `Stream`.
pub record Stream : Type 0 where
  pub inflow : Inflow
  pub outflow : Outflow

-- `Connection`: `lastStreamID` as the pattern of the int32, `activeStreams`, and the settings that
-- matter here.
pub record Connection : Type 0 where
  pub last_stream_id : ℕ
  pub active_streams : List (ℕ × Stream)
  pub max_streams : ℕ
  pub peer_window : ℕ
  pub self_window : ℕ

-- `&inflow{}` and `&outflow{}`
abbrev pub new_stream : Stream
new_stream = record { inflow = record { remaining = 0; queued = 0 }; outflow = record { n = 0 } }

-- `NewConnection`, where `lastStreamID` is -1.
unfoldable pub new_connection : ℕ → ℕ → ℕ → Connection
new_connection max_streams peer_window self_window = record {
  last_stream_id = 2 ^ 32 - 1;
  active_streams = [];
  max_streams = max_streams;
  peer_window = peer_window;
  self_window = self_window;
}

-- `activeStreams[id]`
unfoldable pub stream_at : ℕ → List (ℕ × Stream) → Option Stream
stream_at id [] = none
stream_at id (p ∷ ps) = elim (id == p.0) [ true ↦ some p.1 | false ↦ stream_at id ps ]

-- `activeStreams[id] = s`
unfoldable pub put : ℕ → Stream → List (ℕ × Stream) → List (ℕ × Stream)
put id s [] = (id, s) ∷ []
put id s (p ∷ ps) = elim (id == p.0) [ true ↦ (id, s) ∷ ps | false ↦ p ∷ put id s ps ]

-- `delete(activeStreams, id)`
unfoldable pub delete : ℕ → List (ℕ × Stream) → List (ℕ × Stream)
delete id [] = []
delete id (p ∷ ps) = elim (id == p.0) [ true ↦ delete id ps | false ↦ p ∷ delete id ps ]

-- `AssignStreamID` up to the release of `muActive`. `none`: it waits on `condActive`.
unfoldable pub assign_stream_id : Connection → Option (Connection × ℕ)
assign_stream_id c =
    let id = add32 c.last_stream_id 2 in
    if leb c.max_streams (length c.active_streams)
    then none
    else some
        (record c { last_stream_id = id; active_streams = put id new_stream c.active_streams }, id)

-- The rest of it, on the stream.
unfoldable pub open_windows : ℕ → ℕ → Stream → Stream
open_windows peer_window self_window s = record {
  outflow = (refund s.outflow peer_window).0;
  inflow = (reset_initial_balance s.inflow self_window).0;
}

unfoldable pub fund : Connection → ℕ → Connection
fund c id = elim (stream_at id c.active_streams) [
  | none ↦ c
  | some s ↦ record c {
    active_streams = put id (open_windows c.peer_window c.self_window s) c.active_streams;
  }
]

-- `ReleaseStreamID`
unfoldable pub release_stream_id : Connection → ℕ → Connection
release_stream_id c id = record c { active_streams = delete id c.active_streams }

-- The streams with their send windows moved by `delta`.
unfoldable pub move_windows : ℕ → List (ℕ × Stream) → List (ℕ × Stream)
move_windows delta [] = []
move_windows delta (p ∷ ps) =
    (p.0, record p.1 { outflow = (refund p.1.outflow delta).0 }) ∷ move_windows delta ps

-- The callback for SETTINGS_INITIAL_WINDOW_SIZE with the new value that is stored behind it.
unfoldable pub change_window : Connection → ℕ → Connection
change_window c new = record c {
  active_streams = move_windows (sub32 new c.peer_window) c.active_streams;
  peer_window = new;
}

-- All identifiers are below `bound`.
unfoldable pub below : ℕ → List (ℕ × Stream) → Bool
below bound [] = true
below bound (p ∷ ps) = ltb p.0 bound && below bound ps

-- A connection that has given out `n` identifiers.
pub data Assigned (start : Connection) : ℕ → Connection → Type 0 where
  at_first : Assigned start 0 start
  assign :
      {n : ℕ} {c : Connection} (d : Connection) (id : ℕ)
      → Assigned start n c
      → assign_stream_id c ≡ some (d, id)
      → Assigned start (suc n) d
  funded : {n : ℕ} {c : Connection} (id : ℕ) → Assigned start n c → Assigned start n (fund c id)
  released :
      {n : ℕ} {c : Connection} (id : ℕ)
      → Assigned start n c
      → Assigned start n (release_stream_id c id)
  changed :
      {n : ℕ} {c : Connection} (new : ℕ)
      → Assigned start n c
      → Assigned start n (change_window c new)
  limited :
      {n : ℕ} {c : Connection} (max_streams : ℕ)
      → Assigned start n c
      → Assigned start n (record c { max_streams = max_streams })
