-- ===== src/Streams/Numbering.antt =====
-- internal/transport/h2c/conn.go: the identifiers that `AssignStreamID` gives out.
use go_http.Base.{
  Option-cases, ℕ, suc, ◌+◌, ◌-◌, ◌*◌, ◌%◌, ◌^◌, ◌≤◌, ◌<◌, true, ◌&&◌, ltb, ◌≡◌, inl, inr, refl, ap,
  subst, ◌∙◌, arith, List, [], ◌∷◌, none, some, sub32,
}
use go_http.Streams.Opening.{
  Stream, Connection, new_stream, new_connection, stream_at, put, delete, assign_stream_id,
  open_windows, fund, release_stream_id, move_windows, change_window, below, Assigned, at_first,
  assign, funded, released, changed, limited,
}

below-put :
    (bound id : ℕ) (s : Stream) (ps : List (ℕ × Stream))
    → id < bound
    → below bound ps ≡ true
    → below bound (put id s ps) ≡ true
unfolding below put
below-put bound id s [] h b = ground arith
below-put bound id s (p ∷ ps) h b = ground (arith, below-put bound id s ps h)

below-delete :
    (bound id : ℕ) (ps : List (ℕ × Stream))
    → below bound ps ≡ true
    → below bound (delete id ps) ≡ true
unfolding below delete
below-delete bound id [] b = refl
below-delete bound id (p ∷ ps) b = ground (arith, below-delete bound id ps)

below-move_windows :
    (bound delta : ℕ) (ps : List (ℕ × Stream))
    → below bound (move_windows delta ps) ≡ below bound ps
unfolding below move_windows
below-move_windows bound delta [] = refl
below-move_windows bound delta (p ∷ ps) =
    ap (◌&&◌ (ltb p.0 bound)) (below-move_windows bound delta ps)

below_more :
    (bound more : ℕ) (ps : List (ℕ × Stream))
    → bound ≤ more
    → below bound ps ≡ true
    → below more ps ≡ true
unfolding below
below_more bound more [] h b = refl
below_more bound more (p ∷ ps) h b = ground (arith, below_more bound more ps h)

-- A stream that is there has an identifier below the bound.
stream_at-below :
    (bound id : ℕ) (s : Stream) (ps : List (ℕ × Stream))
    → below bound ps ≡ true
    → stream_at id ps ≡ some s
    → id < bound
unfolding below stream_at
stream_at-below bound id s [] b e = ground arith
stream_at-below bound id s (p ∷ ps) b e = ground (arith, stream_at-below bound id s ps)

absent_above :
    (bound id : ℕ) (ps : List (ℕ × Stream))
    → below bound ps ≡ true
    → bound ≤ id
    → stream_at id ps ≡ none
unfolding below stream_at
absent_above bound id [] b h = refl
absent_above bound id (p ∷ ps) b h = ground (arith, absent_above bound id ps)

-- After `n` identifiers, the last one is 2n - 1 as an int32 and no open stream has a larger one.
record Numbered (n : ℕ) (c : Connection) : Type 0 where
  last_is : c.last_stream_id ≡ (2 * n + 2 ^ 32 - 1) % 2 ^ 32
  all_below : below (2 * n) c.active_streams ≡ true

-- What `AssignStreamID` does on such a connection.
assign-Numbered :
    (n : ℕ) (c d : Connection) (id : ℕ)
    → n < 2 ^ 30
    → Numbered n c
    → assign_stream_id c ≡ some (d, id)
    → (id ≡ 2 * n + 1) × Numbered (suc n) d
unfolding assign_stream_id
assign-Numbered n c d id h i e =
    let last = i.last_is in
    let id_is : id ≡ 2 * n + 1 = ground arith in
    let last_is : d.last_stream_id ≡ id = ground arith in
    let streams : put id new_stream c.active_streams ≡ d.active_streams = ground arith in
    (
      id_is,
      record {
        last_is = omega arith;
        all_below =
            subst (λ ps. below (2 * suc n) ps ≡ true) streams
              (below-put (2 * suc n) id new_stream c.active_streams (omega arith)
                (below_more (2 * n) (2 * suc n) c.active_streams (omega arith) i.all_below));
      },
    )

below-fund :
    (bound : ℕ) (c : Connection) (id : ℕ)
    → below bound c.active_streams ≡ true
    → below bound (fund c id).active_streams ≡ true
unfolding fund
below-fund bound c id b = elim (Option-cases (stream_at id c.active_streams)) [
  | inl e ↦ rw (e, fund) b
  | inr e ↦
      rw (e.1, fund)
        (below-put bound id (open_windows c.peer_window c.self_window e.0) c.active_streams
          (stream_at-below bound id e.0 c.active_streams b e.1) b)
]

fund-last : (c : Connection) (id : ℕ) → (fund c id).last_stream_id ≡ c.last_stream_id
unfolding fund
fund-last c id = ground arith

Assigned-Numbered :
    (max_streams peer_window self_window : ℕ) {n : ℕ} {c : Connection}
    → n ≤ 2 ^ 30
    → Assigned (new_connection max_streams peer_window self_window) n c
    → Numbered n c
unfolding new_connection below release_stream_id change_window
Assigned-Numbered m p s h at_first = record { last_is = refl; all_below = refl }
Assigned-Numbered m p s h (assign {n} {c} d id a e) =
    let i = Assigned-Numbered m p s (omega arith) a in
    (assign-Numbered n c d id (omega arith) i e).1
Assigned-Numbered m p s h (funded {n} {c} id a) =
    let i = Assigned-Numbered m p s h a in
    record { last_is = fund-last c id ∙ i.last_is; all_below = below-fund (2 * n) c id i.all_below }
Assigned-Numbered m p s h (released {n} {c} id a) =
    let i = Assigned-Numbered m p s h a in
    record { last_is = i.last_is; all_below = below-delete (2 * n) id c.active_streams i.all_below }
Assigned-Numbered m p s h (changed {n} {c} new a) =
    let i = Assigned-Numbered m p s h a in
    record {
      last_is = i.last_is;
      all_below =
          below-move_windows (2 * n) (sub32 new c.peer_window) c.active_streams ∙ i.all_below;
    }
Assigned-Numbered m p s h (limited max a) =
    let i = Assigned-Numbered m p s h a in record { last_is = i.last_is; all_below = i.all_below }

-- The identifiers are 1, 3, 5, … : on a connection that has given out n of them, whatever happened to its
-- streams, settings and limit, the next is 2n + 1, below 2^31, and no open stream has it, as long as
-- fewer than 2^30 have been given out.
pub Assigned-next :
    (max_streams peer_window self_window n id : ℕ) {c d : Connection}
    → n < 2 ^ 30
    → Assigned (new_connection max_streams peer_window self_window) n c
    → assign_stream_id c ≡ some (d, id)
    → (id ≡ 2 * n + 1) × (id < 2 ^ 31) × (stream_at id c.active_streams ≡ none)
Assigned-next max_streams peer_window self_window n id {c} {d} h a e =
    let i = Assigned-Numbered max_streams peer_window self_window (omega arith) a in
    let id_is = (assign-Numbered n c d id h i e).0 in
    (id_is, omega arith, absent_above (2 * n) id c.active_streams i.all_below (omega arith))
