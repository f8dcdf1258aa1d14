-- ===== src/Streams/Ends.antt =====
-- internal/transport/h2c/conn.go and stream.go: how a stream ends, over everything that happens on a
-- connection.
use go_http.Base.{
  ℕ, ◌≡◌, inl, inr, refl, arith, Bool, true, false, not, ◌&&◌, ◌||◌, ◌==◌, List, [], ◌∷◌, Option,
  none, some, Bool-cases, if◌then◌else◌,
}
use Prim.{Unit}
use go_http.Controller.Frames.{write_frame, Sent}
use go_http.Streams.Opening.{Stream, stream_at, put, delete, move_windows}
use go_http.Streams.Lives.{Link, StreamEnd, set_life, send, close_with_error, reset, is_valid}
use go_http.Streams.Dispatch.{Handled, returns, panics, blocks, ◌>>=◌, with_stream}

-- Whether the map has the stream.
unfoldable pub is_active : ℕ → List (ℕ × Stream) → Bool
unfolding stream_at
is_active id ps = elim (stream_at id ps) [ none ↦ false | some s ↦ true ]

-- Not a WINDOW_UPDATE for a stream.
abbrev pub for_connection : Sent → Bool
for_connection (Sent.window_update id increment) = id == 0
for_connection other = true

-- Every WINDOW_UPDATE that was sent is for the connection.
unfoldable pub only_connection : List Sent → Bool
only_connection [] = true
only_connection (s ∷ ss) = for_connection s && only_connection ss

-- A stream that is in the map is not done, and one that was reset is done.
pub record Sound (id : ℕ) (l : Link) : Type 0 where
  pub active : is_active id l.conn.active_streams ≡ true → (l.lives id).done ≡ false
  pub used : (l.lives id).rst_used ≡ true → (l.lives id).done ≡ true

-- The stream's end is as it was.
pub record Settled (id : ℕ) (l l' : Link) : Type 0 where
  pub still_done : (l'.lives id).done ≡ true
  pub reason : (l'.lives id).done_reason ≡ (l.lives id).done_reason
  pub bytes : (l'.lives id).delivered ≡ (l.lives id).delivered

-- What happens between two states is good for the stream.
pub record Goes (id : ℕ) (l l' : Link) : Type 0 where
  pub sound : Sound id l → Sound id l'
  pub settled : Sound id l → (l.lives id).done ≡ true → Settled id l l'
  pub updates :
      only_connection l.controller.framer.sent ≡ true
      → only_connection l'.controller.framer.sent ≡ true

pub Goes-trans : {id : ℕ} {l m n : Link} → Goes id l m → Goes id m n → Goes id l n
Goes-trans {id} {l} {m} {n} g h = record {
  sound = λ s. h.sound (g.sound s);
  settled = λ s d.
      let a = g.settled s d in
      let b = h.settled (g.sound s) a.still_done in
      record {
        still_done = b.still_done;
        reason = ground (arith, a.reason, b.reason);
        bytes = ground (arith, a.bytes, b.bytes);
      };
  updates = λ q. h.updates (g.updates q);
}

pub is_active-delete :
    (j id : ℕ) (ps : List (ℕ × Stream))
    → is_active j (delete id ps) ≡ (not (j == id) && is_active j ps)
unfolding is_active delete stream_at
is_active-delete j id [] = ground arith
is_active-delete j id (p ∷ ps) = ground (arith, is_active-delete j id ps)

pub is_active-put :
    (j id : ℕ) (s : Stream) (ps : List (ℕ × Stream))
    → is_active j (put id s ps) ≡ ((j == id) || is_active j ps)
unfolding is_active put stream_at
is_active-put j id s [] = ground arith
is_active-put j id s (p ∷ ps) = ground (arith, is_active-put j id s ps)

pub is_active-move_windows :
    (j delta : ℕ) (ps : List (ℕ × Stream)) → is_active j (move_windows delta ps) ≡ is_active j ps
unfolding is_active move_windows stream_at
is_active-move_windows j delta [] = refl
is_active-move_windows j delta (p ∷ ps) = ground (arith, is_active-move_windows j delta ps)

pub stream_at-active :
    (id : ℕ) (s : Stream) (ps : List (ℕ × Stream))
    → stream_at id ps ≡ some s
    → is_active id ps ≡ true
unfolding is_active
stream_at-active id s ps e = rw (e, is_active) refl

-- The lives and the map are untouched.
pub same-Goes :
    {id : ℕ} {l l' : Link}
    → l'.lives id ≡ l.lives id
    → is_active id l'.conn.active_streams ≡ is_active id l.conn.active_streams
    → (only_connection l.controller.framer.sent ≡ true
        → only_connection l'.controller.framer.sent ≡ true)
    → Goes id l l'
same-Goes {id} {l} {l'} e a u = record {
  sound = λ s. record { active = ground (arith, s.active); used = ground (arith, s.used) };
  settled =
      λ s d. record { still_done = ground arith; reason = ground arith; bytes = ground arith };
  updates = u;
}

pub close_with_error-Goes :
    (j : ℕ) (l : Link) (id : ℕ) (e : Option StreamEnd) → Goes j l (close_with_error l id e)
unfolding close_with_error set_life
close_with_error-Goes j l id e =
    let a = is_active-delete j id l.conn.active_streams in
    record {
      sound =
          λ s. record { active = ground (arith, s.active, a); used = ground (arith, s.used, a) };
      settled =
          λ s d. record { still_done = ground arith; reason = ground arith; bytes = ground arith };
      updates = λ q. ground arith;
    }

pub reset-Goes :
    (j : ℕ) (l : Link) (id code : ℕ) (received : Bool) → Goes j l (reset l id code received)
unfolding reset close_with_error set_life send only_connection write_frame
reset-Goes j l id code received =
    let a = is_active-delete j id l.conn.active_streams in
    record {
      sound =
          λ s. record { active = ground (arith, s.active, a); used = ground (arith, s.used, a) };
      settled =
          λ s d. record { still_done = ground arith; reason = ground arith; bytes = ground arith };
      updates = λ q. ground arith;
    }

-- What holds of the state if the handler returns.
abbrev pub Outcome : (Link → Type 0) → Handled → Type 0
Outcome P (returns l) = P l
Outcome P panics = Unit
Outcome P blocks = Unit

pub Outcome-bind :
    {P : Link → Type 0} (Q : Link → Type 0) (h : Handled) (f : Link → Handled)
    → Outcome P h
    → ((l : Link) → P l → Outcome Q (f l))
    → Outcome Q (h >>= f)
Outcome-bind Q (returns l) f p g = g l p
Outcome-bind Q panics f p g = record {}
Outcome-bind Q blocks f p g = record {}

-- The same behind what was already good.
pub Outcome-after :
    {j : ℕ} {l m : Link} (h : Handled) → Goes j l m → Outcome (Goes j m) h → Outcome (Goes j l) h
Outcome-after (returns l') g p = Goes-trans g p
Outcome-after panics g p = record {}
Outcome-after blocks g p = record {}

pub choose_handled :
    (P : Link → Type 0) (b : Bool) (h k : Handled)
    → Outcome P h
    → Outcome P k
    → Outcome P (if b then h else k)
choose_handled P true h k p q = p
choose_handled P false h k p q = q

pub choose-Outcome :
    (P : Link → Type 0) (b : Bool) (h k : Handled × Bool)
    → Outcome P h.0
    → Outcome P k.0
    → Outcome P (if b then h else k).0
choose-Outcome P true h k p q = p
choose-Outcome P false h k p q = q

is_valid-open : (l : Link) (id : ℕ) → is_valid l id ≡ true → (l.lives id).done ≡ false
unfolding is_valid
is_valid-open l id v = ground arith

-- A handler that goes through `withStream` is good for a stream if its function is, on a stream that is
-- not done.
pub with_stream-Goes :
    (j : ℕ) (l : Link) (id : ℕ) (f : Link → Handled × Bool)
    → ((l.lives id).done ≡ false → Outcome (Goes j l) (f l).0)
    → Outcome (Goes j l) (with_stream l id f)
unfolding with_stream send only_connection write_frame
with_stream-Goes j l id f g = elim (Bool-cases (is_valid l id)) [
  | inr e ↦ rw (e, with_stream) (same-Goes refl refl (λ q. ground arith))
  | inl e ↦ elim (Bool-cases ((f l).1)) [
    | inr k ↦ rw (e, k, with_stream) (g (is_valid-open l id e))
    | inl k ↦
        rw (e, k, with_stream)
          (Outcome-bind (Goes j l) (f l).0 _ (g (is_valid-open l id e))
            (λ l' h. Goes-trans h (reset-Goes j l' id _ false)))
  ]
]
