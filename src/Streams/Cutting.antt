-- ===== src/Streams/Cutting.antt =====
-- internal/transport/h2c/stream.go, `WriteHeaders` with its errors: the context that ends between two
-- frames, and a framer that fails.
use go_http.Base.{
  ℕ, zero, suc, Bool, false, ◌≡◌, refl, ap, ◌∙◌, arith, inl, inr, List, [], ◌∷◌, ◌++◌, Option, none,
  some, Bytes, Bool-cases, Option-cases, if◌then◌else◌,
}
use go_http.Controller.Frames.{NetError}
use go_http.Streams.Headers.{Frame, header_frame, next_chunk, add_frame, header_loop}

pub data HeadersError : Type 0 where
  cancelled : HeadersError
  framer_write : NetError → HeadersError

-- The frames that were handed to the framer, and the error.
pub record HeadersSent : Type 0 where
  pub frames : List Frame
  pub error : Option HeadersError

unfoldable pub behind : Frame → Option HeadersSent → Option HeadersSent
behind f none = none
behind f (some s) = some (record s { frames = f ∷ s.frames })

-- The loop: `ends` says whether the context is done before a frame, `faults` is the framer's error for it.
unfoldable pub cut_loop :
    ℕ → (ℕ → ℕ) → (ℕ → Bool) → (ℕ → Option NetError) → Bool → Bool → Bytes → Option HeadersSent
unfolding next_chunk header_frame behind
cut_loop zero sizes ends faults last first [] = some (record { frames = []; error = none })
cut_loop zero sizes ends faults last first (b ∷ block) = none
cut_loop (suc fuel) sizes ends faults last first [] = some (record { frames = []; error = none })
cut_loop (suc fuel) sizes ends faults last first (b ∷ block) =
    let c = next_chunk (sizes 0) (b ∷ block) in
    let f = header_frame first last c.0 c.1 in
    let rest =
      cut_loop fuel (λ i. sizes (suc i)) (λ i. ends (suc i)) (λ i. faults (suc i)) last false c.2 in
    if ends 0 then some (record { frames = []; error = some cancelled }) else (elim (faults 0) [
      | some e ↦ some (record { frames = f ∷ []; error = some (framer_write e) })
      | none ↦ behind f rest
    ])

-- The frames of `sent` are the first of `all`, and all of them without an error.
pub record Begins (all : List Frame) (sent : HeadersSent) : Type 0 where
  pub rest : List Frame
  pub in_order : sent.frames ++ rest ≡ all
  pub complete : sent.error ≡ none → rest ≡ []

-- Where the loop without errors cuts a block into frames, the loop with them ends too, has sent these
-- frames from the first up to the error, and all of them if there is none.
pub cut_loop-Begins :
    (fuel : ℕ) (sizes : ℕ → ℕ) (ends : ℕ → Bool) (faults : ℕ → Option NetError) (last first : Bool)
    (block : Bytes) (all : List Frame)
    → header_loop fuel sizes last first block ≡ some all
    → (sent : HeadersSent) × (cut_loop fuel sizes ends faults last first block ≡ some sent)
      × Begins all sent
unfolding cut_loop header_loop add_frame behind
cut_loop-Begins zero sizes ends faults last first [] all e = (
  record { frames = []; error = none },
  refl,
  record { rest = []; in_order = ground arith; complete = λ q. refl },
)
cut_loop-Begins zero sizes ends faults last first (b ∷ block) all e = ground (arith, e)
cut_loop-Begins (suc fuel) sizes ends faults last first [] all e = (
  record { frames = []; error = none },
  refl,
  record { rest = []; in_order = ground arith; complete = λ q. refl },
)
cut_loop-Begins (suc fuel) sizes ends faults last first (b ∷ block) all e =
    let c = next_chunk (sizes 0) (b ∷ block) in
    let f = header_frame first last c.0 c.1 in
    elim (Option-cases (header_loop fuel (λ i. sizes (suc i)) last false c.2)) [
      | inl n ↦ ground (arith, e, n)
      | inr n ↦
          let whole : f ∷ n.0 ≡ all = ground (arith, e, n.1) in
          elim (Bool-cases (ends 0)) [
            | inl k ↦ (
              record { frames = []; error = some cancelled },
              rw (k, cut_loop) refl,
              record { rest = all; in_order = refl; complete = λ q. ground (arith, q) },
            )
            | inr k ↦ elim (Option-cases (faults 0)) [
              | inr g ↦ (
                record { frames = f ∷ []; error = some (framer_write g.0) },
                rw (k, g.1, cut_loop) refl,
                record { rest = n.0; in_order = whole; complete = λ q. ground (arith, q) },
              )
              | inl g ↦
                  let later =
                    cut_loop-Begins fuel (λ i. sizes (suc i)) (λ i. ends (suc i))
                      (λ i. faults (suc i)) last false c.2 n.0 n.1 in
                  (
                    record { frames = f ∷ (later.0).frames; error = (later.0).error },
                    rw (k, g, later.1, cut_loop) refl,
                    record {
                      rest = later.2.rest;
                      in_order = ap (◌∷◌ f) later.2.in_order ∙ whole;
                      complete = later.2.complete;
                    },
                  )
            ]
          ]
    ]
