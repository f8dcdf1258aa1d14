-- ===== src/Streams/Headers.antt =====
-- internal/transport/h2c/stream.go, `WriteHeaders`: a header block is cut into one HEADERS frame and
-- CONTINUATION frames. The frames below are those that are written as long as neither the context nor
-- the framer gives an error.
use go_http.Base.{
  ℕ, zero, suc, ◌≤◌, ◌<◌, Bool, true, false, leb, ◌≡◌, inl, inr, refl, subst, sym, arith, List, [],
  ◌∷◌, ◌++◌, Option, none, some, if◌then◌else◌, Bytes, length, take, drop, take-append-drop,
  length-take, length-drop, Bool-cases,
}

-- `Headers` has `EndStream` and `EndHeaders` of `HeadersFrameParam`; `Continuation` has `endHeaders`.
pub data Frame : Type 0 where
  headers : Bool → Bool → Bytes → Frame
  continuation : Bool → Bytes → Frame

-- One frame of the loop.
unfoldable pub header_frame : Bool → Bool → Bool → Bytes → Frame
header_frame first last end_headers chunk =
    if first then headers last end_headers chunk else continuation end_headers chunk

-- `endHeaders`, `chunk` and what is left of `data`, for the maximum `m`.
unfoldable pub next_chunk : ℕ → Bytes → Bool × Bytes × Bytes
next_chunk m block =
    if leb (length block) m then (true, block, []) else (false, take m block, drop m block)

-- One frame, before those that follow.
unfoldable pub add_frame :
    Bool → Bool → Bool × Bytes × Bytes → Option (List Frame) → Option (List Frame)
add_frame first last c none = none
add_frame first last c (some frames) = some (header_frame first last c.0 c.1 ∷ frames)

-- The loop, on what is left of `data`. The peer's maximum is read again for every frame: `sizes` gives
-- it for each. Each frame takes at least one byte where the maximum is positive, so the length of the
-- block is enough fuel; without fuel, `none`.
unfoldable pub header_loop : ℕ → (ℕ → ℕ) → Bool → Bool → Bytes → Option (List Frame)
header_loop zero sizes last first [] = some []
header_loop zero sizes last first (b ∷ block) = none
header_loop (suc fuel) sizes last first [] = some []
header_loop (suc fuel) sizes last first (b ∷ block) =
    let c = next_chunk (sizes 0) (b ∷ block) in
    add_frame first last c (header_loop fuel (λ i. sizes (suc i)) last false c.2)

-- `WriteHeaders`, on the encoded block.
unfoldable pub write_headers : (ℕ → ℕ) → Bool → Bytes → Option (List Frame)
write_headers sizes last block = header_loop (length block) sizes last true block

-- The block in frames that a receiver can put together, where `sizes` has the maximum for each frame: a
-- HEADERS frame first, with END_STREAM if `last`, and CONTINUATION frames behind it, none of them empty or
-- above its maximum, and END_HEADERS on the last one and on no other.
pub data Cut (last : Bool) : (ℕ → ℕ) → Bool → Bytes → List Frame → Type 0 where
  whole :
      (sizes : ℕ → ℕ) (block : Bytes)
      → 0 < length block
      → length block ≤ sizes 0
      → Cut last sizes true block (headers last true block ∷ [])
  begin :
      (sizes : ℕ → ℕ) (chunk rest : Bytes) (frames : List Frame)
      → 0 < length chunk
      → length chunk ≡ sizes 0
      → Cut last (λ i. sizes (suc i)) false rest frames
      → Cut last sizes true (chunk ++ rest) (headers last false chunk ∷ frames)
  end :
      (sizes : ℕ → ℕ) (block : Bytes)
      → 0 < length block
      → length block ≤ sizes 0
      → Cut last sizes false block (continuation true block ∷ [])
  go_on :
      (sizes : ℕ → ℕ) (chunk rest : Bytes) (frames : List Frame)
      → 0 < length chunk
      → length chunk ≡ sizes 0
      → Cut last (λ i. sizes (suc i)) false rest frames
      → Cut last sizes false (chunk ++ rest) (continuation false chunk ∷ frames)

final :
    {last : Bool} (sizes : ℕ → ℕ) (first : Bool) (block : Bytes)
    → 0 < length block
    → length block ≤ sizes 0
    → Cut last sizes first block (header_frame first last true block ∷ [])
unfolding header_frame
final sizes true block some_data fits = whole sizes block some_data fits
final sizes false block some_data fits = end sizes block some_data fits

piece :
    {last : Bool} (sizes : ℕ → ℕ) (first : Bool) (chunk rest : Bytes) (frames : List Frame)
    → 0 < length chunk
    → length chunk ≡ sizes 0
    → Cut last (λ i. sizes (suc i)) false rest frames
    → Cut last sizes first (chunk ++ rest) (header_frame first last false chunk ∷ frames)
unfolding header_frame
piece sizes true chunk rest frames some_data fits c = begin sizes chunk rest frames some_data fits c
piece sizes false chunk rest frames some_data fits c =
    go_on sizes chunk rest frames some_data fits c

-- The frames that a loop returned, as a cut of the block.
Cuts : Bool → (ℕ → ℕ) → Bool → Bytes → Option (List Frame) → Type 0
Cuts last sizes first block r =
    (frames : List Frame) × (r ≡ some frames) × Cut last sizes first block frames

next_all : (m : ℕ) (block : Bytes) → length block ≤ m → next_chunk m block ≡ (true, block, [])
unfolding next_chunk
next_all m block h = ground arith

next_some :
    (m : ℕ) (block : Bytes)
    → m < length block
    → next_chunk m block ≡ (false, take m block, drop m block)
unfolding next_chunk
next_some m block h = ground arith

header_loop-nil :
    (fuel : ℕ) (sizes : ℕ → ℕ) (last first : Bool) → header_loop fuel sizes last first [] ≡ some []
unfolding header_loop
header_loop-nil zero sizes last first = refl
header_loop-nil (suc fuel) sizes last first = refl

FrameCuts : ℕ → (ℕ → ℕ) → Bool → Bool → Bytes → Bool × Bytes × Bytes → Type 0
FrameCuts fuel sizes last first block c =
    Cuts last sizes first block
      (add_frame first last c (header_loop fuel (λ i. sizes (suc i)) last false c.2))

header_loop-Cuts :
    (fuel : ℕ) (sizes : ℕ → ℕ) (last first : Bool) (block : Bytes)
    → ((i : ℕ) → 0 < sizes i)
    → 0 < length block
    → length block ≤ fuel
    → Cuts last sizes first block (header_loop fuel sizes last first block)
unfolding Cuts header_loop FrameCuts add_frame
header_loop-Cuts zero sizes last first [] positive some_data enough = absurd (omega arith)
header_loop-Cuts zero sizes last first (b ∷ block) positive some_data enough = absurd (omega arith)
header_loop-Cuts (suc fuel) sizes last first [] positive some_data enough = absurd (omega arith)
header_loop-Cuts (suc fuel) sizes last first (b ∷ block) positive some_data enough =
    elim (Bool-cases (leb (length (b ∷ block)) (sizes 0))) [
      | inl e ↦
          let all = next_all (sizes 0) (b ∷ block) (ground arith) in
          subst (FrameCuts fuel sizes last first (b ∷ block)) (sym all) (
            rw (header_loop-nil fuel (λ i. sizes (suc i)) last false)
              (_, refl, final sizes first (b ∷ block) some_data (ground arith)))
      | inr e ↦
          let here = positive 0 in
          let lt = length-take (sizes 0) (b ∷ block) in
          let ld = length-drop (sizes 0) (b ∷ block) in
          let some_more = next_some (sizes 0) (b ∷ block) (ground arith) in
          let rest =
            header_loop-Cuts fuel (λ i. sizes (suc i)) last false (drop (sizes 0) (b ∷ block))
              (λ i. positive (suc i)) (ground arith) (ground arith) in
          let cut =
            piece sizes first (take (sizes 0) (b ∷ block)) _ _ (ground arith) (ground arith)
              rest.2 in
          subst (FrameCuts fuel sizes last first (b ∷ block)) (sym some_more) (
            rw (rest.1) (
              _,
              refl,
              subst
                  (λ d.
                    Cut last sizes first d
                      (header_frame first last false (take (sizes 0) (b ∷ block)) ∷ rest.0))
                  (take-append-drop (sizes 0) (b ∷ block)) cut,
            ))
    ]

-- When the peer's maximum is positive at every frame, a header block that is not empty is written as one
-- HEADERS frame, with END_STREAM as asked for, and CONTINUATION frames behind it. Their fragments make up
-- the block, none is empty or above its maximum, and END_HEADERS is on the last frame and on no other.
pub write_headers-Cut :
    (sizes : ℕ → ℕ) (last : Bool) (block : Bytes)
    → ((i : ℕ) → 0 < sizes i)
    → 0 < length block
    → (frames : List Frame) × (write_headers sizes last block ≡ some frames)
      × Cut last sizes true block frames
unfolding write_headers Cuts
write_headers-Cut sizes last block positive some_data =
    header_loop-Cuts (length block) sizes last true block positive some_data (omega arith)
