-- ===== src/Streams/Buffers.antt =====
-- internal/transport/h2c/utils.go: `bufPool`. What a `sync.Pool` gives is its own choice: one of the
-- buffers that it has, or a new one.
use go_http.Base.{
  ℕ, zero, suc, ◌-◌, ◌≤◌, ◌<◌, ◌==◌, leb, ltb, ◌≡◌, refl, arith, inl, inr, Option, none, some, List,
  [], ◌∷◌, ◌++◌, Bytes, length, get_elem?, if◌then◌else◌, length-append, Option-cases,
}

pub record BufPool : Type 0 where
  pub pools : List (List Bytes)
  pub limits : List ℕ

-- `make([]byte, n)`
unfoldable pub zeros : ℕ → Bytes
zeros zero = []
zeros (suc n) = 0 ∷ zeros n

unfoldable pub empty_pools : ℕ → List (List Bytes)
empty_pools zero = []
empty_pools (suc n) = [] ∷ empty_pools n

-- `init`; `none` is the panic. The sizes are not used: `New` of pool `i` makes `i` bytes.
unfoldable pub init : List ℕ → List ℕ → Option BufPool
unfolding empty_pools
init sizes limits =
    if length sizes == length limits
    then some (record { pools = empty_pools (length sizes); limits = limits })
    else none

-- The first limit that is not below the size.
unfoldable pub first_limit : ℕ → List ℕ → Option ℕ
first_limit sz [] = none
first_limit sz (l ∷ ls) =
    let rest = first_limit sz ls in
    if leb sz l then some 0 else (elim rest [ none ↦ none | some i ↦ some (suc i) ])

-- `Get` of a pool and what it leaves: `pick` is the place of the buffer that it gives, if there is one.
unfoldable pub get_buffer : ℕ → List Bytes → ℕ → Bytes × List Bytes
unfolding zeros
get_buffer i [] pick = (zeros i, [])
get_buffer i (b ∷ bs) zero = (b, bs)
get_buffer i (b ∷ bs) (suc pick) = let r = get_buffer i bs pick in (r.0, b ∷ r.1)

-- The pools with the one at `i` changed.
unfoldable pub set_pool : ℕ → List Bytes → List (List Bytes) → List (List Bytes)
set_pool i p [] = []
set_pool zero p (q ∷ qs) = p ∷ qs
set_pool (suc i) p (q ∷ qs) = q ∷ set_pool i p qs

abbrev or_empty : Option (List Bytes) → List Bytes
or_empty none = []
or_empty (some p) = p

-- `get`; `none` is the result `nil, -1`.
unfoldable pub get : BufPool → ℕ → ℕ → Option (BufPool × Bytes × ℕ)
unfolding first_limit get_buffer set_pool zeros
get bp sz pick = elim (first_limit sz bp.limits) [
  | none ↦ none
  | some i ↦
      let g = get_buffer i (or_empty (get_elem? bp.pools i)) pick in
      let b = if ltb (length g.0) sz then g.0 ++ zeros (sz - length g.0) else g.0 in
      some (record bp { pools = set_pool i g.1 bp.pools }, b, i)
]

-- `put`
unfoldable pub put_buffer : BufPool → ℕ → Bytes → BufPool
unfolding set_pool
put_buffer bp i b = record bp { pools = set_pool i (b ∷ or_empty (get_elem? bp.pools i)) bp.pools }

length-zeros : (n : ℕ) → length (zeros n) ≡ n
unfolding zeros
length-zeros zero = refl
length-zeros (suc n) = omega (arith, length-zeros n)

-- The limits in front of the `i`-th are below the size, and the `i`-th is not.
unfoldable pub IsFirst : ℕ → List ℕ → ℕ → Type 0
IsFirst sz [] i = ⊥
IsFirst sz (l ∷ ls) zero = sz ≤ l
IsFirst sz (l ∷ ls) (suc i) = (l < sz) × IsFirst sz ls i

first_limit-IsFirst : (sz : ℕ) (ls : List ℕ) (i : ℕ) → first_limit sz ls ≡ some i → IsFirst sz ls i
unfolding first_limit IsFirst
first_limit-IsFirst sz [] i e = ground arith
first_limit-IsFirst sz (l ∷ ls) zero e = ground arith
first_limit-IsFirst sz (l ∷ ls) (suc i) e =
    (ground arith, first_limit-IsFirst sz ls i (ground arith))

-- Whatever buffers the pools have and whichever of them is given, a buffer from `get` has at least the
-- size asked for, and its number is the place of the first limit that is not below the size.
pub get-length :
    (bp : BufPool) (sz pick : ℕ) (bp' : BufPool) (b : Bytes) (i : ℕ)
    → get bp sz pick ≡ some (bp', b, i)
    → (sz ≤ length b) × IsFirst sz bp.limits i
unfolding get
get-length bp sz pick bp' b i e = elim (Option-cases (first_limit sz bp.limits)) [
  | inl n ↦ ground arith
  | inr f ↦
      let g = get_buffer f.0 (or_empty (get_elem? bp.pools f.0)) pick in
      (
        ground (
          arith,
          f.1,
          length-append g.0 (zeros (sz - length g.0)),
          length-zeros (sz - length g.0),
        ),
        first_limit-IsFirst sz bp.limits i (ground (arith, f.1)),
      )
]
