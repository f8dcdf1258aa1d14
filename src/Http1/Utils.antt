-- ===== src/Http1/Utils.antt =====
-- internal/transport/http1/utils.go: `Cut` and `walkReverse`.
pub mod Elements
pub mod Cutting
pub mod Backward
pub mod Walk
use go_http.Base.{
  ℕ, zero, suc, ◌+◌, ◌-◌, Bool, true, false, not, ◌&&◌, ◌||◌, Option, none, some, List, [], ◌∷◌,
  ltb, ◌==◌, if◌then◌else◌, Bytes, codes, ◌≡◌, refl, take, drop, get_elem?, length,
}
use mathlib.Core.Option

-- `strings.HasPrefix(s, p)`
unfoldable pub has_prefix : Bytes → Bytes → Bool
has_prefix s [] = true
has_prefix [] (p ∷ ps) = false
has_prefix (c ∷ s) (p ∷ ps) = (c == p) && has_prefix s ps

-- `strings.Index(s, sep)`, with `none` for -1
unfoldable pub index : Bytes → Bytes → Option ℕ
unfolding has_prefix
index [] sep = if has_prefix [] sep then some 0 else none
index (c ∷ s) sep = if has_prefix (c ∷ s) sep then some 0 else Option.map suc (index s sep)

unfoldable pub cut : Bytes → Bytes → Bytes × Bytes × Bool
unfolding index
cut s sep = elim (index s sep) [
  | some i ↦ (take i s, drop (i + length sep) s, true)
  | none ↦ (s, [], false)
]

-- `s[i]`; the walk below stays in range
abbrev pub byte_at : Bytes → ℕ → ℕ
byte_at s i = Option.get_or (get_elem? s i) 0

-- `s[i:j]`
abbrev pub slice : Bytes → ℕ → ℕ → Bytes
slice s i j = drop i (take j s)

-- In the walk the number `k` is `i + 1`: the bytes in front of the position.

-- `(s[i] == ' ' || s[i] == '\t') && s[i] != ','`
abbrev pub is_blank : ℕ → Bool
is_blank c = ((c == b' ') || (c == b'\t')) && not (c == b',')

-- the first inner loop, on blanks behind an element
unfoldable pub strip : Bytes → ℕ → ℕ
strip s zero = zero
strip s (suc zero) = suc zero
strip s (suc (suc i)) = if is_blank (byte_at s (suc i)) then strip s (suc i) else suc (suc i)

-- the second inner loop, up to a comma: the position, and `start`
unfoldable pub scan : Bytes → ℕ → ℕ → ℕ × ℕ
scan s zero start = (zero, start)
scan s (suc i) start =
    let rest = scan s i (if ltb b' ' (byte_at s i) then i else start) in
    if byte_at s i == b',' then (suc i, start) else rest

-- one round of the outer loop: the position it stops at, and the element
unfoldable pub round : Bytes → ℕ → ℕ × Bytes
unfolding strip scan
round s k = let end = strip s k in let stop = scan s end end in (stop.0, slice s stop.1 end)

-- The outer loop with a callback that keeps a state `S`; `none` means that the fuel ran out.
unfoldable pub walk : {S : Type 0} → ℕ → Bytes → ℕ → (S → Bytes → S × Bool) → S → Option S
walk zero s k fn st = none
walk (suc fuel) s k fn st =
    let r = round s k in
    let called = fn st r.1 in
    let rest = walk fuel s (r.0 - 1) fn called.0 in
    if called.1 then (if r.0 == 0 then some called.0 else rest) else some called.0

-- `walkReverse(s, fn)` with a callback, from the end of `s`. Its result is not used by callers that
-- pass one, and is `last` below.
unfoldable pub walk_reverse : {S : Type 0} → Bytes → (S → Bytes → S × Bool) → S → Option S
walk_reverse s fn st = walk (suc (length s)) s (length s) fn st

-- `walkReverse(s, nil)`, which is also `last`: the first element met
unfoldable pub last_element : Bytes → Bytes
last_element s = (round s (length s)).1
