-- ===== src/Strconv.antt =====
-- What the program uses of Go's `strconv` and `strings`, on ASCII bytes.
pub mod Decimal
use go_http.Base.{
  ℕ, zero, suc, ◌+◌, ◌-◌, ◌*◌, ◌/◌, ◌%◌, ◌^◌, Bool, true, false, not, ◌&&◌, ◌||◌, Option, none,
  some, List, [], ◌∷◌, ◌++◌, reverse, ltb, leb, ◌==◌, if◌then◌else◌, Bytes, ℤ, pos, negsuc,
}

abbrev pub is_digit : ℕ → Bool
is_digit c = leb b'0' c && leb c b'9'

unfoldable pub digits_value : Bytes → ℕ → Option ℕ
digits_value [] n = some n
digits_value (c ∷ s) n =
    let rest = digits_value s (n * 10 + (c - b'0')) in if is_digit c then rest else none

-- An empty text is no number.
unfoldable pub decimal : Bytes → Option ℕ
decimal [] = none
decimal (c ∷ s) = digits_value (c ∷ s) 0

abbrev pub below : ℕ → Option ℕ → Option ℕ
below bound none = none
below bound (some n) = if ltb n bound then some n else none

-- `ParseUint(s, 10, bits)`
unfoldable pub parse_uint : Bytes → ℕ → Option ℕ
parse_uint s bits = below (2 ^ bits) (decimal s)

abbrev negated : Option ℕ → Option ℤ
negated none = none
negated (some zero) = some (pos 0)
negated (some (suc n)) = some (negsuc n)

abbrev positive : Option ℕ → Option ℤ
positive none = none
positive (some n) = some (pos n)

-- `ParseInt(s, 10, 64)`, and `Atoi` on 64 bits: an optional sign, then digits
unfoldable pub parse_int : Bytes → Option ℤ
parse_int [] = none
parse_int (c ∷ s) =
    if c == b'-'
    then negated (below (2 ^ 63 + 1) (decimal s))
    else if c == b'+'
    then positive (below (2 ^ 63) (decimal s))
    else positive (below (2 ^ 63) (decimal (c ∷ s)))

unfoldable pub format_onto : ℕ → ℕ → Bytes → Bytes
format_onto zero n acc = acc
format_onto (suc f) n acc =
    let rest = format_onto f (n / 10) ((b'0' + n % 10) ∷ acc) in
    if ltb n 10 then (b'0' + n) ∷ acc else rest

-- `FormatInt(n, 10)` of a number that is not negative: twenty digits are enough for 64 bits.
unfoldable pub format_int : ℕ → Bytes
format_int n = format_onto 20 n []

-- `strings.TrimLeft(s, " ")`
unfoldable pub trim_left_space : Bytes → Bytes
trim_left_space [] = []
trim_left_space (c ∷ s) = if c == b' ' then trim_left_space s else c ∷ s

-- `textproto.TrimString`
abbrev pub is_space : ℕ → Bool
is_space c = (c == b' ') || (c == b'\t') || (c == b'\n') || (c == b'\r')

unfoldable pub drop_spaces : Bytes → Bytes
drop_spaces [] = []
drop_spaces (c ∷ s) = if is_space c then drop_spaces s else c ∷ s

unfoldable pub trim_string : Bytes → Bytes
unfolding drop_spaces
trim_string s = reverse (drop_spaces (reverse (drop_spaces s)))

-- `strings.ToLower`
abbrev pub lower : ℕ → ℕ
lower c = if leb b'A' c && leb c b'Z' then c + 32 else c

abbrev pub upper : ℕ → ℕ
upper c = if leb b'a' c && leb c b'z' then c - 32 else c
