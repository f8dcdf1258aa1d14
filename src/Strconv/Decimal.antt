-- ===== src/Strconv/Decimal.antt =====
-- Decimal numbers both ways: `FormatInt` against `ParseUint`.
use native.Mathlib.Nat.{pow-suc}
use go_http.Base.{
  ℕ, zero, suc, ◌+◌, ◌-◌, ◌*◌, ◌/◌, ◌%◌, ◌^◌, ◌≤◌, ◌<◌, ◌≡◌, ◌≢◌, refl, ap, ◌∙◌, arith, some, [],
  ◌∷◌, ltb, Bytes, Bool-cases, inl, inr,
}
use go_http.Strconv.{digits_value, decimal, parse_uint, format_onto, format_int}

digits_value-digit :
    (d : ℕ) (s : Bytes) (n m : ℕ)
    → d < 10
    → n * 10 + d ≡ m
    → digits_value ((b'0' + d) ∷ s) n ≡ digits_value s m
unfolding digits_value
digits_value-digit d s n m h e = ground (arith, ap (digits_value s) (digit e))
  where
    digit : n * 10 + d ≡ m → n * 10 + (b'0' + d - b'0') ≡ m
    digit e = omega arith

pow-pred : (e : ℕ) → 1 ≤ e → 10 ^ suc e ≡ 10 * 10 ^ suc (e - 1)
pow-pred zero h = absurd (omega arith)
pow-pred (suc e) h =
    let e' : suc e - 1 ≡ e = omega arith in rw e' (omega (arith, pow-suc 10 (suc e)))

exponent : (e n : ℕ) → n < 10 ^ suc e → 10 ≤ n → 1 ≤ e
exponent zero n h big = absurd (omega arith)
exponent (suc e) n h big = omega arith

digits_value-format_onto :
    (f e n : ℕ) (acc : Bytes)
    → n < 10 ^ suc e
    → suc e ≤ f
    → digits_value (format_onto f n acc) 0 ≡ digits_value acc n
unfolding format_onto
digits_value-format_onto zero e n acc small h = absurd (omega arith)
digits_value-format_onto (suc f) e n acc small h = elim (Bool-cases (ltb n 10)) [
  | inl one ↦ rw one (digits_value-digit n acc 0 n (ground arith) (omega arith))
  | inr more ↦
      let big : 10 ≤ n = ground arith in
      let some_left : 1 ≤ e = exponent e n small big in
      rw more (
        digits_value-format_onto f (e - 1) (n / 10) ((b'0' + n % 10) ∷ acc)
          (omega (arith, pow-pred e some_left)) (omega arith)
        ∙ digits_value-digit (n % 10) acc (n / 10) n (omega arith) (omega arith))
]

format_onto-cons : (f n : ℕ) (acc : Bytes) → acc ≢ [] → format_onto f n acc ≢ []
unfolding format_onto
format_onto-cons zero n acc h = h
format_onto-cons (suc f) n acc h =
    ground (arith, format_onto-cons f (n / 10) ((b'0' + n % 10) ∷ acc))

format_onto-ne-nil : (f n : ℕ) → format_onto (suc f) n [] ≢ []
unfolding format_onto
format_onto-ne-nil f n = ground (arith, format_onto-cons f (n / 10) ((b'0' + n % 10) ∷ []))

decimal-digits_value : (s : Bytes) → s ≢ [] → decimal s ≡ digits_value s 0
unfolding decimal
decimal-digits_value [] h = absurd (h refl)
decimal-digits_value (c ∷ s) h = refl

decimal-format_int : (n : ℕ) → n < 2 ^ 63 → decimal (format_int n) ≡ some n
unfolding format_int
decimal-format_int n h =
    decimal-digits_value (format_onto 20 n []) (format_onto-ne-nil 19 n)
    ∙ digits_value-format_onto 20 19 n [] (omega arith) (omega arith)
    ∙ unfold digits_value in refl

-- `ParseUint` on 63 bits reads back what `FormatInt` writes, for every int64 that is not negative.
pub parse_uint-format_int : (n : ℕ) → n < 2 ^ 63 → parse_uint (format_int n) 63 ≡ some n
unfolding parse_uint
parse_uint-format_int n h = rw (decimal-format_int n h) (ground arith)
