-- ===== src/Chunked/Bounds.antt =====
-- `readChunkHeader` (internal/transport/chunked/reader.go) on any input.
use native.Mathlib.Nat.{pow-suc, pow-le-pow_right}
use go_http.Base.{
  ℕ, zero, suc, ◌+◌, ◌*◌, ◌%◌, ◌^◌, ◌≤◌, ◌<◌, true, ◌≡◌, refl, arith, subst, ap, some, [], ◌∷◌,
  Bytes, length, Bool-cases, Option-cases, inl, inr, leb,
}
use go_http.Io.{
  Source, read_line, buffer_size, Ending, newline, full, exhausted, scan_line, drop_cr, end_line,
}
use go_http.Chunked.Reader.{
  digit_value, add_digits, Header, size, fails, no_fuel, header_loop, read_chunk_header,
}

digit_value-bound : (b d : ℕ) → digit_value b ≡ some d → d < 16
unfolding digit_value
digit_value-bound b d e = ground arith

pow-add_one : (n : ℕ) → 16 ^ (n + 1) ≡ 16 * 16 ^ n
pow-add_one n = let e : n + 1 ≡ suc n = omega arith in rw e (omega (arith, pow-suc 16 n))

pow-small : (n : ℕ) → n < 16 → 16 ^ n ≤ 2 ^ 60
pow-small n h =
    let m : 16 ^ n ≤ 16 ^ 15 = pow-le-pow_right (omega arith) {j = 15} (omega arith) in omega arith

-- The digits are counted, and the value is below the power of 16 of the count.
add_digits-bound :
    (line : Bytes) (cnt len cnt' len' : ℕ)
    → len < 16 ^ cnt
    → add_digits line cnt len ≡ some (cnt', len')
    → (cnt' ≡ cnt + length line) × (len' < 16 ^ cnt')
unfolding add_digits
add_digits-bound [] cnt len cnt' len' h e =
    let c : cnt ≡ cnt' = ground arith in
    let l : len ≡ len' = ground arith in (omega arith, subst (λ n. len' < 16 ^ n) c (omega arith))
add_digits-bound (b ∷ line) cnt len cnt' len' h e = elim (Option-cases (digit_value b)) [
  | inl f ↦ absurd (ground (arith, f, e))
  | inr f ↦
      let d = digit_value-bound b f.0 f.1 in
      let more : len * 2 ^ 4 % 2 ^ 64 + f.0 < 16 ^ (cnt + 1) =
        omega (arith, pow-add_one cnt, h, d) in
      let rest : add_digits line (cnt + 1) (len * 2 ^ 4 % 2 ^ 64 + f.0) ≡ some (cnt', len') =
        ground (arith, e, f.1) in
      let ih = add_digits-bound line (cnt + 1) (len * 2 ^ 4 % 2 ^ 64 + f.0) cnt' len' more rest in
      (omega (arith, ih.0), ih.1)
]

scan_line-full : (n : ℕ) (s : Bytes) → (scan_line n s).2 ≡ full → length (scan_line n s).0 ≡ n
unfolding scan_line
scan_line-full zero s e = refl
scan_line-full (suc n) [] e = ground (arith, e)
scan_line-full (suc n) (c ∷ s) e = ground (arith, scan_line-full n s, e)

drop_cr-length : (l : Bytes) → length l ≤ suc (length (drop_cr l).0)
unfolding drop_cr
drop_cr-length [] = omega arith
drop_cr-length (c ∷ []) = ground arith
drop_cr-length (c ∷ d ∷ l) = let ih = drop_cr-length (d ∷ l) in omega arith

end_line-prefix :
    (s : Source) (line rest : Bytes) (ending : Ending)
    → (end_line s line rest ending).is_prefix ≡ true
    → (ending ≡ full) × ((end_line s line rest ending).line ≡ (drop_cr line).0)
unfolding end_line
end_line-prefix s line rest newline e = ground (arith, e)
end_line-prefix s line rest full e = (refl, refl)
end_line-prefix s [] rest exhausted e = ground (arith, e)
end_line-prefix s (c ∷ line) rest exhausted e = ground (arith, e)

-- A line that does not end within the buffer has more than 16 bytes.
read_line-prefix : (s : Source) → (read_line s).is_prefix ≡ true → 16 ≤ length (read_line s).line
unfolding read_line
read_line-prefix s e =
    let r = scan_line buffer_size s.pending in
    let p = end_line-prefix s r.0 r.1 r.2 e in
    let long = scan_line-full buffer_size s.pending p.0 in
    let kept = drop_cr-length r.0 in omega (arith, ap length p.1)

-- What `readChunkHeader` returns: a length below 2^60, or an error.
pub Returns : Header → Type 0
Returns (size s n) = n < 2 ^ 60
Returns (fails s e) = Unit {0}
Returns no_fuel = ⊥

-- `readChunkHeader` returns on every input, with an error or with a length below 2^60: such a length
-- fits an int64 and is not -1.
pub read_chunk_header-Returns : (s : Source) → Returns (read_chunk_header s)
unfolding read_chunk_header header_loop Returns
read_chunk_header-Returns s = elim (Option-cases (read_line s).error) [
  | inr e ↦ rw (e.1, header_loop) tt
  | inl e ↦ elim (Option-cases (add_digits (read_line s).line 0 0)) [
    | inl f ↦ rw (e, f, header_loop) tt
    | inr f ↦
        let b = add_digits-bound (read_line s).line 0 0 f.0.0 f.0.1 (omega arith) f.1 in
        elim (Bool-cases (leb 16 f.0.0)) [
          | inl g ↦ rw (e, f.1, g, header_loop) tt
          | inr g ↦ elim (Bool-cases (read_line s).is_prefix) [
            | inl p ↦ absurd (ground (arith, read_line-prefix s p, b.0, g))
            | inr p ↦
                let few = pow-small f.0.0 (ground (arith, g)) in
                rw (e, f.1, g, p, header_loop) (omega (arith, b.1, few))
          ]
        ]
  ]
]
