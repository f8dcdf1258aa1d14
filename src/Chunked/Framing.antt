-- ===== src/Chunked/Framing.antt =====
-- The length line of a chunk (internal/transport/chunked): what `%x` writes, `readChunkHeader` reads.
use native.Mathlib.Nat.{pow-suc}
use go_http.Base.{
  ℕ, zero, suc, ◌+◌, ◌-◌, ◌*◌, ◌/◌, ◌%◌, ◌^◌, ◌≤◌, ◌<◌, true, false, ◌≡◌, ◌≢◌, refl, sym, ap, ap₂,
  ◌∙◌, arith, none, some, [], ◌∷◌, ◌++◌, append_assoc, ltb, Bytes, length, length-append,
  Bool-cases, inl, inr,
}
use go_http.Io.{Source, newline, scan_line, drop_cr, end_line, read_line, buffer_size}
use go_http.Chunked.Writer.{hex_digit, hex_onto, hex, crlf}
use go_http.Chunked.Reader.{digit_value, add_digits, size, read_chunk_header}

digit_value-hex_digit : (d : ℕ) → d < 16 → digit_value (hex_digit d) ≡ some d
unfolding digit_value hex_digit
digit_value-hex_digit d h = ground arith

add_digits-hex_digit :
    (d : ℕ) (line : Bytes) (cnt len k n : ℕ)
    → d < 16
    → cnt + 1 ≡ k
    → len * 2 ^ 4 % 2 ^ 64 + d ≡ n
    → add_digits (hex_digit d ∷ line) cnt len ≡ add_digits line k n
unfolding add_digits
add_digits-hex_digit d line cnt len k n h e f =
    rw (digit_value-hex_digit d h, add_digits) (ap₂ (add_digits line) e f)

exponent : (e n : ℕ) → n < 16 ^ suc e → 16 ≤ n → 1 ≤ e
exponent zero n h big = absurd (omega arith)
exponent (suc e) n h big = omega arith

pow-pred : (e : ℕ) → 1 ≤ e → 16 ^ suc e ≡ 16 * 16 ^ suc (e - 1)
pow-pred zero h = absurd (omega arith)
pow-pred (suc e) h =
    let e' : suc e - 1 ≡ e = omega arith in rw e' (omega (arith, pow-suc 16 (suc e)))

-- The digits in front of `acc` add up to the number.
add_digits-hex_onto :
    (f e n : ℕ) (acc : Bytes)
    → n < 16 ^ suc e
    → n < 2 ^ 64
    → suc e ≤ f
    → (k : ℕ) × (k ≤ suc e) × (add_digits (hex_onto f n acc) 0 0 ≡ add_digits acc k n)
unfolding hex_onto
add_digits-hex_onto zero e n acc small word h = absurd (omega arith)
add_digits-hex_onto (suc f) e n acc small word h = elim (Bool-cases (ltb n 16)) [
  | inl one ↦ (
    1,
    omega arith,
    rw one (add_digits-hex_digit n acc 0 0 1 n (ground arith) (omega arith) (omega arith)),
  )
  | inr more ↦
      let big : 16 ≤ n = ground arith in
      let some_left : 1 ≤ e = ground (arith, exponent e n small big) in
      let (k, le, eq) =
        add_digits-hex_onto f (e - 1) (n / 16) (hex_digit (n % 16) ∷ acc)
          (omega (arith, pow-pred e some_left)) (omega arith) (omega arith) in
      (
        suc k,
        omega arith,
        rw more (
            eq
            ∙ add_digits-hex_digit (n % 16) acc k (n / 16) (suc k) n (omega arith) (omega arith)
                (omega arith)),
      )
]

abbrev pub NoNewline : Bytes → Type 0
NoNewline [] = Unit {0}
NoNewline (c ∷ s) = (c ≢ b'\n') × NoNewline s

hex_onto-NoNewline : (f n : ℕ) (acc : Bytes) → NoNewline acc → NoNewline (hex_onto f n acc)
unfolding hex_onto hex_digit
hex_onto-NoNewline zero n acc h = h
hex_onto-NoNewline (suc f) n acc h =
    ground (arith, h, hex_onto-NoNewline f (n / 16) (hex_digit (n % 16) ∷ acc))

length-hex_onto : (f n : ℕ) (acc : Bytes) → length (hex_onto f n acc) ≤ f + length acc
unfolding hex_onto
length-hex_onto zero n acc = omega arith
length-hex_onto (suc f) n acc =
    ground (arith, length-hex_onto f (n / 16) (hex_digit (n % 16) ∷ acc))

scan_line-append :
    (n : ℕ) (w rest : Bytes)
    → NoNewline w
    → length w < n
    → scan_line n (w ++ (b'\n' ∷ rest)) ≡ (w, rest, newline)
unfolding scan_line
scan_line-append zero w rest h lt = absurd (omega arith)
scan_line-append (suc n) [] rest h lt = refl
scan_line-append (suc n) (c ∷ w) rest h lt = ground (arith, h, scan_line-append n w rest h.1)

drop_cr-append : (w : Bytes) → drop_cr (w ++ (b'\r' ∷ [])) ≡ (w, true)
unfolding drop_cr
drop_cr-append [] = refl
drop_cr-append (c ∷ []) = refl
drop_cr-append (c ∷ d ∷ w) = ground (arith, drop_cr-append (d ∷ w))

hex-NoNewline : (n : ℕ) → NoNewline (hex n)
unfolding hex
hex-NoNewline n = hex_onto-NoNewline 16 n [] tt

NoNewline-append : (s t : Bytes) → NoNewline s → NoNewline t → NoNewline (s ++ t)
NoNewline-append [] t hs ht = ht
NoNewline-append (c ∷ s) t hs ht = (hs.0, NoNewline-append s t hs.1 ht)

-- `ReadLine` reads a short line that ends in a carriage return and a newline.
read_line-crlf :
    (s : Source) (w rest : Bytes)
    → s.pending ≡ w ++ (crlf ++ rest)
    → NoNewline w
    → length w + 1 < buffer_size
    → read_line s
      ≡ record { source = record s { pending = rest }; line = w; is_prefix = false; error = none }
unfolding read_line
read_line-crlf s w rest e h lt =
    ap (λ r. end_line s r.0 r.1 r.2)
      (ap (scan_line buffer_size) (e ∙ sym (append_assoc w (b'\r' ∷ []) (b'\n' ∷ rest)))
        ∙ scan_line-append buffer_size (w ++ (b'\r' ∷ [])) rest
            (NoNewline-append w (b'\r' ∷ []) h (omega arith))
            (omega (arith, length-append w (b'\r' ∷ []))))
    ∙ unfold end_line in rw (drop_cr-append w)

-- `readChunkHeader` reads back the length line of a chunk below 2 ^ 60 bytes, and leaves what
-- follows it.
pub read_chunk_header-hex :
    (s : Source) (n : ℕ) (rest : Bytes)
    → n < 2 ^ 60
    → s.pending ≡ hex n ++ (crlf ++ rest)
    → read_chunk_header s ≡ size (record s { pending = rest }) n
unfolding read_chunk_header
read_chunk_header-hex s n rest h e =
    let (k, le, digits) = add_digits-hex_onto 16 14 n [] h (omega arith) (omega arith) in
    let l =
      read_line-crlf s (hex n) rest e (hex-NoNewline n)
        (unfold hex in omega (arith, length-hex_onto 16 n [])) in
    let sum : add_digits (hex n) 0 0 ≡ some (k, n) = unfold hex add_digits in digits in
    ground (arith, l, sum, le)
