-- ===== src/Http1/Utils/Backward.antt =====
-- The loops of `walkReverse` (internal/transport/http1/utils.go) over the bytes in front of the
-- position, read backwards as a list.
use mathlib.Core.List.{reverse-append, reverse-reverse, reverse-cons}
use go_http.Base.{
  ℕ, zero, suc, ◌≤◌, ◌<◌, ◌≡◌, inl, inr, refl, ap, ◌∙◌, arith, [], ◌∷◌, ◌++◌, append_assoc,
  append-nil, reverse, ltb, ◌==◌, if◌then◌else◌, Bytes, take, length, Bool-cases,
}
use go_http.Http1.Utils.{is_blank, byte_at, slice, strip, scan, round}
use go_http.Http1.Utils.Elements.{trim, trim_left, drop_blanks, NoComma}

abbrev pub unread : Bytes → ℕ → Bytes
unread s k = reverse (take k s)

strip_back : Bytes → Bytes
strip_back [] = []
strip_back (c ∷ []) = c ∷ []
strip_back (c ∷ d ∷ r) = if is_blank c then strip_back (d ∷ r) else c ∷ d ∷ r

scan_back : Bytes → Bytes → Bytes → Bytes × Bytes
scan_back [] acc token = ([], token)
scan_back (c ∷ r) acc token =
    if c == b','
    then (c ∷ r, token)
    else scan_back r (c ∷ acc) (if ltb b' ' c then c ∷ acc else token)

pub round_back : Bytes → Bytes × Bytes
round_back r = scan_back (strip_back r) [] []

take-suc : (s : Bytes) (i : ℕ) → i < length s → take (suc i) s ≡ take i s ++ (byte_at s i ∷ [])
take-suc [] i h = absurd (omega arith)
take-suc (c ∷ s) zero h = refl
take-suc (c ∷ s) (suc i) h = ap (◌∷◌ c) (take-suc s i (omega arith))

pub unread-suc : (s : Bytes) (i : ℕ) → i < length s → unread s (suc i) ≡ byte_at s i ∷ unread s i
unread-suc s i h = rw (take-suc s i h) (reverse-append (take i s) (byte_at s i ∷ []))

slice-suc :
    (s : Bytes) (i j : ℕ) → i < j → j ≤ length s → slice s i j ≡ byte_at s i ∷ slice s (suc i) j
slice-suc [] i j h k = absurd (omega arith)
slice-suc (c ∷ s) i zero h k = absurd (omega arith)
slice-suc (c ∷ s) zero (suc j) h k = refl
slice-suc (c ∷ s) (suc i) (suc j) h k = slice-suc s i j (omega arith) (omega arith)

slice_self : (s : Bytes) (i : ℕ) → slice s i i ≡ []
slice_self s zero = refl
slice_self [] (suc i) = refl
slice_self (c ∷ s) (suc i) = slice_self s i

strip-le : (s : Bytes) (k : ℕ) → strip s k ≤ k
unfolding strip
strip-le s zero = omega arith
strip-le s (suc zero) = omega arith
strip-le s (suc (suc i)) = ground (arith, strip-le s (suc i))

strip-strip_back :
    (s : Bytes) (k : ℕ) → k ≤ length s → unread s (strip s k) ≡ strip_back (unread s k)
unfolding strip strip_back
strip-strip_back s zero h = refl
strip-strip_back s (suc zero) h = rw (unread-suc s 0 h)
strip-strip_back s (suc (suc i)) h =
    rw (unread-suc s (suc i) h, unread-suc s i (omega arith))
      (ground (
        arith,
        strip-strip_back s (suc i) (omega arith),
        unread-suc s (suc i) h,
        unread-suc s i (omega arith),
      ))

scan-le : (s : Bytes) (i start : ℕ) → (scan s i start).0 ≤ i
unfolding scan
scan-le s zero start = omega arith
scan-le s (suc i) start = ground (arith, scan-le s i (if ltb b' ' (byte_at s i) then i else start))

scan-scan_back :
    (s : Bytes) (i start end : ℕ)
    → i ≤ end
    → end ≤ length s
    → (unread s (scan s i start).0 ≡ (scan_back (unread s i) (slice s i end) (slice s start end)).0)
      × (slice s (scan s i start).1 end
          ≡ (scan_back (unread s i) (slice s i end) (slice s start end)).1)
unfolding scan scan_back
scan-scan_back s zero start end h k = (refl, refl)
scan-scan_back s (suc i) start end h k = rw (unread-suc s i (omega arith)) (
    ground (
      arith,
      slice-suc s i end (omega arith) k,
      unread-suc s i (omega arith),
      scan-scan_back s i (if ltb b' ' (byte_at s i) then i else start) end (omega arith) k,
    ))

-- One round over the indices is one round over the list.
pub round-round_back :
    (s : Bytes) (k : ℕ)
    → k ≤ length s
    → (unread s (round s k).0 ≡ (round_back (unread s k)).0)
      × ((round s k).1 ≡ (round_back (unread s k)).1)
unfolding round round_back
round-round_back s k h =
    let le : strip s k ≤ length s = omega (arith, strip-le s k) in
    rw (← strip-strip_back s k h) (
      rw (slice_self s (strip s k)) at
        (scan-scan_back s (strip s k) (strip s k) (strip s k) (omega arith) le))

pub round-le : (s : Bytes) (k : ℕ) → (round s k).0 ≤ k
unfolding round
round-le s k = omega (arith, scan-le s (strip s k) (strip s k), strip-le s k)

-- What may follow an element, read backwards.
abbrev pub Border : Bytes → Type 0
Border [] = Unit {0}
Border (c ∷ p) = c ≡ b','

scan_back-NoComma :
    (w rest acc token : Bytes)
    → NoComma w
    → Border rest
    → token ≡ trim_left acc
    → scan_back (w ++ rest) acc token ≡ (rest, trim_left (reverse w ++ acc))
unfolding scan_back trim_left
scan_back-NoComma [] [] acc token h b e = ap (λ (t : Bytes). ([], t)) e
scan_back-NoComma [] (c ∷ p) acc token h b e = ground arith
scan_back-NoComma (c ∷ w) rest acc token h b e =
    rw (reverse-cons c w, append_assoc)
      (ground (
        arith,
        h.0,
        scan_back-NoComma w rest (c ∷ acc) (if ltb b' ' c then c ∷ acc else token) h.1 b
            (ground arith),
      ))

strip_back-cons :
    (x y : ℕ) (t u : Bytes)
    → t ≡ y ∷ u
    → strip_back (x ∷ t) ≡ (if is_blank x then strip_back t else x ∷ t)
unfolding strip_back
strip_back-cons x y t u e = rw e

-- A blank at the end of an element is dropped if any byte is in front of it.
round_back-cons :
    (x y : ℕ) (w rest t : Bytes)
    → NoComma (x ∷ w)
    → Border rest
    → w ++ rest ≡ y ∷ t
    → round_back (w ++ rest) ≡ (rest, trim_left (reverse (drop_blanks w)))
    → round_back (x ∷ (w ++ rest)) ≡ (rest, trim_left (reverse (drop_blanks (x ∷ w))))
unfolding round_back drop_blanks
round_back-cons x y w rest t h b e ih = elim (Bool-cases (is_blank x)) [
  | inl blank ↦ rw (strip_back-cons x y (w ++ rest) t e, blank) ih
  | inr other ↦
      rw (strip_back-cons x y (w ++ rest) t e, other)
        (scan_back-NoComma (x ∷ w) rest [] [] h b (unfold trim_left in refl)
          ∙ ap (λ (s : Bytes). (rest, trim_left s)) (append-nil (reverse (x ∷ w))))
]

round_back-drop_blanks :
    (w rest : Bytes)
    → NoComma w
    → Border rest
    → round_back (w ++ rest) ≡ (rest, trim_left (reverse (drop_blanks w)))
unfolding round_back strip_back scan_back drop_blanks trim_left
round_back-drop_blanks [] [] h b = refl
round_back-drop_blanks [] (c ∷ []) h b = ground arith
round_back-drop_blanks [] (c ∷ d ∷ p) h b = ground arith
round_back-drop_blanks (x ∷ []) [] h b = ground (arith, h.0)
round_back-drop_blanks (x ∷ []) (c ∷ p) h b =
    round_back-cons x c [] (c ∷ p) p h b refl (round_back-drop_blanks [] (c ∷ p) tt b)
round_back-drop_blanks (x ∷ y ∷ w) rest h b =
    round_back-cons x y (y ∷ w) rest (w ++ rest) h b refl
      (round_back-drop_blanks (y ∷ w) rest h.1 b)

-- One round gives the trimmed element behind the last comma, and stops at that comma.
pub round_back-NoComma :
    (w rest : Bytes) → NoComma w → Border rest → round_back (w ++ rest) ≡ (rest, trim (reverse w))
unfolding trim
round_back-NoComma w rest h b = rw (reverse-reverse w) (round_back-drop_blanks w rest h b)
