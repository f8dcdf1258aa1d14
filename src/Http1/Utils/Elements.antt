-- ===== src/Http1/Utils/Elements.antt =====
-- The elements of a comma-separated list, in order and trimmed (RFC 9110, section 5.6.1): what
-- `walkReverse` of internal/transport/http1/utils.go walks through from the back.
use mathlib.Core.List.{map-append, reverse-cons}
use go_http.Base.{
  ℕ, ◌≡◌, ◌≢◌, refl, ap, arith, List, [], ◌∷◌, ◌++◌, map, reverse, ltb, ◌==◌, if◌then◌else◌, Bytes,
}
use go_http.Http1.Utils.{is_blank}

push_head : ℕ → List Bytes → List Bytes
push_head c [] = (c ∷ []) ∷ []
push_head c (x ∷ xs) = (c ∷ x) ∷ xs

pub split : Bytes → List Bytes
unfolding push_head
split [] = [] ∷ []
split (c ∷ s) = if c == b',' then [] ∷ split s else push_head c (split s)

-- Leading bytes up to the space are dropped.
unfoldable pub trim_left : Bytes → Bytes
trim_left [] = []
trim_left (c ∷ s) = if ltb b' ' c then c ∷ s else trim_left s

unfoldable pub drop_blanks : Bytes → Bytes
drop_blanks [] = []
drop_blanks (c ∷ s) = if is_blank c then drop_blanks s else c ∷ s

-- Trailing spaces and tabs are dropped, then leading bytes up to the space.
unfoldable pub trim : Bytes → Bytes
trim s = trim_left (reverse (drop_blanks (reverse s)))

unfoldable pub elements : Bytes → List Bytes
unfolding split trim trim_left drop_blanks
elements s = map trim (split s)

abbrev pub NoComma : Bytes → Type 0
NoComma [] = Unit {0}
NoComma (c ∷ s) = (c ≢ b',') × NoComma s

pub NoComma-append : (s t : Bytes) → NoComma s → NoComma t → NoComma (s ++ t)
NoComma-append [] t hs ht = ht
NoComma-append (c ∷ s) t hs ht = (hs.0, NoComma-append s t hs.1 ht)

pub NoComma-reverse : (s : Bytes) → NoComma s → NoComma (reverse s)
NoComma-reverse [] h = h
NoComma-reverse (c ∷ s) h =
    rw reverse-cons (NoComma-append (reverse s) (c ∷ []) (NoComma-reverse s h.1) (h.0, tt))

split-NoComma : (s : Bytes) → NoComma s → split s ≡ s ∷ []
unfolding split
split-NoComma [] h = refl
split-NoComma (c ∷ s) h = ground (arith, split-NoComma s h.1, h.0)

split-ne-nil : (s : Bytes) → split s ≢ []
unfolding split
split-ne-nil [] = ground arith
split-ne-nil (c ∷ s) = elim (split s) as (λ l. (if c == b',' then [] ∷ l else push_head c l) ≢ []) [
  | [] ↦ ground arith
  | x ∷ xs ↦ ground arith
]

push_head-append :
    (c : ℕ) (xs ys : List Bytes) → xs ≢ [] → push_head c (xs ++ ys) ≡ push_head c xs ++ ys
unfolding push_head
push_head-append c [] ys h = absurd (h refl)
push_head-append c (x ∷ xs) ys h = refl

split-append : (p seg : Bytes) → NoComma seg → split (p ++ (b',' ∷ seg)) ≡ split p ++ (seg ∷ [])
unfolding split
split-append [] seg h = ap (◌∷◌ []) (split-NoComma seg h)
split-append (c ∷ p) seg h =
    rw (split-append p seg h)
      (ground (arith, push_head-append c (split p) (seg ∷ []) (split-ne-nil p)))

pub elements-NoComma : (s : Bytes) → NoComma s → elements s ≡ trim s ∷ []
unfolding elements
elements-NoComma s h = rw (split-NoComma s h)

pub elements-append :
    (p seg : Bytes) → NoComma seg → elements (p ++ (b',' ∷ seg)) ≡ elements p ++ (trim seg ∷ [])
unfolding elements
elements-append p seg h = rw (split-append p seg h) (map-append _ _ _)
