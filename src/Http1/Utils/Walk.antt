-- ===== src/Http1/Utils/Walk.antt =====
-- `walkReverse` of internal/transport/http1/utils.go against the list of elements.
use mathlib.Core.List.{reverse-append, reverse-reverse, reverse-cons}
use go_http.Base.{
  ℕ, zero, suc, ◌-◌, ◌≤◌, ◌<◌, Bool, ◌≡◌, ◌⊎◌, refl, sym, ap, ◌∙◌, arith, List, [], ◌∷◌, ◌++◌, ◌==◌,
  reverse, Bytes, some, take, length, append-nil, append_assoc, length-reverse, length-take,
  if◌then◌else◌, Bool-cases, inl, inr,
}
use go_http.Http1.Utils.{round, walk, walk_reverse, last_element}
use go_http.Http1.Utils.Elements.{
  trim, elements, NoComma, NoComma-reverse, elements-NoComma, elements-append,
}
use go_http.Http1.Utils.Backward.{
  unread, unread-suc, round-le, round-round_back, Border, round_back-NoComma,
}

-- A callback called on the elements of a list until it answers `false`.
unfoldable pub visit : {S : Type 0} → (S → Bytes → S × Bool) → S → List Bytes → S
visit fn st [] = st
visit fn st (t ∷ ts) = let called = fn st t in if called.1 then visit fn called.0 ts else called.0

-- A text read backwards, up to its last comma.
record Spans (r : Bytes) : Type 0 where
  word : Bytes
  rest : Bytes
  joined : r ≡ word ++ rest
  no_comma : NoComma word
  border : Border rest

spans : (r : Bytes) → Spans r
spans [] = record { word = []; rest = []; joined = refl; no_comma = tt; border = tt }
spans (c ∷ r) = elim (Bool-cases (c == b',')) [
  | inl at_comma ↦ record {
    word = [];
    rest = c ∷ r;
    joined = refl;
    no_comma = tt;
    border = ground arith;
  }
  | inr other ↦
      let p = spans r in
      record {
        word = c ∷ p.word;
        rest = p.rest;
        joined = ap (◌∷◌ c) p.joined;
        no_comma = (ground arith, p.no_comma);
        border = p.border;
      }
]

length-unread : (s : Bytes) (k : ℕ) → k ≤ length s → length (unread s k) ≡ k
length-unread s k h = omega (arith, length-reverse (take k s), length-take k s)

-- The first round from `k` meets the last element of what is in front of `k`: either it is the
-- only one, or the next round starts in front of the comma.
abbrev Rounds : Bytes → ℕ → Type 0
Rounds s k =
    (((round s k).0 ≡ 0) × (elements (take k s) ≡ (round s k).1 ∷ []))
    ⊎ ((j : ℕ) × ((round s k).0 ≡ suc j)
        × (suc j ≤ k)
        × (elements (take k s) ≡ elements (take j s) ++ ((round s k).1 ∷ [])))

round_facts :
    (s : Bytes) (k : ℕ) (word rest : Bytes)
    → k ≤ length s
    → unread s k ≡ word ++ rest
    → NoComma word
    → Border rest
    → (unread s (round s k).0 ≡ rest) × ((round s k).1 ≡ trim (reverse word))
round_facts s k word rest h e n b =
    rw (e, round_back-NoComma word rest n b) at (round-round_back s k h)

take-elements :
    (s : Bytes) (k : ℕ) (word rest : Bytes)
    → unread s k ≡ word ++ rest
    → elements (take k s) ≡ elements (reverse (word ++ rest))
take-elements s k word rest e = ap elements (sym (reverse-reverse (take k s)) ∙ ap reverse e)

round-Rounds-from :
    (s : Bytes) (k : ℕ) (word rest : Bytes)
    → k ≤ length s
    → unread s k ≡ word ++ rest
    → NoComma word
    → Border rest
    → Rounds s k
round-Rounds-from s k word [] h e n b =
    let (left, met) = round_facts s k word [] h e n b in
    inl (
      omega (arith, ap length left, length-unread s (round s k).0 (omega (arith, round-le s k))),
      take-elements s k word [] e
          ∙ ap elements (ap reverse (append-nil word))
          ∙ elements-NoComma (reverse word) (NoComma-reverse word n)
          ∙ ap (λ t. t ∷ []) (sym met),
    )
round-Rounds-from s k word (c ∷ p) h e n b =
    let (left, met) = round_facts s k word (c ∷ p) h e n b in
    let le = round-le s k in
    let len : (round s k).0 ≡ suc (length p) =
      omega (arith, ap length left, length-unread s (round s k).0 (omega arith)) in
    let front : unread s (length p) ≡ p = cc (unread-suc s (length p) (omega arith)) in
    let whole : take (length p) s ≡ reverse p =
      sym (reverse-reverse (take (length p) s)) ∙ ap reverse front in
    inr (
      length p,
      len,
      omega arith,
      take-elements s k word (c ∷ p) e
          ∙ ap elements (
              reverse-append word (c ∷ p)
              ∙ ap (λ t. t ++ reverse word) (reverse-cons c p)
              ∙ append_assoc (reverse p) (c ∷ []) (reverse word)
              ∙ cc)
          ∙ elements-append (take (length p) s) (reverse word) (NoComma-reverse word n)
          ∙ ap (λ t. elements (take (length p) s) ++ (t ∷ [])) (sym met),
    )

round-Rounds : (s : Bytes) (k : ℕ) → k ≤ length s → Rounds s k
round-Rounds s k h =
    let p = spans (unread s k) in round-Rounds-from s k p.word p.rest h p.joined p.no_comma p.border

take_all : (t : Bytes) → take (length t) t ≡ t
take_all [] = refl
take_all (c ∷ t) = ap (◌∷◌ c) (take_all t)

module _ {S : Type 0} (fn : S → Bytes → S × Bool) (s : Bytes) where
  walk-visit :
      (fuel k : ℕ) (st : S)
      → k ≤ length s
      → k < fuel
      → walk fuel s k fn st ≡ some (visit fn st (reverse (elements (take k s))))
  unfolding walk visit
  walk-visit zero k st h lt = absurd (omega arith)
  walk-visit (suc fuel) k st h lt = elim (round-Rounds s k h) [
    | inl (stop, e) ↦ ground (arith, stop, e)
    | inr (j, stop, le, e) ↦
        let before : suc j - 1 ≡ j = omega arith in
        rw (e, reverse-append (elements (take j s)) ((round s k).1 ∷ []), stop, before)
          (ground (arith, walk-visit fuel j (fn st (round s k).1).0 (omega arith) (omega arith)))
  ]

  -- `walkReverse` calls its callback on the trimmed elements of the list, last one first, until the
  -- callback answers `false`.
  pub walk_reverse-visit :
      (st : S) → walk_reverse s fn st ≡ some (visit fn st (reverse (elements s)))
  unfolding walk_reverse
  walk_reverse-visit st =
      walk-visit (suc (length s)) (length s) st (omega arith) (omega arith)
      ∙ ap (λ t. some (visit fn st (reverse (elements t)))) (take_all s)

-- `walkReverse(s, nil)` returns the trimmed last element.
pub last_element-elements :
    (s : Bytes) → (front : List Bytes) × (elements s ≡ front ++ (last_element s ∷ []))
unfolding last_element
last_element-elements s = elim (round-Rounds s (length s) (omega arith)) [
  | inl (_, e) ↦ ([], ap elements (sym (take_all s)) ∙ e)
  | inr (j, _, _, e) ↦ (elements (take j s), ap elements (sym (take_all s)) ∙ e)
]
