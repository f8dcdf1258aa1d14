-- ===== src/Http1/Utils/Cutting.antt =====
-- `Cut` of internal/transport/http1/utils.go splits at the first occurrence of the separator.
use go_http.Base.{
  ℕ, suc, ◌+◌, ◌≤◌, Bool, true, false, ◌≡◌, inl, inr, refl, ap, arith, [], ◌∷◌, ◌++◌, Bytes, some,
  take, drop, length, length-take, Bool-cases, Option-cases,
}
use go_http.Http1.Utils.{has_prefix, index, cut}

has_prefix-append : (p v : Bytes) → has_prefix (p ++ v) p ≡ true
unfolding has_prefix
has_prefix-append [] [] = refl
has_prefix-append [] (c ∷ v) = refl
has_prefix-append (c ∷ p) v = ground (arith, has_prefix-append p v)

append-of-has_prefix : (s p : Bytes) → has_prefix s p ≡ true → s ≡ p ++ drop (length p) s
unfolding has_prefix
append-of-has_prefix s [] h = refl
append-of-has_prefix [] (c ∷ p) h = cc
append-of-has_prefix (d ∷ s) (c ∷ p) h = ground (arith, append-of-has_prefix s p)

splits_here :
    (s sep : Bytes) (i : ℕ)
    → i ≡ 0
    → has_prefix s sep ≡ true
    → s ≡ take i s ++ (sep ++ drop (i + length sep) s)
splits_here s sep i e h =
    let n : 0 + length sep ≡ length sep = omega arith in rw (e, n) (append-of-has_prefix s sep h)

index-splits :
    (s sep : Bytes) (i : ℕ)
    → index s sep ≡ some i
    → s ≡ take i s ++ (sep ++ drop (i + length sep) s)
unfolding index
index-splits [] sep i h = elim (Bool-cases (has_prefix [] sep)) [
  | inl hit ↦ splits_here [] sep i (ground arith) hit
  | inr miss ↦ absurd (ground arith)
]
index-splits (c ∷ s) sep i h = elim (Bool-cases (has_prefix (c ∷ s) sep)) [
  | inl hit ↦ splits_here (c ∷ s) sep i (ground arith) hit
  | inr miss ↦ elim (Option-cases (index s sep)) [
    | inl e ↦ absurd (ground arith)
    | inr (j, e) ↦
        let next : i ≡ suc j = ground arith in
        let n : suc j + length sep ≡ suc (j + length sep) = omega arith in
        rw (next, n) (ap (◌∷◌ c) (index-splits s sep j e))
  ]
]

index-first : (u v sep : Bytes) → (i : ℕ) × (index (u ++ (sep ++ v)) sep ≡ some i) × (i ≤ length u)
unfolding index
index-first [] v sep = (0, index_here (sep ++ v) sep (has_prefix-append sep v), omega arith)
  where
    index_here : (s p : Bytes) → has_prefix s p ≡ true → index s p ≡ some 0
    index_here [] p h = rw h
    index_here (c ∷ s) p h = rw h
index-first (c ∷ u) v sep = elim (Bool-cases (has_prefix (c ∷ (u ++ (sep ++ v))) sep)) [
  | inl hit ↦ (0, rw hit, omega arith)
  | inr miss ↦ let (i, e, le) = index-first u v sep in (suc i, rw (miss, e), omega arith)
]

-- What `Cut(s, sep)` promises.
pub record IsCut (s sep : Bytes) (before after : Bytes) (found : Bool) : Type 0 where
  pub splits : found ≡ true → s ≡ before ++ (sep ++ after)
  pub first : (u v : Bytes) → s ≡ u ++ (sep ++ v) → (found ≡ true) × (length before ≤ length u)
  pub missing : found ≡ false → (before ≡ s) × (after ≡ [])

-- `Cut` splits at the first occurrence of the separator. It reports `false`, and gives back the
-- whole text with nothing behind it, exactly when the separator does not occur.
pub cut-IsCut : (s sep : Bytes) → IsCut s sep (cut s sep).0 (cut s sep).1 (cut s sep).2
unfolding cut
cut-IsCut s sep = elim (Option-cases (index s sep)) [
  | inl e ↦
      rw (e, cut)
        (record {
          splits = λ h. cc;
          first = λ u v h. let (i, f, _) = index-first u v sep in cc;
          missing = λ _. (refl, refl);
        })
  | inr (i, e) ↦
      rw (e, cut)
        (record {
          splits = λ _. index-splits s sep i e;
          first = λ u v h.
              let (j, f, le) = index-first u v sep in
              let found : j ≡ i = ground (arith, rw (← h) at f) in
              (refl, omega (arith, length-take i s));
          missing = λ h. cc;
        })
]
