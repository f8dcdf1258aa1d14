-- ===== src/Http1/Header/ContentLength.antt =====
-- The block on `Content-Length` in `readHeader` (internal/transport/http1/http1.go).
use mathlib.Core.List.{reverse-cons}
use go_http.Base.{
  ℕ, ◌≡◌, ◌≢◌, ◌↔◌, refl, sym, ◌∙◌, arith, Option, none, some, List, [], ◌∷◌, ◌++◌, reverse, Bytes,
  equal_iff,
}
use mathlib.Core.Option
use go_http.Strconv.{parse_uint, decimal}
use go_http.Http1.Utils.{walk_reverse, last_element}
use go_http.Http1.Utils.Elements.{elements}
use go_http.Http1.Utils.Walk.{visit, walk_reverse-visit, last_element-elements}
use go_http.Http1.Response.{HeaderError}
use go_http.Http1.Header.{check_element, check_values, length_is, declared_length}

module _ {A : Type 0} (P : A → Type 0) where
  abbrev pub All : List A → Type 0
  All [] = Unit {0}
  All (x ∷ xs) = P x × All xs

  pub All-append : (xs ys : List A) → All (xs ++ ys) ↔ (All xs × All ys)
  All-append [] ys = (λ h. (tt, h), λ h. h.1)
  All-append (x ∷ xs) ys =
      let ih = All-append xs ys in
      (λ h. ((h.0, (ih.0 h.1).0), (ih.0 h.1).1), λ h. (h.0.0, ih.1 (h.0.1, h.1)))

  pub All-reverse : (xs : List A) → All (reverse xs) ↔ All xs
  All-reverse [] = (λ h. h, λ h. h)
  All-reverse (x ∷ xs) =
      let ih = All-reverse xs in
      let ap = All-append (reverse xs) (x ∷ []) in
      rw reverse-cons ((λ h. ((ap.0 h).1.0, ih.0 (ap.0 h).0), λ h. ap.1 (ih.1 h.1, (h.0, tt))))

All-map :
    {A : Type 0} (P Q : A → Type 0) → ((x : A) → P x → Q x) → (xs : List A) → All P xs → All Q xs
All-map P Q f [] h = tt
All-map P Q f (x ∷ xs) h = (f x h.0, All-map P Q f xs h.1)

-- An element that passes the check.
abbrev Agrees : Bytes → Bytes → Type 0
Agrees first t = (t ≢ []) × (first ≡ t)

abbrev pub EachElement : (Bytes → Type 0) → List Bytes → Type 0
EachElement P = All (λ v. All P (elements v))

check_element-none :
    (first : Bytes) (err : Option HeaderError) (t : Bytes)
    → ((check_element first err t).0 ≡ none) ↔ ((err ≡ none) × Agrees first t)
check_element-none first err [] = ground arith
check_element-none first err (c ∷ t) = ground (arith, equal_iff first (c ∷ t))

visit-none :
    (first : Bytes) (err : Option HeaderError) (ts : List Bytes)
    → (visit (check_element first) err ts ≡ none) ↔ ((err ≡ none) × All (Agrees first) ts)
unfolding visit
visit-none first err [] = (λ h. (h, tt), λ h. h.0)
visit-none first err (t ∷ ts) =
    let ih = visit-none first (check_element first err t).0 ts in
    let here = check_element-none first err t in
    (
      λ h. ((here.0 (ih.0 h).0).0, ((here.0 (ih.0 h).0).1, (ih.0 h).1)),
      λ h. ih.1 (here.1 (h.0, h.1.0), h.1.1),
    )

walk-none :
    (first : Bytes) (err : Option HeaderError) (v : Bytes)
    → (Option.get_or (walk_reverse v (check_element first) err) err ≡ none)
      ↔ ((err ≡ none) × All (Agrees first) (elements v))
walk-none first err v =
    let n = visit-none first err (reverse (elements v)) in
    let r = All-reverse (Agrees first) (elements v) in
    rw (walk_reverse-visit (check_element first) v err)
      (λ h. ((n.0 h).0, r.0 (n.0 h).1), λ h. n.1 (h.0, r.1 h.1))

check_values-none :
    (first : Bytes) (vs : List Bytes) (err : Option HeaderError)
    → (check_values first vs err ≡ none) ↔ ((err ≡ none) × EachElement (Agrees first) vs)
unfolding check_values
check_values-none first [] err = (λ h. (h, tt), λ h. h.0)
check_values-none first (v ∷ vs) err =
    let ih =
      check_values-none first vs (Option.get_or (walk_reverse v (check_element first) err) err) in
    let here = walk-none first err v in
    (
      λ h. ((here.0 (ih.0 h).0).0, ((here.0 (ih.0 h).0).1, (ih.0 h).1)),
      λ h. ih.1 (here.1 (h.0, h.1.0), h.1.1),
    )

parse_uint-ne-nil : (t : Bytes) (n : ℕ) → parse_uint t 63 ≡ some n → t ≢ []
unfolding parse_uint decimal
parse_uint-ne-nil [] n h = ground arith
parse_uint-ne-nil (c ∷ t) n h = ground arith

-- The response's values of `Content-Length` declare `n`: all elements of all values are one text,
-- and that is a decimal number below 2 ^ 63 (RFC 9112, section 6.3, rule 5).
pub record Declares (vs : List Bytes) (n : ℕ) : Type 0 where
  pub number : Bytes
  pub is_number : parse_uint number 63 ≡ some n
  pub agree : EachElement (λ t. t ≡ number) vs

-- `readHeader` takes a length from the `Content-Length` values of a response exactly when they
-- declare it.
pub declared_length_iff :
    (v : Bytes) (vs : List Bytes) (n : ℕ)
    → (declared_length (v ∷ vs) ≡ length_is (some n)) ↔ Declares (v ∷ vs) n
unfolding declared_length
declared_length_iff v vs n = (
  λ h.
      let passed : check_values (last_element v) (v ∷ vs) none ≡ none = ground arith in
      record {
        number = last_element v;
        is_number = ground arith;
        agree =
            each (Agrees (last_element v)) (λ t. t ≡ last_element v) (λ t a. sym a.1)
              ((check_values-none (last_element v) (v ∷ vs) none).0 passed).1;
      },
  λ d.
      let (front, e) = last_element-elements v in
      let first : last_element v ≡ d.number =
        ((All-append (λ t. t ≡ d.number) front (last_element v ∷ [])).0
          (rw e at (d.agree.0))).1.0 in
      let passed = (check_values-none (last_element v) (v ∷ vs) none).1 (
        refl,
        each (λ t. t ≡ d.number) (Agrees (last_element v))
            (λ t a. (λ z. parse_uint-ne-nil d.number n d.is_number (sym a ∙ z), first ∙ sym a))
            d.agree,
      ) in
      ground (arith, passed, first, d.is_number),
)
  where
    each :
        (P Q : Bytes → Type 0)
        → ((t : Bytes) → P t → Q t)
        → EachElement P (v ∷ vs)
        → EachElement Q (v ∷ vs)
    each P Q f = All-map _ _ (λ u. All-map P Q f (elements u)) (v ∷ vs)
