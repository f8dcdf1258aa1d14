-- ===== src/Http1/Session/Counted.antt =====
-- A body with a `Content-Length`, read to its end through `Session.Read` of
-- internal/transport/http1/http1.go.
use go_http.Base.{
  ℕ, zero, suc, ◌+◌, ◌-◌, ◌≤◌, ◌<◌, true, ◌≡◌, inl, inr, refl, sym, ap, ◌∙◌, arith, none, some, [],
  ◌∷◌, ◌++◌, append_assoc, append-nil, ltb, if◌then◌else◌, Bytes, length, length-append, take, drop,
}
use go_http.Io.{Error, eof}
use go_http.Http1.Session.{
  Session, returns, panics, not_modelled, Raw, read_raw, read_within, read_body,
}
use go_http.Http1.Session.Body.{coming, read_raw-RawGives}

-- How a caller that reads to the end fares; `stuck` is a panic or too little fuel.
pub data Drained : Type 0 where
  got : Bytes → Error → Session → Drained
  stuck : Drained

-- A caller that reads until an error, with buffers of its own sizes.
unfoldable pub read_all : ℕ → (ℕ → ℕ) → Session → Bytes → Drained
read_all zero sizes s acc = stuck
read_all (suc fuel) sizes s acc = elim (read_body s (sizes fuel)) [
  | panics ↦ stuck
  | not_modelled ↦ stuck
  | returns s' bs (some e) ↦ got (acc ++ bs) e s'
  | returns s' bs none ↦ read_all fuel sizes s' (acc ++ bs)
]

-- A session that reads its body raw, with `m` bytes left by the `Content-Length`.
pub record Counts (s : Session) (m : ℕ) (input : Bytes) (fault : Error) : Type 0 where
  pub raw : s.readraw ≡ true
  pub left : s.remaining ≡ some m
  pub input_is : coming s ≡ input
  pub fault_is : s.net.fault ≡ fault

abbrev pub next : Session → ℕ → Raw → Session
next s m r = record s { buffered = r.buffered; net = r.net; remaining = some (m - length r.bytes) }

pub read_body-next :
    (s : Session) (m n : ℕ) (input : Bytes) (fault : Error)
    → Counts s m input fault
    → 0 < m
    → let r = read_raw s.buffered s.net (if ltb m n then m else n) in
      read_body s n ≡ returns (next s m r) r.bytes r.error
unfolding read_body read_within
read_body-next s m n input fault c h = ground (arith, c.raw, c.left)

take-append_ge : (a b : Bytes) (m : ℕ) → length a ≤ m → take m (a ++ b) ≡ a ++ take (m - length a) b
take-append_ge [] b m h = let e : m - 0 ≡ m = omega arith in rw e
take-append_ge (c ∷ a) b zero h = absurd (omega arith)
take-append_ge (c ∷ a) b (suc m) h =
    let e : suc m - suc (length a) ≡ m - length a = omega arith in
    rw e (ap (◌∷◌ c) (take-append_ge a b m (omega arith)))

drop-append_ge : (a b : Bytes) (m : ℕ) → length a ≤ m → drop m (a ++ b) ≡ drop (m - length a) b
drop-append_ge [] b m h = let e : m - 0 ≡ m = omega arith in rw e
drop-append_ge (c ∷ a) b zero h = absurd (omega arith)
drop-append_ge (c ∷ a) b (suc m) h =
    let e : suc m - suc (length a) ≡ m - length a = omega arith in
    rw e (drop-append_ge a b m (omega arith))

-- The caller got the bytes and the error, and the session stands at `rest`.
pub record Delivers (bytes : Bytes) (e : Error) (rest : Bytes) (d : Drained) : Type 0 where
  pub session : Session
  pub result : d ≡ got bytes e session
  pub at_rest : coming session ≡ rest

Delivers-along :
    {x y rest rest' : Bytes} {e : Error} {d d' : Drained}
    → x ≡ y
    → rest ≡ rest'
    → d' ≡ d
    → Delivers x e rest d
    → Delivers y e rest' d'
Delivers-along {e} p q r h = record {
  session = h.session;
  result = r ∙ h.result ∙ ap (λ t. got t e h.session) p;
  at_rest = h.at_rest ∙ q;
}

module _ (sizes : ℕ → ℕ) (fuel : ℕ) (s : Session) (acc : Bytes) where
  read_all-more :
      {s' : Session} {bs : Bytes}
      → read_body s (sizes fuel) ≡ returns s' bs none
      → read_all (suc fuel) sizes s acc ≡ read_all fuel sizes s' (acc ++ bs)
  unfolding read_all
  read_all-more e = rw (e, read_all)

  read_all_ends :
      {s' : Session} {bs : Bytes} {e : Error}
      → read_body s (sizes fuel) ≡ returns s' bs (some e)
      → read_all (suc fuel) sizes s acc ≡ got (acc ++ bs) e s'
  unfolding read_all
  read_all_ends e = rw (e, read_all)

pub read_body_zero :
    (s : Session) (n : ℕ) → s.remaining ≡ some 0 → read_body s n ≡ returns s [] (some eof)
unfolding read_body
read_body_zero s n e = ground (arith, e)

module _ (sizes : ℕ → ℕ) (fault : Error) (positive : (i : ℕ) → 0 < sizes i) where
  -- A body with at least as many bytes to come as its length says is read to that length, then ends.
  pub read_all-Delivers :
      (fuel : ℕ) (s : Session) (acc : Bytes) (m : ℕ) (input : Bytes)
      → m < fuel
      → Counts s m input fault
      → m ≤ length input
      → Delivers (acc ++ take m input) eof (drop m input) (read_all fuel sizes s acc)
  read_all-Delivers zero s acc m input enough c all = absurd (omega arith)
  read_all-Delivers (suc fuel) s acc zero input enough c all = record {
    session = s;
    result = read_all_ends sizes fuel s acc (read_body_zero s (sizes fuel) c.left);
    at_rest = c.input_is;
  }
  read_all-Delivers (suc fuel) s acc (suc m) input enough c all =
      let n : ℕ = if ltb (suc m) (sizes fuel) then suc m else sizes fuel in
      let r = read_raw s.buffered s.net n in
      let rest = r.buffered ++ r.net.pending in
      let g = read_raw-RawGives s.buffered s.net n in
      let le : n ≤ suc m = ground arith in
      let some_room : 0 < n = ground (arith, positive fuel) in
      let step = read_body-next s (suc m) (sizes fuel) input fault c (omega arith) in
      let whole : r.bytes ++ rest ≡ input = g.in_order ∙ c.input_is in
      let len : length r.bytes + length rest ≡ length input =
        omega (arith, ap length whole, length-append r.bytes rest) in
      elim g.outcome [
        | inl (no_error, some_bytes) ↦
            let progress : 0 < length r.bytes = ground arith in
            let fits : length r.bytes ≤ suc m = omega (arith, g.fits) in
            Delivers-along
              (append_assoc acc r.bytes (take (suc m - length r.bytes) rest)
                ∙ ap (◌++◌ acc)
                    (sym (take-append_ge r.bytes rest (suc m) fits) ∙ ap (take (suc m)) whole))
              (sym (drop-append_ge r.bytes rest (suc m) fits) ∙ ap (drop (suc m)) whole)
              (read_all-more sizes fuel s acc
                (step ∙ ap (returns (next s (suc m) r) r.bytes) no_error))
              (read_all-Delivers fuel (next s (suc m) r) (acc ++ r.bytes) (suc m - length r.bytes)
                rest (omega arith)
                (record {
                  raw = c.raw;
                  left = refl;
                  input_is = refl;
                  fault_is = g.fault_kept ∙ c.fault_is;
                })
                (omega arith))
        | inr (_, nothing, few) ↦ absurd (omega (arith, ap length nothing))
      ]

  -- A body cut short ends with the error of the connection, after all the bytes that came.
  pub read_all-cut_short :
      (fuel : ℕ) (s : Session) (acc : Bytes) (m : ℕ) (input : Bytes)
      → m < fuel
      → Counts s m input fault
      → length input < m
      → Delivers (acc ++ input) fault [] (read_all fuel sizes s acc)
  read_all-cut_short zero s acc m input enough c less = absurd (omega arith)
  read_all-cut_short (suc fuel) s acc zero input enough c less = absurd (omega arith)
  read_all-cut_short (suc fuel) s acc (suc m) input enough c less =
      let n : ℕ = if ltb (suc m) (sizes fuel) then suc m else sizes fuel in
      let r = read_raw s.buffered s.net n in
      let rest = r.buffered ++ r.net.pending in
      let g = read_raw-RawGives s.buffered s.net n in
      let le : n ≤ suc m = ground arith in
      let some_room : 0 < n = ground (arith, positive fuel) in
      let step = read_body-next s (suc m) (sizes fuel) input fault c (omega arith) in
      let whole : r.bytes ++ rest ≡ input = g.in_order ∙ c.input_is in
      let len : length r.bytes + length rest ≡ length input =
        omega (arith, ap length whole, length-append r.bytes rest) in
      elim g.outcome [
        | inl (no_error, some_bytes) ↦
            let progress : 0 < length r.bytes = ground arith in
            let fits : length r.bytes ≤ suc m = omega (arith, g.fits) in
            Delivers-along (append_assoc acc r.bytes rest ∙ ap (◌++◌ acc) whole) refl
              (read_all-more sizes fuel s acc
                (step ∙ ap (returns (next s (suc m) r) r.bytes) no_error))
              (read_all-cut_short fuel (next s (suc m) r) (acc ++ r.bytes) (suc m - length r.bytes)
                rest (omega arith)
                (record {
                  raw = c.raw;
                  left = refl;
                  input_is = refl;
                  fault_is = g.fault_kept ∙ c.fault_is;
                })
                (omega arith))
        | inr (failed, nothing, few) ↦
            Delivers-along refl nothing
              (read_all_ends sizes fuel s acc
                (step ∙ ap (returns (next s (suc m) r) r.bytes) (failed ∙ ap some c.fault_is)))
              (record {
                session = next s (suc m) r;
                result =
                    ap (λ t. got (acc ++ t) fault (next s (suc m) r))
                      (sym (append-nil r.bytes) ∙ ap (◌++◌ r.bytes) (sym nothing) ∙ whole);
                at_rest = refl;
              })
      ]
