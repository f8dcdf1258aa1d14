-- ===== src/Http1/Session/Body.antt =====
-- Reading a response's body through `Session.Read` of internal/transport/http1/http1.go.
use go_http.Base.{
  ℕ, zero, suc, ◌+◌, ◌-◌, ◌≤◌, ◌<◌, false, ◌≡◌, ◌⊎◌, inl, inr, refl, sym, ap, ◌∙◌, arith, Option,
  none, some, [], ◌∷◌, ◌++◌, append_assoc, ltb, leb, ◌==◌, Bytes, length, length-append, take, drop,
  take-append-drop, length-take, Bool-cases,
}
use go_http.Io.{Error, Source, read, read_some, granted}
use go_http.Chunked.Decoding.{granted-pos, read-pending}
use go_http.Http1.Session.{Session, Raw, raw_from_net, read_raw}

-- What is still to come of a raw body.
abbrev pub coming : Session → Bytes
coming s = s.buffered ++ s.net.pending

-- One `ReadRaw` into a buffer of `n` bytes: it gives the next bytes in order, at most `n`, at least one
-- if there are any and `n` is not 0, and otherwise the error of the connection. Fewer
-- than `n` bytes may come with that error, if nothing is left.
pub record RawGives (all : Bytes) (fault : Error) (n : ℕ) (r : Raw) : Type 0 where
  pub in_order : r.bytes ++ (r.buffered ++ r.net.pending) ≡ all
  pub fits : length r.bytes ≤ n
  pub fault_kept : r.net.fault ≡ fault
  pub outcome :
      ((r.error ≡ none) × ((n ≡ 0) ⊎ (0 < length r.bytes)))
      ⊎ ((r.error ≡ some fault) × (r.buffered ++ r.net.pending ≡ []) × (length r.bytes < n))

abbrev pub NetGives : Source → Bytes → ℕ → Source × Bytes × Option Error → Type 0
NetGives net p n r =
    (r.1 ++ r.0.pending ≡ p)
    × (length r.1 ≤ n)
    × (r.0.fault ≡ net.fault)
    × (((r.2 ≡ none) × ((n ≡ 0) ⊎ (0 < length r.1)))
        ⊎ ((r.2 ≡ some net.fault) × (r.0.pending ≡ []) × (r.1 ≡ []) × (0 < n)))

read-NetGives-cons :
    (net : Source) (c n : ℕ) (p : Bytes)
    → net.pending ≡ c ∷ p
    → NetGives net (c ∷ p) (suc n) (read net (suc n))
read-NetGives-cons net c n p e =
    let k = granted net (suc n) in
    let bounds = granted-pos net (suc n) (omega arith) (omega (arith, ap length e)) in
    let len = length-take k net.pending in
    rw (read-pending net (suc n) (c ∷ p) (omega arith) e (omega arith)) (
      take-append-drop k net.pending ∙ e,
      omega (arith, len),
      refl,
      inl (refl, inr (omega (arith, len))),
    )

pub read-NetGives :
    (net : Source) (p : Bytes) (n : ℕ) → net.pending ≡ p → NetGives net p n (read net n)
read-NetGives net [] n e = unfold read read_some in ground (arith, e)
read-NetGives net (c ∷ p) zero e = unfold read read_some in ground (arith, e)
read-NetGives net (c ∷ p) (suc n) e = read-NetGives-cons net c n p e

length_pos : (all : Bytes) → 0 < length all → (length all == 0) ≡ false
length_pos all h = ground arith

raw_from_net-RawGives :
    (net : Source) (got : Bytes) (n m : ℕ)
    → length got + n ≤ m
    → (n ≡ 0 → (m ≡ 0) ⊎ (0 < length got))
    → RawGives (got ++ net.pending) net.fault m (raw_from_net net got n)
unfolding raw_from_net
raw_from_net-RawGives net got n m h z =
    let g = read-NetGives net net.pending n refl in
    let len = length-append got (read net n).1 in
    record {
      in_order = append_assoc got (read net n).1 (read net n).0.pending ∙ ap (◌++◌ got) g.0;
      fits = omega (arith, g.1, len);
      fault_kept = g.2;
      outcome = ground (arith, g.3, len, z);
    }

-- `ReadRaw` gives the next bytes of the buffer and then the connection, in order, at most as many as
-- asked for and at least one if there are any; otherwise it gives the connection's error.
pub read_raw-RawGives :
    (buffered : Bytes) (net : Source) (n : ℕ)
    → RawGives (buffered ++ net.pending) net.fault n (read_raw buffered net n)
read_raw-RawGives [] net n =
    unfold read_raw in raw_from_net-RawGives net [] n n (omega arith) (λ z. inl z)
read_raw-RawGives (c ∷ buffered) net n = held_bytes (c ∷ buffered) (omega arith)
  where
    few :
        (all : Bytes)
        → 0 < length all
        → n ≤ length all
        → RawGives
            (all ++ net.pending)
            net.fault
            n
            (record { buffered = drop n all; net = net; bytes = take n all; error = none })
    few all h le = record {
      in_order =
          sym (append_assoc (take n all) (drop n all) net.pending)
          ∙ ap (λ t. t ++ net.pending) (take-append-drop n all);
      fits = omega (arith, length-take n all);
      fault_kept = refl;
      outcome = inl (refl, ground (arith, length-take n all));
    }

    held_bytes :
        (all : Bytes)
        → 0 < length all
        → RawGives (all ++ net.pending) net.fault n (read_raw all net n)
    held_bytes all h =
        unfold read_raw in
        elim (Bool-cases (leb n (length all))) [
          | inl small ↦ rw (length_pos all h, small) (few all h (ground arith))
          | inr big ↦ elim (Bool-cases (ltb (n - length all) 32)) [
            | inl close_by ↦
                rw (length_pos all h, big, close_by)
                  (record {
                    in_order = refl;
                    fits = ground arith;
                    fault_kept = refl;
                    outcome = inl (refl, inr h);
                  })
            | inr far ↦
                rw (length_pos all h, big, far)
                  (raw_from_net-RawGives net all (n - length all) n (ground arith) (λ z. inr h))
          ]
        ]
