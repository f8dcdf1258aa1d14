-- ===== src/Transport/Responses.antt =====
-- internal/transport/h2c.go, `ReadResponse`, and `ReadHeaders` of internal/transport/h2c/stream.go.
use go_http.Base.{
  ℕ, Bool, true, false, not, ◌&&◌, ◌||◌, ◌==◌, ◌≡◌, inl, inr, refl, sym, ◌≢◌, arith, ℤ, List, [],
  ◌∷◌, ◌++◌, Option, none, some, Bytes, codes, equal, if◌then◌else◌, Bool-cases, Option-cases,
}
use go_http.Strconv.{parse_int}
use go_http.Textproto.{Headers, add_value, canonical}
use go_http.Streams.Lives.{Link, reset}
use go_http.Streams.Dispatch.{internal_error}
use go_http.Transport.Errors.{GoError, nil, foreign, stream_cancelled, at_stream, wrap}

-- The fields of `Response` that `ReadResponse` sets before the body. `code` is none as long as there is
-- no status.
pub record H2Response : Type 0 where
  pub code : Option ℤ
  pub status : Bytes
  pub header : Headers

abbrev pub fresh : H2Response
fresh = record { code = none; status = []; header = [] }

abbrev pub is_pseudo : Bytes → Bool
is_pseudo [] = false
is_pseudo (c ∷ k) = c == b':'

abbrev pub cancel : ℕ
cancel = 8

-- The parameters: `http.StatusText` of the standard library, and the texts of the errors of `Atoi` and
-- `errors.New`.
module _ (status_text : ℤ → Bytes) (atoi_error invalid_header : ℕ) where
  -- The callback of `ReadResponse` on a field.
  unfoldable pub read_field : H2Response → Bytes × Bytes → H2Response × GoError
  read_field resp f =
      if is_pseudo f.0
      then (if equal f.0 (codes ":status")
          then (elim (parse_int f.1) [
            | none ↦ (resp, foreign atoi_error)
            | some n ↦
                (record resp { code = some n; status = f.1 ++ codes " " ++ status_text n }, nil)
          ])
          else (resp, foreign invalid_header))
      else (record resp { header = add_value (canonical f.0) f.1 resp.header }, nil)

  -- The loop of `ReadHeaders` on the fields of a block, up to the first error.
  unfoldable pub read_fields : H2Response → List (Bytes × Bytes) → H2Response × GoError
  unfolding read_field
  read_fields resp [] = (resp, nil)
  read_fields resp (f ∷ fs) =
      let r = read_field resp f in
      let rest = read_fields r.0 fs in elim (r.1) [ nil ↦ rest | e ↦ (r.0, e) ]

  -- What the `select` of `ReadHeaders` gets.
  pub data Signal : Type 0 where
    context_done : Signal
    stream_done : GoError → Signal
    headers : List (Bytes × Bytes) → Signal

  -- `ReadHeaders`, with the callback of `ReadResponse`. `write_error` is the error of writing
  -- RST_STREAM, which `Reset` returns the first time.
  unfoldable pub read_headers : Link → ℕ → GoError → Signal → Link × H2Response × GoError
  unfolding read_fields reset at_stream wrap
  read_headers l id write_error context_done =
      (reset l id cancel false, fresh, wrap (at_stream stream_cancelled id) write_error)
  read_headers l id write_error (stream_done reason) = (l, fresh, reason)
  read_headers l id write_error (headers fs) =
      let r = read_fields fresh fs in
      elim (r.1) [ nil ↦ (l, r.0, nil) | e ↦ (reset l id internal_error false, r.0, e) ]

  -- Every pseudo-header of a block is a `:status` with a number.
  unfoldable pub acceptable : List (Bytes × Bytes) → Bool
  acceptable [] = true
  acceptable (f ∷ fs) =
      (not (is_pseudo f.0)
        || (equal f.0 (codes ":status") && elim (parse_int f.1) [ none ↦ false | some n ↦ true ]))
      && acceptable fs

  -- The other fields, in their order, by canonical names.
  unfoldable pub regular : Headers → List (Bytes × Bytes) → Headers
  regular h [] = h
  regular h (f ∷ fs) = regular (if is_pseudo f.0 then h else add_value (canonical f.0) f.1 h) fs

  -- The last status of the block, or else the one before it.
  unfoldable pub last_code : Option ℤ → List (Bytes × Bytes) → Option ℤ
  last_code c [] = c
  last_code c (f ∷ fs) = last_code (if is_pseudo f.0 then parse_int f.1 else c) fs

  -- The first field is taken, and leaves a response from which the others go on.
  field-taken :
      (f : Bytes × Bytes) (fs : List (Bytes × Bytes)) (resp : H2Response)
      → acceptable (f ∷ fs) ≡ true
      → ((read_field resp f).1 ≡ nil)
        × (acceptable fs ≡ true)
        × ((read_field resp f).0.header
            ≡ (if is_pseudo f.0 then resp.header else add_value (canonical f.0) f.1 resp.header))
        × ((read_field resp f).0.code ≡ (if is_pseudo f.0 then parse_int f.1 else resp.code))
  unfolding read_field acceptable
  field-taken f fs resp a = elim (Bool-cases (is_pseudo f.0)) [
    | inr e ↦ rw (e, read_field) (refl, ground (arith, e, a), refl, refl)
    | inl e ↦ elim (Option-cases (parse_int f.1)) [
      | inl n ↦ ground (arith, e, n, a)
      | inr n ↦
          let k : equal f.0 (codes ":status") ≡ true = ground (arith, e, a) in
          rw (e, k, n.1, read_field) (refl, ground (arith, e, a), refl, refl)
    ]
  ]

  -- A block whose pseudo-headers are all `:status` with a number is taken without an error. The status
  -- is the last one of the block, or none if it has none, and the header has the other fields in their
  -- order, wherever they stand.
  pub read_fields-acceptable :
      (fs : List (Bytes × Bytes)) (resp : H2Response)
      → acceptable fs ≡ true
      → ((read_fields resp fs).1 ≡ nil)
        × ((read_fields resp fs).0.header ≡ regular resp.header fs)
        × ((read_fields resp fs).0.code ≡ last_code resp.code fs)
  unfolding read_fields regular last_code
  read_fields-acceptable [] resp a = (refl, refl, refl)
  read_fields-acceptable (f ∷ fs) resp a =
      let t = field-taken f fs resp a in
      let rest = read_fields-acceptable fs (read_field resp f).0 t.1 in
      let step = t.0 in
      let header = t.2 in
      let code = t.3 in rw (step, sym header, sym code, read_fields, regular, last_code) rest

  -- A block with another pseudo-header, or with a `:status` that is not a number, is refused.
  pub read_fields-refused :
      (fs : List (Bytes × Bytes)) (resp : H2Response)
      → acceptable fs ≡ false
      → (read_fields resp fs).1 ≢ nil
  unfolding read_fields read_field acceptable
  read_fields-refused [] resp a = ground (arith, a)
  read_fields-refused (f ∷ fs) resp a = elim (Bool-cases (is_pseudo f.0)) [
    | inr e ↦ rw (e, read_fields, read_field) (read_fields-refused fs _ (ground (arith, e, a)))
    | inl e ↦ elim (Bool-cases (equal f.0 (codes ":status"))) [
      | inr k ↦ rw (e, k, read_fields, read_field) (ground arith)
      | inl k ↦ elim (Option-cases (parse_int f.1)) [
        | inl n ↦ rw (e, k, n, read_fields, read_field) (ground arith)
        | inr n ↦
            rw (e, k, n.1, read_fields, read_field)
              (read_fields-refused fs _ (ground (arith, e, k, n.1, a)))
      ]
    ]
  ]
