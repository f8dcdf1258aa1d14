-- ===== src/Controller/Fields.antt =====
-- internal/transport/h2c/controller/hpack.go, `EncodeHeaders`, over the encoder of golang.org/x/net:
-- `encode` is what the encoder writes for a list of fields with a table size, and leaves of its table.
use go_http.Base.{
  ℕ, ◌+◌, ◌%◌, ◌^◌, ◌≤◌, ◌<◌, ◌==◌, ◌≡◌, ◌⊎◌, inl, inr, refl, arith, Option, none, some, List, [],
  ◌∷◌, Bytes, length, ltb, if◌then◌else◌, add32, IsWord, Bool-cases,
}

-- `hpack.HeaderField`
abbrev pub Field : Type 0
Field = Bytes × Bytes

-- `HeaderField.Size`: the lengths and 32, as a uint32 (RFC 7541, section 4.1).
abbrev pub field_size : Field → ℕ
field_size f = (length f.0 + length f.1 + 32) % 2 ^ 32

-- `total`, a uint32
unfoldable pub total_from : ℕ → List Field → ℕ
total_from total [] = total
total_from total (f ∷ fs) = total_from (add32 total (field_size f)) fs

-- The size of a list of fields, without wrap-around.
unfoldable pub list_size : List Field → ℕ
list_size [] = 0
list_size (f ∷ fs) = length f.0 + length f.1 + 32 + list_size fs

total_from-list_size :
    (total : ℕ) (fs : List Field)
    → IsWord total
    → total_from total fs ≡ (total + list_size fs) % 2 ^ 32
unfolding total_from list_size
total_from-list_size total [] w = omega arith
total_from-list_size total (f ∷ fs) w =
    omega (arith, total_from-list_size (add32 total (field_size f)) fs (omega arith))

module _ {Table : Type 0} (set_size : Table → ℕ → Table)
    (encode : Table → List Field → Bytes × Table) where
  -- `hpackMixin` less its buffer, which each call resets.
  pub record Encoder : Type 0 where
    pub table : Table
    pub last_sz : ℕ

  -- `EncodeHeaders` up to the call of `do`, with the peer's settings for the list and the table:
  -- `none` is the error of a list that is too large.
  unfoldable pub encode_headers : Encoder → ℕ → ℕ → List Field → Option (Bytes × Encoder)
  encode_headers h max_list table_size fields =
      let sized =
        if h.last_sz == table_size
        then h
        else record { table = set_size h.table table_size; last_sz = table_size } in
      let r = encode sized.table fields in
      if ltb max_list (total_from 0 fields)
      then none
      else some (r.0, record { table = r.1; last_sz = sized.last_sz })

  -- A header list below 2^32 bytes is refused exactly if it is larger than the peer allows. One that is
  -- not refused is encoded with the peer's table size, which the encoder keeps.
  pub encode_headers-size :
      (h : Encoder) (max_list table_size : ℕ) (fields : List Field)
      → list_size fields < 2 ^ 32
      → ((encode_headers h max_list table_size fields ≡ none) × (max_list < list_size fields))
        ⊎ ((r : Bytes × Encoder) × (encode_headers h max_list table_size fields ≡ some r)
            × (list_size fields ≤ max_list)
            × (r.1.last_sz ≡ table_size))
  unfolding encode_headers
  encode_headers-size h max_list table_size fields small =
      let total = total_from-list_size 0 fields (omega arith) in
      elim (Bool-cases (ltb max_list (total_from 0 fields))) [
        | inl e ↦ inl (rw e, ground (arith, e, total))
        | inr e ↦ rw (e) (inr (_, refl, ground (arith, e, total), ground arith))
      ]
