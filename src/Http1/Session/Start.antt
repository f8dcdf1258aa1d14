-- ===== src/Http1/Session/Start.antt =====
-- How a response starts its body: `readResponse` of internal/transport/http1/http1.go, and what
-- `Session.Read` then gives.
use go_http.Base.{
  ℕ, suc, ◌≤◌, ◌<◌, ◌≡◌, refl, ap, ◌∙◌, arith, Option, none, some, [], codes, equal, length, take,
  drop, take-append-drop, ◌∷◌, take_ge, Bytes, zero, leb, Bool-cases, inl, inr, if◌then◌else◌,
}
use go_http.Io.{eof, Source}
use go_http.Chunked.Reader.{new_chunked_reader, read_chunked}
use go_http.Http1.Utils.{walk_reverse, walk, round}
use go_http.Http1.Response.{HeaderError}
use go_http.Http1.Header.{HeaderResult}
use go_http.Http1.Session.{
  returns, panics, chunked, plain, start_body, start_plain, start_coded, fresh_session,
  decode_codings, read_body, read_within, read_decoder,
}
use go_http.Http1.Session.Counted.{
  Counts, Delivers, read_all, read_all-Delivers, read_all-cut_short,
}

drop_ge : (n : ℕ) (bs : Bytes) → length bs ≤ n → drop n bs ≡ []
drop_ge zero [] h = refl
drop_ge (suc n) [] h = refl
drop_ge zero (b ∷ bs) h = absurd (omega (arith, h))
drop_ge (suc n) (b ∷ bs) h = drop_ge n bs (omega (arith, h))

module _ (ahead : ℕ) (h : HeaderResult) (plain_body : h.response.transfer_encoding ≡ []) where
  pub start_body-Counts :
      (m : ℕ)
      → h.response.content_length ≡ some (suc m)
      → Counts (start_body ahead h).session (suc m) h.source.pending h.source.fault
  unfolding start_body start_plain fresh_session
  start_body-Counts m e =
      rw (plain_body, start_body)
        (rw (e, start_plain)
          (record {
            raw = ground arith;
            left = e;
            input_is = take-append-drop ahead h.source.pending;
            fault_is = refl;
          }))

  whole_body :
      (sizes : ℕ → ℕ) (fuel m : ℕ)
      → ((i : ℕ) → 0 < sizes i)
      → suc m < fuel
      → h.response.content_length ≡ some (suc m)
      → suc m ≤ length h.source.pending
      → Delivers
          (take (suc m) h.source.pending)
          eof
          (drop (suc m) h.source.pending)
          (read_all fuel sizes (start_body ahead h).session [])
  whole_body sizes fuel m positive enough e all =
      read_all-Delivers sizes h.source.fault positive fuel (start_body ahead h).session [] (suc m)
        h.source.pending enough (start_body-Counts m e) all

  -- If the connection ends before the length is reached, the caller gets what came and then the
  -- connection's own error: where that is the end of the input, a cut body looks like a whole one.
  pub cut_body :
      (sizes : ℕ → ℕ) (fuel m : ℕ)
      → ((i : ℕ) → 0 < sizes i)
      → suc m < fuel
      → h.response.content_length ≡ some (suc m)
      → length h.source.pending < suc m
      → Delivers h.source.pending h.source.fault []
          (read_all fuel sizes (start_body ahead h).session [])
  cut_body sizes fuel m positive enough e less =
      read_all-cut_short sizes h.source.fault positive fuel (start_body ahead h).session [] (suc m)
        h.source.pending enough (start_body-Counts m e) less

  -- The body of a response without a transfer coding and with a `Content-Length` that is not 0, read to the
  -- end: a caller gets exactly that many bytes, then the end, and the connection stands behind them; or,
  -- if the connection ends before, what came and then the connection's own error. However much the
  -- connection's reader has read ahead, however the bytes arrive, and for buffers of any positive
  -- sizes.
  pub counted_body :
      (sizes : ℕ → ℕ) (fuel m : ℕ)
      → ((i : ℕ) → 0 < sizes i)
      → suc m < fuel
      → h.response.content_length ≡ some (suc m)
      → Delivers
          (take (suc m) h.source.pending)
          (if leb (suc m) (length h.source.pending) then eof else h.source.fault)
          (drop (suc m) h.source.pending)
          (read_all fuel sizes (start_body ahead h).session [])
  counted_body sizes fuel m positive enough e =
      elim (Bool-cases (leb (suc m) (length h.source.pending))) [
        | inl all ↦ rw (all) (whole_body sizes fuel m positive enough e (ground (arith, all)))
        | inr less ↦
            let few : length h.source.pending < suc m = ground (arith, less) in
            rw
              (
                less,
                take_ge (suc m) h.source.pending (omega (arith, few)),
                drop_ge (suc m) h.source.pending (omega (arith, few)),
              )
              (cut_body sizes fuel m positive enough e few)
      ]

  -- The body of a response with neither a transfer coding nor a length makes `Read` panic.
  pub close_delimited_panics :
      (n : ℕ) → h.response.content_length ≡ none → read_body (start_body ahead h).session n ≡ panics
  unfolding start_body start_plain fresh_session read_body read_within read_decoder
  close_delimited_panics n e = ground (arith, plain_body, e)

decode_chunked :
    (s : Source) (err : Option HeaderError)
    → decode_codings (codes "chunked") (plain s, err) ≡ (chunked (new_chunked_reader s), err)
unfolding decode_codings walk_reverse walk round equal
decode_chunked s err = refl

-- With the one transfer coding `chunked` and no error so far, the response starts without an error, and
-- a `Read` of its body is one of a new chunked reader behind the header.
pub chunked_body :
    (ahead : ℕ) (h : HeaderResult) (n : ℕ)
    → h.response.transfer_encoding ≡ codes "chunked"
    → h.response.content_length ≡ none
    → h.error ≡ none
    → let r = read_chunked (new_chunked_reader h.source) n in
      ((start_body ahead h).error ≡ none)
      × (read_body (start_body ahead h).session n
          ≡ returns
              (record (start_body ahead h).session { decoder = chunked r.reader })
              r.bytes
              r.error)
unfolding start_body start_coded fresh_session read_body read_within read_decoder
chunked_body ahead h n t e f = ground (
  arith,
  t,
  e,
  f,
  ap (λ te. decode_codings te (plain h.source, h.error)) t ∙ decode_chunked h.source h.error,
)
