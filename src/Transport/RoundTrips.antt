-- ===== src/Transport/RoundTrips.antt =====
-- internal/transport/h2c.go, `RoundTrip`: `WriteRequest` with the opening of the stream, and then
-- `ReadResponse`.
use go_http.Base.{
  ℕ, ◌≡◌, ◌≢◌, inl, inr, refl, arith, ℤ, Bool, true, false, List, Option, none, some, Bytes,
  Bool-cases, if◌then◌else◌,
}
use Prim.{Unit}
use go_http.Streams.Settings.{Setting}
use go_http.Streams.Opening.{assign_stream_id}
use go_http.Streams.Lives.{Link, new_life, set_life, close_with_error, reset}
use go_http.Streams.Ends.{Sound, reset-Goes}
use go_http.Streams.Runs.{Reach, Reach-Goes}
use go_http.Transport.Errors.{GoError, nil, stream_error, h2_code, foreign}
use go_http.Transport.Responses.{
  H2Response, Signal, context_done, stream_done, headers, read_headers, cancel,
}
use go_http.Streams.Dispatch.{internal_error}
use go_http.Transport.Requests.{write_request, reset_code, reset_with}

-- `getRawConn`: what is behind the connection that `RoundTrip` gets.
pub data RawConn : Type 0 where
  no_raw other_conn h2_stream : RawConn

unfoldable pub is_h2_stream : RawConn → Bool
is_h2_stream h2_stream = true
is_h2_stream _ = false

-- What `RoundTrip` meets: the connection, the error of `GetBody` and whether there is a body, the errors of
-- `WriteHeaders` and `WriteRequestBody`, how the `select` of `WriteRequest` goes, and the error of
-- writing RST_STREAM.
pub record Meets : Type 0 where
  pub conn : RawConn
  pub get_body : GoError
  pub has_body : Bool
  pub headers_error : GoError
  pub body_error : GoError
  pub cancelled : Bool
  pub first : Bool
  pub rst_error : GoError

-- How it ends: with an error before a stream is opened, waiting, or with the link and an error or a
-- response, whose body is then the stream's.
pub data Ends : Type 0 where
  refused : GoError → Ends
  waits_open waits_write : Ends
  fails : Link → (id : ℕ) → GoError → Ends
  responds : Link → (id : ℕ) → H2Response → Ends

-- `AssignStreamID`, on the link.
unfoldable pub assigned : Link → Option (Link × ℕ)
unfolding set_life
assigned l = elim (assign_stream_id l.conn) [
  | none ↦ none
  | some r ↦ some (set_life (record l { conn = r.0 }) r.1 new_life, r.1)
]

-- The end, behind `ReadHeaders`; the body is `ResponseBodyStream` of the stream.
unfoldable pub ended : ℕ → Link × H2Response × GoError → Ends
ended id (l, resp, nil) = responds l id resp
ended id (l, resp, e) = fails l id e

-- The parameters of `ReadResponse`, and what `ReadHeaders` gets for a stream on a link.
module _ (status_text : ℤ → Bytes) (atoi_error invalid_header : ℕ)
    (signal : Link → ℕ → Signal status_text atoi_error invalid_header) where
  -- `ReadResponse`
  unfoldable pub read_response : Link → ℕ → GoError → Ends
  unfolding ended
  read_response l id rst_error =
      ended id (read_headers status_text atoi_error invalid_header l id rst_error (signal l id))

  -- Behind `WriteRequest`; `waiting` is what else happens on the connection until the response comes.
  unfoldable pub read_if_written : (Link → Link) → ℕ → GoError → Option (Link × GoError) → Ends
  unfolding read_response
  read_if_written waiting id rst_error none = waits_write
  read_if_written waiting id rst_error (some (l, nil)) = read_response (waiting l) id rst_error
  read_if_written waiting id rst_error (some (l, e)) = fails l id e

  -- Behind `AssignStreamID`; `writing` is what else happens while the request is written.
  unfoldable pub write_if_open : (Link → Link) → (Link → Link) → Meets → Option (Link × ℕ) → Ends
  unfolding read_if_written
  write_if_open writing waiting m none = waits_open
  write_if_open writing waiting m (some (l, id)) =
      read_if_written waiting id m.rst_error
        (write_request (writing l) id m.has_body m.headers_error m.body_error m.cancelled m.first)

  -- Behind `GetBody`, with its error.
  unfoldable pub open_with_body : (Link → Link) → (Link → Link) → Link → Meets → GoError → Ends
  unfolding assigned write_if_open
  open_with_body writing waiting l m nil = write_if_open writing waiting m (assigned l)
  open_with_body writing waiting l m e = refused e

  -- `RoundTrip`, for the text of its own error.
  unfoldable pub round_trip : ℕ → (Link → Link) → (Link → Link) → Link → Meets → Ends
  unfolding is_h2_stream open_with_body
  round_trip not_h2 writing waiting l m =
      if is_h2_stream m.conn
      then open_with_body writing waiting l m m.get_body
      else refused (foreign not_h2)

reset-done : (l : Link) (id code : ℕ) → Sound id l → ((reset l id code false).lives id).done ≡ true
unfolding reset close_with_error set_life
reset-done l id code s = ground (arith, s.used)

reset_with-done :
    (l : Link) (id : ℕ) (e : GoError)
    → e ≢ nil
    → Sound id l
    → ((reset_with l id (reset_code e)).lives id).done ≡ true
unfolding reset_with reset_code
reset_with-done l id nil n s = absurd (n refl)
reset_with-done l id (stream_error msg i inner) n s =
    ground (arith, reset-done l id 8 s, reset-done l id 1 s, reset-done l id 2 s)
reset_with-done l id (h2_code code) n s =
    ground (arith, reset-done l id 8 s, reset-done l id 1 s, reset-done l id 2 s)
reset_with-done l id (foreign which) n s =
    ground (arith, reset-done l id 8 s, reset-done l id 1 s, reset-done l id 2 s)

reset_with-Sound :
    (l : Link) (id : ℕ) (code : Option ℕ) → Sound id l → Sound id (reset_with l id code)
unfolding reset_with
reset_with-Sound l id none s = s
reset_with-Sound l id (some code) s = (reset-Goes id l id code false).sound s

-- `WriteRequest` leaves the stream as it was, or done if there is an error.
write_request-done :
    (l : Link) (id : ℕ) (has_body : Bool) (h b : GoError) (cancelled first : Bool) (l' : Link)
    (e : GoError)
    → Sound id l
    → write_request l id has_body h b cancelled first ≡ some (l', e)
    → Sound id l' × (e ≢ nil → (l'.lives id).done ≡ true)
unfolding write_request
write_request-done l id has_body h b cancelled first l' e s q =
    let same : l' ≡ reset_with l id (reset_code e) = ground arith in
    rw (same) (reset_with-Sound l id (reset_code e) s, λ n. reset_with-done l id e n s)

-- The end of a round trip is in order: after an error the stream is done.
abbrev pub InOrder : Ends → Type 0
InOrder (fails l id e) = (l.lives id).done ≡ true
InOrder _ = Unit

assigned-Sound : (l : Link) {l' : Link} {id : ℕ} → assigned l ≡ some (l', id) → Sound id l'
unfolding assigned set_life
assigned-Sound l e = record { active = λ a. ground arith; used = λ a. ground arith }

ended-InOrder :
    (id : ℕ) (r : Link × H2Response × GoError)
    → (r.2 ≢ nil → (r.0.lives id).done ≡ true)
    → InOrder (ended id r)
unfolding ended
ended-InOrder id (l, resp, nil) h = tt
ended-InOrder id (l, resp, stream_error msg i inner) h = h (λ e. cc)
ended-InOrder id (l, resp, h2_code code) h = h (λ e. cc)
ended-InOrder id (l, resp, foreign which) h = h (λ e. cc)

module _ (status_text : ℤ → Bytes) (atoi_error invalid_header : ℕ) where
  headers-done :
      (l : Link) (id : ℕ) (fs : List (Bytes × Bytes)) (rst_error : GoError)
      → Sound id l
      → let r = read_headers status_text atoi_error invalid_header l id rst_error (headers fs) in
        r.2 ≢ nil → (r.0.lives id).done ≡ true
  unfolding read_headers
  headers-done l id fs rst_error s n = ground (arith, n, reset-done l id internal_error s)

  read_headers-done :
      (l : Link) (id : ℕ) (x : Signal status_text atoi_error invalid_header) (rst_error : GoError)
      → Sound id l
      → ((reason : GoError) → x ≡ stream_done reason → (l.lives id).done ≡ true)
      → let r = read_headers status_text atoi_error invalid_header l id rst_error x in
        r.2 ≢ nil → (r.0.lives id).done ≡ true
  unfolding read_headers
  read_headers-done l id context_done rst_error s d n = reset-done l id cancel s
  read_headers-done l id (stream_done reason) rst_error s d n = d reason refl
  read_headers-done l id (headers fs) rst_error s d n = headers-done l id fs rst_error s n

-- The parameters as above, and `Setting.Valid`.
module _ (status_text : ℤ → Bytes) (atoi_error invalid_header not_h2 : ℕ)
    (signal : Link → ℕ → Signal status_text atoi_error invalid_header)
    (valid : Setting → Option ℕ) where
  read_if_written-InOrder :
      (waiting : Link → Link) (id : ℕ) (rst_error : GoError) (k : Link) (has_body : Bool)
      (h b : GoError) (cancelled first : Bool)
      → Sound id k
      → ((n : Link) → Reach valid n (waiting n))
      → ((n : Link) (reason : GoError)
          → signal n id ≡ stream_done reason
          → (n.lives id).done ≡ true)
      → InOrder (
          read_if_written status_text atoi_error invalid_header signal waiting id rst_error
            (write_request k id has_body h b cancelled first))
  unfolding read_if_written read_response
  read_if_written-InOrder waiting id rst_error k has_body h b cancelled first s w d =
      ends (write_request k id has_body h b cancelled first)
        (λ l' e q. write_request-done k id has_body h b cancelled first l' e s q)
    where
      ends :
          (o : Option (Link × GoError))
          → ((l' : Link) (e : GoError)
              → o ≡ some (l', e)
              → Sound id l' × (e ≢ nil → (l'.lives id).done ≡ true))
          → InOrder
              (read_if_written status_text atoi_error invalid_header signal waiting id rst_error o)
      ends none q = tt
      ends (some (l', nil)) q = ended-InOrder id _ (
          read_headers-done status_text atoi_error invalid_header (waiting l') id
            (signal (waiting l') id) rst_error
            ((Reach-Goes valid id (w l')).sound (q l' nil refl).0) (d (waiting l')))
      ends (some (l', stream_error msg i inner)) q = (q l' _ refl).1 (λ e. cc)
      ends (some (l', h2_code code)) q = (q l' _ refl).1 (λ e. cc)
      ends (some (l', foreign which)) q = (q l' _ refl).1 (λ e. cc)

  module _ (writing waiting : Link → Link) (m : Meets) (v : (n : Link) → Reach valid n (writing n))
      (w : (n : Link) → Reach valid n (waiting n))
      (d : (n : Link) (id : ℕ) (reason : GoError)
        → signal n id ≡ stream_done reason
        → (n.lives id).done ≡ true) where
    write_if_open-InOrder :
        (o : Option (Link × ℕ))
        → ((l : Link) (id : ℕ) → o ≡ some (l, id) → Sound id l)
        → InOrder (write_if_open status_text atoi_error invalid_header signal writing waiting m o)
    unfolding write_if_open
    write_if_open-InOrder none s = tt
    write_if_open-InOrder (some (l, id)) s =
        read_if_written-InOrder waiting id m.rst_error (writing l) m.has_body m.headers_error
          m.body_error m.cancelled m.first ((Reach-Goes valid id (v l)).sound (s l id refl)) w
          (λ n. d n id)

    open_with_body-InOrder :
        (l : Link) (e : GoError)
        → InOrder
            (open_with_body status_text atoi_error invalid_header signal writing waiting l m e)
    unfolding open_with_body
    open_with_body-InOrder l nil =
        write_if_open-InOrder (assigned l) (λ l' id q. assigned-Sound l q)
    open_with_body-InOrder l (stream_error msg i inner) = tt
    open_with_body-InOrder l (h2_code code) = tt
    open_with_body-InOrder l (foreign which) = tt

  -- A round trip that opens a stream and ends with an error leaves the stream done, whichever part failed:
  -- whatever happens on the connection while the request is written and while the response is waited
  -- for, if `done` of a stream is taken for a signal only when the stream is done.
  pub round_trip-InOrder :
      (writing waiting : Link → Link) (l : Link) (m : Meets)
      → ((n : Link) → Reach valid n (writing n))
      → ((n : Link) → Reach valid n (waiting n))
      → ((n : Link) (id : ℕ) (reason : GoError)
          → signal n id ≡ stream_done reason
          → (n.lives id).done ≡ true)
      → InOrder (round_trip status_text atoi_error invalid_header signal not_h2 writing waiting l m)
  unfolding round_trip
  round_trip-InOrder writing waiting l m v w d = elim (Bool-cases (is_h2_stream m.conn)) [
    | inr e ↦ rw (e, round_trip) tt
    | inl e ↦ rw (e, round_trip) (open_with_body-InOrder writing waiting m v w d l m.get_body)
  ]
