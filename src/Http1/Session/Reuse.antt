-- ===== src/Http1/Session/Reuse.antt =====
-- internal/transport/http1/http1.go: a body that is closed before its end, with what `Session.Read` and
-- `Session.Close` leave on the connection for the next response.
use go_http.Base.{
  ℕ, zero, suc, ◌+◌, ◌-◌, ◌≤◌, true, false, ◌≡◌, refl, ap, ◌∙◌, arith, Option, none, some, List, [],
  ◌∷◌, ◌++◌, append_assoc, ltb, if◌then◌else◌, Bytes, length, length-append,
}
use go_http.Io.{Error}
use go_http.Http1.Header.{HeaderResult}
use go_http.Http1.Session.{
  Session, returns, panics, not_modelled, read_raw, read_body, close, start_body, start_plain,
  fresh_session,
}
use go_http.Http1.Session.Body.{coming, read_raw-RawGives}
use go_http.Http1.Session.Counted.{Counts, next, read_body-next, read_body_zero}
use go_http.Http1.Session.Start.{start_body-Counts}

abbrev more : Bytes → Option (Bytes × Session) → Option (Bytes × Session)
more bs none = none
more bs (some r) = some (bs ++ r.0, r.1)

-- A caller that calls `Read` with buffers of these sizes: the bytes that it got, unless it panics.
unfoldable pub read_few : List ℕ → Session → Option (Bytes × Session)
read_few [] s = some ([], s)
read_few (n ∷ ns) s = elim (read_body s n) [
  | panics ↦ none
  | not_modelled ↦ none
  | returns s' bs e ↦ more bs (read_few ns s')
]

-- The caller got the beginning of the input, at most `m` bytes, and closed the body: the session of
-- the pool is released for reuse, the connection is not closed, and the rest of the input stands on it.
pub record LeftOver (m : ℕ) (input : Bytes) (r : Option (Bytes × Session)) : Type 0 where
  pub bytes : Bytes
  pub session : Session
  pub result : r ≡ some (bytes, session)
  pub beginning : bytes ++ coming (close session).session ≡ input
  pub at_most : length bytes ≤ m
  pub reused : (close session).released ≡ some false
  pub open_still : (close session).closes_conn ≡ false

LeftOver-more :
    (bs : Bytes) {m : ℕ} {rest input : Bytes} {r : Option (Bytes × Session)} {n : ℕ}
    → bs ++ rest ≡ input
    → length bs + m ≤ n
    → LeftOver m rest r
    → LeftOver n input (more bs r)
LeftOver-more bs p q l = record {
  bytes = bs ++ l.bytes;
  session = l.session;
  result = ap (more bs) l.result;
  beginning =
      append_assoc bs l.bytes (coming (close l.session).session) ∙ ap (◌++◌ bs) l.beginning ∙ p;
  at_most = omega (arith, length-append bs l.bytes, l.at_most);
  reused = l.reused;
  open_still = l.open_still;
}

read_few-step :
    (n : ℕ) (ns : List ℕ) (s : Session) {s' : Session} {bs : Bytes} {e : Option Error}
    → read_body s n ≡ returns s' bs e
    → read_few (n ∷ ns) s ≡ more bs (read_few ns s')
unfolding read_few
read_few-step n ns s e = rw (e, read_few)

read_few-LeftOver :
    (ns : List ℕ) (s : Session) (m : ℕ) (input : Bytes) (fault : Error)
    → Counts s m input fault
    → s.need_close ≡ false
    → s.held ≡ true
    → LeftOver m input (read_few ns s)
unfolding read_few close
read_few-LeftOver [] s m input fault c k h = record {
  bytes = [];
  session = s;
  result = refl;
  beginning = c.input_is;
  at_most = omega arith;
  reused = ground arith;
  open_still = k;
}
read_few-LeftOver (n ∷ ns) s zero input fault c k h =
    rw (read_few-step n ns s (read_body_zero s n c.left))
      (LeftOver-more [] refl (omega arith) (read_few-LeftOver ns s zero input fault c k h))
read_few-LeftOver (n ∷ ns) s (suc m) input fault c k h =
    let size : ℕ = if ltb (suc m) n then suc m else n in
    let r = read_raw s.buffered s.net size in
    let g = read_raw-RawGives s.buffered s.net size in
    let le : size ≤ suc m = ground arith in
    rw (read_few-step n ns s (read_body-next s (suc m) n input fault c (omega arith))) (
      LeftOver-more r.bytes (g.in_order ∙ c.input_is) (omega (arith, g.fits)) (
        read_few-LeftOver ns (next s (suc m) r) (suc m - length r.bytes)
          (r.buffered ++ r.net.pending) fault
          (record {
            raw = c.raw;
            left = refl;
            input_is = refl;
            fault_is = g.fault_kept ∙ c.fault_is;
          })
          k h))

-- A response with a `Content-Length` that is not 0 on a connection that stays open, whose body is closed
-- after any number of reads: however little of the body was read, the pool is told to reuse the
-- connection, and what was not read of the body stands on it, in front of the next response.
pub close-unread :
    (ahead : ℕ) (h : HeaderResult) (m : ℕ) (sizes : List ℕ)
    → h.response.transfer_encoding ≡ []
    → h.response.content_length ≡ some (suc m)
    → h.close ≡ false
    → LeftOver (suc m) h.source.pending (read_few sizes (start_body ahead h).session)
unfolding start_body start_plain fresh_session
close-unread ahead h m sizes plain_body e k =
    read_few-LeftOver sizes (start_body ahead h).session (suc m) h.source.pending h.source.fault
      (start_body-Counts ahead h plain_body m e) (ground (arith, plain_body, e, k))
      (ground (arith, plain_body, e))
