-- ===== src/Http1/Header/Rules.antt =====
-- RFC 9112, section 6.3, against `readHeader` of internal/transport/http1/http1.go.
use go_http.Base.{
  ℕ, ◌/◌, Bool, true, false, not, ◌&&◌, ◌||◌, ◌≡◌, ◌≢◌, ◌==◌, ltb, leb, refl, arith, Option, none,
  some, List, [], ◌∷◌, if◌then◌else◌, Bytes, codes, equal, length,
}
use go_http.Strconv.{trim_string}
use go_http.Textproto.{get}
use go_http.Http1.Utils.{last_element}
use go_http.Http1.Response.{Response}
use go_http.Http1.Header.{
  Framing, no_body, tunnels, rules_1_2, rules_3_4, connection_close, framing, http_version,
  transfer_coding, append_codings,
}

-- How the body of a response ends.
pub data Extent : Type 0 where
  absent tunnel until_close : Extent
  counted : ℕ → Extent
  coded : Bytes → Extent

abbrev of_length : Option ℕ → Extent
of_length none = until_close
of_length (some n) = counted n

-- Rule 1: a response to HEAD, and one of status 1xx, 204 or 304, has no body.
unfoldable pub bodiless : Bytes → ℕ → Bool
bodiless method status =
    equal method (codes "HEAD")
    || (leb 100 status && ltb status 200)
    || (status == 204)
    || (status == 304)

-- Rule 2: a response of status 2xx to CONNECT opens a tunnel.
unfoldable pub connected : Bytes → ℕ → Bool
connected method status = equal method (codes "CONNECT") && (leb 200 status && ltb status 300)

-- The rules in their order: for the request's method, the status, the declared length and the
-- transfer coding (empty if there is none).
unfoldable pub extent : Bytes → ℕ → Option ℕ → Bytes → Extent
extent method status len te =
    if bodiless method status
    then absent
    else if connected method status
    then tunnel
    else if not (length te == 0)
    then coded te
    else of_length len

-- The connection has to be closed behind the body: its end is that of the connection.
abbrev pub open_ended : Extent → Bool
open_ended absent = false
open_ended tunnel = true
open_ended until_close = true
open_ended (counted n) = false
open_ended (coded te) = not (equal (last_element te) (codes "chunked"))

-- What a `Framing` makes of the body that follows.
unfoldable pub meaning : Framing → Extent
meaning f =
    if not (length f.transfer_encoding == 0)
    then coded f.transfer_encoding
    else of_length f.content_length

-- Both agree on where the body ends. A tunnel is read until it is closed, and an absent body is one of
-- no bytes.
abbrev pub Same : Extent → Extent → Type 0
Same tunnel e = e ≡ until_close
Same absent e = e ≡ counted 0
Same d e = e ≡ d

hundreds : (n : ℕ) → (n / 100 == 1) ≡ (leb 100 n && ltb n 200)
hundreds n = ground arith

no_body-bodiless : (method : Bytes) (status : ℕ) → no_body method status ≡ bodiless method status
unfolding bodiless
no_body-bodiless method status = rw (hundreds status) refl

tunnels-connected : (method : Bytes) (status : ℕ) → tunnels method status ≡ connected method status
unfolding connected
tunnels-connected method status = ground arith

-- Unless a response that may have no body has a transfer coding or opens a tunnel, `readHeader` reads the
-- body that RFC 9112 gives it, and marks the connection to be closed exactly behind a tunnel, a body
-- that lasts until then and a coding that does not end in `chunked`, and where the `Connection` header
-- of the response or of the request is `close`.
pub framing-extent :
    (method req_conn : Bytes) (resp : Response) (len : Option ℕ) (te : Bytes)
    → (bodiless method resp.status_code ≡ true
        → (te ≡ []) × (connected method resp.status_code ≡ false))
    → Same (extent method resp.status_code len te) (meaning (framing method req_conn resp len te))
      × ((framing method req_conn resp len te).close ≡ (
          open_ended (extent method resp.status_code len te)
          || equal (get (codes "Connection") resp.header) (codes "close")
          || equal req_conn (codes "close")))
unfolding extent meaning framing rules_1_2 rules_3_4 connection_close
framing-extent method req_conn resp none [] h =
    ground
      (arith, no_body-bodiless method resp.status_code, tunnels-connected method resp.status_code)
framing-extent method req_conn resp (some n) [] h =
    ground
      (arith, no_body-bodiless method resp.status_code, tunnels-connected method resp.status_code)
framing-extent method req_conn resp len (c ∷ te) h =
    ground
      (arith, no_body-bodiless method resp.status_code, tunnels-connected method resp.status_code)

-- A response that has no body (to a HEAD request, or of status 1xx, 204 or 304) is read as coded if
-- it has a transfer coding.
pub no_body_coded :
    (method : Bytes) (status : ℕ) (len : Option ℕ) (te : Bytes)
    → bodiless method status ≡ true
    → connected method status ≡ false
    → te ≢ []
    → (extent method status len te ≡ absent)
      × (meaning (rules_3_4 (rules_1_2 method status len te)) ≡ coded te)
unfolding extent meaning rules_1_2 rules_3_4
no_body_coded method status len [] h t ne = absurd (ne refl)
no_body_coded method status len (c ∷ te) h t ne =
    ground (arith, h, t, tunnels-connected method status)

-- The transfer coding of an HTTP/1.0 response is kept: its version is 16, and the test drops the
-- coding below 11.
pub transfer_coding_1_0 :
    (prior v : Bytes) (vs : List Bytes)
    → transfer_coding prior (http_version (codes "HTTP/1.0")) (v ∷ vs)
      ≡ append_codings (trim_string v) vs
unfolding transfer_coding http_version
transfer_coding_1_0 prior v vs = refl
