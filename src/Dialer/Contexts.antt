-- ===== src/Dialer/Contexts.antt =====
-- Values in contexts: internal/trace.go, which hides the traces of the standard library, and `dnsServerCtx`
-- with the resolver of internal/dialer/dns.go; and what internal/net.go finds behind a connection.
use go_http.Base.{
  ℕ, ◌≡◌, refl, arith, Bool, true, false, ◌&&◌, ◌||◌, ◌==◌, [], ◌∷◌, Option, none, some, Bytes,
  if◌then◌else◌,
}
use go_http.Dialer.Resolving.{resolver_address}

-- A key of a context: the pointer `dnsServerCtxKey`, or a value of some type of keys, where the zero
-- value of each type has the content 0.
pub data Key : Type 0 where
  dns_server : Key
  typed : (type content : ℕ) → Key

unfoldable pub same_key : Key → Key → Bool
same_key dns_server dns_server = true
same_key (typed t c) (typed u d) = t == u && c == d
same_key _ _ = false

pub data Value : Type 0 where
  text : Bytes → Value
  thing : (which : ℕ) → Value

-- A context: a user's, where none stands for nil, one of `WithValue`, and a `dnsServerCtx`.
pub data Context : Type 0 where
  users : (Key → Option Value) → Context
  with_value : Key → Option Value → Context → Context
  dns_server_ctx : Context → (server : Bytes) → Context

-- `Value`
unfoldable pub value : Context → Key → Option Value
unfolding same_key
value (users f) k = f k
value (with_value j v c) k = let below = value c k in if same_key j k then v else below
value (dns_server_ctx c server) k =
    let below = value c k in if same_key dns_server k then some (text server) else below

-- `init`: the key that it makes of the one, of a type and with a content, that `Value` of a
-- `captureContext` was asked for.
unfoldable pub captured : ℕ → ℕ → Key
captured type content = typed type 0

-- `shadowStandardClientTrace`, for the keys that `init` found.
unfoldable pub shadow : Key → Key → Context → Context
shadow http_trace net_trace c = with_value net_trace none (with_value http_trace none c)

-- `Dial` of `customServerResolver`: the address that it dials.
unfoldable pub resolver_dial : Context → Bytes → Bytes
unfolding value
resolver_dial c address = elim (value c dns_server) [
  | some (text (b ∷ server)) ↦ b ∷ server
  | _ ↦ address
]

-- `LookupIPServer`: the context that the resolver gets.
abbrev pub lookup_context : Context → Bytes → Context
lookup_context c dns = dns_server_ctx c dns

-- If each of the two packages asks for a key that is the zero value of its type, a shadowed context has no
-- trace of theirs, and for every other key the value that it had, the server of a lookup among them.
pub shadow-value :
    (t c u d : ℕ) (k : Key) (ctx : Context)
    → c ≡ 0
    → d ≡ 0
    → value (shadow (captured t c) (captured u d) ctx) k
      ≡ (if same_key (typed u d) k || same_key (typed t c) k then none else value ctx k)
unfolding shadow value captured
shadow-value t c u d k ctx e f = rw (e, f, shadow, value) (ground arith)

-- A lookup goes to the server that it was given, or else to the address that the resolver asks for,
-- whatever servers the context had before and however it is shadowed by keys of other kinds.
pub resolver_dial-lookup :
    (c : Context) (http net : ℕ) (dns address : Bytes)
    → resolver_dial (shadow (typed http 0) (typed net 0) (lookup_context c dns)) address
      ≡ resolver_address dns address
unfolding resolver_dial shadow value same_key resolver_address
resolver_dial-lookup c http net [] address = refl
resolver_dial-lookup c http net (b ∷ dns) address = refl

-- What stands behind a `ReadWriteCloser`: nothing with a method `Raw`, or a connection: a TLS one, an
-- HTTP/2 stream on a connection, or another.
pub data NetConn : Type 0 where
  tls : (which : ℕ) → NetConn
  stream : NetConn → NetConn
  plain : NetConn

-- `getRawConn`
unfoldable pub get_raw_conn : Option NetConn → Option NetConn
get_raw_conn none = none
get_raw_conn (some raw) = some raw

abbrev tls_of : NetConn → Option ℕ
tls_of (tls which) = some which
tls_of _ = none

-- `getTLSConn`
unfoldable pub get_tls_conn : Option NetConn → Option ℕ
unfolding get_raw_conn
get_tls_conn c = elim (get_raw_conn c) [
  | some (tls which) ↦ some which
  | some (stream conn) ↦ tls_of conn
  | _ ↦ none
]
