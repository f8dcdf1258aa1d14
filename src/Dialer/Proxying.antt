-- ===== src/Dialer/Proxying.antt =====
-- internal/dialer/proxy.go: `DialContextOverProxy`.
use go_http.Base.{
  ℕ, ◌≡◌, arith, Bool, true, false, not, ◌&&◌, ◌||◌, ◌==◌, List, [], ◌∷◌, ◌++◌, Option, none, some,
  Bytes, codes, equal, get_elem?, length, if◌then◌else◌,
}
use go_http.Http1.Header.{Framing, is_none}
use go_http.Dialer.Addresses.{url_port, hostname}
use go_http.Dialer.Resolving.{Store, ResolveConfig, static_host, merge, lookup_query}
use go_http.Dialer.Dialing.{scheme_port, address_of}

-- `ProxyConfig` without its TLS configuration.
pub record ProxyConfig : Type 0 where
  pub resolve_locally : Bool
  pub resolve_config : Option ResolveConfig

-- What the network answers, in the order in which it is asked: whether the proxy can be reached, the
-- TLS handshake with it, the addresses of the lookup or its failure, `Setup` and `Session` of the
-- HTTP/1 connection, and the answer to CONNECT, its status and what `readHeader` made of its body, or the
-- failure of `Do`. `choice` is the random number. What comes of the body is read to its end.
pub record Answers : Type 0 where
  pub reached : Bytes → Bool
  pub handshakes : Bool
  pub lookup : Bytes × Bytes × Bytes → Option (List Bytes)
  pub choice : ℕ
  pub sets_up : Bool
  pub has_session : Bool
  pub response : Option (ℕ × Framing)

-- What the function does: it gives the connection and the target that CONNECT named, it fails, where
-- `left_open` says that a connection to the proxy is left open, or it panics.
pub data Tunnel : Type 0 where
  tunnel : (target : Bytes) → Tunnel
  failed : (left_open : Bool) → Tunnel
  panics : Tunnel

-- `hp`
unfoldable pub proxy_address : Bytes → Bytes → Bytes
unfolding url_port hostname scheme_port
proxy_address scheme host =
    if equal (url_port host).1 [] then hostname host ++ codes ":" ++ scheme_port scheme else host

-- The configuration for a local lookup, where a nil one makes the next use of it panic.
unfoldable pub local_config :
    Store → Option ResolveConfig → Option ResolveConfig → Option (Store × ResolveConfig)
unfolding merge
local_config s none none = none
local_config s none (some d) = some (s, d)
local_config s (some c) d = merge s (some c) d

-- One of the addresses that a lookup found; `Intn(0)` panics.
unfoldable pub choose : Option (List Bytes) → ℕ → Option (Option Bytes)
choose none i = some none
choose (some []) i = none
choose (some (a ∷ as')) i = some (get_elem? (a ∷ as') i)

-- The address that CONNECT names, or the function's end.
pub data Resolved : Type 0 where
  resolved : Store → Bytes → Resolved
  unresolved panicked : Resolved

unfoldable pub chosen : Store → Option (Option Bytes) → Resolved
chosen s none = panicked
chosen s (some none) = unresolved
chosen s (some (some a)) = resolved s a

unfoldable pub resolve_with : Answers → Bytes → Option (Store × ResolveConfig) → Resolved
unfolding static_host lookup_query choose chosen
resolve_with ans host none = panicked
resolve_with ans host (some c) = elim (static_host c.0 c.1 host) [
  | some a ↦ resolved c.0 a
  | none ↦ chosen c.0 (choose (ans.lookup (lookup_query (some c.1) host)) ans.choice)
]

unfoldable pub resolve :
    Store → Option ResolveConfig → Option ProxyConfig → Answers → Bytes → Resolved
unfolding resolve_with local_config
resolve s d none ans host = panicked
resolve s d (some p) ans host =
    if p.resolve_locally
    then resolve_with ans host (local_config s p.resolve_config d)
    else resolved s host

-- An answer with another status: `ReadAll` panics on a body whose reader is nil, which has neither a coding
-- nor a length; then `Close` closes the connection if the header said so.
unfoldable pub refused : Framing → Tunnel
refused f =
    if (length f.transfer_encoding == 0) && is_none f.content_length
    then panics
    else failed (not f.close)

-- The CONNECT request and its answer, on a connection to the proxy.
unfoldable pub connect : Answers → Bytes → Bytes → Tunnel
unfolding refused
connect ans host port =
    if not ans.sets_up
    then failed false
    else if not ans.has_session
    then failed false
    else (elim (ans.response) [
      | none ↦ failed false
      | some (status, f) ↦ if status == 200 then tunnel (host ++ codes ":" ++ port) else refused f
    ])

unfoldable pub tunnel_through : Answers → Bytes → Resolved → Tunnel
unfolding connect
tunnel_through ans port (resolved s host) = connect ans host port
tunnel_through ans port unresolved = failed true
tunnel_through ans port panicked = panics

-- `DialContextOverProxy`, for the scheme and host of the proxy and of the remote URL. What the request says
-- beside its target, the host and the credentials of the proxy, is left out.
unfoldable pub dial_over_proxy :
    Store
    → Option ResolveConfig
    → Option ProxyConfig
    → Answers
    → Bytes
    → Bytes
    → Bytes
    → Bytes
    → Tunnel
unfolding address_of resolve tunnel_through proxy_address
dial_over_proxy s d p ans proxy_scheme proxy_host scheme host =
    let a = address_of scheme host in
    if not (equal proxy_scheme (codes "http")) && not (equal proxy_scheme (codes "https"))
    then failed false
    else if not (ans.reached (proxy_address proxy_scheme proxy_host))
    then failed false
    else if equal proxy_scheme (codes "https") && is_none p
    then panics
    else if equal proxy_scheme (codes "https") && not ans.handshakes
    then failed true
    else tunnel_through ans a.1 (resolve s d p ans a.0)

-- The proxy can be asked: its scheme is known, it can be reached, and under https its handshake succeeds.
abbrev pub asks : Answers → Bytes → Bytes → Bool
asks ans proxy_scheme proxy_host =
    (equal proxy_scheme (codes "http") || (equal proxy_scheme (codes "https") && ans.handshakes))
    && ans.reached (proxy_address proxy_scheme proxy_host)

abbrev pub opens_session : Answers → Bool
opens_session ans = ans.sets_up && ans.has_session

-- An answer with neither a coding nor a length of its body makes the function panic; after another one the
-- connection is left open unless the answer is followed by its end.
abbrev pub by_body : Option ℕ → Bytes → Bool → Tunnel
by_body none [] close = panics
by_body len te close = failed (not close)

-- What comes of the answer to CONNECT.
abbrev pub answered : Bytes → Option (ℕ × Framing) → Tunnel
answered target none = failed false
answered target (some (status, f)) =
    if status == 200 then tunnel target else by_body f.content_length f.transfer_encoding f.close

-- Without a `ProxyConfig`, and with one that asks for local resolving where neither it nor the dialer has
-- a `ResolveConfig`, the function panics as soon as a proxy of scheme http can be reached.
pub dial_over_proxy-panics :
    (s : Store) (d : Option ResolveConfig) (ans : Answers) (proxy_host scheme host : Bytes)
    → ans.reached (proxy_address (codes "http") proxy_host) ≡ true
    → (dial_over_proxy s d none ans (codes "http") proxy_host scheme host ≡ panics)
      × (dial_over_proxy s none
            (some (record { resolve_locally = true; resolve_config = none }))
            ans
            (codes "http")
            proxy_host
            scheme
            host
          ≡ panics)
unfolding dial_over_proxy tunnel_through resolve resolve_with local_config equal
dial_over_proxy-panics s d ans proxy_host scheme host r = (ground (arith, r), ground (arith, r))
