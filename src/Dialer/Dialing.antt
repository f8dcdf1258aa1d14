-- ===== src/Dialer/Dialing.antt =====
-- internal/dialer/dial.go: `Dial` and `dialRaw`.
use go_http.Base.{
  ◌≡◌, ◌≢◌, refl, arith, Bool, true, false, [], ◌∷◌, Option, none, some, Bytes, codes, equal,
  if◌then◌else◌,
}
use go_http.Dialer.Addresses.{split_host_port, join_host_port, hostname}
use go_http.Dialer.Resolving.{Store, ResolveConfig, static_host}

-- `schemes[scheme]`
unfoldable pub scheme_port : Bytes → Bytes
scheme_port scheme =
    if equal scheme (codes "http")
    then codes "80"
    else if equal scheme (codes "https")
    then codes "443"
    else if equal scheme (codes "socks")
    then codes "1080"
    else []

-- The host and the port of a URL's `Host`.
unfoldable pub address_of : Bytes → Bytes → Bytes × Bytes
unfolding split_host_port scheme_port
address_of scheme host = elim (split_host_port host) [
  | none ↦ (host, scheme_port scheme)
  | some r ↦ r
]

-- `dialKey`
pub record DialKey : Type 0 where
  pub host : Bytes
  pub port : Bytes
  pub proxy : Bytes

-- The key that `Dial` asks the pool for.
unfoldable pub dial_key : Bytes → Bytes → Bytes → DialKey
unfolding address_of
dial_key scheme host proxy =
    let a = address_of scheme host in record { host = a.0; port = a.1; proxy = proxy }

-- What `DialContext` is called with; `dns_server` is empty for the system's resolver.
pub record Target : Type 0 where
  pub network : Bytes
  pub address : Bytes
  pub dns_server : Bytes

unfoldable pub network_of : Bytes → Bytes
network_of network =
    if equal network (codes "ip4")
    then codes "tcp4"
    else if equal network (codes "ip6")
    then codes "tcp6"
    else codes "tcp"

abbrev or_host : Option Bytes → Bytes → Bytes
or_host none host = host
or_host (some static) host = static

-- `dialRaw`
unfoldable pub dial_raw : Store → Option ResolveConfig → Bytes → Bytes → Target
unfolding network_of static_host join_host_port
dial_raw s none host port = record {
  network = codes "tcp";
  address = join_host_port host port;
  dns_server = [];
}
dial_raw s (some cfg) host port = record {
  network = network_of cfg.network;
  address = join_host_port (or_host (static_host s cfg host) host) port;
  dns_server = cfg.custom_dns_server;
}

-- A connection that the function of `Dial` makes: the server's name of TLS on it, if any.
pub data Dialed : Type 0 where
  dialed : (tls : Option Bytes) → Dialed
  not_dialed : (left_open : Bool) → Dialed

-- `ServerName` of the TLS configuration, none for a nil configuration.
unfoldable pub server_name : Option Bytes → Bytes → Bytes
unfolding hostname
server_name none host = hostname host
server_name (some []) host = hostname host
server_name (some (c ∷ name)) host = c ∷ name

-- The function that `Dial` gives to the pool, behind the dialing of the connection, which succeeded or
-- not; `handshakes` says that the TLS handshake succeeds.
unfoldable pub secure : Bytes → Bytes → Option Bytes → Bool → Bool → Dialed
unfolding server_name
secure scheme host config connected handshakes =
    if connected
    then (if equal scheme (codes "https")
        then (if handshakes then dialed (some (server_name config host)) else not_dialed true)
        else dialed none)
    else not_dialed false

-- A URL with the scheme http and one with https that have the same host with a port share the key, and
-- so the pool, of their connections, through whatever proxy; of these a connection is in the clear for the
-- one and under TLS for the other.
pub dial_key-scheme :
    (host proxy : Bytes) (config : Option Bytes) (a : Bytes × Bytes)
    → split_host_port host ≡ some a
    → (dial_key (codes "http") host proxy ≡ dial_key (codes "https") host proxy)
      × (secure (codes "http") host config true true ≡ dialed none)
      × (secure (codes "https") host config true true ≡ dialed (some (server_name config host)))
unfolding dial_key address_of secure equal
dial_key-scheme host proxy config a e = (rw (e, dial_key, address_of) refl, refl, refl)

-- The default port of a scheme is that of its URLs without one: http on port 80 and https on port 443
-- never share a key through it.
pub dial_key-default :
    (host host' proxy : Bytes)
    → split_host_port host ≡ none
    → split_host_port host' ≡ none
    → dial_key (codes "http") host proxy ≢ dial_key (codes "https") host' proxy
unfolding dial_key address_of scheme_port equal
dial_key-default host host' proxy e f = rw (e, f, dial_key, address_of) (λ q. ground arith)
