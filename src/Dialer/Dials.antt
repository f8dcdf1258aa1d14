-- ===== src/Dialer/Dials.antt =====
-- internal/dialer/dial.go, `Dial` as a whole: what it asks of the pool, and what the function that it gives
-- to the pool does.
use go_http.Base.{
  ℕ, ◌≡◌, refl, ap, ◌∙◌, arith, Bool, true, false, [], ◌∷◌, Option, none, some, Bytes, inl, inr,
  Option-cases, if◌then◌else◌,
}
use go_http.Dialer.Resolving.{Store, ResolveConfig}
use go_http.Dialer.Dialing.{
  address_of, DialKey, dial_key, Target, dial_raw, Dialed, dialed, not_dialed, secure,
}
use go_http.Dialer.Proxying.{ProxyConfig, Answers, Tunnel, tunnel, failed, panics, dial_over_proxy}

-- A `CoreDialer` with its maps, where `server_name` is that of its TLS configuration, none for nil.
pub record Config : Type 0 where
  pub store : Store
  pub resolve_config : Option ResolveConfig
  pub proxy_config : Option ProxyConfig
  pub server_name : Option Bytes

-- What the network answers while one connection is made: whether a target is reached, what happens
-- with a proxy, and whether the TLS handshake behind it succeeds.
pub record Network : Type 0 where
  pub reached : Target → Bool
  pub proxy : Answers
  pub handshakes : Bool

-- Where a connection leads: to a target, or through a proxy to what CONNECT named.
pub data Route : Type 0 where
  straight : Target → Route
  through : (proxy target : Bytes) → Route

-- What dialing gives: a connection, an error, where `left_open` is as for `DialContextOverProxy`, or
-- a panic.
pub data Way : Type 0 where
  way : Route → Way
  no_way : (left_open : Bool) → Way
  panicked : Way

unfoldable pub way_of : Bytes → Tunnel → Way
way_of proxy (tunnel target) = way (through proxy target)
way_of proxy (failed left_open) = no_way left_open
way_of proxy panics = panicked

dial_over_proxy-address :
    (s : Store) (d : Option ResolveConfig) (p : Option ProxyConfig) (ans : Answers)
    (proxy_scheme proxy_host scheme host scheme' host' : Bytes)
    → address_of scheme host ≡ address_of scheme' host'
    → dial_over_proxy s d p ans proxy_scheme proxy_host scheme host
      ≡ dial_over_proxy s d p ans proxy_scheme proxy_host scheme' host'
unfolding dial_over_proxy
dial_over_proxy-address s d p ans proxy_scheme proxy_host scheme host scheme' host' e =
    rw (e, dial_over_proxy) refl

dial_key-address :
    (scheme host scheme' host' proxy proxy' : Bytes)
    → dial_key scheme host proxy ≡ dial_key scheme' host' proxy'
    → (address_of scheme host ≡ address_of scheme' host') × (proxy ≡ proxy')
unfolding dial_key
dial_key-address scheme host scheme' host' proxy proxy' e = (ground (arith, e), ground (arith, e))

-- The first half of the function, for the address of the request, and what a URL's text parses to as a
-- scheme and a host: `url.Parse` is a parameter.
module _ (url_parse : Bytes → Option (Bytes × Bytes)) where
  unfoldable pub dial_way : Config → Network → Bytes → Bytes → Bytes → Way
  unfolding address_of dial_raw dial_over_proxy way_of
  dial_way d net [] scheme host =
      let a = address_of scheme host in
      let target = dial_raw d.store d.resolve_config a.0 a.1 in
      if net.reached target then way (straight target) else no_way false
  dial_way d net (c ∷ proxy) scheme host = elim (url_parse (c ∷ proxy)) [
    | none ↦ no_way false
    | some p ↦
        way_of (c ∷ proxy)
          (dial_over_proxy d.store d.resolve_config d.proxy_config net.proxy p.0 p.1 scheme host)
  ]

  -- What the function returns: a connection along a route, with the server's name of TLS on it, if any.
  pub data Made : Type 0 where
    made : Route → (tls : Option Bytes) → Made
    not_made : (left_open : Bool) → Made
    make_panics : Made

  abbrev secured : Route → Dialed → Made
  secured r (dialed tls) = made r tls
  secured r (not_dialed left_open) = not_made left_open

  unfoldable pub make : Config → Network → Bytes → Bytes → Way → Made
  unfolding secure
  make d net scheme host (way r) = secured r (secure scheme host d.server_name true net.handshakes)
  make d net scheme host (no_way left_open) = not_made left_open
  make d net scheme host panicked = make_panics

  -- What `Dial` does: it returns the error of `GetProxy`, or calls `Connect` with a key and the function.
  pub data Dialing : Type 0 where
    proxy_error : (which : ℕ) → Dialing
    connects : DialKey → (Network → Made) → Dialing

  -- What `GetProxy` answers, where none is a nil function.
  pub data Proxy : Type 0 where
    no_get_proxy : Proxy
    proxy_is : Bytes → Proxy
    proxy_fails : (which : ℕ) → Proxy

  -- `Dial`, for the scheme and the host of the URL.
  unfoldable pub dial : Config → Proxy → Bytes → Bytes → Dialing
  unfolding dial_key dial_way make
  dial d no_get_proxy scheme host =
      connects (dial_key scheme host [])
        (λ net. make d net scheme host (dial_way d net [] scheme host))
  dial d (proxy_is proxy) scheme host =
      connects (dial_key scheme host proxy)
        (λ net. make d net scheme host (dial_way d net proxy scheme host))
  dial d (proxy_fails which) scheme host = proxy_error which

  dial_way-address :
      (d : Config) (net : Network) (proxy scheme host scheme' host' : Bytes)
      → address_of scheme host ≡ address_of scheme' host'
      → dial_way d net proxy scheme host ≡ dial_way d net proxy scheme' host'
  unfolding dial_way
  dial_way-address d net [] scheme host scheme' host' a = rw (a, dial_way) refl
  dial_way-address d net (c ∷ proxy) scheme host scheme' host' a =
      elim (Option-cases (url_parse (c ∷ proxy))) [
        | inl e ↦ rw (e, dial_way) refl
        | inr ((ps, ph), e) ↦
            rw (e, dial_way)
              (ap (way_of (c ∷ proxy)) (
                dial_over_proxy-address d.store d.resolve_config d.proxy_config net.proxy ps ph
                  scheme host scheme' host' a))
      ]

  -- The key of the pool says where a connection leads: for requests with the same key, of whatever schemes
  -- and hosts, the function that makes a connection goes the same way, whatever the network answers.
  pub dial_way-key :
      (d : Config) (net : Network) (scheme host scheme' host' proxy proxy' : Bytes)
      → dial_key scheme host proxy ≡ dial_key scheme' host' proxy'
      → dial_way d net proxy scheme host ≡ dial_way d net proxy' scheme' host'
  dial_way-key d net scheme host scheme' host' proxy proxy' e =
      let k = dial_key-address scheme host scheme' host' proxy proxy' e in
      dial_way-address d net proxy scheme host scheme' host' k.0
      ∙ ap (λ p. dial_way d net p scheme' host') k.1
