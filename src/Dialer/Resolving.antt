-- ===== src/Dialer/Resolving.antt =====
-- internal/dialer/dns.go: `ResolveConfig`, `Clone` and `Merge`. A map is a place in a store: a copy of the
-- map's value is another name for the same place.
use go_http.Base.{
  ℕ, suc, ◌≡◌, refl, arith, inl, inr, Bool, true, false, ◌==◌, List, [], ◌∷◌, Option, none, some,
  Bytes, codes, equal, equal_iff, ap, sym, ◌∙◌, ==_iff, if◌then◌else◌, Bool-cases,
}

abbrev pub Hosts : Type 0
Hosts = List (Bytes × Bytes)

-- The maps, by their places; those from `next` on are free.
pub record Store : Type 0 where
  pub maps : ℕ → Hosts
  pub next : ℕ

pub record ResolveConfig : Type 0 where
  pub custom_dns_server : Bytes
  pub network : Bytes
  pub static_hosts : Option ℕ

-- `m[k]`
unfoldable pub host_of : Bytes → Hosts → Option Bytes
host_of k [] = none
host_of k (p ∷ ps) = let rest = host_of k ps in if equal p.0 k then some p.1 else rest

-- `m[k] = v`
unfoldable pub set_host : Bytes → Bytes → Hosts → Hosts
set_host k v [] = (k, v) ∷ []
set_host k v (p ∷ ps) = let rest = set_host k v ps in if equal p.0 k then (k, v) ∷ ps else p ∷ rest

-- `for k, v := range from { to[k] = v }`
unfoldable pub copy_hosts : Hosts → Hosts → Hosts
unfolding set_host
copy_hosts [] to = to
copy_hosts (p ∷ ps) to = copy_hosts ps (set_host p.0 p.1 to)

-- `c.StaticHosts[k]`, with no entry in a nil map.
unfoldable pub static_host : Store → ResolveConfig → Bytes → Option Bytes
unfolding host_of
static_host s c k = elim (c.static_hosts) [ none ↦ none | some m ↦ host_of k (s.maps m) ]

-- `Clone`, where none is nil.
unfoldable pub clone : Option ResolveConfig → Option ResolveConfig
clone none = none
clone (some c) = some (record {
  custom_dns_server = c.custom_dns_server;
  network = c.network;
  static_hosts = c.static_hosts;
})

abbrev or_else : Bytes → Bytes → Bytes
or_else [] b = b
or_else (x ∷ xs) b = x ∷ xs

abbrev set_map : Store → ℕ → Hosts → Store
set_map s m hosts = record s { maps = λ i. if i == m then hosts else s.maps i }

-- The end of `Merge`: the map of the result, and the store.
unfoldable pub merge_hosts : Store → Option ℕ → Option ℕ → Store × Option ℕ
unfolding copy_hosts
merge_hosts s c none = (s, c)
merge_hosts s none (some m) =
    (record (set_map s s.next (copy_hosts (s.maps m) [])) { next = suc s.next }, some s.next)
merge_hosts s (some n) (some m) = (set_map s n (copy_hosts (s.maps m) (s.maps n)), some n)

-- `Merge` on the clone, which is nil for a nil receiver; `none` is the panic on a nil pointer.
unfoldable pub merge_into :
    Store → Option ResolveConfig → ResolveConfig → Option (Store × ResolveConfig)
unfolding merge_hosts
merge_into s none rc = none
merge_into s (some res) rc =
    let h = merge_hosts s res.static_hosts rc.static_hosts in
    some (
      h.0,
      record {
        custom_dns_server = or_else res.custom_dns_server rc.custom_dns_server;
        network = or_else res.network rc.network;
        static_hosts = h.1;
      },
    )

-- `Merge`
unfoldable pub merge :
    Store → Option ResolveConfig → Option ResolveConfig → Option (Store × ResolveConfig)
unfolding clone merge_into
merge s c none = none
merge s c (some rc) = merge_into s (clone c) rc

-- `lookup`: the network, the host and the server of the call of `LookupIPServer`.
unfoldable pub lookup_query : Option ResolveConfig → Bytes → Bytes × Bytes × Bytes
lookup_query none host = (codes "ip", host, [])
lookup_query (some cfg) host = (or_else cfg.network (codes "ip"), host, cfg.custom_dns_server)

-- The address that `Dial` of `customServerResolver` uses, for the server in its context.
unfoldable pub resolver_address : Bytes → Bytes → Bytes
resolver_address [] address = address
resolver_address (c ∷ server) address = c ∷ server

abbrev pub first_some : Option Bytes → Option Bytes → Option Bytes
first_some none b = b
first_some (some v) b = some v

equal_both : (i j k : Bytes) → equal i k ≡ true → equal j k ≡ true → equal i j ≡ true
equal_both i j k a b = (equal_iff i j).1 ((equal_iff i k).0 a ∙ sym ((equal_iff j k).0 b))

host_of-set_host :
    (k j v : Bytes) (h : Hosts)
    → host_of k (set_host j v h) ≡ (if equal j k then some v else host_of k h)
unfolding host_of set_host
host_of-set_host k j v [] = ground arith
host_of-set_host k j v (p ∷ ps) = elim (Bool-cases (equal p.0 j)) [
  | inl e ↦
      let same : equal p.0 k ≡ equal j k = ap (λ i. equal i k) ((equal_iff p.0 j).0 e) in
      rw (e, set_host) (ground (arith, same))
  | inr e ↦ rw (e, set_host) (ground (arith, host_of-set_host k j v ps, equal_both p.0 j k))
]

-- No key is twice in the list, as in a map.
unfoldable pub distinct : Hosts → Bool
unfolding host_of
distinct [] = true
distinct (p ∷ ps) = elim (host_of p.0 ps) [ none ↦ distinct ps | some v ↦ false ]

host_of-copy_hosts :
    (k : Bytes) (from to : Hosts)
    → distinct from ≡ true
    → host_of k (copy_hosts from to) ≡ first_some (host_of k from) (host_of k to)
unfolding host_of copy_hosts distinct
host_of-copy_hosts k [] to d = refl
host_of-copy_hosts k (p ∷ ps) to d =
    let rest = host_of-copy_hosts k ps (set_host p.0 p.1 to) (ground (arith, d)) in
    let set = host_of-set_host k p.0 p.1 to in
    elim (Bool-cases (equal p.0 k)) [
      | inl e ↦
          let same : host_of k ps ≡ host_of p.0 ps =
            ap (λ i. host_of i ps) (sym ((equal_iff p.0 k).0 e)) in
          rest ∙ rw (set, same, e, host_of) (ground (arith, d))
      | inr e ↦ rest ∙ rw (set, e, host_of) refl
    ]

-- Merging a configuration with its own map of hosts writes into that map: afterwards the receiver and
-- the result have the same hosts, those of the other configuration and of the receiver, and where both
-- had one that of the other.
pub merge-static_host :
    (s : Store) (c rc : ResolveConfig) (n m : ℕ) (k : Bytes)
    → c.static_hosts ≡ some n
    → rc.static_hosts ≡ some m
    → distinct (s.maps m) ≡ true
    → (s' : Store) × (res : ResolveConfig) × (merge s (some c) (some rc) ≡ some (s', res))
      × (static_host s' res k ≡ first_some (static_host s rc k) (static_host s c k))
      × (static_host s' c k ≡ static_host s' res k)
unfolding merge clone merge_into merge_hosts static_host
merge-static_host s c rc n m k e f d =
    let hosts = copy_hosts (s.maps m) (s.maps n) in
    (
      set_map s n hosts,
      record {
        custom_dns_server = or_else c.custom_dns_server rc.custom_dns_server;
        network = or_else c.network rc.network;
        static_hosts = some n;
      },
      rw (f, e, merge, clone, merge_into, merge_hosts) refl,
      rw (e, f, (==_iff n n).1 refl) (host_of-copy_hosts k (s.maps m) (s.maps n) d),
      rw (e) refl,
    )
