-- ===== src/Dialer/Sharing.antt =====
-- internal/client.go and internal/helpers.go on dialers as objects: `UseDialer`, `UseCoreDialer`,
-- `DisableH2` and `UseGetProxy`, with `Clone` of internal/dialer/dialer.go and proxy.go, and the default
-- dialer of internal/net.go. A dialer is a place in a store, and so is the array behind a slice of
-- protocols: a clone of a TLS configuration has its own slice of the same array, as the shallow clone of
-- crypto/tls has.
use go_http.Base.{
  ℕ, suc, ◌-◌, ◌*◌, ◌^◌, ◌≡◌, ◌≢◌, refl, sym, ap, ◌∙◌, arith, inl, inr, Bool, true, false, ◌==◌,
  List, [], ◌∷◌, ◌++◌, Option, none, some, Bytes, codes, equal, if◌then◌else◌, length, take, drop,
  take-append, take_ge, length-append, Bool-cases, Option-cases,
}
use go_http.Netpool.Group.{PoolGroup, new_group, new_empty}
use go_http.Dialer.Resolving.{ResolveConfig}
use go_http.Dialer.Resolving
use go_http.Dialer.Clients.{without_h2}

-- A slice from the beginning of an array.
pub record Slice : Type 0 where
  pub array : ℕ
  pub len : ℕ

-- `ProxyConfig` with the `NextProtos` of its TLS configuration, none for a nil configuration.
pub record ProxyConfig : Type 0 where
  pub next_protos : Option Slice
  pub resolve_locally : Bool
  pub resolve_config : Option ResolveConfig

-- `CoreDialer`, with the `NextProtos` of its TLS configuration, which is not nil; `get_proxy` names a
-- function.
pub record CoreDialer : Type 0 where
  pub resolve_config : Option ResolveConfig
  pub next_protos : Slice
  pub conn_pool : PoolGroup
  pub get_proxy : Option ℕ
  pub proxy_config : Option ProxyConfig

-- The dialers, of which those from `next` on are free, and the arrays.
pub record World : Type 0 where
  pub dialers : ℕ → CoreDialer
  pub next : ℕ
  pub arrays : ℕ → List Bytes

-- `ProxyConfig.Clone`
unfoldable pub clone_proxy_config : Option ProxyConfig → Option ProxyConfig
unfolding Resolving.clone
clone_proxy_config none = none
clone_proxy_config (some c) = some (record {
  next_protos = c.next_protos;
  resolve_locally = c.resolve_locally;
  resolve_config = Resolving.clone c.resolve_config;
})

-- `CoreDialer.Clone`
unfoldable pub clone : CoreDialer → CoreDialer
unfolding new_empty Resolving.clone clone_proxy_config
clone d = record {
  resolve_config = Resolving.clone d.resolve_config;
  next_protos = d.next_protos;
  conn_pool = new_empty d.conn_pool;
  get_proxy = d.get_proxy;
  proxy_config = clone_proxy_config d.proxy_config;
}

-- `defaultDialer`, which stands at 0, with its protocols in the array 0. Durations are in nanoseconds.
unfoldable pub default_dialer : CoreDialer
unfolding new_group
default_dialer = record {
  resolve_config = none;
  next_protos = record { array = 0; len = 2 };
  conn_pool = new_group 100 100 (90 * 10 ^ 9);
  get_proxy = none;
  proxy_config = some (record {
    next_protos = some (record { array = 1; len = 0 });
    resolve_locally = false;
    resolve_config = none;
  });
}

abbrev pub protos : World → Slice → List Bytes
protos w s = take s.len (w.arrays s.array)

abbrev set_dialer : World → ℕ → CoreDialer → World
set_dialer w i d = record w { dialers = λ j. if j == i then d else w.dialers j }

abbrev set_array : World → ℕ → List Bytes → World
set_array w a ps = record w { arrays = λ b. if b == a then ps else w.arrays b }

-- `UseCoreDialer` on a client whose dialer is nil or a core dialer, up to the call of `set`: the dialer
-- that `set` gets.
unfoldable pub core_of : World → Option ℕ → World × ℕ
unfolding clone
core_of w none = (record (set_dialer w w.next (clone (w.dialers 0))) { next = suc w.next }, w.next)
core_of w (some d) = (w, d)

abbrev pub last_of : Bytes → List Bytes → Bytes
last_of p [] = p
last_of p (q ∷ qs) = last_of q qs

-- `append(np[:i], np[i+1:]...)` at the first "h2": what then stands where `np` stood. The elements behind it
-- move up in the array, and the last one stays there too.
unfoldable pub move_up : List Bytes → Option (List Bytes)
move_up [] = none
move_up (p ∷ ps) =
    let rest = move_up ps in
    if equal p (codes "h2")
    then some (ps ++ last_of p ps ∷ [])
    else (elim rest [ none ↦ none | some qs ↦ some (p ∷ qs) ])

-- `len(np) == 1 && np[0] == "h2"`
abbrev is_only_h2 : List Bytes → Bool
is_only_h2 [] = false
is_only_h2 (p ∷ []) = equal p (codes "h2")
is_only_h2 (p ∷ q ∷ ps) = false

abbrev shorten : World → ℕ → Slice → World
shorten w d s = set_dialer w d (record (w.dialers d) { next_protos = s })

-- The function that `DisableH2` gives to `UseCoreDialer`, for the dialer's slice, and its `ok`.
unfoldable pub disable_slice : World → ℕ → Slice → World × Bool
unfolding move_up
disable_slice w d s =
    if is_only_h2 (protos w s)
    then (shorten w d (record s { len = 0 }), true)
    else (elim (move_up (protos w s)) [
      | none ↦ (w, false)
      | some ps ↦ (
        shorten (set_array w s.array (ps ++ drop s.len (w.arrays s.array))) d
            (record s { len = s.len - 1 }),
        true,
      )
    ])

-- `DisableH2`: the client's dialer from then on, and `ok`.
unfoldable pub disable_h2 : World → Option ℕ → World × ℕ × Bool
unfolding core_of disable_slice
disable_h2 w client =
    let c = core_of w client in
    let r = disable_slice c.0 c.1 (c.0.dialers c.1).next_protos in (r.0, c.1, r.1)

-- `UseGetProxy`
unfoldable pub use_get_proxy : World → Option ℕ → ℕ → World × ℕ
unfolding core_of
use_get_proxy w client f =
    let c = core_of w client in
    (set_dialer c.0 c.1 (record (c.0.dialers c.1) { get_proxy = some f }), c.1)

-- What `DisableH2` leaves.
without_h2-length : (ps qs : List Bytes) → without_h2 ps ≡ some qs → length ps ≡ suc (length qs)
unfolding without_h2
without_h2-length [] qs e = ground (arith, e)
without_h2-length (p ∷ ps) qs e = elim (Option-cases (without_h2 ps)) [
  | inl n ↦ ground (arith, e, n)
  | inr (rs, n) ↦ ground (arith, e, n, without_h2-length ps rs n)
]

move_up-without_h2 :
    (p : Bytes) (ps qs : List Bytes)
    → without_h2 (p ∷ ps) ≡ some qs
    → move_up (p ∷ ps) ≡ some (qs ++ last_of p ps ∷ [])
unfolding without_h2 move_up
move_up-without_h2 p [] qs e = ground (arith, e)
move_up-without_h2 p (q ∷ ps) qs e = elim (Bool-cases (equal p (codes "h2"))) [
  | inl k ↦ rw (k, move_up) (ground (arith, e, k))
  | inr k ↦ elim (Option-cases (without_h2 (q ∷ ps))) [
    | inl n ↦ ground (arith, e, n, k)
    | inr (rs, n) ↦
        let rest = move_up-without_h2 q ps rs n in
        let same : p ∷ rs ≡ qs = ground (arith, e, k, n) in rw (k, rest, sym same, move_up) refl
  ]
]

-- What stands in the first elements of an array, behind `append`.
take_protos :
    (qs rest : List Bytes) (last : Bytes) (n : ℕ)
    → n ≡ suc (length qs)
    → (take n ((qs ++ last ∷ []) ++ rest) ≡ qs ++ last ∷ [])
      × (take (n - 1) ((qs ++ last ∷ []) ++ rest) ≡ qs)
take_protos qs rest last n e =
    let len = length-append qs (last ∷ []) in
    (
      take-append n (qs ++ last ∷ []) rest (omega (arith, len))
          ∙ take_ge n (qs ++ last ∷ []) (omega (arith, len)),
      take-append (n - 1) (qs ++ last ∷ []) rest (omega (arith, len))
          ∙ take-append (n - 1) qs (last ∷ []) (omega arith)
          ∙ take_ge (n - 1) qs (omega arith),
    )

abbrev left : World → Slice → List Bytes → Bytes → List Bytes
left w s rest last = (rest ++ last ∷ []) ++ drop s.len (w.arrays s.array)

-- What `DisableH2` leaves on a dialer that offers "h2" and another protocol.
abbrev disabled : World → ℕ → Slice → List Bytes → Bytes → World
disabled w d s rest last =
    shorten (set_array w s.array (left w s rest last)) d (record s { len = s.len - 1 })

disable_slice-disabled :
    (w : World) (d : ℕ) (s : Slice) (p q : Bytes) (ps rest : List Bytes)
    → protos w s ≡ p ∷ q ∷ ps
    → without_h2 (p ∷ q ∷ ps) ≡ some rest
    → disable_slice w d s ≡ (disabled w d s rest (last_of q ps), true)
unfolding disable_slice
disable_slice-disabled w d s p q ps rest offers shorter =
    rw (offers, move_up-without_h2 p (q ∷ ps) rest shorter, disable_slice) refl

core_of-slice :
    (w : World) → ((core_of w none).0.dialers w.next).next_protos ≡ (w.dialers 0).next_protos
unfolding core_of clone
core_of-slice w = ground arith

disabled-protos :
    (w : World) (d : ℕ) (s : Slice) (p q : Bytes) (ps rest : List Bytes)
    → protos w s ≡ p ∷ q ∷ ps
    → length (protos w s) ≡ s.len
    → without_h2 (p ∷ q ∷ ps) ≡ some rest
    → let w' = disabled w d s rest (last_of q ps) in
      (protos w' (w'.dialers d).next_protos ≡ rest) × (protos w' s ≡ rest ++ last_of q ps ∷ [])
disabled-protos w d s p q ps rest offers whole shorter =
    let len = without_h2-length (p ∷ q ∷ ps) rest shorter in
    let t =
      take_protos rest (drop s.len (w.arrays s.array)) (last_of q ps) s.len
        (omega (arith, len, whole, ap length offers)) in
    let same : (d == d) ≡ true = ground arith in
    let there : (s.array == s.array) ≡ true = ground arith in (rw (same, there) t.1, rw (there) t.0)

-- On a client without a dialer of its own, where the default dialer offers two protocols or more, "h2"
-- among them: `DisableH2` answers true and gives the client a core dialer that offers the same protocols
-- less the first "h2"; and the default dialer, which is otherwise as it was, from then on offers
-- these too, with the last one of its protocols twice.
pub disable_h2-default :
    (w : World) (p q : Bytes) (ps rest : List Bytes)
    → w.next ≢ 0
    → protos w (w.dialers 0).next_protos ≡ p ∷ q ∷ ps
    → length (protos w (w.dialers 0).next_protos) ≡ (w.dialers 0).next_protos.len
    → without_h2 (p ∷ q ∷ ps) ≡ some rest
    → let r = disable_h2 w none in
      (r.2 ≡ true)
      × (protos r.0 (r.0.dialers r.1).next_protos ≡ rest)
      × (r.0.dialers 0 ≡ w.dialers 0)
      × (protos r.0 (w.dialers 0).next_protos ≡ rest ++ last_of q ps ∷ [])
unfolding disable_h2
disable_h2-default w p q ps rest fresh offers whole shorter =
    let c = core_of w none in
    let s = (w.dialers 0).next_protos in
    let there : protos c.0 s ≡ p ∷ q ∷ ps = unfold core_of in offers in
    let r =
      ap (disable_slice c.0 c.1) (core_of-slice w)
      ∙ disable_slice-disabled c.0 c.1 s p q ps rest there shorter in
    let d = disabled-protos c.0 c.1 s p q ps rest there (unfold core_of in whole) shorter in
    let elsewhere : (0 == w.next) ≡ false = ground arith in
    rw (r) (refl, d.0, unfold core_of in rw (elsewhere) refl, d.1)

-- `UseGetProxy` on a client without a dialer of its own gives the client a core dialer with the
-- function and leaves the default dialer and all its protocols alone.
pub use_get_proxy-default :
    (w : World) (f : ℕ)
    → w.next ≢ 0
    → let r = use_get_proxy w none f in
      ((r.0.dialers r.1).get_proxy ≡ some f)
      × (r.0.dialers 0 ≡ w.dialers 0)
      × ((a : ℕ) → r.0.arrays a ≡ w.arrays a)
unfolding use_get_proxy core_of
use_get_proxy-default w f fresh =
    let elsewhere : (0 == w.next) ≡ false = ground arith in
    let same : (w.next == w.next) ≡ true = ground arith in
    (rw (same) refl, rw (elsewhere) refl, λ a. refl)
