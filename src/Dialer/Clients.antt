-- ===== src/Dialer/Clients.antt =====
-- internal/client.go, `CtxDo`, and internal/helpers.go: `UseCoreDialer` and `DisableH2`.
use go_http.Base.{
  ℕ, suc, ◌-◌, ◌≡◌, refl, subst, arith, inl, inr, Bool, true, false, not, ◌&&◌, ◌==◌, List, [], ◌∷◌,
  Option, none, some, Bytes, codes, equal, if◌then◌else◌, Bool-cases, Option-cases,
}

-- A dialer: a `*CoreDialer` with the `NextProtos` of its TLS configuration, which is not nil, a user's dialer around
-- another, which `Unwrap` gives, or one that unwraps to nil.
pub data Dialer : Type 0 where
  core : (next_protos : List Bytes) → Dialer
  wrapper : (which : ℕ) → Dialer → Dialer
  custom : (which : ℕ) → Dialer

abbrev pub default_protos : List Bytes
default_protos = codes "h2" ∷ codes "http/1.1" ∷ []

-- `UseDialer`: the client's dialer, or a clone of the default one, is replaced.
unfoldable pub use_dialer : Option Dialer → (Dialer → Dialer) → Dialer
use_dialer none wrap = wrap (core default_protos)
use_dialer (some d) wrap = wrap d

-- The loop of `UseCoreDialer`: the core dialer that unwrapping meets first.
unfoldable pub find_core : Dialer → Option (List Bytes)
find_core (core protos) = some protos
find_core (wrapper which d) = find_core d
find_core (custom which) = none

-- The function that `UseCoreDialer` gives to `UseDialer`.
unfoldable pub replace_core : (List Bytes → Dialer) → Dialer → Dialer
unfolding find_core
replace_core set d = elim (find_core d) [ some protos ↦ set protos | none ↦ d ]

-- `UseCoreDialer`: the client's new dialer, and `ok`.
unfoldable pub use_core_dialer : Option Dialer → (List Bytes → Dialer) → Dialer × Bool
unfolding use_dialer replace_core
use_core_dialer client set = (
  use_dialer client (replace_core set),
  elim (find_core (use_dialer client (λ d. d))) [ none ↦ false | some protos ↦ true ],
)

-- The loop over `NextProtos`: the list without the first "h2", if there is one.
unfoldable pub without_h2 : List Bytes → Option (List Bytes)
without_h2 [] = none
without_h2 (p ∷ ps) =
    let rest = without_h2 ps in
    if equal p (codes "h2") then some ps else (elim rest [ none ↦ none | some qs ↦ some (p ∷ qs) ])

abbrev pub or_old : Option (List Bytes) → List Bytes → List Bytes
or_old none ps = ps
or_old (some qs) ps = qs

abbrev pub found : Option (List Bytes) → Bool
found none = false
found (some qs) = true

-- `DisableH2`: the client's new dialer, and `ok`. That a list of "h2" alone becomes nil and not empty
-- makes no difference here.
unfoldable pub disable_h2 : Option Dialer → Dialer × Bool
unfolding use_core_dialer without_h2
disable_h2 client = (
  (use_core_dialer client (λ protos. core (or_old (without_h2 protos) protos))).0,
  elim (find_core (use_dialer client (λ d. d))) [
    | none ↦ false
    | some protos ↦ found (without_h2 protos)
  ],
)

-- How often a protocol is in the list.
unfoldable pub occurrences : Bytes → List Bytes → ℕ
occurrences p [] = 0
occurrences p (q ∷ qs) = let rest = occurrences p qs in if equal q p then suc rest else rest

without_h2-occurrences :
    (ps : List Bytes)
    → (occurrences (codes "h2") (or_old (without_h2 ps) ps) ≡ occurrences (codes "h2") ps - 1)
      × (found (without_h2 ps) ≡ not (occurrences (codes "h2") ps == 0))
unfolding occurrences without_h2
without_h2-occurrences [] = (refl, refl)
without_h2-occurrences (p ∷ ps) = elim (Bool-cases (equal p (codes "h2"))) [
  | inl k ↦ rw (k, without_h2, occurrences) (omega arith, ground arith)
  | inr k ↦ elim (Option-cases (without_h2 ps)) [
    | inl e ↦
        let rest = without_h2-occurrences ps in
        rw (k, e, without_h2, occurrences)
          (ground (arith, e, k, rest.0, rest.1), ground (arith, e, rest.1))
    | inr e ↦
        let rest = without_h2-occurrences ps in
        let fewer : occurrences (codes "h2") e.0 ≡ occurrences (codes "h2") ps - 1 =
          subst (λ o. occurrences (codes "h2") (or_old o ps) ≡ occurrences (codes "h2") ps - 1) e.1
            rest.0 in
        let some_h2 : true ≡ not (occurrences (codes "h2") ps == 0) =
          subst (λ o. found o ≡ not (occurrences (codes "h2") ps == 0)) e.1 rest.1 in
        rw (k, e.1, without_h2, occurrences)
          (ground (arith, k, fewer, some_h2), ground (arith, some_h2))
  ]
]

disabled :
    (d : Dialer) (protos : List Bytes)
    → find_core d ≡ some protos
    → (replace_core (λ ps. core (or_old (without_h2 ps) ps)) d
        ≡ core (or_old (without_h2 protos) protos))
      × (occurrences (codes "h2") (or_old (without_h2 protos) protos)
          ≡ occurrences (codes "h2") protos - 1)
      × (elim (find_core d) [ none ↦ false | some ps ↦ found (without_h2 ps) ]
          ≡ not (occurrences (codes "h2") protos == 0))
unfolding replace_core
disabled d protos e =
    let o = without_h2-occurrences protos in (rw (e, replace_core) refl, o.0, rw (e) (o.1))

-- Where unwrapping the client's dialer, or by default a clone of the default one, meets a core dialer:
-- `DisableH2` answers true exactly if that offers "h2", and leaves the client with a core dialer that
-- offers it once less, if it did at all. That is the client's dialer from then on: a user's dialers around
-- the core dialer are gone.
pub disable_h2-core :
    (client : Option Dialer) (protos : List Bytes)
    → find_core (use_dialer client (λ d. d)) ≡ some protos
    → (rest : List Bytes) × ((disable_h2 client).0 ≡ core rest)
      × (occurrences (codes "h2") rest ≡ occurrences (codes "h2") protos - 1)
      × ((disable_h2 client).1 ≡ not (occurrences (codes "h2") protos == 0))
unfolding disable_h2 use_core_dialer use_dialer
disable_h2-core none protos e =
    let d = disabled (core default_protos) protos e in
    (or_old (without_h2 protos) protos, d.0, d.1, d.2)
disable_h2-core (some c) protos e =
    let d = disabled c protos e in (or_old (without_h2 protos) protos, d.0, d.1, d.2)

-- What `CtxDo` meets: the errors of `Prepare`, `Dial` and `Do`, and whether `Do` had set the body.
pub record Outcomes : Type 0 where
  pub prepare : Option ℕ
  pub dial : Option ℕ
  pub done : Option ℕ
  pub has_body : Bool

-- What it returns: a response, the error, and whether it closed the body.
pub record Returned : Type 0 where
  pub response : Bool
  pub error : Option ℕ
  pub closed : Bool

-- `CtxDo`
unfoldable pub ctx_do : Outcomes → Returned
ctx_do o = elim (o.prepare) [
  | some e ↦ record { response = false; error = some e; closed = false }
  | none ↦ elim (o.dial) [
    | some e ↦ record { response = false; error = some e; closed = false }
    | none ↦ elim (o.done) [
      | some e ↦ record { response = false; error = some e; closed = o.has_body }
      | none ↦ record { response = true; error = none; closed = false }
    ]
  ]
]

abbrev pub is_none : Option ℕ → Bool
is_none none = true
is_none (some e) = false

abbrev pub first_error : Option ℕ → Option ℕ → Option ℕ
first_error none e = e
first_error (some e) f = some e

-- `CtxDo` returns a response exactly if it returns no error; the error is the first of those of `Prepare`,
-- `Dial` and `Do`, and a body is closed exactly if `Do` fails after it has set one.
pub ctx_do-first :
    (o : Outcomes)
    → ((ctx_do o).response ≡ is_none (ctx_do o).error)
      × ((ctx_do o).error ≡ first_error o.prepare (first_error o.dial o.done))
      × ((ctx_do o).closed
          ≡ (is_none o.prepare && (is_none o.dial && (not (is_none o.done) && o.has_body))))
unfolding ctx_do
ctx_do-first o = ground arith
