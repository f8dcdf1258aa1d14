-- ===== src/Tests/Sharing.antt =====
-- Dialers as objects, and the polling of sockets by select (internal/dialer,
-- internal/helpers.go, utils/nettools) at concrete values.
use go_http.Base.{
  ℕ, ◌≡◌, ◌<◌, refl, arith, subst, sym, inl, inr, ltb, Bool-cases, Bool, true, false, List, [], ◌∷◌,
  ◌++◌, Option, none, some, codes, equal, if◌then◌else◌, ◌==◌,
}
use go_http.Dialer.Clients.{default_protos, without_h2}
use go_http.Dialer.Sharing.{World, default_dialer, protos, disable_h2, disable_h2-default, last_of}
use go_http.Nettools.{with_fd, fds}
use go_http.Nettools.Selecting.{max_fd, max_from, select_for_write}
use go_http.Nettools.Selected.{Below, select_for_write-Below}

-- The default dialer alone.
abbrev world : World
world = record {
  dialers = λ i. default_dialer;
  next = 1;
  arrays = λ a. if a == 0 then default_protos else [];
}

disable_h2-default_example :
    let r = disable_h2 world none in
    (r.2 ≡ true)
    × (protos r.0 (r.0.dialers r.1).next_protos ≡ codes "http/1.1" ∷ [])
    × (r.0.dialers 0 ≡ world.dialers 0)
    × (protos r.0 (world.dialers 0).next_protos
        ≡ codes "http/1.1" ∷ [] ++ last_of (codes "http/1.1") [] ∷ [])
unfolding default_dialer without_h2 equal
disable_h2-default_example =
    disable_h2-default world (codes "h2") (codes "http/1.1") [] (codes "http/1.1" ∷ [])
      (ground arith) refl refl refl

-- A set as a list of descriptors.
abbrev FdSet : Type 0
FdSet = List ℕ

abbrev set_fd : FdSet → ℕ → Option FdSet
set_fd s fd = some (fd ∷ s)

abbrev has_fd : ℕ → FdSet → Bool
has_fd fd [] = false
has_fd fd (f ∷ s) = if f == fd then true else has_fd fd s

abbrev is_set : FdSet → Option ℕ → Option Bool
is_set s none = some false
is_set s (some fd) = some (has_fd fd s)

-- Whatever is watched is ready.
abbrev below : ℕ → FdSet → FdSet
below n [] = []
below n (f ∷ s) = if ltb f n then f ∷ below n s else below n s

abbrev all_ready : ℕ → Option ℕ → FdSet → Option (ℕ × FdSet)
all_ready k none s = none
all_ready k (some n) s = some (1, below n s)

has_fd-below : (n fd : ℕ) (s : FdSet) → has_fd fd (below n s) ≡ true → fd < n
has_fd-below n fd [] h = cc
has_fd-below n fd (f ∷ s) h = elim (Bool-cases (ltb f n)) [
  | inr e ↦ has_fd-below n fd s (ground (arith, e, h))
  | inl e ↦ elim (Bool-cases (f == fd)) [
    | inl q ↦ ground (arith, e, q)
    | inr q ↦ has_fd-below n fd s (ground (arith, e, q, h))
  ]
]

watches :
    (k n found : ℕ) (s s' : FdSet)
    → all_ready k (some n) s ≡ some (found, s')
    → (fd : ℕ) → is_set s' (some fd) ≡ some true
    → fd < n
watches k n found s s' e fd h =
    let same : below n s ≡ s' = cc in
    let there : has_fd fd s' ≡ true = cc in
    has_fd-below n fd s (subst (λ x. has_fd fd x ≡ true) (sym same) there)

select_for_write-Below_example :
    Below
      (fds (with_fd 7 ∷ with_fd 8 ∷ []))
      8
      (select_for_write [] set_fd is_set all_ready (with_fd 7 ∷ with_fd 8 ∷ []) 100000000).calls
unfolding fds max_fd max_from
select_for_write-Below_example =
    select_for_write-Below [] set_fd is_set all_ready watches (with_fd 7) (with_fd 8 ∷ []) 100000000
      8 refl
