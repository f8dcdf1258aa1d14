-- ===== src/Nettools/Selecting.antt =====
-- utils/nettools/net_select.go, and the choice between the modes by `init` of net.go. A set of descriptors
-- of golang.org/x/sys/unix and the call of select are parameters.
use go_http.Base.{
  ℕ, zero, suc, Bool, true, false, ltb, ◌==◌, List, [], ◌∷◌, ◌++◌, Option, none, some,
  if◌then◌else◌, get_elem?,
}
use go_http.Nettools.{Conn, fds, Call, unsure, ok, rounds_of}

-- `max`, where none is -1 and stands below every number.
unfoldable pub max_from : Option ℕ → List (Option ℕ) → Option ℕ
max_from m [] = m
max_from m (none ∷ us) = max_from m us
max_from none (some fd ∷ us) = max_from (some fd) us
max_from (some m) (some fd ∷ us) = max_from (some (if ltb m fd then fd else m)) us

unfoldable pub max_fd : List (Option ℕ) → Option ℕ
unfolding max_from
max_fd [] = some 0
max_fd (u ∷ us) = max_from u us

-- `fd == -1 || fd > 1024`
unfoldable pub is_skipped : Option ℕ → Bool
is_skipped none = true
is_skipped (some fd) = ltb 1024 fd

-- The calls of the callbacks that were made, and whether it ended with a panic.
pub record Ran : Type 0 where
  pub calls : List Call
  pub panicked : Bool

abbrev pub after : List Call → Ran → Ran
after cs r = record { calls = cs ++ r.calls; panicked = r.panicked }

abbrev pub fine : Ran
fine = record { calls = []; panicked = false }

abbrev pub panic : Ran
panic = record { calls = []; panicked = true }

abbrev pub and_then : Ran → Ran → Ran
and_then r rest = if r.panicked then r else after r.calls rest

-- The parameters: `Set` and `IsSet`, which panic on a descriptor that the set has no room for (none), and
-- `Select` in each round, with its number and the set that it leaves, or an error (none).
module _ {FdSet : Type 0} (empty : FdSet) (set_fd : FdSet → ℕ → Option FdSet)
    (is_set : FdSet → Option ℕ → Option Bool)
    (select : ℕ → Option ℕ → FdSet → Option (ℕ × FdSet)) where
  -- What the first loop leaves: the set and `idx`, or a panic.
  pub record Prepared : Type 0 where
    pub set : FdSet
    pub idx : List ℕ
    pub ran : Ran

  unfoldable pub prepare : ℕ → List (Option ℕ) → FdSet → List ℕ → Prepared
  unfolding is_skipped
  prepare i [] set idx = record { set = set; idx = idx; ran = fine }
  prepare i (none ∷ us) set idx =
      let p = prepare (suc i) us set idx in record p { ran = after (unsure i ∷ []) p.ran }
  prepare i (some fd ∷ us) set idx =
      let skipped = prepare (suc i) us set idx in
      let stopped : Prepared = record { set = set; idx = idx; ran = panic } in
      let watched = λ (s : FdSet). prepare (suc i) us s (idx ++ i ∷ []) in
      if is_skipped (some fd)
      then record skipped { ran = after (unsure i ∷ []) skipped.ran }
      else (elim (set_fd set fd) [ none ↦ stopped | some s ↦ watched s ])

  -- The loop behind a `Select` that found something.
  unfoldable pub report : ℕ → List (Option ℕ) → List ℕ → FdSet → Ran
  report i [] idx set = fine
  report i (u ∷ us) idx set =
      let rest = report (suc i) us idx set in
      elim (is_set set u) [
        | none ↦ panic
        | some true ↦ after (ok i ∷ []) rest
        | some false ↦ elim (get_elem? idx i) [ none ↦ panic | some j ↦ after (unsure j ∷ []) rest ]
      ]

  -- The rounds, of which `n` are left.
  unfoldable pub rounds : ℕ → ℕ → List (Option ℕ) → List ℕ → FdSet → Ran
  unfolding report max_fd
  rounds zero k us idx set = fine
  rounds (suc n) k us idx set = elim (select k (max_fd us) set) [
    | none ↦ fine
    | some (found, set') ↦
        and_then (if found == 0 then fine else report 0 us idx set') (rounds n (suc k) us idx set')
  ]

  -- `selectForWrite` under `controlFDSet`
  unfoldable pub select_for_write : List Conn → ℕ → Ran
  unfolding fds prepare rounds rounds_of
  select_for_write [] timeout = fine
  select_for_write (c ∷ cs) timeout =
      let us = fds (c ∷ cs) in
      let p = prepare 0 us empty [] in and_then p.ran (rounds (rounds_of timeout) 0 us p.idx p.set)
