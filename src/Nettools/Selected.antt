-- ===== src/Nettools/Selected.antt =====
-- utils/nettools/net_select.go: which connections `selectForWrite` can report as writable, and where it panics.
use go_http.Base.{
  ℕ, zero, suc, ◌+◌, ◌-◌, ◌≤◌, ◌<◌, ◌≡◌, refl, ◌∙◌, sym, ap, subst, arith, Bool, true, false, ◌==◌,
  List, [], ◌∷◌, ◌++◌, Option, none, some, inl, inr, if◌then◌else◌, length, length-append,
  get_elem?, Bool-cases, Option-cases, append_assoc,
}
use Prim.{Unit}
use go_http.Nettools.{Conn, fds, Call, ok, rounds_of}
use go_http.Nettools.Selecting.{
  is_skipped, Ran, and_then, max_fd, prepare, report, rounds, select_for_write,
}

-- The callback is not `cbOK`, or it is on a connection whose descriptor, if it has one, is below `m`.
abbrev pub BelowAt : List (Option ℕ) → ℕ → Call → Type 0
BelowAt us m (ok i) = (fd : ℕ) → get_elem? us i ≡ some (some fd) → fd < m
BelowAt us m _ = Unit

-- So are all the calls.
unfoldable pub Below : List (Option ℕ) → ℕ → List Call → Type 0
Below us m [] = Unit
Below us m (c ∷ cs) = BelowAt us m c × Below us m cs

Below-append :
    (us : List (Option ℕ)) (m : ℕ) (cs ds : List Call)
    → Below us m cs
    → Below us m ds
    → Below us m (cs ++ ds)
unfolding Below
Below-append us m [] ds b c = c
Below-append us m (d ∷ cs) ds b c = (b.0, Below-append us m cs ds b.1 c)

Below-and_then :
    (us : List (Option ℕ)) (m : ℕ) (r rest : Ran)
    → Below us m r.calls
    → Below us m rest.calls
    → Below us m (and_then r rest).calls
Below-and_then us m r rest b c = elim (Bool-cases r.panicked) [
  | inl p ↦ rw (p) b
  | inr p ↦ rw (p) (Below-append us m r.calls rest.calls b c)
]

-- The descriptor behind a number of others.
get_elem?-behind :
    (before : List (Option ℕ)) (u : Option ℕ) (us : List (Option ℕ))
    → get_elem? (before ++ u ∷ us) (length before) ≡ some u
get_elem?-behind [] u us = refl
get_elem?-behind (b ∷ before) u us = get_elem?-behind before u us

append-shift :
    (before : List (Option ℕ)) (u : Option ℕ) (us : List (Option ℕ))
    → (before ++ u ∷ []) ++ us ≡ before ++ u ∷ us
append-shift before u us = append_assoc before (u ∷ []) us

get_elem?-none : (idx : List ℕ) (i : ℕ) → length idx ≤ i → get_elem? idx i ≡ none
get_elem?-none [] i h = refl
get_elem?-none (j ∷ idx) zero h = absurd (omega arith)
get_elem?-none (j ∷ idx) (suc i) h = get_elem?-none idx i (omega arith)

-- How many connections are skipped.
unfoldable pub skipped : List (Option ℕ) → ℕ
skipped [] = 0
skipped (u ∷ us) = let rest = skipped us in if is_skipped u then suc rest else rest

skipped-le : (us : List (Option ℕ)) → skipped us ≤ length us
unfolding skipped
skipped-le [] = omega arith
skipped-le (u ∷ us) = ground (arith, skipped-le us)

after-panic : (r rest : Ran) → rest.panicked ≡ true → (and_then r rest).panicked ≡ true
after-panic r rest h = ground (arith, h)

-- The parameters of `selectForWrite`.
module _ {FdSet : Type 0} (empty : FdSet) (set_fd : FdSet → ℕ → Option FdSet)
    (is_set : FdSet → Option ℕ → Option Bool)
    (select : ℕ → Option ℕ → FdSet → Option (ℕ × FdSet)) where
  prepare-Below :
      (all : List (Option ℕ)) (m i : ℕ) (us : List (Option ℕ)) (set : FdSet) (idx : List ℕ)
      → Below all m (prepare empty set_fd is_set select i us set idx).ran.calls
  unfolding prepare Below
  prepare-Below all m i [] set idx = tt
  prepare-Below all m i (none ∷ us) set idx = (tt, prepare-Below all m (suc i) us set idx)
  prepare-Below all m i (some fd ∷ us) set idx = elim (Bool-cases (is_skipped (some fd))) [
    | inl e ↦ rw (e, prepare) (tt, prepare-Below all m (suc i) us set idx)
    | inr e ↦ elim (Option-cases (set_fd set fd)) [
      | inl n ↦ rw (e, n, prepare) tt
      | inr n ↦ rw (e, n.1, prepare) (prepare-Below all m (suc i) us n.0 (idx ++ i ∷ []))
    ]
  ]

  report-Below :
      (m : ℕ) (before us : List (Option ℕ)) (idx : List ℕ) (set : FdSet)
      → ((fd : ℕ) → is_set set (some fd) ≡ some true → fd < m)
      → Below (before ++ us) m (report empty set_fd is_set select (length before) us idx set).calls
  unfolding report Below
  report-Below m before [] idx set w = tt
  report-Below m before (u ∷ us) idx set w =
      let count : length (before ++ u ∷ []) ≡ suc (length before) =
        omega (arith, length-append before (u ∷ [])) in
      let rest : Below (before ++ u ∷ us) m
          (report empty set_fd is_set select (suc (length before)) us idx set).calls =
        subst
          (λ n. Below (before ++ u ∷ us) m (report empty set_fd is_set select n us idx set).calls)
          count
          (subst
            (λ l.
              Below l m
                (report empty set_fd is_set select (length (before ++ u ∷ [])) us idx set).calls)
            (append-shift before u us) (report-Below m (before ++ u ∷ []) us idx set w)) in
      elim (Option-cases (is_set set u)) [
        | inl n ↦ rw (n, report) tt
        | inr (true, b) ↦
            rw (b, report)
              (
                λ fd e.
                    let found : some u ≡ some (some fd) = sym (get_elem?-behind before u us) ∙ e in
                    let same : u ≡ some fd = cc in
                    w fd (subst (λ x. is_set set x ≡ some true) same b),
                rest,
              )
        | inr (false, b) ↦ elim (Option-cases (get_elem? idx (length before))) [
          | inl n ↦ rw (b, n, report) tt
          | inr n ↦ rw (b, n.1, report) (tt, rest)
        ]
      ]

  -- Of the documentation of select: it checks the descriptors below the number that it gets, and leaves a
  -- set that says which of them are ready.
  module _
      (watches : (k n found : ℕ) (s s' : FdSet)
        → select k (some n) s ≡ some (found, s')
        → (fd : ℕ) → is_set s' (some fd) ≡ some true
        → fd < n) where
    rounds-Below :
        (m n k : ℕ) (us : List (Option ℕ)) (idx : List ℕ) (set : FdSet)
        → max_fd us ≡ some m
        → Below us m (rounds empty set_fd is_set select n k us idx set).calls
    unfolding rounds Below
    rounds-Below m zero k us idx set e = tt
    rounds-Below m (suc n) k us idx set e = elim (Option-cases (select k (max_fd us) set)) [
      | inl q ↦ rw (q, rounds) tt
      | inr ((found, set'), q) ↦
          let rest = rounds-Below m n (suc k) us idx set' e in
          let q' : select k (some m) set ≡ some (found, set') =
            subst (λ x. select k x set ≡ some (found, set')) e q in
          let now = report-Below m [] us idx set' (watches k m found set set' q') in
          elim (Bool-cases (found == 0)) [
            | inl z ↦ rw (q, z, rounds) rest
            | inr z ↦
                rw (q, z, rounds)
                  (Below-and_then us m (report empty set_fd is_set select 0 us idx set')
                    (rounds empty set_fd is_set select n (suc k) us idx set') now rest)
          ]
    ]

    -- If `Select` leaves in the set only descriptors below the number that it gets, as its documentation
    -- says, `selectForWrite` never reports a connection as writable whose descriptor is the largest one,
    -- however long it waits: it passes the largest descriptor itself as that number.
    pub select_for_write-Below :
        (c : Conn) (cs : List Conn) (timeout m : ℕ)
        → max_fd (fds (c ∷ cs)) ≡ some m
        → Below
            (fds (c ∷ cs))
            m
            (select_for_write empty set_fd is_set select (c ∷ cs) timeout).calls
    unfolding select_for_write
    select_for_write-Below c cs timeout m e =
        let us = fds (c ∷ cs) in
        let p = prepare empty set_fd is_set select 0 us empty [] in
        Below-and_then us m p.ran
          (rounds empty set_fd is_set select (rounds_of timeout) 0 us p.idx p.set)
          (prepare-Below us m 0 us empty []) (rounds-Below m (rounds_of timeout) 0 us p.idx p.set e)

  -- With fewer places in `idx` than descriptors, a round panics if the last descriptor is not ready.
  report-panics :
      (i : ℕ) (us : List (Option ℕ)) (last : Option ℕ) (idx : List ℕ) (set : FdSet)
      → length idx ≤ i + length us
      → is_set set last ≡ some false
      → (report empty set_fd is_set select i (us ++ last ∷ []) idx set).panicked ≡ true
  unfolding report
  report-panics i [] last idx set few e =
      let missing = get_elem?-none idx i (omega arith) in rw (e, missing, report) refl
  report-panics i (u ∷ us) last idx set few e =
      let rest = report-panics (suc i) us last idx set (omega arith) e in
      elim (Option-cases (is_set set u)) [
        | inl n ↦ rw (n, report) refl
        | inr (true, b) ↦ rw (b, report) rest
        | inr (false, b) ↦ elim (Option-cases (get_elem? idx i)) [
          | inl n ↦ rw (b, n, report) refl
          | inr n ↦ rw (b, n.1, report) rest
        ]
      ]

  prepare-length :
      (i : ℕ) (us : List (Option ℕ)) (set : FdSet) (idx : List ℕ)
      → length (prepare empty set_fd is_set select i us set idx).idx + skipped us
        ≤ length idx + length us
  unfolding prepare skipped
  prepare-length i [] set idx = omega arith
  prepare-length i (none ∷ us) set idx = ground (arith, prepare-length (suc i) us set idx)
  prepare-length i (some fd ∷ us) set idx = elim (Bool-cases (is_skipped (some fd))) [
    | inl e ↦ rw (e, prepare, skipped) (omega (arith, prepare-length (suc i) us set idx))
    | inr e ↦ elim (Option-cases (set_fd set fd)) [
      | inl n ↦ rw (e, n, prepare, skipped) (omega (arith, skipped-le us))
      | inr n ↦
          rw (e, n.1, prepare, skipped)
            (omega
              (arith, prepare-length (suc i) us n.0 (idx ++ i ∷ []), length-append idx (i ∷ [])))
    ]
  ]

  round-panics :
      (n found : ℕ) (us : List (Option ℕ)) (idx : List ℕ) (s set : FdSet)
      → select 0 (max_fd us) s ≡ some (suc found, set)
      → (report empty set_fd is_set select 0 us idx set).panicked ≡ true
      → (rounds empty set_fd is_set select (suc n) 0 us idx s).panicked ≡ true
  unfolding rounds
  round-panics n found us idx s set e p =
      let something : (suc found == 0) ≡ false = ground arith in
      rw (e, something, rounds) (ground (arith, p))

  -- If some connection is skipped, for want of a descriptor or for one above 1024, and the first `Select`
  -- finds something ready, but not the last connection, then `selectForWrite` panics, whichever
  -- connections are ready.
  pub select_for_write-panics :
      (c : Conn) (cs : List Conn) (us : List (Option ℕ)) (last : Option ℕ) (timeout found : ℕ)
      (set : FdSet)
      → fds (c ∷ cs) ≡ us ++ last ∷ []
      → 0 < skipped (fds (c ∷ cs))
      → 0 < timeout
      → ((s : FdSet) → select 0 (max_fd (fds (c ∷ cs))) s ≡ some (suc found, set))
      → is_set set last ≡ some false
      → (select_for_write empty set_fd is_set select (c ∷ cs) timeout).panicked ≡ true
  unfolding select_for_write
  select_for_write-panics c cs us last timeout found set e k t a r =
      let all = fds (c ∷ cs) in
      let p = prepare empty set_fd is_set select 0 all empty [] in
      let len = prepare-length 0 all empty [] in
      let whole = ap length e in
      let few : length p.idx ≤ 0 + length us =
        omega (arith, len, whole, length-append us (last ∷ [])) in
      let panics : (report empty set_fd is_set select 0 all p.idx set).panicked ≡ true =
        subst (λ fs. (report empty set_fd is_set select 0 fs p.idx set).panicked ≡ true) (sym e)
          (report-panics 0 us last p.idx set few r) in
      let round : rounds_of timeout ≡ suc (rounds_of timeout - 1) =
        unfold rounds_of in omega arith in
      let first = round-panics (rounds_of timeout - 1) found all p.idx p.set set (a p.set) panics in
      after-panic p.ran (rounds empty set_fd is_set select (rounds_of timeout) 0 all p.idx p.set) (
        subst (λ n. (rounds empty set_fd is_set select n 0 all p.idx p.set).panicked ≡ true)
          (sym round) first)
