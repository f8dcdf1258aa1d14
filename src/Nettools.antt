-- ===== src/Nettools.antt =====
-- utils/nettools: net.go, and net_poll.go, which `init` picks where it is built. A connection is named by
-- its place in the list.
pub mod Selecting
pub mod Selected
pub mod Choosing
use go_http.Base.{
  ℕ, zero, suc, ◌+◌, ◌*◌, ◌/◌, ◌≡◌, refl, ◌∙◌, arith, Bool, true, false, ◌||◌, ◌==◌, List, [], ◌∷◌,
  ◌++◌, Option, none, some, if◌then◌else◌,
}

-- What `connsToFD` and `Control` give for a connection: no descriptor, one, or an error.
pub data Conn : Type 0 where
  no_fd control_fails : Conn
  with_fd : (fd : ℕ) → Conn

-- The entry of `fds`, where none is -1. It stays 0 if `Control` fails.
unfoldable pub fd_of : Conn → Option ℕ
fd_of no_fd = none
fd_of control_fails = some 0
fd_of (with_fd fd) = some fd

unfoldable pub fds : List Conn → List (Option ℕ)
unfolding fd_of
fds [] = []
fds (c ∷ cs) = fd_of c ∷ fds cs

-- A call of one of the callbacks.
pub data Call : Type 0 where
  unsure ok bad : (conn : ℕ) → Call

-- The calls of `cbUnsure`, from the place `i` on.
unfoldable pub unsures : ℕ → List (Option ℕ) → List Call
unsures i [] = []
unsures i (none ∷ us) = unsure i ∷ unsures (suc i) us
unsures i (some fd ∷ us) = unsures (suc i) us

-- `idx` beside `s`: the places and descriptors that are polled.
unfoldable pub polled : ℕ → List (Option ℕ) → List (ℕ × ℕ)
polled i [] = []
polled i (none ∷ us) = polled (suc i) us
polled i (some fd ∷ us) = (i, fd) ∷ polled (suc i) us

-- The flags of `Revents` that are looked at.
pub record Revents : Type 0 where
  pub out : Bool
  pub err : Bool
  pub hup : Bool

abbrev pub called : Bool → Call → List Call
called false c = []
called true c = c ∷ []

-- The calls behind one `Poll`; there are none where no flag is set.
unfoldable pub report : List (ℕ × ℕ) → List Revents → List Call
report [] rs = []
report (p ∷ ps) [] = []
report (p ∷ ps) (r ∷ rs) =
    called r.out (ok p.0) ++ (called (r.err || r.hup) (bad p.0) ++ report ps rs)

-- The loop, of `n` rounds; an error of `Poll` (none) ends it.
unfoldable pub poll_rounds : ℕ → (ℕ → Option (List Revents)) → List (ℕ × ℕ) → List Call
unfolding report
poll_rounds zero answers ps = []
poll_rounds (suc n) answers ps =
    let rest = poll_rounds n (λ k. answers (suc k)) ps in
    elim (answers 0) [ none ↦ [] | some rs ↦ report ps rs ++ rest ]

-- The rounds of a timeout in nanoseconds, at 50 ms each.
unfoldable pub rounds_of : ℕ → ℕ
rounds_of timeout = (timeout + 49999999) / 50000000

-- `pollForWrite` under `controlFDSet`, on what each `Poll` answers.
unfoldable pub poll_for_write : List Conn → ℕ → (ℕ → Option (List Revents)) → List Call
unfolding fds unsures polled poll_rounds rounds_of
poll_for_write [] timeout answers = []
poll_for_write (c ∷ cs) timeout answers =
    let us = fds (c ∷ cs) in unsures 0 us ++ poll_rounds (rounds_of timeout) answers (polled 0 us)

abbrev is_ok : ℕ → Call → Bool
is_ok i (unsure j) = false
is_ok i (ok j) = i == j
is_ok i (bad j) = false

-- How often `cbOK` is called for a connection.
unfoldable pub oks : ℕ → List Call → ℕ
oks i [] = 0
oks i (c ∷ cs) = let rest = oks i cs in if is_ok i c then suc rest else rest

oks-append : (i : ℕ) (as' bs : List Call) → oks i (as' ++ bs) ≡ oks i as' + oks i bs
unfolding oks
oks-append i [] bs = omega arith
oks-append i (c ∷ as') bs = ground (arith, oks-append i as' bs)

unsures-oks : (i from : ℕ) (us : List (Option ℕ)) → oks i (unsures from us) ≡ 0
unfolding oks unsures
unsures-oks i from [] = refl
unsures-oks i from (none ∷ us) = unsures-oks i (suc from) us
unsures-oks i from (some fd ∷ us) = unsures-oks i (suc from) us

poll_rounds-oks :
    (i n : ℕ) (rs : List Revents) (ps : List (ℕ × ℕ))
    → oks i (poll_rounds n (λ k. some rs) ps) ≡ n * oks i (report ps rs)
unfolding poll_rounds oks
poll_rounds-oks i zero rs ps = omega arith
poll_rounds-oks i (suc n) rs ps = ground (
  arith,
  oks-append i (report ps rs) (poll_rounds n (λ k. some rs) ps),
  poll_rounds-oks i n rs ps,
)

-- While every poll answers the same, a connection is reported as writable again in every round: as often
-- as one poll reports it, times the number of rounds in the timeout.
pub poll_for_write-oks :
    (c : Conn) (cs : List Conn) (timeout i : ℕ) (rs : List Revents)
    → oks i (poll_for_write (c ∷ cs) timeout (λ k. some rs))
      ≡ rounds_of timeout * oks i (report (polled 0 (fds (c ∷ cs))) rs)
unfolding poll_for_write
poll_for_write-oks c cs timeout i rs =
    let us = fds (c ∷ cs) in
    oks-append i (unsures 0 us) (poll_rounds (rounds_of timeout) (λ k. some rs) (polled 0 us))
    ∙ (omega (arith, unsures-oks i 0 us, poll_rounds-oks i (rounds_of timeout) rs (polled 0 us)))
