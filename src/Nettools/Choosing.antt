-- ===== src/Nettools/Choosing.antt =====
-- utils/nettools/net.go: the choice between the modes by `init`, `GetConnectionForWrite`, and what
-- `mapConnsToFDs` finds of a connection.
use go_http.Base.{
  ℕ, zero, suc, ◌≡◌, refl, ap, Bool, false, List, [], ◌∷◌, Option, none, some, if◌then◌else◌, inl,
  inr, Option-cases, append-nil,
}
use go_http.Nettools.{
  Conn, no_fd, control_fails, with_fd, fd_of, fds, Call, unsure, unsures, polled, poll_rounds,
  Revents, poll_for_write, rounds_of,
}

-- `Mode`
pub data Mode : Type 0 where
  epoll poll select : Mode

abbrev first_of : (Mode → Bool) → List Mode → Option Mode
first_of supported [] = none
first_of supported (m ∷ ms) =
    let rest = first_of supported ms in if supported m then some m else rest

-- `init`: the mode that is picked, if any is supported.
unfoldable pub pick : (Mode → Bool) → Option Mode
pick supported = first_of supported (epoll ∷ poll ∷ select ∷ [])

-- What is picked where none is supported.
unfoldable pub all_unsure : ℕ → List Conn → List Call
all_unsure i [] = []
all_unsure i (c ∷ cs) = unsure i ∷ all_unsure (suc i) cs

-- `GetConnectionForWrite`, for what each mode does with a list of connections.
unfoldable pub get_connection_for_write :
    (Mode → Bool) → (Mode → List Conn → List Call) → List Conn → List Call
unfolding pick all_unsure
get_connection_for_write supported run cs = elim (pick supported) [
  | none ↦ all_unsure 0 cs
  | some m ↦ run m cs
]

-- A connection: one of TLS, from which `NetConn` gives the one below, one with a descriptor, which
-- `Control` hands out or fails (none), one that gives no `SyscallConn`, and any other.
pub data NetConn : Type 0 where
  tls : NetConn → NetConn
  socket : (control : Option ℕ) → NetConn
  no_syscall other : NetConn

-- `raw.(syscall.Conn)`, with `Control` on what it gives.
unfoldable pub syscall_conn : NetConn → Conn
syscall_conn (socket none) = control_fails
syscall_conn (socket (some fd)) = with_fd fd
syscall_conn _ = no_fd

-- `connsToFD`
unfoldable pub conns_to_fd : NetConn → Conn
unfolding syscall_conn
conns_to_fd (tls c) = syscall_conn c
conns_to_fd c = syscall_conn c

-- `mapConnsToFDs`
unfoldable pub map_conns_to_fds : List NetConn → List Conn
unfolding conns_to_fd
map_conns_to_fds [] = []
map_conns_to_fds (c ∷ cs) = conns_to_fd c ∷ map_conns_to_fds cs

-- Nothing is polled of connections without a descriptor, and each is reported as unsure.
unfoldable pub without_fd : List Conn → List Conn
without_fd [] = []
without_fd (c ∷ cs) = no_fd ∷ without_fd cs

polled-without_fd : (i : ℕ) (cs : List Conn) → polled i (fds (without_fd cs)) ≡ []
unfolding polled fds fd_of without_fd
polled-without_fd i [] = refl
polled-without_fd i (c ∷ cs) = polled-without_fd (suc i) cs

unsures-without_fd :
    (i : ℕ) (cs : List Conn) → unsures i (fds (without_fd cs)) ≡ all_unsure i (without_fd cs)
unfolding unsures fds fd_of without_fd all_unsure
unsures-without_fd i [] = refl
unsures-without_fd i (c ∷ cs) = ap (◌∷◌ (unsure i)) (unsures-without_fd (suc i) cs)

-- Every connection of TLS over TLS, as one behind an https proxy to an https server.
unfoldable pub twice_tls : List NetConn → List NetConn
twice_tls [] = []
twice_tls (c ∷ cs) = tls (tls c) ∷ twice_tls cs

twice_tls-without_fd :
    (cs : List NetConn) → map_conns_to_fds (twice_tls cs) ≡ without_fd (map_conns_to_fds cs)
unfolding map_conns_to_fds conns_to_fd syscall_conn twice_tls without_fd
twice_tls-without_fd [] = refl
twice_tls-without_fd (c ∷ cs) = ap (◌∷◌ no_fd) (twice_tls-without_fd cs)

poll_rounds-nothing : (n : ℕ) (answers : ℕ → Option (List Revents)) → poll_rounds n answers [] ≡ []
unfolding poll_rounds
poll_rounds-nothing zero answers = refl
poll_rounds-nothing (suc n) answers = elim (Option-cases (answers 0)) [
  | inl e ↦ rw (e, poll_rounds) refl
  | inr e ↦ rw (e.1, poll_rounds) (poll_rounds-nothing n (λ k. answers (suc k)))
]

poll_for_write-without_fd :
    (cs : List Conn) (timeout : ℕ) (answers : ℕ → Option (List Revents))
    → poll_for_write (without_fd cs) timeout answers ≡ all_unsure 0 (without_fd cs)
unfolding poll_for_write without_fd
poll_for_write-without_fd [] timeout answers = unfold all_unsure in refl
poll_for_write-without_fd (c ∷ cs) timeout answers =
    rw
      (
        polled-without_fd 0 (c ∷ cs),
        poll_rounds-nothing (rounds_of timeout) answers,
        append-nil (unsures 0 (fds (without_fd (c ∷ cs)))),
      )
      (unsures-without_fd 0 (c ∷ cs))

-- Where `Poll` is the mode that is picked, connections of TLS over TLS are never polled: whatever `Poll`
-- would answer for the descriptors below, each is reported as unsure, once and in order, which
-- is what is done where no mode is supported.
pub twice_tls-unsure :
    (supported : Mode → Bool) (cs : List NetConn) (timeout : ℕ)
    (answers : ℕ → Option (List Revents)) (run : Mode → List Conn → List Call)
    → pick supported ≡ some poll
    → ((l : List Conn) → run poll l ≡ poll_for_write l timeout answers)
    → get_connection_for_write supported run (map_conns_to_fds (twice_tls cs))
      ≡ get_connection_for_write (λ m. false) run (map_conns_to_fds (twice_tls cs))
unfolding get_connection_for_write pick
twice_tls-unsure supported cs timeout answers run e r =
    rw (e, r (map_conns_to_fds (twice_tls cs)), twice_tls-without_fd cs, get_connection_for_write)
      (poll_for_write-without_fd (map_conns_to_fds cs) timeout answers)
