-- ===== src/Netpool/Handing.antt =====
-- utils/netpool/pool.go: what `tryGetConn` and `Connect` hand out.
use go_http.Base.{ℕ, zero, suc, ◌-◌, true, false, ◌≡◌, arith, List, [], ◌∷◌}
use go_http.Netpool.{
  Pool, is_available, is_stale, close, take_ticket, next_idle, try_get_conn, got, waits, session,
  failed, connect, update, blocks,
}

-- Fails `n` times in a row to open a connection: each `Connect` returns the error of `dial` or `Setup`.
unfoldable pub fail_times : ℕ → ℕ → Pool → Pool
unfolding connect try_get_conn
fail_times now zero p = p
fail_times now (suc n) p = elim (connect now false false p) [
  | session q c ↦ q
  | failed q ↦ fail_times now n q
  | waits q ↦ q
  | blocks ↦ p
]

-- A state that is handed out is open, and has not been idle for longer than the pool allows.
pub next_idle-got :
    (now c : ℕ) (idle : List ℕ) (p q : Pool)
    → next_idle now idle p ≡ got q c
    → (is_available q c ≡ true) × (is_stale now q c ≡ false)
unfolding next_idle take_ticket is_available is_stale close
next_idle-got now c [] p q e = ground arith
next_idle-got now c (d ∷ rest) p q e =
    let r = record p {
      idle = rest;
      states = update p.states d (record (p.states d) { is_closed = true });
    } in
    ground (
      arith,
      next_idle-got now c rest (record p { idle = rest }) q,
      next_idle-got now c rest r q,
      next_idle-got now c rest (record r { tickets = p.tickets - 1 }) q,
    )
