-- ===== src/Netpool/Releasing.antt =====
-- utils/netpool/connection.go: `Release` of a session that is out, against the account of the pool.
use go_http.Base.{
  Bool-cases, ℕ, ◌-◌, ◌<◌, Bool, true, false, ◌≡◌, inl, inr, refl, arith, List, [], ◌∷◌, ◌++◌, some,
  ◌==◌, ltb, length,
}
use go_http.Netpool.{Pool, update, is_available, close, release, done, Released}
use go_http.Netpool.Tickets.{
  count, remove, live, Accounted, count-append, length-snoc, count-remove, length-remove,
  count_le_length,
}

-- What remains of the account when `c`, which is held, is closed.
close_held :
    (p : Pool) (c left : ℕ) (held : List ℕ) (pending : ℕ)
    → 0 < count c held
    → left ≡ p.tickets - 1
    → Accounted p held pending
    → Accounted
        (record p {
          states = update p.states c (record (p.states c) { is_closed = true });
          tickets = left;
        })
        (remove c held)
        pending
unfolding count live update is_available
close_held p c left held pending h l a =
    let are = a.tickets_are in
    let few = a.few_tickets in
    let len = length-remove c held h in
    record {
      tickets_are = ground arith;
      few_tickets = omega arith;
      few_idle = a.few_idle;
      places = λ d. let q = a.places d in let r = count-remove d c held h in ground arith;
    }

-- The time that `Release` notes changes nothing.
touch-Accounted :
    (now : ℕ) (p : Pool) (c : ℕ) (held : List ℕ) (pending : ℕ)
    → Accounted p held pending
    → Accounted
        (record p { states = update p.states c (record (p.states c) { last_idle = now }) })
        held
        pending
unfolding live update is_available
touch-Accounted now p c held pending a = record {
  tickets_are = a.tickets_are;
  few_tickets = a.few_tickets;
  few_idle = a.few_idle;
  places = λ d. let q = a.places d in ground arith;
}

-- A session that is out can be released with `close`: nothing blocks.
close_held-Accounted :
    (p : Pool) (c : ℕ) (held : List ℕ) (pending : ℕ)
    → 0 < count c held
    → Accounted p held pending
    → (r : Pool) × (close p c ≡ some r) × Accounted r (remove c held) pending
unfolding close
close_held-Accounted p c held pending h a =
    let few = a.few_tickets in
    let are = a.tickets_are in
    let len = count_le_length c held in
    elim (Bool-cases (p.max_conn == 0)) [
      | inl e ↦ rw (e) (_, refl, close_held p c p.tickets held pending h (ground arith) a)
      | inr e ↦
          let some_left : (p.tickets == 0) ≡ false = ground arith in
          rw (e, some_left) (_, refl, close_held p c (p.tickets - 1) held pending h refl a)
    ]

-- The session becomes idle.
idle-Accounted :
    (p : Pool) (c : ℕ) (held : List ℕ) (pending : ℕ)
    → 0 < count c held
    → length p.idle < p.max_idle
    → Accounted p held pending
    → Accounted (record p { idle = p.idle ++ c ∷ [] }) (remove c held) pending
unfolding live is_available
idle-Accounted p c held pending h room a =
    let are = a.tickets_are in
    let len = length-remove c held h in
    let snoc = length-snoc c p.idle in
    record {
      tickets_are = ground arith;
      few_tickets = a.few_tickets;
      few_idle = omega arith;
      places = λ d.
          let q = a.places d in
          let r = count-remove d c held h in let t = count-append d c p.idle in ground arith;
    }

-- A session that is out can be released at any time and in both ways: `Release` returns, without the
-- error that the connection is closed, and what it leaves is accounted for.
pub release-Accounted :
    (now : ℕ) (p : Pool) (c : ℕ) (close_it : Bool) (held : List ℕ) (pending : ℕ)
    → 0 < count c held
    → Accounted p held pending
    → (r : Released) × (release now p c close_it ≡ done r)
      × Accounted r.pool (remove c held) pending
unfolding release live
release-Accounted now p c close_it held pending h a =
    let q = a.places c in
    let is_open : is_available p c ≡ true = ground arith in
    let touched = touch-Accounted now p c held pending a in
    let closed = close_held-Accounted p c held pending h a in
    let closed_after = close_held-Accounted _ c held pending h touched in
    elim (Bool-cases close_it) [
      | inl e ↦ rw (is_open, e, closed.1) (_, refl, closed.2)
      | inr e ↦ elim (Bool-cases (ltb (length p.idle) p.max_idle)) [
        | inl f ↦
            rw (is_open, e, f) (_, refl, idle-Accounted _ c held pending h (ground arith) touched)
        | inr f ↦ rw (is_open, e, f, closed_after.1) (_, refl, closed_after.2)
      ]
    ]
