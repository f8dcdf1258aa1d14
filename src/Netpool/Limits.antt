-- ===== src/Netpool/Limits.antt =====
-- utils/netpool: the limits of a pool, over its life.
use go_http.Base.{
  ℕ, ◌+◌, ◌-◌, ◌≤◌, ◌<◌, Bool, true, ◌≡◌, refl, arith, List, [], ◌∷◌, if◌then◌else◌, length, subst,
  sym, ap, ◌∙◌,
}
use go_http.Netpool.{
  Pool, new_pool, update, touch, is_available, close, take_ticket, next_idle, try_get_conn, Got,
  got, open_new, waits, blocks, add_state, release, done, Released,
}
use go_http.Netpool.Tickets.{count, live}
use go_http.Netpool.Releasing.{release-Accounted}
use go_http.Netpool.Life.{
  World, Step, reuse, start, wait, opened, fail, give_back, hand_over, Reach, here, next, at_first,
  Sound, Reach-Sound,
}

-- The pool in a result of `tryGetConn`.
pool_of : Pool → Got → Pool
pool_of p (got q c) = q
pool_of p (open_new q) = q
pool_of p (waits q) = q
pool_of p blocks = p

-- `q` has the capacities of `p`.
Alike : Pool → Pool → Type 0
Alike p q = (q.max_conn ≡ p.max_conn) × (q.max_idle ≡ p.max_idle)

next_idle-Alike : (now : ℕ) (idle : List ℕ) (p : Pool) → Alike p (pool_of p (next_idle now idle p))
unfolding Alike pool_of next_idle take_ticket close
next_idle-Alike now [] p = ground arith
next_idle-Alike now (d ∷ rest) p =
    let r = record p {
      idle = rest;
      states = update p.states d (record (p.states d) { is_closed = true });
    } in
    ground (
      arith,
      next_idle-Alike now rest (record p { idle = rest }),
      next_idle-Alike now rest r,
      next_idle-Alike now rest (record r { tickets = p.tickets - 1 }),
    )

release-Alike :
    (now : ℕ) (p : Pool) (c : ℕ) (close_it : Bool) {r : Released}
    → release now p c close_it ≡ done r
    → Alike p r.pool
unfolding Alike release close
release-Alike now p c close_it {r} e = ground arith

Step-Alike : {w v : World} → Step w v → Alike w.pool v.pool
unfolding try_get_conn add_state pool_of Alike touch
Step-Alike {w} (reuse now c p e) =
    subst (λ g. Alike w.pool (pool_of w.pool g)) e (next_idle-Alike now w.pool.idle w.pool)
Step-Alike {w} (start now p e) =
    subst (λ g. Alike w.pool (pool_of w.pool g)) e (next_idle-Alike now w.pool.idle w.pool)
Step-Alike {w} (wait now p e) =
    subst (λ g. Alike w.pool (pool_of w.pool g)) e (next_idle-Alike now w.pool.idle w.pool)
Step-Alike {w} (opened n e) = (refl, refl)
Step-Alike {w} (fail n e) = (refl, refl)
Step-Alike {w} (give_back now c close_it r h e) = release-Alike now w.pool c close_it e
Step-Alike {w} (hand_over now c m h a) = (refl, refl)

Reach-Alike : {s w : World} → Reach s w → Alike s.pool w.pool
unfolding Alike
Reach-Alike here = (refl, refl)
Reach-Alike (next r t) = let a = Reach-Alike r in let b = Step-Alike t in (b.0 ∙ a.0, b.1 ∙ a.1)

-- Over the life of a pool with a limit: the connections that are idle, out or being opened are never
-- more than the limit, and those that are idle never more than theirs.
pub Reach-limits :
    (max_idle max_conn duration : ℕ) {w : World}
    → 0 < max_conn
    → Reach (at_first max_idle max_conn duration) w
    → (length w.pool.idle + length w.held + w.opening ≤ max_conn) × (length w.pool.idle ≤ max_idle)
unfolding Sound at_first new_pool Alike
Reach-limits max_idle max_conn duration positive r =
    let s = Reach-Sound max_idle max_conn duration r in
    let alike = Reach-Alike r in
    let are = s.tickets_are in let few = s.few_tickets in let few_idle = s.few_idle in ground arith

-- No connection is with two sessions at the same time, nor idle while a session has it; and one that is
-- closed is neither idle nor with a session.
pub Reach-exclusive :
    (max_idle max_conn duration c : ℕ) {w : World}
    → Reach (at_first max_idle max_conn duration) w
    → count c w.pool.idle + count c w.held ≤ (if is_available w.pool c then 1 else 0)
unfolding Sound live
Reach-exclusive max_idle max_conn duration c r =
    let s = Reach-Sound max_idle max_conn duration r in let q = s.places c in ground arith

-- A session that is out can be released at any time, with `close` or without: `Release` returns, and
-- not with the error that the connection is closed.
pub Reach-release :
    (max_idle max_conn duration now c : ℕ) (close_it : Bool) {w : World}
    → Reach (at_first max_idle max_conn duration) w
    → 0 < count c w.held
    → (r : Released) × (release now w.pool c close_it ≡ done r)
unfolding Sound
Reach-release max_idle max_conn duration now c close_it {w} r h =
    let s = Reach-Sound max_idle max_conn duration r in
    let freed = release-Accounted now w.pool c close_it w.held (w.opening + w.lost) h s in
    (freed.0, freed.1)

Step-lost : {w v : World} → Step w v → w.lost ≤ v.lost
Step-lost (reuse now c p e) = omega arith
Step-lost (start now p e) = omega arith
Step-lost (wait now p e) = omega arith
Step-lost (opened n e) = omega arith
Step-lost (fail n e) = omega arith
Step-lost (give_back now c close_it r h e) = omega arith
Step-lost (hand_over now c m h a) = omega arith

Reach-lost : {w v : World} → Reach w v → w.lost ≤ v.lost
Reach-lost here = omega arith
Reach-lost (next {t} r s) = let a = Reach-lost r in let b = Step-lost s in omega arith

Reach-append : {s t u : World} → Reach s t → Reach t u → Reach s u
Reach-append r here = r
Reach-append r (next q e) = next (Reach-append r q) e

length_zero : (l : List ℕ) → length l ≡ 0 → l ≡ []
length_zero [] e = refl
length_zero (x ∷ l) e = absurd (omega arith)

-- With no idle connection and no ticket left, `tryGetConn` waits.
starved :
    (now : ℕ) (p : Pool)
    → length p.idle ≡ 0
    → p.tickets ≡ p.max_conn
    → 0 < p.max_conn
    → try_get_conn now p ≡ waits p
unfolding try_get_conn next_idle take_ticket
starved now p none_idle full positive =
    let nil = length_zero p.idle none_idle in
    let no_ticket : take_ticket (record p { idle = [] }) ≡ waits (record p { idle = [] }) =
      ground arith in
    ap (λ l. next_idle now l p) nil ∙ no_ticket ∙ ap (λ l. waits (record p { idle = l })) (sym nil)

-- In a pool with a limit, a failed `dial` or `Setup` does not give its ticket back: once there have been as many failures as the
-- limit, `tryGetConn` waits, and so it does ever after, whatever else happens.
pub Reach-starves :
    (max_idle max_conn duration now : ℕ) {w v : World}
    → 0 < max_conn
    → Reach (at_first max_idle max_conn duration) w
    → max_conn ≤ w.lost
    → Reach w v
    → try_get_conn now v.pool ≡ waits v.pool
unfolding Sound at_first new_pool Alike try_get_conn
Reach-starves max_idle max_conn duration now {w} {v} positive r all t =
    let later = Reach-append r t in
    let s = Reach-Sound max_idle max_conn duration later in
    let alike = Reach-Alike later in
    let are = s.tickets_are in
    let few = s.few_tickets in
    let more = Reach-lost t in starved now v.pool (ground arith) (ground arith) (ground arith)
