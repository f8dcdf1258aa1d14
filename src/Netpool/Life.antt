-- ===== src/Netpool/Life.antt =====
-- utils/netpool: a pool over its life, `tryGetConn`, the opening of a connection and `Release` by any
-- number of callers in any order.
use go_http.Base.{
  ℕ, suc, ◌+◌, ◌<◌, Bool, true, ◌≡◌, inr, refl, arith, List, [], ◌∷◌, subst, sym, ◌∙◌,
}
use go_http.Netpool.{
  Pool, new_pool, update, touch, is_available, try_get_conn, Got, got, open_new, waits, add_state,
  release, Release, done, Released, already_closed, blocks,
}
use go_http.Netpool.Tickets.{count, remove, live, Accounted, Fits, next_idle-Fits}
use go_http.Netpool.Releasing.{release-Accounted}

-- A pool with the sessions that are out, the callers that are in `dial` or `Setup`, and the number of
-- those whose `dial` or `Setup` failed.
pub record World : Type 0 where
  pub pool : Pool
  pub held : List ℕ
  pub opening : ℕ
  pub lost : ℕ

pub data Step (w : World) : World → Type 0 where
  reuse :
      (now c : ℕ) (p : Pool)
      → try_get_conn now w.pool ≡ got p c
      → Step w (record w { pool = p; held = c ∷ w.held })
  start :
      (now : ℕ) (p : Pool)
      → try_get_conn now w.pool ≡ open_new p
      → Step w (record w { pool = p; opening = suc w.opening })
  wait : (now : ℕ) (p : Pool) → try_get_conn now w.pool ≡ waits p → Step w (record w { pool = p })
  opened :
      (n : ℕ)
      → w.opening ≡ suc n
      → Step w (record w {
        pool = (add_state w.pool).0;
        held = (add_state w.pool).1 ∷ w.held;
        opening = n;
      })
  fail : (n : ℕ) → w.opening ≡ suc n → Step w (record w { opening = n; lost = suc w.lost })
  give_back :
      (now c : ℕ) (close_it : Bool) (r : Released)
      → 0 < count c w.held
      → release now w.pool c close_it ≡ done r
      → Step w (record w { pool = r.pool; held = remove c w.held })
  -- `maxIdle` is 0, so that `idleTicket` has no buffer: `Release` hands the state to a `tryGetConn` that
  -- waits there, and another session has it.
  hand_over :
      (now c : ℕ)
      → w.pool.max_idle ≡ 0
      → 0 < count c w.held
      → is_available w.pool c ≡ true
      → Step w (record w { pool = touch now w.pool c })

pub data Reach (s : World) : World → Type 0 where
  here : Reach s s
  next : {t u : World} → Reach s t → Step t u → Reach s u

-- A new pool, as `NewPool` returns it.
unfoldable pub at_first : ℕ → ℕ → ℕ → World
at_first max_idle max_conn duration = record {
  pool = new_pool max_idle max_conn duration;
  held = [];
  opening = 0;
  lost = 0;
}

unfoldable pub Sound : World → Type 0
Sound w = Accounted w.pool w.held (w.opening + w.lost)

at_first-Sound : (max_idle max_conn duration : ℕ) → Sound (at_first max_idle max_conn duration)
unfolding Sound at_first new_pool count
at_first-Sound max_idle max_conn duration = record {
  tickets_are = inr refl;
  few_tickets = omega arith;
  few_idle = omega arith;
  places = λ c. omega arith;
}

add_state-Accounted :
    (p : Pool) (held : List ℕ) (pending : ℕ)
    → Accounted p held (suc pending)
    → Accounted (add_state p).0 ((add_state p).1 ∷ held) pending
unfolding add_state update count live is_available
add_state-Accounted p held pending a = record {
  tickets_are = let are = a.tickets_are in ground arith;
  few_tickets = a.few_tickets;
  few_idle = a.few_idle;
  places = λ c. let q = a.places c in ground arith;
}

-- What `tryGetConn` returns in a sound world is accounted for.
got-Fits :
    (w : World) (now : ℕ) {g : Got}
    → Sound w
    → try_get_conn now w.pool ≡ g
    → Fits w.held (w.opening + w.lost) g
unfolding Sound try_get_conn
got-Fits w now s e =
    subst (Fits w.held (w.opening + w.lost)) e
      (next_idle-Fits now w.pool.idle w.pool w.held (w.opening + w.lost) s)

same_pending :
    (p : Pool) (held : List ℕ) {m n : ℕ} → m ≡ n → Accounted p held m → Accounted p held n
same_pending p held e a = subst (Accounted p held) e a

-- What `Release` leaves is accounted for.
Frees : List ℕ → ℕ → Release → Type 0
Frees held pending (done r) = Accounted r.pool held pending
Frees held pending already_closed = ⊥
Frees held pending blocks = ⊥

release-Frees :
    (w : World) (now c : ℕ) (close_it : Bool) {r : Released}
    → 0 < count c w.held
    → release now w.pool c close_it ≡ done r
    → Sound w
    → Accounted r.pool (remove c w.held) (w.opening + w.lost)
unfolding Sound Frees
release-Frees w now c close_it h e s =
    let freed = release-Accounted now w.pool c close_it w.held (w.opening + w.lost) h s in
    subst (Frees (remove c w.held) (w.opening + w.lost)) (sym freed.1 ∙ e) freed.2

touch-Accounted :
    (now : ℕ) (p : Pool) (c : ℕ) (held : List ℕ) (pending : ℕ)
    → Accounted p held pending
    → Accounted (touch now p c) held pending
unfolding touch update live is_available
touch-Accounted now p c held pending a = record {
  tickets_are = a.tickets_are;
  few_tickets = a.few_tickets;
  few_idle = a.few_idle;
  places = λ d. let q = a.places d in ground arith;
}

Step-Sound : {w v : World} → Step w v → Sound w → Sound v
unfolding Sound Fits
Step-Sound {w} (reuse now c p e) s = got-Fits w now s e
Step-Sound {w} (start now p e) s = same_pending p w.held (omega arith) (got-Fits w now s e)
Step-Sound {w} (wait now p e) s = got-Fits w now s e
Step-Sound {w} (opened n e) s =
    add_state-Accounted w.pool w.held (n + w.lost) (same_pending w.pool w.held (omega arith) s)
Step-Sound {w} (fail n e) s = same_pending w.pool w.held (omega arith) s
Step-Sound {w} (give_back now c close_it r h e) s = release-Frees w now c close_it h e s
Step-Sound {w} (hand_over now c m h a) s =
    touch-Accounted now w.pool c w.held (w.opening + w.lost) s

pub Reach-Sound :
    (max_idle max_conn duration : ℕ) {w : World}
    → Reach (at_first max_idle max_conn duration) w
    → Sound w
Reach-Sound max_idle max_conn duration here = at_first-Sound max_idle max_conn duration
Reach-Sound max_idle max_conn duration (next r t) =
    Step-Sound t (Reach-Sound max_idle max_conn duration r)
