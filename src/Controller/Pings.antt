-- ===== src/Controller/Pings.antt =====
-- internal/transport/h2c/controller/pinger.go: `Ping` and the handler of PING frames. A call has a random
-- number of its own. The handler sends on the call's unbuffered channel while it holds the read lock of
-- `muPing`; the call takes the write lock to enter and to leave the map.
use go_http.Base.{
  ℕ, true, false, ◌==◌, ◌≡◌, refl, arith, Option, none, some, List, [], ◌∷◌, if◌then◌else◌,
}
use go_http.Controller.Frames.{Sent, Framer, write_frame}

-- Where a call stands: in its `select`, or behind it, on its way out.
pub data Stage : Type 0 where
  selecting leaving : Stage

-- `pingFut` with the stage of the call that each entry belongs to; `blocked` is the entry that the
-- handler tries to send to.
pub record Pings : Type 0 where
  pub calls : List (ℕ × Stage)
  pub blocked : Option ℕ

unfoldable pub stage_of : ℕ → List (ℕ × Stage) → Option Stage
stage_of d [] = none
stage_of d (c ∷ cs) = elim (d == c.0) [ true ↦ some c.1 | false ↦ stage_of d cs ]

unfoldable pub set_stage : ℕ → Stage → List (ℕ × Stage) → List (ℕ × Stage)
set_stage d s [] = (d, s) ∷ []
set_stage d s (c ∷ cs) = elim (d == c.0) [ true ↦ (d, s) ∷ cs | false ↦ c ∷ set_stage d s cs ]

unfoldable pub forget : ℕ → List (ℕ × Stage) → List (ℕ × Stage)
forget d [] = []
forget d (c ∷ cs) = elim (d == c.0) [ true ↦ forget d cs | false ↦ c ∷ forget d cs ]

-- The handler on an acknowledgement: a call in its `select` gets it and leaves the `select`; for one on
-- its way out there is no receiver, and the handler waits.
unfoldable pub acknowledge : Pings → ℕ → Pings
unfolding stage_of
acknowledge p d = elim (stage_of d p.calls) [
  | none ↦ p
  | some selecting ↦ record p { calls = set_stage d leaving p.calls }
  | some leaving ↦ record p { blocked = some d }
]

-- The handler on a PING that is not an acknowledgement.
unfoldable pub answer : Framer → ℕ → ℕ → Framer
answer f stream_id payload =
    if stream_id == 0 then (write_frame f (Sent.ping true payload)).0 else f

-- A step of a call or of the read loop. What needs the lock waits while the handler is blocked.
pub data Step (p : Pings) : Pings → Type 0 where
  enters : (d : ℕ) → p.blocked ≡ none → Step p (record p { calls = set_stage d selecting p.calls })
  acknowledged : (d : ℕ) → p.blocked ≡ none → Step p (acknowledge p d)
  times_out :
      (d : ℕ)
      → stage_of d p.calls ≡ some selecting
      → Step p (record p { calls = set_stage d leaving p.calls })
  leaves :
      (d : ℕ)
      → p.blocked ≡ none
      → stage_of d p.calls ≡ some leaving
      → Step p (record p { calls = forget d p.calls })

pub data Reach (s : Pings) : Pings → Type 0 where
  here : Reach s s
  next : {t u : Pings} → Reach s t → Step t u → Reach s u

-- The handler waits for a call that no longer listens.
record Stuck (d : ℕ) (p : Pings) : Type 0 where
  waits : p.blocked ≡ some d
  gone : stage_of d p.calls ≡ some leaving

stage_of-set_stage :
    (d e : ℕ) (s : Stage) (cs : List (ℕ × Stage))
    → stage_of e (set_stage d s cs) ≡ (if e == d then some s else stage_of e cs)
unfolding stage_of set_stage
stage_of-set_stage d e s [] = ground arith
stage_of-set_stage d e s (c ∷ cs) = ground (arith, stage_of-set_stage d e s cs)

Step-Stuck : {d : ℕ} {p q : Pings} → Step p q → Stuck d p → Stuck d q
Step-Stuck (enters e free) s = absurd (ground (arith, s.waits, free))
Step-Stuck (acknowledged e free) s = absurd (ground (arith, s.waits, free))
Step-Stuck {d} {p} (times_out e listening) s = record {
  waits = s.waits;
  gone = ground (arith, stage_of-set_stage e d leaving p.calls, s.gone);
}
Step-Stuck (leaves e free gone) s = absurd (ground (arith, s.waits, free))

Reach-Stuck : {d : ℕ} {p q : Pings} → Stuck d p → Reach p q → Stuck d q
Reach-Stuck s here = s
Reach-Stuck s (next r t) = Step-Stuck t (Reach-Stuck s r)

-- An acknowledgement that comes when its call has just timed out, and is not yet out of the map, blocks
-- the read loop for good: the call waits for the lock, and the handler for the call.
pub acknowledge-blocks :
    (d : ℕ) (p q : Pings)
    → stage_of d p.calls ≡ some leaving
    → Reach (acknowledge p d) q
    → q.blocked ≡ some d
unfolding acknowledge
acknowledge-blocks d p q gone r =
    (Reach-Stuck
      (let s : Stuck d (acknowledge p d) =
          rw (gone, acknowledge) (record { waits = refl; gone = gone }) in
        s)
      r).waits

-- An acknowledgement in time ends the wait of its own call and of no other.
pub acknowledge-answers :
    (d e : ℕ) (p : Pings)
    → stage_of d p.calls ≡ some selecting
    → ((acknowledge p d).blocked ≡ p.blocked)
      × (stage_of e (acknowledge p d).calls ≡ (if e == d then some leaving else stage_of e p.calls))
unfolding acknowledge
acknowledge-answers d e p listening =
    rw (listening, acknowledge) (refl, stage_of-set_stage d e leaving p.calls)
