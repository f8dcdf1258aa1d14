-- ===== src/Netpool.antt =====
-- utils/netpool: connections to one host that are kept for reuse (pool.go, connection.go) and one pool
-- per host (group.go). A `state` is shared between the pool and a session, so states stand in a store
-- and are named by numbers. The two channels are a count and a queue.
pub mod Handing
pub mod Tickets
pub mod Releasing
pub mod Life
pub mod Group
pub mod Limits
use go_http.Base.{
  ℕ, zero, suc, ◌+◌, ◌-◌, Bool, true, false, not, ◌&&◌, ◌||◌, ◌==◌, ltb, ◌≡◌, refl, Option, none,
  some, List, [], ◌∷◌, ◌++◌, if◌then◌else◌, length,
}

-- `state`: `IsClosed` and `LastIdle`. The zero time is 0.
pub record State : Type 0 where
  pub is_closed : Bool
  pub last_idle : ℕ

-- `Pool` with its states. `max_conn` is the capacity of `connTicket`, where 0 stands for a nil channel;
-- `tickets` is the number of elements in it. `idle` is `idleTicket`, the oldest first.
pub record Pool : Type 0 where
  pub max_idle : ℕ
  pub max_conn : ℕ
  pub max_idle_duration : ℕ
  pub tickets : ℕ
  pub idle : List ℕ
  pub states : ℕ → State
  pub next : ℕ

unfoldable pub update : (ℕ → State) → ℕ → State → ℕ → State
update states c s d = if d == c then s else states d

abbrev pub fresh_state : State
fresh_state = record { is_closed = false; last_idle = 0 }

-- `NewPool`
unfoldable pub new_pool : ℕ → ℕ → ℕ → Pool
new_pool max_idle max_conn max_idle_duration = record {
  max_idle = max_idle;
  max_conn = max_conn;
  max_idle_duration = max_idle_duration;
  tickets = 0;
  idle = [];
  states = λ c. fresh_state;
  next = 0;
}

-- `Available`
unfoldable pub is_available : Pool → ℕ → Bool
is_available p c = not (p.states c).is_closed

-- `Close`, less the call of the connection's own `Close`. `none`: the receive from `connTicket` never
-- gets a value.
unfoldable pub close : Pool → ℕ → Option Pool
close p c =
    let states = update p.states c (record (p.states c) { is_closed = true }) in
    if p.max_conn == 0
    then some (record p { states = states })
    else if p.tickets == 0
    then none
    else some (record p { states = states; tickets = p.tickets - 1 })

-- The results of `Release`. The connection's own `Close` may return an error, which is passed on.
pub record Released : Type 0 where
  pub pool : Pool
  pub reused : Bool
  pub closed : Bool

-- What `Release` does with a session's state: an error, or the pool with the state idle or closed.
pub data Release : Type 0 where
  already_closed blocks : Release
  done : Released → Release

abbrev closing : Option Pool → Release
closing none = blocks
closing (some p) = done (record { pool = p; reused = false; closed = true })

-- A state is used up to the time `now`.
unfoldable pub touch : ℕ → Pool → ℕ → Pool
touch now p c = record p { states = update p.states c (record (p.states c) { last_idle = now }) }

-- `Release`, at the time `now`, as long as no `tryGetConn` waits at an `idleTicket` without a buffer; there
-- it may hand the state over (Netpool.Life).
unfoldable pub release : ℕ → Pool → ℕ → Bool → Release
unfolding close
release now p c close_it =
    let idle_now = record p {
      states = update p.states c (record (p.states c) { last_idle = now });
    } in
    if not (is_available p c)
    then already_closed
    else if close_it
    then closing (close p c)
    else if ltb (length p.idle) p.max_idle
    then done (record {
      pool = record idle_now { idle = p.idle ++ c ∷ [] };
      reused = true;
      closed = false;
    })
    else closing (close idle_now c)

-- `time.Since(c.LastIdle) > p.maxIdleDuration`, where it counts.
unfoldable pub is_stale : ℕ → Pool → ℕ → Bool
is_stale now p c =
    not (p.max_idle_duration == 0) && ltb p.max_idle_duration (now - (p.states c).last_idle)

-- What `tryGetConn` does: a state, the right to open a connection, or no end as long as no state becomes
-- idle and no ticket is given back; or `Close` inside it never ends.
pub data Got : Type 0 where
  got : Pool → ℕ → Got
  open_new : Pool → Got
  waits : Pool → Got
  blocks : Got

-- Nothing is idle: the second `select`.
unfoldable pub take_ticket : Pool → Got
take_ticket p =
    if p.max_conn == 0
    then open_new p
    else if ltb p.tickets p.max_conn
    then open_new (record p { tickets = suc p.tickets })
    else waits p

-- The loop, over the idle states that stand in the queue.
unfoldable pub next_idle : ℕ → List ℕ → Pool → Got
next_idle now [] p = take_ticket (record p { idle = [] })
next_idle now (c ∷ rest) p =
    let q = record p { idle = rest } in
    elim (is_stale now p c) [
      | true ↦ elim (close q c) [ none ↦ blocks | some r ↦ next_idle now rest r ]
      | false ↦ elim (is_available p c) [ true ↦ got q c | false ↦ next_idle now rest q ]
    ]

-- `tryGetConn`
unfoldable pub try_get_conn : ℕ → Pool → Got
try_get_conn now p = next_idle now p.idle p

-- `&state{conn: c, p: p}`
unfoldable pub add_state : Pool → Pool × ℕ
add_state p = (record p { states = update p.states p.next fresh_state; next = suc p.next }, p.next)

-- What `Connect` does before the connection's own `Session`: an error of `dial` or `Setup`, or the state
-- of the connection to use.
pub data Connected : Type 0 where
  session : Pool → ℕ → Connected
  failed : Pool → Connected
  waits : Pool → Connected
  blocks : Connected

-- `Connect`, where `dials` and `sets_up` say that `dial` and `Setup` return no error.
unfoldable pub connect : ℕ → Bool → Bool → Pool → Connected
connect now dials sets_up p = elim (try_get_conn now p) [
  | got q c ↦ session q c
  | waits q ↦ waits q
  | blocks ↦ blocks
  | open_new q ↦ if dials && sets_up then session (add_state q).0 (add_state q).1 else failed q
]
