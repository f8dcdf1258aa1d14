-- ===== src/Netpool/Group.antt =====
-- utils/netpool/group.go: one pool per host. The lock of `PoolGroup` makes the lookup and the entry of a
-- new pool one step: the second lookup, under the write lock, finds what another caller entered since
-- the first.
use go_http.Base.{
  ℕ, Bool, true, false, ◌≡◌, refl, arith, List, [], ◌∷◌, Option, none, some, Bytes, equal,
  equal_iff,
}
use go_http.Netpool.{Pool, new_pool, connect, Connected, session, failed, waits, blocks}

pub record PoolGroup : Type 0 where
  pub pools : List (Bytes × Pool)
  pub max_conns_per_host : ℕ
  pub max_idle_per_host : ℕ
  pub max_idle_duration : ℕ

-- `NewGroup`
unfoldable pub new_group : ℕ → ℕ → ℕ → PoolGroup
new_group max_conns max_idle duration = record {
  pools = [];
  max_conns_per_host = max_conns;
  max_idle_per_host = max_idle;
  max_idle_duration = duration;
}

-- `NewEmpty`
unfoldable pub new_empty : PoolGroup → PoolGroup
unfolding new_group
new_empty g = new_group g.max_conns_per_host g.max_idle_per_host g.max_idle_duration

-- `g.pools[key]`
unfoldable pub find : Bytes → List (Bytes × Pool) → Option Pool
find key [] = none
find key (p ∷ ps) = elim (equal key p.0) [ true ↦ some p.1 | false ↦ find key ps ]

-- What stands at `key`, replaced.
unfoldable pub enter : Bytes → Pool → List (Bytes × Pool) → List (Bytes × Pool)
enter key pool [] = (key, pool) ∷ []
enter key pool (p ∷ ps) = elim (equal key p.0) [
  | true ↦ (key, pool) ∷ ps
  | false ↦ p ∷ enter key pool ps
]

-- The pool that `Connect` uses for a key.
unfoldable pub pool_for : PoolGroup → Bytes → Pool
unfolding find new_pool
pool_for g key = elim (find key g.pools) [
  | some p ↦ p
  | none ↦ new_pool g.max_idle_per_host g.max_conns_per_host g.max_idle_duration
]

-- The pool that is left behind a `Connect`, where `Close` in it does not block.
unfoldable pub left_behind : Pool → Connected → Pool
left_behind p (session q c) = q
left_behind p (failed q) = q
left_behind p (waits q) = q
left_behind p blocks = p

-- `Connect`
unfoldable pub connect_to : ℕ → Bool → Bool → PoolGroup → Bytes → PoolGroup × Connected
connect_to now dials sets_up g key =
    let p = pool_for g key in
    let c = connect now dials sets_up p in
    (record g { pools = enter key (left_behind p c) g.pools }, c)

find-enter :
    (key : Bytes) (pool : Pool) (ps : List (Bytes × Pool))
    → find key (enter key pool ps) ≡ some pool
unfolding find enter
find-enter key pool [] = ground (arith, equal_iff key key)
find-enter key pool (p ∷ ps) = ground (arith, find-enter key pool ps, equal_iff key key)

find-enter_other :
    (key other : Bytes) (pool : Pool) (ps : List (Bytes × Pool))
    → equal other key ≡ false
    → find other (enter key pool ps) ≡ find other ps
unfolding find enter
find-enter_other key other pool [] h = ground arith
find-enter_other key other pool (p ∷ ps) h =
    ground (arith, find-enter_other key other pool ps, equal_iff key p.0)

-- A call for one key is the call on that key's pool, which is a new one with the group's limits where
-- the group has none; the pool is kept under the key as the call leaves it, and what the group has for
-- every other key stays.
pub connect_to-find :
    (now : ℕ) (dials sets_up : Bool) (g : PoolGroup) (key other : Bytes)
    → equal other key ≡ false
    → let c = connect now dials sets_up (pool_for g key) in
      let g' = (connect_to now dials sets_up g key).0 in
      ((connect_to now dials sets_up g key).1 ≡ c)
      × (pool_for g' key ≡ left_behind (pool_for g key) c)
      × (pool_for g' other ≡ pool_for g other)
unfolding connect_to pool_for
connect_to-find now dials sets_up g key other h =
    let here =
      find-enter key (left_behind (pool_for g key) (connect now dials sets_up (pool_for g key)))
        g.pools in
    let there =
      find-enter_other key other
        (left_behind (pool_for g key) (connect now dials sets_up (pool_for g key))) g.pools h in
    (refl, rw (here, pool_for) refl, rw (there, pool_for) refl)
