-- ===== src/Tests/Pools.antt =====
-- A pool of connections (utils/netpool) through a few steps.
use go_http.Base.{◌+◌, ◌≤◌, true, false, ◌≡◌, refl, arith, [], ◌∷◌, length, if◌then◌else◌}
use go_http.Netpool.{
  Pool, new_pool, update, is_available, is_stale, close, take_ticket, next_idle, try_get_conn, got,
  waits, add_state, release, done, Released, fresh_state,
}
use go_http.Netpool.Tickets.{count}
use go_http.Netpool.Life.{World, start, opened, fail, Reach, here, next, at_first}
use go_http.Netpool.Limits.{Reach-limits, Reach-exclusive, Reach-release, Reach-starves}
use go_http.Netpool.Group.{PoolGroup, new_group}

-- At most one idle connection and two in all.
abbrev first : World
first = at_first 1 2 0

abbrev taken : Pool
taken = record (new_pool 1 2 0) { tickets = 1 }

abbrev begun : World
begun = record { pool = taken; held = []; opening = 1; lost = 0 }

begun_Reach : Reach first begun
unfolding at_first new_pool try_get_conn next_idle take_ticket
begun_Reach = next here (start 5 taken refl)

abbrev in_use : World
in_use = record {
  pool = (add_state taken).0;
  held = (add_state taken).1 ∷ [];
  opening = 0;
  lost = 0;
}

in_use_Reach : Reach first in_use
in_use_Reach = next begun_Reach (opened 0 refl)

Reach-limits_example :
    (length in_use.pool.idle + length in_use.held + in_use.opening ≤ 2)
    × (length in_use.pool.idle ≤ 1)
Reach-limits_example = Reach-limits 1 2 0 (omega arith) in_use_Reach

Reach-exclusive_example :
    count 0 in_use.pool.idle + count 0 in_use.held ≤ (if is_available in_use.pool 0 then 1 else 0)
Reach-exclusive_example = Reach-exclusive 1 2 0 0 in_use_Reach

Reach-release_example : (r : Released) × (release 9 in_use.pool 0 false ≡ done r)
unfolding count add_state new_pool
Reach-release_example = Reach-release 1 2 0 9 0 false in_use_Reach (omega arith)

-- Two failures later
abbrev failed_once : World
failed_once = record begun { opening = 0; lost = 1 }

abbrev begun_again : World
begun_again = record failed_once { pool = record taken { tickets = 2 }; opening = 1 }

abbrev failed_twice : World
failed_twice = record begun_again { opening = 0; lost = 2 }

failed_twice_Reach : Reach first failed_twice
unfolding new_pool try_get_conn next_idle take_ticket
failed_twice_Reach =
    next (next (next begun_Reach (fail 0 refl)) (start 7 (record taken { tickets = 2 }) refl))
      (fail 0 refl)

Reach-starves_example : try_get_conn 99 failed_twice.pool ≡ waits failed_twice.pool
Reach-starves_example = Reach-starves 1 2 0 99 (omega arith) failed_twice_Reach (omega arith) here

-- The connection of number 0 is idle since 3, that of number 1 since 8, and 5 is the limit.
abbrev two_idle : Pool
two_idle = record {
  max_idle = 4;
  max_conn = 4;
  max_idle_duration = 5;
  tickets = 2;
  idle = 0 ∷ 1 ∷ [];
  states =
      update (update (λ c. fresh_state) 0 (record fresh_state { last_idle = 3 })) 1
        (record fresh_state { last_idle = 8 });
  next = 2;
}

abbrev one_left : Pool
one_left = record two_idle {
  idle = [];
  tickets = 1;
  states = update two_idle.states 0 (record (two_idle.states 0) { is_closed = true });
}

two_idle_got : next_idle 10 (0 ∷ 1 ∷ []) two_idle ≡ got one_left 1
unfolding next_idle is_stale close update is_available
two_idle_got = refl

abbrev group : PoolGroup
group = new_group 2 1 0
