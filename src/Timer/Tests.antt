-- ===== src/Timer/Tests.antt =====
-- Timers on concrete schedules.
use hf_ip.Prelude.{Bool, List, [], arith, false, refl, some, true, ℕ, ◌∷◌, ◌≡◌, ◌≤◌, ◌⊎◌}
use hf_ip.Prelude.Int.{pos}
use hf_ip.Timer.{Timer, Timers, linger, tick_loop, timers_tick, user_timeout}
use hf_ip.Timer.Once.{Call, add, count_fired, fires_once, oneshot, release, round, run}
use hf_ip.Timer.Lifetime.{Passed, find, timers_tick-one}

abbrev no_timers : Timers
no_timers = record { timers = []; tick = 0; fresh = 1 }

abbrev free_locks : ℕ → Bool
free_locks i = false

-- Armed for tick 5 with a reference of its owner, and a timer that was cancelled and released.
abbrev waiting : Timer
waiting = record {
  id = 1;
  refcnt = pos 1;
  expires = 5;
  cancelled = false;
  handler = linger;
  arg = 3;
}

abbrev dead : Timer
dead = record waiting { id = 2; refcnt = pos 0; cancelled = true }

abbrev late : Timers
late = record { timers = waiting ∷ dead ∷ []; tick = 6; fresh = 3 }

-- The timer has fired, and stays until its owner lets go; the other one is freed.
late_tick :
    timers_tick free_locks late
    ≡ (record late { timers = record waiting { cancelled = true } ∷ [] }, (1, linger, 3) ∷ [])
unfolding timers_tick tick_loop
late_tick = refl

abbrev schedule : List Call
schedule =
    add 0 linger 3
    ∷ round free_locks
    ∷ round free_locks
    ∷ release 1
    ∷ round free_locks
    ∷ oneshot 9 user_timeout 3
    ∷ []

fires_once_example : count_fired 1 (run schedule no_timers).1 ≤ 1
fires_once_example = fires_once 1 schedule no_timers refl

timers_tick-one_example :
    let (w', fired) = timers_tick free_locks late in
    ((false ≡ true) × (count_fired 1 fired ≡ 0) × (find 1 w'.timers ≡ some waiting))
    ⊎ ((false ≡ false)
        × Passed late.tick waiting
        × (count_fired 1 fired ≡ 1)
        × (find 1 w'.timers ≡ some (record waiting { cancelled = true })))
    ⊎ ((false ≡ false)
        × (¬ Passed late.tick waiting)
        × (count_fired 1 fired ≡ 0)
        × (find 1 w'.timers ≡ some waiting))
timers_tick-one_example = timers_tick-one 1 free_locks late waiting (ground arith) refl
