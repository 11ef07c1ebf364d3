-- ===== src/Scheduler/Tests.antt =====
-- A queue of three processes, and the theorems on the scheduler at it.
use acorn_os.Common.Int.{pos}
use acorn_os.Scheduler.{ready, running, Process, Sched, is_runnable, pick, scheduler_tick}
use acorn_os.Scheduler.Pick.{along, Skips, pick_lem}
use acorn_os.Scheduler.Tick.{IsExclusive, Leaves, scheduler_tick-IsExclusive}
use acorn_os.Common.{ℕ, ◌+◌, ◌≤◌, ◌<◌, ◌≡◌, ◌⊎◌, true, [], ◌∷◌, arith, ◌==◌, if◌then◌else◌}

abbrev processes : ℕ → Process
processes p = record {
  pid = p;
  state = if p == 1 then running else ready;
  time_slice = pos 10;
  ticks_remaining = pos 1;
  next = if p == 3 then 1 else p + 1;
  wake_at_tick = 0;
}

abbrev queue : Sched
queue = record { proc = processes; table = 1 ∷ 2 ∷ 3 ∷ []; current = 1; head = 1; tail = 3 }

queue-IsExclusive : IsExclusive processes 1
queue-IsExclusive p r = ground arith

pick_lem_example :
    (k : ℕ) × (k ≤ 16)
    × (pick 16 processes 1 2 ≡ along processes k 2)
    × ((j : ℕ) → j < k → Skips processes 1 (along processes j 2))
    × ((is_runnable processes 1 (along processes k 2) ≡ true)
        ⊎ ((along processes k 2 ≡ 1) ⊎ (k ≡ 16)))
pick_lem_example = pick_lem 16 processes 1 2

scheduler_tick-IsExclusive_example : Leaves (scheduler_tick 5 queue)
scheduler_tick-IsExclusive_example = scheduler_tick-IsExclusive 5 queue queue-IsExclusive
