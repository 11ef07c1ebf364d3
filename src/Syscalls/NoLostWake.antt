-- ===== src/Syscalls/NoLostWake.antt =====
-- `sys_exit` and `sys_wait` of kernel/processes/syscall.c: a parent that waits is woken. What runs
-- under `cli` is one step here, so the sections of the processes interleave with the timer in any order.
pub mod Table
pub mod Quiet
pub mod Tick
pub mod Parent
pub mod Exit
pub mod Create
use acorn_os.Heap.{kfree}
use acorn_os.Scheduler.{
  State, Process, Sched, max_processes, set_state, scheduler_tick, scheduler_remove, blocked, dead,
  ready, sleeping,
}
use acorn_os.Processes.{
  process_create, process_fork, Kernel, Pcb, process_exit, process_wake, process_block,
  find_process, reap, reaped, is_blocked, is_dead,
}
use acorn_os.Syscalls.{
  wake_parent, sys_exit, Round, returns, blocks, is_child, sys_wait, sys_sleep, sleep_ticks,
  minus_one, to_rax,
}
use acorn_os.Syscalls.NoLostWake.Table.{
  IsListed, OnePid, NoLostWake, find_process-some, find_process-none,
}
use acorn_os.Syscalls.NoLostWake.Quiet.{
  IsQuiet, IsQuiet-refl, IsQuiet-update, IsQuiet-set_ready, scheduler_remove-IsQuiet,
}
use acorn_os.Syscalls.NoLostWake.Tick.{Follows, scheduler_tick-Follows}
use acorn_os.Syscalls.NoLostWake.Create.{HasRoom, process_create-IsSound, process_fork-IsSound}
use acorn_os.Syscalls.NoLostWake.Exit.{dead_child, sys_exit-IsSound, reap-IsSound}
use acorn_os.Syscalls.NoLostWake.Parent.{
  IsSound, IsSound-quiet, IsWaking, ForOthers, IsWaking-quiet, no_hit, state_at, state_else,
  pid_still, same_or_not, IsWaking-block, wake_parent_of_some, wake_parent-IsWaking, is_waiting,
}
use acorn_os.Vfs.Files.{to_int}
use acorn_os.Common.Int.{ℤ, pos, negsuc}
use acorn_os.Common.{
  IfSome, none_is_not_some, some_injective, true_is_not_false, ℕ, zero, suc, ◌+◌, ◌-◌, ◌*◌, ◌/◌,
  ◌%◌, ◌^◌, ◌≤◌, ◌<◌, min, ◌≡◌, refl, sym, ap, ap₂, ◌∙◌, subst, ◌≢◌, ◌↔◌, ◌⊎◌, inl, inr, Bool, true,
  false, ◌&&◌, ◌||◌, not, Option, none, some, List, [], ◌∷◌, ◌++◌, map, append-nil, append_assoc,
  arith, ltb, leb, ◌==◌, if◌then◌else◌, ltb→lt, lt→ltb, leb→le, ==_iff, ==_refl, Bool-cases,
  Option-cases, length, get_elem?, get_or, set, take, drop, replicate, length-append, length-set,
  length-take, length-drop, length-replicate, take-append-drop, length-map, add32, sub32, add64,
  sub64, update,
}

abbrev IfRound : Option Round → Type 0
IfRound none = Unit {0}
IfRound (some (returns k rax)) = IsSound k
IfRound (some (blocks k)) = IsSound k

-- A round of `sys_wait`: a child is reaped, or there is none, or no child is dead and the process
-- blocks.
sys_wait-IfRound : (k : Kernel) → k.sched.current ≢ 0 → IsSound k → IfRound (sys_wait k)
unfolding sys_wait process_block
sys_wait-IfRound k nz good =
    elim (Option-cases (find_process (dead_child k) max_processes 0 k.sched.table)) [
      | inr (slot, e) ↦ elim (Option-cases (reap k slot)) [
        | inl r ↦ rw (e, r, sys_wait) tt
        | inr (k', r) ↦ rw (e, r, sys_wait) (reap-IsSound k k' slot r good)
      ]
      | inl e ↦ elim (Option-cases (find_process (is_child k) max_processes 0 k.sched.table)) [
        | inl c ↦ rw (e, c, sys_wait) good
        | inr (slot, c) ↦
            rw (e, c, is_running_one k nz, sys_wait)
              (
                IsWaking-block k good.0 (λ p l. no_hit k (dead_child k) e p l),
                λ p l. rw (pid_still k.sched.proc k.sched.current p blocked) (good.1 p l),
              )
      ]
    ]
  where
    is_running_one : (k : Kernel) → k.sched.current ≢ 0 → (k.sched.current == 0) ≡ false
    is_running_one k nz = ground arith

abbrev sleeper : ℕ → Kernel → ℕ → Process
sleeper now k ms = record (k.sched.proc k.sched.current) {
  wake_at_tick = add32 now (sleep_ticks ms);
  state = sleeping;
}

abbrev asleep : ℕ → Kernel → ℕ → Kernel
asleep now k ms = record k {
  sched = record k.sched { proc = update k.sched.proc k.sched.current (sleeper now k ms) };
}

-- `sys_sleep` and `process_wake` are quiet.
sys_sleep-IsSound : (now : ℕ) (k : Kernel) (ms : ℕ) → IsSound k → IsSound (sys_sleep now k ms)
unfolding sys_sleep
sys_sleep-IsSound now k ms good = elim (Bool-cases (k.sched.current == 0)) [
  | inl z ↦ rw (z, sys_sleep) good
  | inr nz ↦
      rw (nz, sys_sleep)
        (IsSound-quiet k (asleep now k ms) good (λ q l. l) (λ q. refl) refl
          (IsQuiet-update k.sched.proc k.sched.current (sleeper now k ms) refl
            (λ h. absurd (true_is_not_false (sym h))) (λ h. absurd (true_is_not_false (sym h)))))
]

process_wake-IsSound : (k : Kernel) (p : ℕ) → IsSound k → IsSound (process_wake k p)
unfolding process_wake
process_wake-IsSound k p good =
    elim (Bool-cases (p == 0 || not (is_blocked (k.sched.proc p).state))) [
      | inl z ↦ rw (z, process_wake) good
      | inr nz ↦
          rw (nz, process_wake)
            (IsSound-quiet k
              (record k { sched = record k.sched { proc = set_state k.sched.proc p ready } }) good
              (λ q l. l) (λ q. refl) refl (IsQuiet-set_ready k.sched.proc p))
    ]

-- What the processes and the timer do, one section under `cli` or one interrupt at a time
pub data Step (k : Kernel) : Kernel → Type 0 where
  exits : {k' : Kernel} (code : ℕ) → sys_exit k code ≡ some k' → Step k k'
  waits : {k' : Kernel} → k.sched.current ≢ 0 → sys_wait k ≡ some (blocks k') → Step k k'
  reaps :
      {k' : Kernel} (rax : ℕ) → k.sched.current ≢ 0 → sys_wait k ≡ some (returns k' rax) → Step k k'
  sleeps : (now ms : ℕ) → Step k (sys_sleep now k ms)
  wakes : (p : ℕ) → Step k (process_wake k p)
  ticks :
      {s : Sched} (now : ℕ) → scheduler_tick now k.sched ≡ some s → Step k (record k { sched = s })
  creates :
      {r : Kernel × ℕ} (name : Option (List ℕ)) (entry flags : ℕ)
      → HasRoom k
      → process_create k name entry flags ≡ some r
      → Step k r.0
  forks :
      {r : Kernel × ℤ} (iret_to_usermode : ℕ)
      → HasRoom k
      → process_fork iret_to_usermode k ≡ some r
      → Step k r.0

pub data Steps (k : Kernel) : Kernel → Type 0 where
  done : Steps k k
  then_step : {k' k'' : Kernel} → Steps k k' → Step k' k'' → Steps k k''

Step-IsSound : (k k' : Kernel) → Step k k' → IsSound k → IsSound k'
Step-IsSound k k' (exits code e) good = sys_exit-IsSound k k' code e good
Step-IsSound k k' (waits nz e) good = subst IfRound e (sys_wait-IfRound k nz good)
Step-IsSound k k' (reaps rax nz e) good = subst IfRound e (sys_wait-IfRound k nz good)
Step-IsSound k _ (sleeps now ms) good = sys_sleep-IsSound now k ms good
Step-IsSound k _ (wakes p) good = process_wake-IsSound k p good
Step-IsSound k _ (ticks {s = s} now e) good =
    let (quiet, same) = scheduler_tick-Follows now k.sched s e in
    IsSound-quiet k (record k { sched = s }) good (λ p l. subst (λ t. IsListed t p) same l)
      (λ p. refl) refl quiet
Step-IsSound k _ (creates name entry flags room e) good =
    subst (IfSome (λ r. IsSound r.0)) e (process_create-IsSound k name entry flags room good)
Step-IsSound k _ (forks iret_to_usermode room e) good =
    subst (IfSome (λ r. IsSound r.0)) e (process_fork-IsSound iret_to_usermode k room good)

-- Whatever sections of `sys_exit`, `sys_wait` and `sys_sleep`, wake-ups, ticks of the timer, creations
-- and forks follow one another, where a new process is at an address outside the table and the PIDs do
-- not run out: if at first each process of the table has its own PID, all PIDs are below the next one,
-- and none is blocked while a child of its is dead, then so it is in the end. So no wake-up of a parent
-- by `sys_exit` is lost.
pub Steps-IsSound : (k k' : Kernel) → Steps k k' → IsSound k → IsSound k'
Steps-IsSound k _ done good = good
Steps-IsSound k k'' (then_step {k' = k'} steps step) good =
    Step-IsSound k' k'' step (Steps-IsSound k k' steps good)
