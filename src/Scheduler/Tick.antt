-- ===== src/Scheduler/Tick.antt =====
-- The states of processes around `scheduler_tick` of kernel/processes/scheduler.c.
use acorn_os.Common.Int.{ℤ, pos, ◌-ℤ◌}
use acorn_os.Scheduler.{
  ready, running, Process, Sched, is_ready, is_running, set_state, set_ticks, wake, wake_sleepers,
  pick, switch_to, dispatch, keeps_running, max_processes, scheduler_tick,
}
use acorn_os.Common.{
  ℕ, ◌≡◌, sym, ap, ◌∙◌, inl, inr, Bool, true, false, ◌&&◌, ◌||◌, not, Option, none, some, List, [],
  ◌∷◌, arith, ◌==◌, if◌then◌else◌, Bool-cases,
}

-- No process but the current one has the state RUNNING.
abbrev pub IsExclusive : (ℕ → Process) → ℕ → Type 0
IsExclusive proc current = (p : ℕ) → is_running (proc p).state ≡ true → p ≡ current

set_ready-running :
    (proc : ℕ → Process) (q p : ℕ)
    → is_running (set_state proc q ready p).state ≡ true
    → is_running (proc p).state ≡ true
set_ready-running proc q p h = ground arith

set_ticks-state :
    (proc : ℕ → Process) (q p : ℕ) (n : ℤ) → (set_ticks proc q n p).state ≡ (proc p).state
set_ticks-state proc q p n = ground arith

wake-running :
    (now : ℕ) (proc : ℕ → Process) (q p : ℕ)
    → is_running (wake now proc q p).state ≡ true
    → is_running (proc p).state ≡ true
unfolding wake
wake-running now proc q p h = ground (arith, set_ready-running proc q p)

wake_sleepers-running :
    (now : ℕ) (ps : List ℕ) (proc : ℕ → Process) (p : ℕ)
    → is_running (wake_sleepers now ps proc p).state ≡ true
    → is_running (proc p).state ≡ true
unfolding wake_sleepers
wake_sleepers-running now [] proc p h = h
wake_sleepers-running now (q ∷ ps) proc p h =
    wake-running now proc q p (wake_sleepers-running now ps (wake now proc q) p h)

-- Behind a switch from the running process nothing but the new one runs.
switch-others :
    (proc : ℕ → Process) (old new p : ℕ)
    → (is_running (proc p).state ≡ true → p ≡ old)
    → is_running
        (set_state
          (if is_running (proc old).state then set_state proc old ready else proc)
          new
          running
          p).state
      ≡ true
    → p ≡ new
switch-others proc old new p h r = elim (Bool-cases (is_running (proc old).state)) [
  | inl e ↦ elim (Bool-cases (new == p)) [
    | inl a ↦ ground arith
    | inr a ↦ elim (Bool-cases (old == p)) [
      | inl b ↦ absurd (ground arith)
      | inr b ↦ absurd (ground arith)
    ]
  ]
  | inr e ↦ elim (Bool-cases (new == p)) [ inl a ↦ ground arith | inr a ↦ absurd (ground arith) ]
]

switch_to-IsExclusive :
    (s : Sched) (new : ℕ)
    → IsExclusive s.proc s.current
    → IsExclusive (switch_to s s.current new).proc (switch_to s s.current new).current
unfolding switch_to
switch_to-IsExclusive s new h p r =
    let proc = set_ticks s.proc new (s.proc new).time_slice in
    switch-others proc s.current new p
      (λ e. h p (ap is_running (sym (set_ticks-state s.proc new p (s.proc new).time_slice)) ∙ e)) r

dispatch-IsExclusive :
    (s : Sched) (new : ℕ)
    → IsExclusive s.proc s.current
    → IsExclusive (dispatch s new).proc (dispatch s new).current
unfolding dispatch
dispatch-IsExclusive s new h =
    elim (Bool-cases (not (is_ready (s.proc new).state) && not (is_running (s.proc new).state))) [
      | inl e ↦ rw e (again s h)
      | inr e ↦ elim (Bool-cases (new == s.current)) [
        | inl c ↦ rw (e, c) (again s h)
        | inr c ↦ rw (e, c) (switch_to-IsExclusive s new h)
      ]
    ]
  where
    again :
        (s : Sched)
        → IsExclusive s.proc s.current
        → IsExclusive (set_ticks s.proc s.current (s.proc s.current).time_slice) s.current
    again s h p r =
        h p (
          ap is_running (sym (set_ticks-state s.proc s.current p (s.proc s.current).time_slice))
          ∙ r)

-- What holds of the outcome of a tick that does not panic.
abbrev pub Leaves : Option Sched → Type 0
Leaves none = Unit {0}
Leaves (some s) = IsExclusive s.proc s.current

Leaves-if :
    (a b c : Bool) (x y z : Sched)
    → IsExclusive x.proc x.current
    → IsExclusive y.proc y.current
    → IsExclusive z.proc z.current
    → Leaves (if a then some x else if b then some y else if c then none else some z)
Leaves-if true b c x y z hx hy hz = hx
Leaves-if false true c x y z hx hy hz = hy
Leaves-if false false true x y z hx hy hz = tt
Leaves-if false false false x y z hx hy hz = hz

-- Where no process but the current one is RUNNING, that holds after `scheduler_tick` too, whether it
-- goes on with the process, finds no other, or switches; unless it panics on a null `next`.
pub scheduler_tick-IsExclusive :
    (now : ℕ) (s : Sched) → IsExclusive s.proc s.current → Leaves (scheduler_tick now s)
unfolding scheduler_tick
scheduler_tick-IsExclusive now s h =
    let woken : Sched = record s { proc = wake_sleepers now s.table s.proc } in
    let left = (woken.proc s.current).ticks_remaining -ℤ pos 1 in
    let ticked : Sched = record woken { proc = set_ticks woken.proc s.current left } in
    let first = (ticked.proc s.current).next in
    let hw : IsExclusive woken.proc s.current =
      λ p r. h p (wake_sleepers-running now s.table s.proc p r) in
    let ht : IsExclusive ticked.proc s.current =
      λ p r. hw p (ap is_running (sym (set_ticks-state woken.proc s.current p left)) ∙ r) in
    let new = pick max_processes ticked.proc s.current first in
    Leaves-if (s.current == 0 || s.head == 0) (keeps_running (ticked.proc s.current)) (first == 0)
      woken ticked (dispatch ticked new) hw ht (dispatch-IsExclusive ticked new ht)
