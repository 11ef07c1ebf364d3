-- ===== src/Syscalls/NoLostWake/Tick.antt =====
-- A tick of kernel/processes/scheduler.c blocks no process and ends none.
use acorn_os.Scheduler.{
  ready, running, Sched, max_processes, set_state, set_ticks, is_running, is_ready, wake_sleepers,
  switch_to, dispatch, pick, scheduler_tick, keeps_running,
}
use acorn_os.Syscalls.NoLostWake.Quiet.{
  IsQuiet, IsQuiet-refl, IsQuiet-trans, IsQuiet-set_ticks, IsQuiet-set_ready, IsQuiet-set_running,
  IsQuiet-if, IsQuiet-wake_sleepers,
}
use acorn_os.Common.Int.{pos, ◌-ℤ◌}
use acorn_os.Common.{
  ℕ, ◌≡◌, refl, subst, inl, inr, Bool, true, false, ◌&&◌, ◌||◌, not, Option, none, some, ◌==◌,
  if◌then◌else◌, Bool-cases,
}

-- The table stays, and the change of the processes is quiet.
abbrev pub Follows : Sched → Sched → Type 0
Follows s s' = IsQuiet s.proc s'.proc × (s'.table ≡ s.table)

switch_to-Follows : (s : Sched) (old new : ℕ) → Follows s (switch_to s old new)
unfolding switch_to
switch_to-Follows s old new =
    let a = set_ticks s.proc new (s.proc new).time_slice in
    let b = if is_running (a old).state then set_state a old ready else a in
    (
      IsQuiet-trans s.proc a (set_state b new running)
          (IsQuiet-set_ticks s.proc new (s.proc new).time_slice)
          (IsQuiet-trans a b (set_state b new running)
            (IsQuiet-if (is_running (a old).state) a (set_state a old ready) a
              (IsQuiet-set_ready a old) (IsQuiet-refl a))
            (IsQuiet-set_running b new)),
      refl,
    )

dispatch-Follows : (s : Sched) (new : ℕ) → Follows s (dispatch s new)
unfolding dispatch
dispatch-Follows s new =
    elim (Bool-cases (not (is_ready (s.proc new).state) && not (is_running (s.proc new).state))) [
      | inl e ↦ rw e (IsQuiet-set_ticks s.proc s.current (s.proc s.current).time_slice, refl)
      | inr e ↦ elim (Bool-cases (new == s.current)) [
        | inl c ↦ rw (e, c) (IsQuiet-set_ticks s.proc s.current (s.proc s.current).time_slice, refl)
        | inr c ↦ rw (e, c) (switch_to-Follows s s.current new)
      ]
    ]

abbrev IfSome : Sched → Option Sched → Type 0
IfSome s none = Unit {0}
IfSome s (some s') = Follows s s'

IfSome-if :
    (a b c : Bool) (s x y z : Sched)
    → Follows s x
    → Follows s y
    → Follows s z
    → IfSome s (if a then some x else if b then some y else if c then none else some z)
IfSome-if true b c s x y z hx hy hz = hx
IfSome-if false true c s x y z hx hy hz = hy
IfSome-if false false true s x y z hx hy hz = tt
IfSome-if false false false s x y z hx hy hz = hz

scheduler_tick-IfSome : (now : ℕ) (s : Sched) → IfSome s (scheduler_tick now s)
unfolding scheduler_tick
scheduler_tick-IfSome now s =
    let woken : Sched = record s { proc = wake_sleepers now s.table s.proc } in
    let left = (woken.proc s.current).ticks_remaining -ℤ pos 1 in
    let ticked : Sched = record woken { proc = set_ticks woken.proc s.current left } in
    let first = (ticked.proc s.current).next in
    let new = pick max_processes ticked.proc s.current first in
    let hw = IsQuiet-wake_sleepers now s.table s.proc in
    let ht =
      IsQuiet-trans s.proc woken.proc ticked.proc hw
        (IsQuiet-set_ticks woken.proc s.current left) in
    let (hd, same) = dispatch-Follows ticked new in
    IfSome-if (s.current == 0 || s.head == 0) (keeps_running (ticked.proc s.current)) (first == 0) s
      woken ticked (dispatch ticked new) (hw, refl) (ht, refl)
      (IsQuiet-trans s.proc ticked.proc (dispatch ticked new).proc ht hd, same)

pub scheduler_tick-Follows :
    (now : ℕ) (s s' : Sched) → scheduler_tick now s ≡ some s' → Follows s s'
scheduler_tick-Follows now s s' e = subst (IfSome s) e (scheduler_tick-IfSome now s)
