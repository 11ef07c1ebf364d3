-- ===== src/Scheduler.antt =====
-- kernel/processes/scheduler.c: the run queue and the tick of the timer. A process is its address, 0 is
-- null, and the fields of processes are a function of it. The switch of the CPU's state is assembly; it
-- is the change of `current` here.
mod Tests
pub mod Pick
pub mod Tick
use mathlib.Core.Option
use acorn_os.Common.Int.{ℤ, pos, negsuc, ◌-ℤ◌}
use acorn_os.Common.{
  ℕ, zero, suc, ◌+◌, ◌-◌, ◌*◌, ◌/◌, ◌%◌, ◌^◌, ◌≤◌, ◌<◌, min, ◌≡◌, refl, sym, ap, ap₂, ◌∙◌, subst,
  ◌≢◌, ◌↔◌, ◌⊎◌, inl, inr, Bool, true, false, ◌&&◌, ◌||◌, not, Option, none, some, List, [], ◌∷◌,
  ◌++◌, map, append-nil, append_assoc, arith, ltb, leb, ◌==◌, if◌then◌else◌, ltb→lt, lt→ltb, leb→le,
  ==_iff, ==_refl, Bool-cases, Option-cases, length, get_elem?, get_or, set, take, drop, replicate,
  length-append, length-set, length-take, length-drop, length-replicate, take-append-drop,
  length-map, add32, sub32, add64, sub64, update,
}

-- `process_state_t`
pub data State : Type 0 where
  ready running blocked dead sleeping : State

-- The fields of `process_t` that the scheduler reads and writes
pub record Process : Type 0 where
  pub pid : ℕ
  pub state : State
  pub time_slice : ℤ
  pub ticks_remaining : ℤ
  pub next : ℕ
  pub wake_at_tick : ℕ

-- `process_table`, `current_process`, `run_queue_head` and `run_queue_tail`
pub record Sched : Type 0 where
  pub proc : ℕ → Process
  pub table : List ℕ
  pub current : ℕ
  pub head : ℕ
  pub tail : ℕ

abbrev pub max_processes : ℕ
max_processes = 16

abbrev pub is_ready : State → Bool
is_ready ready = true
is_ready running = false
is_ready blocked = false
is_ready sleeping = false
is_ready dead = false

abbrev pub is_running : State → Bool
is_running ready = false
is_running running = true
is_running blocked = false
is_running sleeping = false
is_running dead = false

abbrev pub is_sleeping : State → Bool
is_sleeping ready = false
is_sleeping running = false
is_sleeping blocked = false
is_sleeping sleeping = true
is_sleeping dead = false

abbrev pub is_positive : ℤ → Bool
is_positive (pos n) = ltb 0 n
is_positive (negsuc n) = false

abbrev pub set_state : (ℕ → Process) → ℕ → State → ℕ → Process
set_state proc p st = update proc p (record (proc p) { state = st })

abbrev pub set_next : (ℕ → Process) → ℕ → ℕ → ℕ → Process
set_next proc p q = update proc p (record (proc p) { next = q })

abbrev pub set_ticks : (ℕ → Process) → ℕ → ℤ → ℕ → Process
set_ticks proc p n = update proc p (record (proc p) { ticks_remaining = n })

unfoldable pub scheduler_init : Sched → Sched
scheduler_init s = record s { head = 0; tail = 0 }

-- `none` is the panic on a null process.
unfoldable pub scheduler_add : Sched → ℕ → Option Sched
scheduler_add s p =
    let proc = set_state s.proc p ready in
    if p == 0
    then none
    else if s.head == 0
    then some (record s { proc = set_next proc p p; head = p; tail = p })
    else some (record s { proc = set_next (set_next proc s.tail p) p s.head; tail = p })

-- The search of `scheduler_remove` for the node before `p`, of at most `n` nodes.
unfoldable pub splice : ℕ → Sched → ℕ → ℕ → ℕ → Sched
splice zero s p prev node = s
splice (suc n) s p prev node =
    let rest = splice n s p node (s.proc node).next in
    let after = (s.proc node).next in
    if node == p
    then record s {
      proc = set_next s.proc prev after;
      head = if s.head == p then after else s.head;
      tail = if s.tail == p then prev else s.tail;
    }
    else rest

unfoldable pub scheduler_remove : Sched → ℕ → Sched
scheduler_remove s p =
    if p == 0 || s.head == 0
    then s
    else if s.head == p && s.head == s.tail
    then record s { head = 0; tail = 0 }
    else splice max_processes s p s.tail s.head

-- One round of `scheduler_wake_sleepers`
unfoldable pub wake : ℕ → (ℕ → Process) → ℕ → ℕ → Process
wake now proc p =
    if not (p == 0) && is_sleeping (proc p).state && leb (proc p).wake_at_tick now
    then set_state proc p ready
    else proc

unfoldable pub wake_sleepers : ℕ → List ℕ → (ℕ → Process) → ℕ → Process
wake_sleepers now [] proc = proc
wake_sleepers now (p ∷ ps) proc = wake_sleepers now ps (wake now proc p)

abbrev pub is_runnable : (ℕ → Process) → ℕ → ℕ → Bool
is_runnable proc old new =
    is_ready (proc new).state || (is_running (proc new).state && not (new == old))

-- The walk of `scheduler_tick` over the queue, of at most `n` steps.
unfoldable pub pick : ℕ → (ℕ → Process) → ℕ → ℕ → ℕ
pick zero proc old new = new
pick (suc n) proc old new =
    let rest = pick n proc old (proc new).next in
    if is_runnable proc old new then new else if new == old then new else rest

-- The outgoing process is ready if it was running, and the incoming one runs.
unfoldable pub switch_to : Sched → ℕ → ℕ → Sched
switch_to s old new =
    let proc = set_ticks s.proc new (s.proc new).time_slice in
    let proc = if is_running (proc old).state then set_state proc old ready else proc in
    record s { proc = set_state proc new running; current = new }

-- `scheduler_tick` once the time slice is over, with the process that the walk picked.
unfoldable pub dispatch : Sched → ℕ → Sched
dispatch s new =
    let st = (s.proc new).state in
    let again = record s { proc = set_ticks s.proc s.current (s.proc s.current).time_slice } in
    if not (is_ready st) && not (is_running st)
    then again
    else if new == s.current
    then again
    else switch_to s s.current new

abbrev pub keeps_running : Process → Bool
keeps_running p = is_positive p.ticks_remaining && not (p.pid == 0) && is_running p.state

-- `now` is the timer's count. `none` is the panic on a null `next`.
unfoldable pub scheduler_tick : ℕ → Sched → Option Sched
scheduler_tick now s =
    let woken = record s { proc = wake_sleepers now s.table s.proc } in
    let old = s.current in
    let left = (woken.proc old).ticks_remaining -ℤ pos 1 in
    let ticked = record woken { proc = set_ticks woken.proc old left } in
    let first = (ticked.proc old).next in
    if old == 0 || s.head == 0
    then some woken
    else if keeps_running (ticked.proc old)
    then some ticked
    else if first == 0
    then none
    else some (dispatch ticked (pick max_processes ticked.proc old first))

unfoldable pub scheduler_yield : ℕ → Sched → Option Sched
scheduler_yield now s =
    if s.current == 0
    then some s
    else scheduler_tick now (record s { proc = set_ticks s.proc s.current (pos 0) })
