-- ===== src/Syscalls/NoLostWake/Parent.antt =====
-- The block of `sys_wait` and the wake-up of `sys_exit` of kernel/processes/syscall.c, each on its own.
use acorn_os.Scheduler.{State, Process, max_processes, set_state, blocked, ready}
use acorn_os.Processes.{Kernel, process_wake, find_process, is_blocked, is_dead}
use acorn_os.Syscalls.{wake_parent, is_child}
use acorn_os.Syscalls.NoLostWake.Table.{
  IsListed, OnePid, NoLostWake, PidsBelow, find_process-some, find_process-none,
}
use acorn_os.Syscalls.NoLostWake.Quiet.{IsQuiet, IsQuiet-set_ready}
use acorn_os.Common.{
  true_is_not_false, ℕ, ◌<◌, ◌≡◌, refl, sym, ap, ◌∙◌, subst, ◌≢◌, ◌⊎◌, inl, inr, Bool, true, false,
  ◌&&◌, none, some, arith, ◌==◌, ==_refl, Bool-cases, Option-cases, get_or,
}

-- Each process in the table has a PID of its own, and none is blocked while a child of its is dead.
abbrev pub IsWaking : Kernel → Type 0
IsWaking k = OnePid k × NoLostWake k

-- A quiet change that puts no process into the table keeps it so.
pub IsWaking-quiet :
    (k k' : Kernel)
    → IsWaking k
    → ((p : ℕ) → IsListed k'.sched.table p → IsListed k.sched.table p)
    → ((p : ℕ) → (k'.pcb p).parent_pid ≡ (k.pcb p).parent_pid)
    → IsQuiet k.sched.proc k'.sched.proc
    → IsWaking k'
IsWaking-quiet k k' (one, good) listed parents quiet = (
  λ p q lp lq e.
      one p q (listed p lp) (listed q lq) (sym (quiet.same_pid p) ∙ e ∙ quiet.same_pid q),
  λ p c lp lc positive child waits dies.
      good p c (listed p lp) (listed c lc) (subst (λ n. 0 < n) (quiet.same_pid p) positive)
        (sym (parents c) ∙ child ∙ quiet.same_pid p) (quiet.was_blocked p waits)
        (quiet.was_dead c dies),
)

-- Each process of the table has its own PID, all PIDs are below the next one, and none is blocked
-- while a child of its is dead.
abbrev pub IsSound : Kernel → Type 0
IsSound k = IsWaking k × PidsBelow k

-- A quiet change that puts no process into the table keeps it so.
pub IsSound-quiet :
    (k k' : Kernel)
    → IsSound k
    → ((p : ℕ) → IsListed k'.sched.table p → IsListed k.sched.table p)
    → ((p : ℕ) → (k'.pcb p).parent_pid ≡ (k.pcb p).parent_pid)
    → k'.next_pid ≡ k.next_pid
    → IsQuiet k.sched.proc k'.sched.proc
    → IsSound k'
IsSound-quiet k k' (waking, below) listed parents next quiet = (
  IsWaking-quiet k k' waking listed parents quiet,
  λ p lp. rw (quiet.same_pid p, next) (below p (listed p lp)),
)

-- Without a hit no process of the table passes the test.
pub no_hit :
    (k : Kernel) (test : ℕ → Bool)
    → find_process test max_processes 0 k.sched.table ≡ none
    → (p : ℕ) → IsListed k.sched.table p
    → test p ≡ false
no_hit k test e p (i, l, at, nz) =
    ap test (sym at)
    ∙ find_process-none test max_processes 0 k.sched.table e i (omega arith) (omega arith)
        (λ z. nz (sym at ∙ z))

pub state_at : (proc : ℕ → Process) (x : ℕ) (st : State) → (set_state proc x st x).state ≡ st
state_at proc x st = rw (==_refl x) refl

pub state_else :
    (proc : ℕ → Process) (x p : ℕ) (st : State)
    → p ≢ x
    → (set_state proc x st p).state ≡ (proc p).state
state_else proc x p st ne = rw (differs x p ne) refl
  where
    differs : (x p : ℕ) → p ≢ x → (x == p) ≡ false
    differs x p ne = ground arith

pub pid_still :
    (proc : ℕ → Process) (x p : ℕ) (st : State) → (set_state proc x st p).pid ≡ (proc p).pid
pid_still proc x p st = elim (Bool-cases (x == p)) [
  | inl e ↦ rw e (ap (λ y. (proc y).pid) {x = x} {y = p} (ground arith))
  | inr e ↦ rw e refl
]

pub same_or_not : (p x : ℕ) → (p ≡ x) ⊎ (p ≢ x)
same_or_not p x = elim (Bool-cases (p == x)) [
  | inl e ↦ inl (ground arith)
  | inr e ↦ inr (ground arith)
]

-- `process_block` of a process none of whose children is dead
pub IsWaking-block :
    (k : Kernel)
    → IsWaking k
    → ((c : ℕ)
        → IsListed k.sched.table c
        → (is_child k c && is_dead (k.sched.proc c).state) ≡ false)
    → IsWaking (record k {
      sched = record k.sched { proc = set_state k.sched.proc k.sched.current blocked };
    })
IsWaking-block k (one, good) none_dead =
    let cur = k.sched.current in
    let pid = pid_still k.sched.proc cur in
    (
      λ p q lp lq e. one p q lp lq (sym (pid p blocked) ∙ e ∙ pid q blocked),
      λ p c lp lc positive child waits dies.
          let alive : c ≢ cur = λ e. true_is_not_false (
            sym dies
            ∙ ap (λ y. is_dead (set_state k.sched.proc cur blocked y).state) e
            ∙ ap is_dead (state_at k.sched.proc cur blocked)) in
          let was_dead = ap is_dead (sym (state_else k.sched.proc cur c blocked alive)) ∙ dies in
          let parent = child ∙ pid p blocked in
          elim (same_or_not p cur) [
            | inl e ↦
                let q = parent ∙ ap (λ y. (k.sched.proc y).pid) e in
                absurd (ground (arith, none_dead c lc, q, was_dead))
            | inr ne ↦
                good p c lp lc (subst (λ n. 0 < n) (pid p blocked) positive) parent
                  (ap is_blocked (sym (state_else k.sched.proc cur p blocked ne)) ∙ waits) was_dead
          ],
    )

-- As `NoLostWake`, but for the children other than `x`
abbrev pub ForOthers : ℕ → Kernel → Type 0
ForOthers x k =
    (p c : ℕ)
    → IsListed k.sched.table p
    → IsListed k.sched.table c
    → 0 < (k.sched.proc p).pid
    → (k.pcb c).parent_pid ≡ (k.sched.proc p).pid
    → is_blocked (k.sched.proc p).state ≡ true
    → is_dead (k.sched.proc c).state ≡ true
    → c ≢ x
    → ⊥

-- Once the parent of `x` cannot be blocked, `x` need not be left out.
IsWaking-others :
    (k : Kernel) (x : ℕ)
    → OnePid k
    → ForOthers x k
    → ((p : ℕ)
        → IsListed k.sched.table p
        → 0 < (k.sched.proc p).pid
        → (k.pcb x).parent_pid ≡ (k.sched.proc p).pid
        → is_blocked (k.sched.proc p).state ≡ true
        → ⊥)
    → IsWaking k
IsWaking-others k x one others own = (
  one,
  λ p c lp lc positive child waits dies. elim (same_or_not c x) [
    | inl e ↦ own p lp positive (ap (λ y. (k.pcb y).parent_pid) (sym e) ∙ child) waits
    | inr ne ↦ others p c lp lc positive child waits dies ne
  ],
)

abbrev pub woken : Kernel → ℕ → Kernel
woken k q = record k { sched = record k.sched { proc = set_state k.sched.proc q ready } }

IsWaking-woken :
    (k : Kernel) (x q : ℕ)
    → OnePid k
    → ForOthers x k
    → IsListed k.sched.table q
    → (k.sched.proc q).pid ≡ (k.pcb x).parent_pid
    → IsWaking (woken k q)
IsWaking-woken k x q one others lq parent =
    let quiet = IsQuiet-set_ready k.sched.proc q in
    IsWaking-others (woken k q) x
      (λ p r lp lr e. one p r lp lr (sym (quiet.same_pid p) ∙ e ∙ quiet.same_pid r))
      (λ p c lp lc positive child waits dies ne.
        others p c lp lc (subst (λ n. 0 < n) (quiet.same_pid p) positive) (child ∙ quiet.same_pid p)
          (quiet.was_blocked p waits) (quiet.was_dead c dies) ne)
      (λ p lp positive child waits.
        let is_q = one p q lp lq (sym (quiet.same_pid p) ∙ sym child ∙ sym parent) in
        true_is_not_false (
          sym waits
          ∙ ap (λ y. is_blocked (set_state k.sched.proc q ready y).state) is_q
          ∙ ap is_blocked (state_at k.sched.proc q ready)))

abbrev pub is_waiting : Kernel → ℕ → ℕ → Bool
is_waiting k pid p = (k.sched.proc p).pid == pid && is_blocked (k.sched.proc p).state

pub wake_parent_of_none :
    (k : Kernel) (pid : ℕ)
    → (pid == 0) ≡ false
    → find_process (is_waiting k pid) max_processes 0 k.sched.table ≡ none
    → wake_parent k pid ≡ k
unfolding wake_parent
wake_parent_of_none k pid nz e = rw (nz, e, wake_parent) refl

-- A hit of the search for the parent is woken.
pub wake_parent_of_some :
    (k : Kernel) (pid slot : ℕ)
    → (pid == 0) ≡ false
    → find_process (is_waiting k pid) max_processes 0 k.sched.table ≡ some slot
    → (wake_parent k pid ≡ woken k (get_or k.sched.table slot 0))
      × IsListed k.sched.table (get_or k.sched.table slot 0)
      × ((k.sched.proc (get_or k.sched.table slot 0)).pid ≡ pid)
unfolding wake_parent process_wake
wake_parent_of_some k pid slot nz e =
    let q = get_or k.sched.table slot 0 in
    let (l, ne, hit) = find_process-some (is_waiting k pid) max_processes 0 slot k.sched.table e in
    let zero_test : (q == 0) ≡ false = ground (arith, ne) in
    let waits : is_blocked (k.sched.proc q).state ≡ true = ground (arith, hit) in
    (rw (nz, e, wake_parent, zero_test, waits) refl, (slot, l, refl, ne), ground (arith, hit))

pub wake_parent-IsWaking :
    (k : Kernel) (x : ℕ) → OnePid k → ForOthers x k → IsWaking (wake_parent k (k.pcb x).parent_pid)
unfolding wake_parent
wake_parent-IsWaking k x one others =
    let pid = (k.pcb x).parent_pid in
    elim (Bool-cases (pid == 0)) [
      | inl z ↦
          rw z (IsWaking-others k x one others (λ p lp positive child waits. absurd (ground arith)))
      | inr nz ↦
          elim (Option-cases (find_process (is_waiting k pid) max_processes 0 k.sched.table)) [
            | inl e ↦ subst IsWaking (sym (wake_parent_of_none k pid nz e)) (
                IsWaking-others k x one others (λ p lp positive child waits.
                  true_is_not_false
                    (sym (ground (arith, child, waits)) ∙ no_hit k (is_waiting k pid) e p lp)))
            | inr (slot, e) ↦
                let (is, lq, parent) = wake_parent_of_some k pid slot nz e in
                subst IsWaking (sym is)
                  (IsWaking-woken k x (get_or k.sched.table slot 0) one others lq parent)
          ]
    ]

-- The parent of the PID, if it is in the table and blocked, is the one that is woken.
pub wake_parent_lem :
    (k : Kernel) (pid p : ℕ)
    → OnePid k
    → IsListed k.sched.table p
    → 0 < pid
    → (k.sched.proc p).pid ≡ pid
    → is_blocked (k.sched.proc p).state ≡ true
    → wake_parent k pid ≡ woken k p
wake_parent_lem k pid p one lp positive is waits =
    let nz : (pid == 0) ≡ false = ground arith in
    elim (Option-cases (find_process (is_waiting k pid) max_processes 0 k.sched.table)) [
      | inl e ↦
          absurd (
            true_is_not_false
              (sym (ground (arith, is, waits)) ∙ no_hit k (is_waiting k pid) e p lp))
      | inr (slot, e) ↦
          let (to, lq, found) = wake_parent_of_some k pid slot nz e in
          to ∙ ap (woken k) (one (get_or k.sched.table slot 0) p lq lp (found ∙ sym is))
    ]

pub wake_parent-PidsBelow : (k : Kernel) (pid : ℕ) → PidsBelow k → PidsBelow (wake_parent k pid)
unfolding wake_parent
wake_parent-PidsBelow k pid below = elim (Bool-cases (pid == 0)) [
  | inl z ↦ rw (z, wake_parent) below
  | inr nz ↦ elim (Option-cases (find_process (is_waiting k pid) max_processes 0 k.sched.table)) [
    | inl e ↦ subst PidsBelow (sym (wake_parent_of_none k pid nz e)) below
    | inr (slot, e) ↦
        let q = get_or k.sched.table slot 0 in
        let (is, lq, parent) = wake_parent_of_some k pid slot nz e in
        subst PidsBelow (sym is) (λ p l. rw (pid_still k.sched.proc q p ready) (below p l))
  ]
]
