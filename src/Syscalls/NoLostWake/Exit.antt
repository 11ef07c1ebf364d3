-- ===== src/Syscalls/NoLostWake/Exit.antt =====
-- `sys_exit` and `reap` of a child, of kernel/processes.
use acorn_os.Heap.{kfree}
use acorn_os.Scheduler.{max_processes, set_state, scheduler_remove, dead, ready}
use acorn_os.Processes.{Kernel, process_exit, find_process, reap, reaped, is_blocked, is_dead}
use acorn_os.Syscalls.{wake_parent, sys_exit, returns, blocks, is_child, sys_wait, to_rax}
use acorn_os.Syscalls.NoLostWake.Table.{IsListed, OnePid}
use acorn_os.Syscalls.NoLostWake.Quiet.{IsQuiet, scheduler_remove-IsQuiet}
use acorn_os.Syscalls.NoLostWake.Parent.{
  IsSound, IsSound-quiet, wake_parent-PidsBelow, wake_parent_lem, woken, IsWaking, no_hit, state_at,
  state_else, pid_still, wake_parent-IsWaking,
}
use acorn_os.Vfs.Files.{to_int}
use acorn_os.Common.Int.{ℤ}
use acorn_os.Common.{
  none_is_not_some, some_injective, true_is_not_false, ℕ, zero, suc, ◌%◌, ◌^◌, ◌<◌, ◌≡◌, refl, sym,
  ap, ap₂, ◌∙◌, subst, ◌≢◌, ◌⊎◌, inl, inr, Bool, true, false, ◌&&◌, none, some, List, [], ◌∷◌,
  arith, ◌==◌, Bool-cases, Option-cases, get_or, set, update,
}

abbrev pub coded : Kernel → ℤ → Kernel
coded k code = record k {
  pcb = update k.pcb k.sched.current (record (k.pcb k.sched.current) { exit_code = code });
}

-- `sys_exit` before it looks for the parent
abbrev pub ended : Kernel → ℤ → Kernel
ended k code = record (coded k code) {
  sched = record k.sched { proc = set_state k.sched.proc k.sched.current dead };
}

pub parent_still :
    (k : Kernel) (code : ℤ) (p : ℕ) → ((coded k code).pcb p).parent_pid ≡ (k.pcb p).parent_pid
parent_still k code p = elim (Bool-cases (k.sched.current == p)) [
  | inl e ↦ rw e (ap (λ y. (k.pcb y).parent_pid) {x = k.sched.current} {y = p} (ground arith))
  | inr e ↦ rw e refl
]

pub ended-IsWaking :
    (k : Kernel) (code : ℤ)
    → IsWaking k
    → IsWaking (wake_parent (ended k code) ((ended k code).pcb k.sched.current).parent_pid)
ended-IsWaking k code (one, good) =
    let cur = k.sched.current in
    let pid = pid_still k.sched.proc cur in
    wake_parent-IsWaking (ended k code) cur
      (λ p q lp lq e. one p q lp lq (sym (pid p dead) ∙ e ∙ pid q dead))
      (λ p c lp lc positive child waits dies ne.
        let alive : p ≢ cur = λ e. true_is_not_false (
          sym waits
          ∙ ap (λ y. is_blocked (set_state k.sched.proc cur dead y).state) e
          ∙ ap is_blocked (state_at k.sched.proc cur dead)) in
        good p c lp lc (subst (λ n. 0 < n) (pid p dead) positive)
          (sym (parent_still k code c) ∙ child ∙ pid p dead)
          (ap is_blocked (sym (state_else k.sched.proc cur p dead alive)) ∙ waits)
          (ap is_dead (sym (state_else k.sched.proc cur c dead ne)) ∙ dies))

pub sys_exit_of_none :
    (k : Kernel) (rdi : ℕ) → (k.sched.current == 0) ≡ true → sys_exit k rdi ≡ none
unfolding sys_exit
sys_exit_of_none k rdi z = rw (z, sys_exit) refl

pub sys_exit_of_some :
    (k : Kernel) (rdi : ℕ)
    → (k.sched.current == 0) ≡ false
    → sys_exit k rdi
      ≡ some (
          wake_parent
            (ended k (to_int (rdi % 2 ^ 32)))
            ((ended k (to_int (rdi % 2 ^ 32))).pcb k.sched.current).parent_pid)
unfolding sys_exit process_exit
sys_exit_of_some k rdi z =
    rw (parent_still k (to_int (rdi % 2 ^ 32)) k.sched.current) (rw (z, sys_exit) refl)

pub sys_exit-IsSound : (k k' : Kernel) (rdi : ℕ) → sys_exit k rdi ≡ some k' → IsSound k → IsSound k'
sys_exit-IsSound k k' rdi e good = elim (Bool-cases (k.sched.current == 0)) [
  | inl z ↦ absurd (none_is_not_some k' (sym (sys_exit_of_none k rdi z) ∙ e))
  | inr nz ↦ subst IsSound (some_injective _ (sym (sys_exit_of_some k rdi nz) ∙ e)) (
    ended-IsWaking k (to_int (rdi % 2 ^ 32)) good.0,
    wake_parent-PidsBelow (ended k (to_int (rdi % 2 ^ 32)))
        ((ended k (to_int (rdi % 2 ^ 32))).pcb k.sched.current).parent_pid
        (λ p l. rw (pid_still k.sched.proc k.sched.current p dead) (good.1 p l)),
  )
]

get_or-set-cases :
    (xs : List ℕ) (i j : ℕ)
    → (get_or (set xs i 0) j 0 ≡ 0) ⊎ (get_or (set xs i 0) j 0 ≡ get_or xs j 0)
get_or-set-cases [] i j = inl refl
get_or-set-cases (x ∷ xs) zero zero = inl refl
get_or-set-cases (x ∷ xs) zero (suc j) = inr refl
get_or-set-cases (x ∷ xs) (suc i) zero = inr refl
get_or-set-cases (x ∷ xs) (suc i) (suc j) = get_or-set-cases xs i j

-- What is left of the table when a slot is cleared was in it before.
IsListed-set : (table : List ℕ) (slot p : ℕ) → IsListed (set table slot 0) p → IsListed table p
IsListed-set table slot p (i, l, at, nz) = elim (get_or-set-cases table slot i) [
  | inl z ↦ absurd (nz (sym at ∙ z))
  | inr same ↦ (i, l, sym same ∙ at, nz)
]

-- A reaped child leaves the table, and the other processes are as they were but for their links.
reap_lem :
    (k k' : Kernel) (slot : ℕ)
    → reap k slot ≡ some k'
    → (k'.sched.proc ≡ (scheduler_remove k.sched (get_or k.sched.table slot 0)).proc)
      × (k'.sched.table ≡ set (scheduler_remove k.sched (get_or k.sched.table slot 0)).table slot 0)
      × (k'.pcb ≡ k.pcb)
      × (k'.next_pid ≡ k.next_pid)
unfolding reap
reap_lem k k' slot e = elim (Option-cases (kfree k.heap (get_or k.sched.table slot 0))) [
  | inl h ↦ absurd (none_is_not_some k' (sym (rw (h, reap) refl) ∙ e))
  | inr (heap, h) ↦
      let is = some_injective (reaped k slot heap) (sym (rw (h, reap) refl) ∙ e) in
      (
        ap (λ x. x.sched.proc) (sym is),
        ap (λ x. x.sched.table) (sym is),
        ap (λ x. x.pcb) (sym is),
        ap (λ x. x.next_pid) (sym is),
      )
]

pub reap-IsSound : (k k' : Kernel) (slot : ℕ) → reap k slot ≡ some k' → IsSound k → IsSound k'
reap-IsSound k k' slot e good =
    let child = get_or k.sched.table slot 0 in
    let (procs, tables, pcbs, next) = reap_lem k k' slot e in
    let (quiet, same) = scheduler_remove-IsQuiet k.sched child in
    IsSound-quiet k k' good
      (λ p l.
        IsListed-set k.sched.table slot p
          (subst (λ t. IsListed t p) (tables ∙ ap (λ t. set t slot 0) same) l))
      (λ p. ap (λ f. (f p).parent_pid) pcbs) next (subst (IsQuiet k.sched.proc) (sym procs) quiet)

abbrev pub dead_child : Kernel → ℕ → Bool
dead_child k p = is_child k p && is_dead (k.sched.proc p).state

returns_is_not_blocks : (k x : Kernel) (rax : ℕ) → some (returns k rax) ≢ some (blocks x)
returns_is_not_blocks k x rax e =
    true_is_not_false (
      ap (λ o. elim o [ none ↦ true | some r ↦ elim r [ returns y n ↦ true | blocks y ↦ false ] ])
        e)

-- A round of `sys_wait` with a dead child does not block.
sys_wait-dead_child :
    (k x : Kernel) (c : ℕ)
    → IsListed k.sched.table c
    → dead_child k c ≡ true
    → sys_wait k ≢ some (blocks x)
unfolding sys_wait
sys_wait-dead_child k x c lc h =
    elim (Option-cases (find_process (dead_child k) max_processes 0 k.sched.table)) [
      | inl e ↦ absurd (true_is_not_false (sym h ∙ no_hit k (dead_child k) e c lc))
      | inr (slot, e) ↦ elim (Option-cases (reap k slot)) [
        | inl r ↦ rw (e, r, sys_wait) (none_is_not_some (blocks x))
        | inr (k', r) ↦
            rw (e, r, sys_wait)
              (returns_is_not_blocks k' x (to_rax (k.pcb (get_or k.sched.table slot 0)).exit_code))
      ]
    ]

both : {a b : Bool} → a ≡ true → b ≡ true → (a && b) ≡ true
both {a = a} {b = b} x y = ap₂ (λ u v. u && v) x y

equal : {a b : ℕ} → a ≡ b → (a == b) ≡ true
equal {a = a} {b = b} e = ground arith

abbrev pub run_by : Kernel → ℕ → Kernel
run_by k p = record k { sched = record k.sched { current = p } }

-- A child that exits makes its parent READY, if the parent waits; and when the parent then runs, its
-- next round of `sys_wait` does not block again.
pub sys_exit-wakes_parent :
    (k k' : Kernel) (rdi p : ℕ)
    → sys_exit k rdi ≡ some k'
    → OnePid k
    → IsListed k.sched.table k.sched.current
    → IsListed k.sched.table p
    → p ≢ k.sched.current
    → 0 < (k.sched.proc p).pid
    → (k.pcb k.sched.current).parent_pid ≡ (k.sched.proc p).pid
    → is_blocked (k.sched.proc p).state ≡ true
    → ((k'.sched.proc p).state ≡ ready) × ((x : Kernel) → sys_wait (run_by k' p) ≢ some (blocks x))
sys_exit-wakes_parent k k' rdi p e one lcur lp ne positive child waits =
    let code = to_int (rdi % 2 ^ 32) in
    let cur = k.sched.current in
    let k1 = ended k code in
    let pid = pid_still k.sched.proc cur in
    let (_, _, at, nz) = lcur in
    let parent = parent_still k code cur ∙ child in
    let ended_parent = parent ∙ sym (pid p dead) in
    let to : wake_parent k1 (k1.pcb cur).parent_pid ≡ woken k1 p =
      wake_parent_lem k1 (k1.pcb cur).parent_pid p
        (λ q r lq lr e. one q r lq lr (sym (pid q dead) ∙ e ∙ pid r dead)) lp
        (subst (λ n. 0 < n) (sym parent) positive) (sym ended_parent)
        (ap is_blocked (state_else k.sched.proc cur p dead ne) ∙ waits) in
    let is : k' ≡ woken k1 p =
      sym (
        some_injective (wake_parent k1 (k1.pcb cur).parent_pid)
          (sym (sys_exit_of_some k rdi (ground (arith, nz))) ∙ e))
      ∙ to in
    rw is (
      state_at k1.sched.proc p ready,
      λ x. sys_wait-dead_child (run_by (woken k1 p) p) x cur lcur (
          both (equal (ended_parent ∙ sym (pid_still k1.sched.proc p p ready))) (
            ap is_dead (
              state_else k1.sched.proc p cur ready (λ s. ne (sym s))
              ∙ state_at k.sched.proc cur dead))),
    )
