-- ===== src/Syscalls/NoLostWake/Table.antt =====
-- The process table of kernel/processes/process.c, and the searches in it.
use acorn_os.Scheduler.{max_processes}
use acorn_os.Processes.{Kernel, find_process, is_blocked, is_dead}
use acorn_os.Common.{
  some_injective, none_is_not_some, ℕ, zero, suc, ◌+◌, ◌≤◌, ◌<◌, ◌≡◌, refl, sym, ap, ◌∙◌, ◌≢◌, inl,
  inr, Bool, true, false, ◌&&◌, not, none, some, List, arith, ◌==◌, Bool-cases, get_or,
}

-- The process stands in the table.
abbrev pub IsListed : List ℕ → ℕ → Type 0
IsListed table p = (i : ℕ) × (i < max_processes) × (get_or table i 0 ≡ p) × (p ≢ 0)

-- Every process in the table has a PID of its own.
abbrev pub OnePid : Kernel → Type 0
OnePid k =
    (p q : ℕ)
    → IsListed k.sched.table p
    → IsListed k.sched.table q
    → (k.sched.proc p).pid ≡ (k.sched.proc q).pid
    → p ≡ q

-- PIDs are handed out in order.
abbrev pub PidsBelow : Kernel → Type 0
PidsBelow k = (p : ℕ) → IsListed k.sched.table p → (k.sched.proc p).pid < k.next_pid

-- A process that is blocked has no dead child that it does not know of.
abbrev pub NoLostWake : Kernel → Type 0
NoLostWake k =
    (p c : ℕ)
    → IsListed k.sched.table p
    → IsListed k.sched.table c
    → 0 < (k.sched.proc p).pid
    → (k.pcb c).parent_pid ≡ (k.sched.proc p).pid
    → is_blocked (k.sched.proc p).state ≡ true
    → is_dead (k.sched.proc c).state ≡ true
    → ⊥

abbrev hits : (ℕ → Bool) → List ℕ → ℕ → Bool
hits test table i = not (get_or table i 0 == 0) && test (get_or table i 0)

find_process_hit :
    (test : ℕ → Bool) (n i : ℕ) (table : List ℕ)
    → hits test table i ≡ true
    → find_process test (suc n) i table ≡ some i
unfolding find_process
find_process_hit test n i table h = rw h refl

find_process_miss :
    (test : ℕ → Bool) (n i : ℕ) (table : List ℕ)
    → hits test table i ≡ false
    → find_process test (suc n) i table ≡ find_process test n (i + 1) table
unfolding find_process
find_process_miss test n i table h = rw h refl

find_process_zero : (test : ℕ → Bool) (i : ℕ) (table : List ℕ) → find_process test 0 i table ≡ none
unfolding find_process
find_process_zero test i table = refl

-- A slot that is found has a process that passes the test ...
pub find_process-some :
    (test : ℕ → Bool) (n i slot : ℕ) (table : List ℕ)
    → find_process test n i table ≡ some slot
    → (slot < i + n) × (get_or table slot 0 ≢ 0) × (test (get_or table slot 0) ≡ true)
find_process-some test zero i slot table e =
    absurd (none_is_not_some slot (sym (find_process_zero test i table) ∙ e))
find_process-some test (suc n) i slot table e = elim (Bool-cases (hits test table i)) [
  | inl h ↦
      let s : i ≡ slot = some_injective i (sym (find_process_hit test n i table h) ∙ e) in
      rw (← s) (omega arith, ground arith, ground arith)
  | inr h ↦
      let (l, nz, t) =
        find_process-some test n (i + 1) slot table
          (sym (find_process_miss test n i table h) ∙ e) in
      (omega arith, nz, t)
]

-- ... and if none is found, no slot has one.
pub find_process-none :
    (test : ℕ → Bool) (n i : ℕ) (table : List ℕ)
    → find_process test n i table ≡ none
    → (j : ℕ) → i ≤ j
    → j < i + n
    → get_or table j 0 ≢ 0
    → test (get_or table j 0) ≡ false
find_process-none test zero i table e j l r nz = absurd (omega arith)
find_process-none test (suc n) i table e j l r nz = elim (Bool-cases (hits test table i)) [
  | inl h ↦ absurd (none_is_not_some i (sym e ∙ find_process_hit test n i table h))
  | inr h ↦ elim (Bool-cases (i == j)) [
    | inl s ↦
        let same : i ≡ j = ground arith in
        ap (λ k. test (get_or table k 0)) (sym same)
        ∙ ground (arith, nz, ap (λ k. get_or table k 0) same)
    | inr d ↦
        find_process-none test n (i + 1) table (sym (find_process_miss test n i table h) ∙ e) j
          (ground arith) (omega arith) nz
  ]
]
