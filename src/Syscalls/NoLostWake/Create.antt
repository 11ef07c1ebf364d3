-- ===== src/Syscalls/NoLostWake/Create.antt =====
-- `process_create` and `process_fork` of kernel/processes/process.c in the table of processes.
use acorn_os.Heap.{Heap, kmalloc, kfree}
use acorn_os.Pmm.{pmm_alloc}
use acorn_os.Paging.{physical_to_virtual, paging_clone_directory}
use acorn_os.Paging.Copy.{paging_deep_copy_directory}
use acorn_os.Scheduler.{Process, Sched, ready, set_state, set_next, scheduler_add, max_processes}
use acorn_os.Processes.{
  Kernel, Pcb, sizeof_process, is_blocked, is_dead, install, free_slot, new_process, child_process,
  process_create, process_fork, forked, fork_into, without_stack,
}
use acorn_os.Syscalls.NoLostWake.Table.{IsListed}
use acorn_os.Syscalls.NoLostWake.Parent.{IsSound, IsSound-quiet, same_or_not}
use acorn_os.Syscalls.NoLostWake.Quiet.{IsQuiet, IsQuiet-trans, IsQuiet-set_ready, IsQuiet-set_next}
use acorn_os.Common.Int.{ℤ}
use acorn_os.Common.{
  true_is_not_false, IfSome, IfSome-bind, ℕ, zero, suc, ◌+◌, ◌^◌, ◌<◌, ◌≡◌, refl, sym, ap, ◌∙◌,
  subst, ◌≢◌, ◌⊎◌, inl, inr, false, Option, none, some, List, [], ◌∷◌, arith, ◌==◌, if◌then◌else◌,
  ==_refl, Bool-cases, get_or, set, update,
}

get_or-set :
    (xs : List ℕ) (i j v : ℕ)
    → (get_or (set xs i v) j 0 ≡ v) ⊎ (get_or (set xs i v) j 0 ≡ get_or xs j 0)
get_or-set [] i j v = inr refl
get_or-set (x ∷ xs) zero zero v = inl refl
get_or-set (x ∷ xs) zero (suc j) v = inr refl
get_or-set (x ∷ xs) (suc i) zero v = inr refl
get_or-set (x ∷ xs) (suc i) (suc j) v = get_or-set xs i j v

-- The table with a new process: it, or what was there
IsListed-install :
    (table : List ℕ) (slot p q : ℕ) → IsListed (set table slot p) q → (q ≡ p) ⊎ IsListed table q
IsListed-install table slot p q (i, l, at, nz) = elim (get_or-set table slot i p) [
  | inl new ↦ inl (sym at ∙ new)
  | inr old ↦ inr (i, l, sym old ∙ at, nz)
]

abbrev IfAdded : Sched → Option Sched → Type 0
IfAdded s none = Unit {0}
IfAdded s (some s') = IsQuiet s.proc s'.proc × (s'.table ≡ s.table)

scheduler_add-IfAdded : (s : Sched) (p : ℕ) → IfAdded s (scheduler_add s p)
unfolding scheduler_add
scheduler_add-IfAdded s p =
    let added = set_state s.proc p ready in
    let quiet = IsQuiet-set_ready s.proc p in
    elim (Bool-cases (p == 0)) [
      | inl z ↦ rw (z, scheduler_add) tt
      | inr nz ↦ elim (Bool-cases (s.head == 0)) [
        | inl h ↦
            rw (nz, h, scheduler_add)
              (
                IsQuiet-trans s.proc added (set_next added p p) quiet (IsQuiet-set_next added p p),
                refl,
              )
        | inr h ↦
            let one = set_next added s.tail p in
            rw (nz, h, scheduler_add)
              (
                IsQuiet-trans s.proc added (set_next one p s.head) quiet (
                    IsQuiet-trans added one (set_next one p s.head)
                      (IsQuiet-set_next added s.tail p) (IsQuiet-set_next one p s.head)),
                refl,
              )
      ]
    ]

update_at : {A : Type 0} → (f : ℕ → A) (p : ℕ) (v : A) → update f p v p ≡ v
update_at f p v = rw (==_refl p) refl

update_else : {A : Type 0} → (f : ℕ → A) (p : ℕ) (v : A) (q : ℕ) → q ≢ p → update f p v q ≡ f q
update_else f p v q ne = rw (differs p q ne) refl
  where
    differs : (p q : ℕ) → q ≢ p → (p == q) ≡ false
    differs p q ne = ground arith

-- A process that is made READY under the next PID, at an address that the table does not hold
IsSound-install :
    (k : Kernel) (slot p : ℕ) (process : Process) (pcb : Pcb)
    → IsSound k
    → (IsListed k.sched.table p → ⊥)
    → k.next_pid + 1 < 2 ^ 64
    → process.pid ≡ k.next_pid
    → process.state ≡ ready
    → IsSound (install k slot p process pcb)
unfolding install
IsSound-install k slot p process pcb ((one, good), below) fresh room pid is_ready =
    let old : (q : ℕ) → IsListed (set k.sched.table slot p) q → q ≢ p → IsListed k.sched.table q =
      λ q l ne. elim (IsListed-install k.sched.table slot p q l) [
        | inl e ↦ absurd (ne e)
        | inr o ↦ o
      ] in
    let new_pid : (q : ℕ) → q ≡ p → (update k.sched.proc p process q).pid ≡ k.next_pid = λ q e.
      ap (λ x. (update k.sched.proc p process x).pid) e
      ∙ ap (λ x. x.pid) (update_at k.sched.proc p process)
      ∙ pid in
    let old_pid : (q : ℕ) → q ≢ p → (update k.sched.proc p process q).pid ≡ (k.sched.proc q).pid =
      λ q ne. ap (λ x. x.pid) (update_else k.sched.proc p process q ne) in
    let new_state : (q : ℕ) → q ≡ p → (update k.sched.proc p process q).state ≡ ready = λ q e.
      ap (λ x. (update k.sched.proc p process x).state) e
      ∙ ap (λ x. x.state) (update_at k.sched.proc p process)
      ∙ is_ready in
    (
      (
        λ q r lq lr e. elim (same_or_not q p) [
          | inl a ↦ elim (same_or_not r p) [
            | inl b ↦ a ∙ sym b
            | inr b ↦
                let l = below r (old r lr b) in
                absurd (omega (arith, l, new_pid q a, old_pid r b, e))
          ]
          | inr a ↦ elim (same_or_not r p) [
            | inl b ↦
                let l = below q (old q lq a) in
                absurd (omega (arith, l, new_pid r b, old_pid q a, e))
            | inr b ↦ one q r (old q lq a) (old r lr b) (sym (old_pid q a) ∙ e ∙ old_pid r b)
          ]
        ],
        λ q c lq lc positive child waits dies. elim (same_or_not q p) [
          | inl a ↦ true_is_not_false (sym waits ∙ ap is_blocked (new_state q a))
          | inr a ↦ elim (same_or_not c p) [
            | inl b ↦ true_is_not_false (sym dies ∙ ap is_dead (new_state c b))
            | inr b ↦
                good q c (old q lq a) (old c lc b) (subst (λ n. 0 < n) (old_pid q a) positive)
                  (ap (λ x. x.parent_pid) (sym (update_else k.pcb p pcb c b)) ∙ child ∙ old_pid q a)
                  (ap (λ x. is_blocked x.state) (sym (update_else k.sched.proc p process q a))
                    ∙ waits)
                  (ap (λ x. is_dead x.state) (sym (update_else k.sched.proc p process c b)) ∙ dies)
          ]
        ],
      ),
      λ q lq. elim (same_or_not q p) [
        | inl a ↦ omega (arith, new_pid q a)
        | inr a ↦ let l = below q (old q lq a) in omega (arith, l, old_pid q a)
      ],
    )

-- The next process is at an address that the table does not hold, and the PIDs have room.
abbrev pub HasRoom : Kernel → Type 0
HasRoom k =
    (k.next_pid + 1 < 2 ^ 64)
    × ((b : ℕ × Heap) → kmalloc k.heap sizeof_process ≡ some b → IsListed k.sched.table b.0 → ⊥)

pub process_create-IsSound :
    (k : Kernel) (name : Option (List ℕ)) (entry flags : ℕ)
    → HasRoom k
    → IsSound k
    → IfSome (λ r. IsSound r.0) (process_create k name entry flags)
unfolding process_create
process_create-IsSound k name entry flags (room, fresh) good =
    let P : Kernel × ℕ → Type 0 = λ r. IsSound r.0 in
    IfSome-bind P name _ (λ n e1.
      IfSome-bind P (if entry == 0 then none else free_slot max_processes 0 k.sched.table) _
        (λ slot e2. IfSome-bind P (kmalloc k.heap sizeof_process) _ (λ block e3.
          IfSome-bind P (pmm_alloc k.memory.pmm) _ (λ page e4.
            IfSome-bind P (paging_clone_directory (record k.memory { pmm = page.1 })) _ (λ dir e5.
              IsSound-install _ slot block.0 (new_process k.next_pid) _ good (fresh block e3) room
                refl refl)))))

module _ (iret_to_usermode : ℕ) where
  fork_into-IsSound :
      (k : Kernel) (slot p stack : ℕ)
      → IsSound k
      → (IsListed k.sched.table p → ⊥)
      → k.next_pid + 1 < 2 ^ 64
      → IfSome (λ r. IsSound r.0) (fork_into iret_to_usermode k slot p stack)
  unfolding fork_into
  fork_into-IsSound k slot p stack good fresh room =
      let P : Kernel × ℤ → Type 0 = λ r. IsSound r.0 in
      IfSome-bind P (paging_deep_copy_directory k.memory (k.pcb k.sched.current).page_dir) _
        (λ dir e1.
          IfSome-bind P (scheduler_add (forked iret_to_usermode k slot p stack dir).sched p) _
            (λ sched e2.
              let made : IsSound (forked iret_to_usermode k slot p stack dir) =
                IsSound-install _ slot p
                  (child_process iret_to_usermode (k.sched.proc k.sched.current) k.next_pid) _ good
                  fresh room refl refl in
              let (quiet, same) =
                subst (IfAdded (forked iret_to_usermode k slot p stack dir).sched) e2
                  (scheduler_add-IfAdded (forked iret_to_usermode k slot p stack dir).sched p) in
              IsSound-quiet (forked iret_to_usermode k slot p stack dir)
                (record (forked iret_to_usermode k slot p stack dir) { sched = sched }) made
                (λ q l. subst (λ t. IsListed t q) same l) (λ q. refl) refl quiet))

  without_stack-IsSound :
      (k : Kernel) (p : ℕ)
      → k.next_pid + 1 < 2 ^ 64
      → IsSound k
      → IfSome (λ r. IsSound r.0) (without_stack iret_to_usermode k p)
  unfolding without_stack
  without_stack-IsSound k p room (waking, below) =
      IfSome-bind (λ r. IsSound r.0) (kfree k.heap p) _
        (λ heap e. (waking, λ q l. let b = below q l in omega (arith, b)))

  pub process_fork-IsSound :
      (k : Kernel)
      → HasRoom k
      → IsSound k
      → IfSome (λ r. IsSound r.0) (process_fork iret_to_usermode k)
  unfolding process_fork
  process_fork-IsSound k (room, fresh) good =
      let P : Kernel × ℤ → Type 0 = λ r. IsSound r.0 in
      IfSome-bind P (if k.sched.current == 0 then none else free_slot max_processes 0 k.sched.table)
        _
        (λ slot e1. IfSome-bind P (kmalloc k.heap sizeof_process) _ (λ block e2.
          IfSome-bind P (pmm_alloc k.memory.pmm) _ (λ page e3. elim (Bool-cases (page.0 == 0)) [
            | inl z ↦ rw z (
                without_stack-IsSound
                  (record k { heap = block.1; memory = record k.memory { pmm = page.1 } }) block.0
                  room good)
            | inr nz ↦ rw nz (
                fork_into-IsSound
                  (record k { heap = block.1; memory = record k.memory { pmm = page.1 } }) slot
                  block.0 (physical_to_virtual page.0) good (fresh block e2) room)
          ])))
