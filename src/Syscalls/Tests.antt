-- ===== src/Syscalls/Tests.antt =====
-- A parent that waits and a child that runs, and the theorems on the system calls at them.
use acorn_os.Pmm.{Pmm, pmm_alloc, alloc_from, bitmap_test, reserve_page, bitmap_set}
use acorn_os.Pmm.Bits.{HasBytes}
use acorn_os.Paging.{Memory, zero_entry, frame_of}
use acorn_os.Paging.Tree.{IsTree, Spare, another, enough}
use acorn_os.Scheduler.{ready, sleeping, dead, running, blocked, Process, set_state}
use acorn_os.Processes.{Kernel, Pcb, zero_pcb, is_dead, process_exit, find_process, process_wake}
use acorn_os.Syscalls.{page_up, sys_sleep, sys_exit, sys_wait, blocks, wake_parent, sys_heap_grow}
use acorn_os.Syscalls.Grow.{four_each, IsRange, sys_heap_grow_lem}
use acorn_os.Syscalls.Sleep.{sweeps, sys_sleep_wakes}
use acorn_os.Syscalls.NoLostWake.{exits, done, then_step, Steps-IsSound}
use acorn_os.Syscalls.NoLostWake.Table.{IsListed, OnePid}
use acorn_os.Syscalls.NoLostWake.Parent.{IsSound}
use acorn_os.Syscalls.NoLostWake.Exit.{sys_exit-wakes_parent, run_by}
use acorn_os.Common.Int.{pos}
use acorn_os.Common.{
  leb, if◌then◌else◌, ◌*◌, true_is_not_false, none_is_not_some, ℕ, zero, suc, ◌+◌, ◌≡◌, refl, sym,
  ap, ◌∙◌, ◌≢◌, ◌⊎◌, inl, inr, true, false, Option, none, some, List, [], ◌∷◌, arith, ltb, ◌==◌,
  Bool-cases, update,
}

abbrev pages : Pmm
pages = record {
  bitmap = λ i. if ltb i 2 then 255 else if i == 2 then 1 else 0;
  total_pages = 24;
  used_pages = 17;
}

abbrev memory : Memory
memory = record { pmm = pages; kernel_pml4 = 0; entry = λ t i. zero_entry; byte = λ f i. 0 }

abbrev directory : ℕ
directory = 0xFFFF800000010000

abbrev place : ℕ → Option (List ℕ)
place t = if t == 16 then some [] else none

absent_place : (t : ℕ) (path : List ℕ) → (t == 16) ≡ false → place t ≢ some path
absent_place t path d e = none_is_not_some path (sym (rw d refl) ∙ e)

pages-HasBytes : HasBytes pages
pages-HasBytes i = ground arith

memory-IsTree : IsTree place (frame_of directory) memory
unfolding bitmap_test
memory-IsTree = record {
  at_root = refl;
  below = λ t i path at short low pr. absurd (true_is_not_false (sym pr));
  in_use = λ t path at. elim (Bool-cases (t == 16)) [
    | inl s ↦ ap (bitmap_test pages) {x = t} {y = 16} (ground arith)
    | inr d ↦ absurd (absent_place t path d at)
  ];
  bytes = pages-HasBytes;
  few_pages = omega arith;
}

-- The parent, at 100, has PID 1 and is blocked; the child, at 200, has PID 2 and runs.
abbrev processes : ℕ → Process
processes p = record {
  pid = if p == 100 then 1 else 2;
  state = if p == 100 then blocked else running;
  time_slice = pos 10;
  ticks_remaining = pos 10;
  next = if p == 100 then 200 else 100;
  wake_at_tick = 0;
}

abbrev child_pcb : Pcb
child_pcb = record zero_pcb { parent_pid = 1; page_dir = directory; heap_end = 0x500010 }

abbrev kernel : Kernel
kernel = record {
  sched = record {
    proc = processes;
    table = 100 ∷ 200 ∷ [];
    current = 200;
    head = 100;
    tail = 200;
  };
  pcb = λ p. if p == 200 then child_pcb else zero_pcb;
  next_pid = 3;
  heap = record { blocks = []; heap_used = 0 };
  memory = memory;
  word = λ a. 0;
}

listed-cases : (p : ℕ) → IsListed kernel.sched.table p → (p ≡ 100) ⊎ (p ≡ 200)
listed-cases p (zero, l, at, nz) = inl (sym at)
listed-cases p (suc zero, l, at, nz) = inr (sym at)
listed-cases p (suc (suc i), l, at, nz) = absurd (nz (sym at))

kernel-OnePid : OnePid kernel
kernel-OnePid p q lp lq e = ground (arith, listed-cases p lp, listed-cases q lq, e)

none_is_dead : (c : ℕ) → is_dead (processes c).state ≢ true
none_is_dead c dies = elim (Bool-cases (c == 100)) [
  | inl e ↦ true_is_not_false (sym dies ∙ ap (λ b. is_dead (if b then blocked else running)) e)
  | inr e ↦ true_is_not_false (sym dies ∙ ap (λ b. is_dead (if b then blocked else running)) e)
]

kernel-IsSound : IsSound kernel
kernel-IsSound = (
  (kernel-OnePid, λ p c lp lc positive child waits dies. none_is_dead c dies),
  λ p lp. ground (arith, listed-cases p lp),
)

pages-Spare : Spare (four_each 1) pages
unfolding pmm_alloc alloc_from bitmap_test reserve_page bitmap_set four_each
pages-Spare =
    another refl (λ z. absurd (omega arith))
      (another refl (λ z. absurd (omega arith))
        (another refl (λ z. absurd (omega arith))
          (another refl (λ z. absurd (omega arith)) enough)))

abbrev after_exit : Kernel
after_exit = record kernel {
  sched = record kernel.sched { proc = set_state (set_state processes 200 dead) 100 ready };
  pcb = update kernel.pcb 200 (record child_pcb { exit_code = pos 7 });
}

exit_runs : sys_exit kernel 7 ≡ some after_exit
unfolding sys_exit wake_parent process_exit find_process process_wake
exit_runs = refl

Steps-IsSound_example : IsSound after_exit
Steps-IsSound_example =
    Steps-IsSound kernel after_exit (then_step done (exits 7 exit_runs)) kernel-IsSound

sys_exit-wakes_parent_example :
    ((after_exit.sched.proc 100).state ≡ ready)
    × ((x : Kernel) → sys_wait (run_by after_exit 100) ≢ some (blocks x))
sys_exit-wakes_parent_example =
    sys_exit-wakes_parent kernel after_exit 7 100 exit_runs kernel-OnePid
      (1, omega arith, refl, λ z. absurd (omega arith))
      (0, omega arith, refl, λ z. absurd (omega arith)) (λ z. absurd (omega arith)) (omega arith)
      refl refl

sys_heap_grow_lem_example :
    (k' : Kernel) × (sys_heap_grow kernel 0x1800
      ≡ some (k', (kernel.pcb kernel.sched.current).heap_end))
    × ((k'.pcb kernel.sched.current).heap_end ≡ (kernel.pcb kernel.sched.current).heap_end + 0x1800)
    × IsRange
        (frame_of (kernel.pcb kernel.sched.current).page_dir)
        kernel.memory
        k'.memory
        (page_up (kernel.pcb kernel.sched.current).heap_end)
        (page_up ((kernel.pcb kernel.sched.current).heap_end + 0x1800))
sys_heap_grow_lem_example =
    sys_heap_grow_lem kernel place 0x1800 (λ z. absurd (omega arith)) (λ z. absurd (omega arith))
      memory-IsTree (omega arith) (omega arith) pages-Spare

sys_sleep_wakes_example :
    (sweeps 3 5 kernel.sched.table (sys_sleep 5 kernel 25).sched.proc kernel.sched.current).state
    ≡ (if leb 25 (10 * 3) then ready else sleeping)
sys_sleep_wakes_example =
    sys_sleep_wakes kernel 5 25 3 (1, omega arith, refl, λ e. omega arith) (omega arith)
      (omega arith) (omega arith) (omega arith)
