-- ===== src/Syscalls.antt =====
-- kernel/processes/syscall.c: the handlers of the system calls. A handler gets the registers it reads
-- and gives the new `rax`. `to_rax` is the conversion of an `int` to `uint64_t`. A handler that ends in
-- `scheduler_yield` ends in the state that the yield finds.
mod Tests
pub mod NoLostWake
pub mod Grow
pub mod Sleep
use acorn_os.Pmm.{Pmm, pmm_alloc, page_size}
use acorn_os.Paging.{Memory, map_page_in}
use acorn_os.Scheduler.{State, sleeping, Process, Sched, max_processes}
use acorn_os.Processes.{
  Kernel, Pcb, process_exit, process_wake, process_block, find_process, reap, is_blocked, is_dead,
}
use acorn_os.Vfs.Files.{
  Vfs, FsOps, Dentry, vfs_read, vfs_write, vfs_close, vfs_seek, vfs_readdir, to_int,
}
use acorn_os.Vfs.Open.{vfs_open, vfs_mkdir, vfs_delete}
use acorn_os.Common.Int.{ℤ, pos, negsuc}
use mathlib.Core.Option
use acorn_os.Common.{
  ◌>>=◌, ℕ, zero, suc, ◌+◌, ◌-◌, ◌*◌, ◌/◌, ◌%◌, ◌^◌, ◌≤◌, ◌<◌, min, ◌≡◌, refl, sym, ap, ap₂, ◌∙◌,
  subst, ◌≢◌, ◌↔◌, ◌⊎◌, inl, inr, Bool, true, false, ◌&&◌, ◌||◌, not, Option, none, some, List, [],
  ◌∷◌, ◌++◌, map, append-nil, append_assoc, arith, ltb, leb, ◌==◌, if◌then◌else◌, ltb→lt, lt→ltb,
  leb→le, ==_iff, ==_refl, Bool-cases, Option-cases, length, get_elem?, get_or, set, take, drop,
  replicate, length-append, length-set, length-take, length-drop, length-replicate,
  take-append-drop, length-map, add32, sub32, add64, sub64, update,
}

abbrev pub minus_one : ℕ
minus_one = 2 ^ 64 - 1

abbrev pub to_rax : ℤ → ℕ
to_rax (pos n) = n
to_rax (negsuc n) = 2 ^ 64 - 1 - n

-- The parent of the process that exits is woken, if it is in the table and blocked.
unfoldable pub wake_parent : Kernel → ℕ → Kernel
wake_parent k parent_pid =
    if parent_pid == 0
    then k
    else elim (find_process
        (λ p. (k.sched.proc p).pid == parent_pid && is_blocked (k.sched.proc p).state) max_processes
        0 k.sched.table) [ none ↦ k | some slot ↦ process_wake k (get_or k.sched.table slot 0) ]

-- `sys_exit` up to its yield. `none` is the panic without a current process.
unfoldable pub sys_exit : Kernel → ℕ → Option Kernel
sys_exit k rdi =
    let cur = k.sched.current in
    let coded = record k {
      pcb = update k.pcb cur (record (k.pcb cur) { exit_code = to_int (rdi % 2 ^ 32) });
    } in
    if cur == 0 then none else some (wake_parent (process_exit coded cur) (k.pcb cur).parent_pid)

-- What a round of `sys_wait` under `cli` comes to: a return with `rax`, or a block and a yield.
pub data Round : Type 0 where
  returns : Kernel → ℕ → Round
  blocks : Kernel → Round

abbrev pub is_child : Kernel → ℕ → Bool
is_child k p = (k.pcb p).parent_pid == (k.sched.proc k.sched.current).pid

unfoldable pub sys_wait : Kernel → Option Round
sys_wait k =
    let dead_child =
      find_process (λ p. is_child k p && is_dead (k.sched.proc p).state) max_processes 0
        k.sched.table in
    let any_child = find_process (is_child k) max_processes 0 k.sched.table in
    elim dead_child [
      | some slot ↦ do
        k' ← reap k slot
        some (returns k' (to_rax (k.pcb (get_or k.sched.table slot 0)).exit_code))
      | none ↦ elim any_child [
        | none ↦ some (returns k minus_one)
        | some slot ↦ some (blocks (process_block k k.sched.current))
      ]
    ]

unfoldable pub sys_getpid : Kernel → ℕ
sys_getpid k = if k.sched.current == 0 then 0 else (k.sched.proc k.sched.current).pid

abbrev pub timer_frequency : ℕ
timer_frequency = 100

-- The ticks of `sys_sleep`, a `uint32_t`
unfoldable pub sleep_ticks : ℕ → ℕ
sleep_ticks ms =
    let ticks = add64 (ms * timer_frequency % 2 ^ 64) 999 / 1000 % 2 ^ 32 in
    if ticks == 0 then 1 else ticks

-- `sys_sleep` up to its yield; `now` is the timer's count.
unfoldable pub sys_sleep : ℕ → Kernel → ℕ → Kernel
sys_sleep now k rdi =
    let cur = k.sched.current in
    if cur == 0 then k else record k {
      sched = record k.sched {
        proc = update k.sched.proc cur (record (k.sched.proc cur) {
          wake_at_tick = add32 now (sleep_ticks rdi);
          state = sleeping;
        });
      };
    }

-- `(a + 0xFFF) & ~0xFFF`
abbrev pub page_up : ℕ → ℕ
page_up a = add64 a 0xFFF / page_size * page_size

-- A page of the loop of `sys_heap_grow`: a new page of zeros at `va`
unfoldable pub grow_page : Memory → ℕ → ℕ → Option Memory
grow_page m dir va = do
  page ← pmm_alloc m.pmm
  mapped ← map_page_in (record m { pmm = page.1 }) dir va page.0 7
  some (record mapped { byte = update mapped.byte (page.0 / page_size) (λ i. 0) })

-- The loop, of at most `fuel` pages
unfoldable pub grow_pages : ℕ → Memory → ℕ → ℕ → ℕ → Option Memory
grow_pages zero m dir va stop = some m
grow_pages (suc fuel) m dir va stop =
    if ltb va stop
    then elim (grow_page m dir va) [
      | none ↦ none
      | some m' ↦ grow_pages fuel m' dir (add64 va page_size) stop
    ]
    else some m

-- The kernel and `rax`. `none` is a panic. The fuel is the number of pages in between.
unfoldable pub sys_heap_grow : Kernel → ℕ → Option (Kernel × ℕ)
sys_heap_grow k rdi =
    let cur = k.sched.current in
    let old_end = (k.pcb cur).heap_end in
    let new_end = add64 old_end rdi in
    let pages = (page_up new_end - page_up old_end) / page_size in
    if cur == 0
    then some (k, minus_one)
    else if rdi == 0
    then some (k, old_end)
    else if leb (2 ^ 63) rdi
    then some (k, minus_one)
    else elim (grow_pages pages k.memory (k.pcb cur).page_dir (page_up old_end) (page_up new_end)) [
      | none ↦ none
      | some m ↦ some (
        record k { memory = m; pcb = update k.pcb cur (record (k.pcb cur) { heap_end = new_end }) },
        old_end,
      )
    ]

-- The calls on files. `bytes` and `string` are the memory of the process at an address.
module _ {S : Type 0} (ops : FsOps S) (bytes : ℕ → ℕ → List ℕ) (string : ℕ → List ℕ) where
  abbrev pub fd_of : ℕ → ℤ
  fd_of rdi = to_int (rdi % 2 ^ 32)

  unfoldable pub sys_write : Vfs S → ℕ → ℕ → ℕ → Vfs S × ℕ
  sys_write v rdi rsi rdx =
      let count = rdx % 2 ^ 32 in
      if rsi == 0 || ltb 4096 count
      then (v, minus_one)
      else let r = vfs_write ops v (fd_of rdi) (bytes rsi count) count in (r.0, to_rax r.1)

  -- With the bytes for the buffer
  unfoldable pub sys_read : Vfs S → ℕ → ℕ → ℕ → Vfs S × List ℕ × ℕ
  sys_read v rdi rsi rdx =
      let count = rdx % 2 ^ 32 in
      if rsi == 0 || ltb 4096 count
      then (v, [], minus_one)
      else let r = vfs_read ops v (fd_of rdi) count in (r.0, r.1, to_rax r.2)

  unfoldable pub sys_open : Vfs S → ℕ → ℕ → Option (Vfs S × ℕ)
  sys_open v rdi rsi =
      if rdi == 0
      then some (v, minus_one)
      else Option.map (λ r. (r.0, to_rax r.1)) (vfs_open ops v (string rdi) (rsi % 2 ^ 32))

  unfoldable pub sys_close : Vfs S → ℕ → Option (Vfs S × ℕ)
  sys_close v rdi = Option.map (λ r. (r.0, to_rax r.1)) (vfs_close ops v (fd_of rdi))

  unfoldable pub sys_seek : Vfs S → ℕ → ℕ → ℕ → Vfs S × ℕ
  sys_seek v rdi rsi rdx =
      let r = vfs_seek ops v (fd_of rdi) (rsi % 2 ^ 32) (rdx % 2 ^ 32) in (r.0, to_rax r.1)

  unfoldable pub sys_mkdir : Vfs S → ℕ → Option (Vfs S × ℕ)
  sys_mkdir v rdi =
      if rdi == 0
      then some (v, minus_one)
      else Option.map (λ r. (r.0, to_rax r.1)) (vfs_mkdir ops v (string rdi))

  -- `entry` is the `dentry_t` at `rsi`.
  unfoldable pub sys_readdir : Vfs S → ℕ → ℕ → Dentry → Vfs S × Dentry × ℕ
  sys_readdir v rdi rsi entry =
      if rsi == 0
      then (v, entry, minus_one)
      else let r = vfs_readdir ops v (fd_of rdi) entry in (r.0, r.1, to_rax r.2)

  unfoldable pub sys_delete : Vfs S → ℕ → Option (Vfs S × ℕ)
  sys_delete v rdi =
      if rdi == 0
      then some (v, minus_one)
      else Option.map (λ r. (r.0, to_rax r.1)) (vfs_delete ops v (string rdi))
