-- ===== src/Processes.antt =====
-- kernel/processes/process.c: the process table. The fields of `process_t` that the scheduler uses are
-- in `Scheduler.Process`, the others here, both by the address of the process. `word` is the memory of
-- the kernel stacks by address. The prints are left out, and an assembly address is a number.
use mathlib.Core.Option
use acorn_os.Heap.{Heap, kmalloc, kfree}
use acorn_os.Pmm.{pmm_alloc, pmm_free, page_size}
use acorn_os.Paging.{
  Memory, physical_to_virtual, virtual_to_physical, paging_clone_directory, map_page_in,
}
use acorn_os.Paging.Copy.{paging_deep_copy_directory, paging_free_directory}
use acorn_os.Scheduler.{
  State, ready, running, blocked, dead, sleeping, Process, Sched, max_processes, set_state,
  scheduler_remove, scheduler_add,
}
use acorn_os.Strings.{kstrcpy}
use acorn_os.Common.Int.{ℤ, pos, negsuc}
use acorn_os.Common.{
  ◌>>=◌, ℕ, zero, suc, ◌+◌, ◌-◌, ◌%◌, Bool, true, false, ◌&&◌, ◌||◌, not, Option, none, some, List,
  ltb, leb, ◌==◌, if◌then◌else◌, get_or, set, replicate, add64, sub64, update,
}

-- `cpu_state_t`
pub record Cpu : Type 0 where
  pub rax : ℕ
  pub rbx : ℕ
  pub rcx : ℕ
  pub rdx : ℕ
  pub rsi : ℕ
  pub rdi : ℕ
  pub rbp : ℕ
  pub rsp : ℕ
  pub rip : ℕ
  pub rflags : ℕ
  pub cs : ℕ
  pub ds : ℕ
  pub ss : ℕ
  pub r12 : ℕ
  pub r13 : ℕ
  pub r14 : ℕ
  pub r15 : ℕ

-- The fields of `process_t` that the scheduler does not use
pub record Pcb : Type 0 where
  pub name : List ℕ
  pub cpu : Cpu
  pub stack : ℕ
  pub stack_top : ℕ
  pub page_dir : ℕ
  pub user_esp : ℕ
  pub user_eip : ℕ
  pub parent_pid : ℕ
  pub exit_code : ℤ
  pub is_user : Bool
  pub heap_start : ℕ
  pub heap_end : ℕ

pub record Kernel : Type 0 where
  pub sched : Sched
  pub pcb : ℕ → Pcb
  pub next_pid : ℕ
  pub heap : Heap
  pub memory : Memory
  pub word : ℕ → ℕ

abbrev pub sizeof_process : ℕ
sizeof_process = 280

abbrev pub process_user : ℕ
process_user = 1

abbrev pub zero_cpu : Cpu
zero_cpu = record {
  rax = 0;
  rbx = 0;
  rcx = 0;
  rdx = 0;
  rsi = 0;
  rdi = 0;
  rbp = 0;
  rsp = 0;
  rip = 0;
  rflags = 0;
  cs = 0;
  ds = 0;
  ss = 0;
  r12 = 0;
  r13 = 0;
  r14 = 0;
  r15 = 0;
}

-- A `process_t` of zeros
abbrev pub zero_pcb : Pcb
zero_pcb = record {
  name = replicate 32 0;
  cpu = zero_cpu;
  stack = 0;
  stack_top = 0;
  page_dir = 0;
  user_esp = 0;
  user_eip = 0;
  parent_pid = 0;
  exit_code = pos 0;
  is_user = false;
  heap_start = 0;
  heap_end = 0;
}

-- What the scheduler sees of a process that is made; the time slice is 10 ticks.
abbrev pub new_process : ℕ → Process
new_process pid = record {
  pid = pid;
  state = ready;
  time_slice = pos 10;
  ticks_remaining = pos 10;
  next = 0;
  wake_at_tick = 0;
}

unfoldable pub process_init : Kernel → Kernel
process_init k = record k {
  sched = record k.sched { table = replicate max_processes 0; current = 0 };
  next_pid = 0;
}

-- The search for an empty slot, of `n` slots from `i` on
unfoldable pub free_slot : ℕ → ℕ → List ℕ → Option ℕ
free_slot zero i table = none
free_slot (suc n) i table =
    let rest = free_slot n (i + 1) table in if get_or table i 0 == 0 then some i else rest

-- The new process `p` into the slot, under the next PID
unfoldable pub install : Kernel → ℕ → ℕ → Process → Pcb → Kernel
install k slot p process pcb = record k {
  sched = record k.sched { proc = update k.sched.proc p process; table = set k.sched.table slot p };
  pcb = update k.pcb p pcb;
  next_pid = add64 k.next_pid 1;
}

-- The registers that `process_create` sets
abbrev pub user_cpu : Cpu
user_cpu = record zero_cpu { cs = 0x2B; ds = 0x23; ss = 0x23; rflags = 0x200 }

abbrev pub kernel_cpu : ℕ → ℕ → Cpu
kernel_cpu entry top = record zero_cpu {
  rip = entry;
  rsp = top;
  rbp = top;
  rflags = 0x200;
  cs = 0x08;
  ds = 0x10;
  ss = 0x10;
}

abbrev pub parent_of_new : Kernel → ℕ
parent_of_new k = if k.sched.current == 0 then 0 else (k.sched.proc k.sched.current).pid

-- The kernel and the new process. `none` is a panic: a null argument, a full table, or no memory.
unfoldable pub process_create : Kernel → Option (List ℕ) → ℕ → ℕ → Option (Kernel × ℕ)
process_create k name entry flags = do
  n ← name
  slot ← if entry == 0 then none else free_slot max_processes 0 k.sched.table
  block ← kmalloc k.heap sizeof_process
  page ← pmm_alloc k.memory.pmm
  dir ← paging_clone_directory (record k.memory { pmm = page.1 })
  let p = block.0
  let stack = physical_to_virtual page.0
  let top = stack + page_size - 8
  let is_user = flags % 2 == process_user
  let k' = record k {
    heap = block.1;
    memory = dir.0;
    word = if is_user then k.word else update k.word top entry;
  }
  some (
    install k' slot p (new_process k.next_pid) (record zero_pcb {
      name = kstrcpy (replicate 32 0) n 32;
      cpu = if is_user then user_cpu else kernel_cpu entry top;
      stack = stack;
      stack_top = top;
      page_dir = dir.1;
      parent_pid = parent_of_new k;
    }),
    p,
  )

unfoldable pub process_exit : Kernel → ℕ → Kernel
process_exit k p =
    if p == 0
    then k
    else record k { sched = record k.sched { proc = set_state k.sched.proc p dead } }

unfoldable pub process_block : Kernel → ℕ → Kernel
process_block k p =
    if p == 0
    then k
    else record k { sched = record k.sched { proc = set_state k.sched.proc p blocked } }

abbrev pub is_blocked : State → Bool
is_blocked ready = false
is_blocked running = false
is_blocked blocked = true
is_blocked dead = false
is_blocked sleeping = false

abbrev pub is_dead : State → Bool
is_dead ready = false
is_dead running = false
is_dead blocked = false
is_dead dead = true
is_dead sleeping = false

unfoldable pub process_wake : Kernel → ℕ → Kernel
process_wake k p =
    if p == 0 || not (is_blocked (k.sched.proc p).state)
    then k
    else record k { sched = record k.sched { proc = set_state k.sched.proc p ready } }

-- The first slot with a process that passes the test, of `n` slots from `i` on
unfoldable pub find_process : (ℕ → Bool) → ℕ → ℕ → List ℕ → Option ℕ
find_process test zero i table = none
find_process test (suc n) i table =
    let rest = find_process test n (i + 1) table in
    let p = get_or table i 0 in if not (p == 0) && test p then some i else rest

-- The end of a child that is waited for, with the heap that its `kfree` leaves
abbrev pub reaped : Kernel → ℕ → Heap → Kernel
reaped k slot heap =
    let child = get_or k.sched.table slot 0 in
    let removed = scheduler_remove k.sched child in
    let memory = paging_free_directory k.memory (k.pcb child).page_dir in
    record k {
      sched = record removed { table = set removed.table slot 0 };
      memory = record memory {
        pmm = pmm_free memory.pmm (virtual_to_physical (k.pcb child).stack);
      };
      heap = heap;
    }

-- `none` is a `kfree` of what is no block.
unfoldable pub reap : Kernel → ℕ → Option Kernel
reap k slot = Option.map (reaped k slot) (kfree k.heap (get_or k.sched.table slot 0))

-- A round of `process_wait` under `cli`, and whether it returns. If it does not, the process yields.
unfoldable pub process_wait : Kernel → ℕ → Option (Kernel × Bool)
process_wait k pid =
    if k.sched.current == 0
    then some (k, true)
    else elim (find_process (λ p. (k.sched.proc p).pid == pid && is_dead (k.sched.proc p).state)
        max_processes 0 k.sched.table) [
          | some slot ↦ do k' ← reap k slot; some (k', true)
          | none ↦ some (process_block k k.sched.current, false)
        ]

-- A frame for `iret`, pushed down from the top of a kernel stack
unfoldable pub push_frame : (ℕ → ℕ) → ℕ → ℕ → ℕ → ℕ → ℕ
push_frame word top esp entry =
    let word = update word top 0x23 in
    let word = update word (top - 8) esp in
    let word = update word (top - 16) 0x200 in
    let word = update word (top - 24) 0x2B in
    let word = update word (top - 32) entry in update word (top - 40) 0

-- `iret_to_usermode` is the address of the assembly stub.
module _ (iret_to_usermode : ℕ) where
  abbrev pub iret_cpu : Cpu → ℕ → Cpu
  iret_cpu cpu top = record cpu {
    rsp = top - 40;
    rip = iret_to_usermode;
    rflags = 0x200;
    cs = 0x08;
    ds = 0x10;
    ss = 0x10;
  }

  abbrev pub user_stack_virt : ℕ
  user_stack_virt = 0xBFFFF000

  -- The kernel and the new process, which keeps the physical address of its stack.
  unfoldable pub create_user_process : Kernel → Option (List ℕ) → ℕ → Option (Kernel × ℕ)
  create_user_process k name entry = do
    n ← name
    slot ← free_slot max_processes 0 k.sched.table
    block ← kmalloc k.heap sizeof_process
    page ← pmm_alloc k.memory.pmm
    user_page ← pmm_alloc page.1
    dir ← paging_clone_directory (record k.memory { pmm = user_page.1 })
    memory ← map_page_in dir.0 dir.1 user_stack_virt user_page.0 7
    let p = block.0
    let top = page.0 + page_size - 8
    let k' = record k {
      heap = block.1;
      memory = memory;
      word = push_frame k.word top (user_stack_virt + page_size - 8) entry;
    }
    some (
      install k' slot p (new_process k.next_pid) (record zero_pcb {
        name = kstrcpy (replicate 32 0) n 32;
        cpu = iret_cpu zero_cpu top;
        stack = page.0;
        stack_top = top;
        page_dir = dir.1;
      }),
      p,
    )

  -- The copy of the parent's kernel stack
  abbrev pub copy_stack : (ℕ → ℕ) → ℕ → ℕ → ℕ → ℕ
  copy_stack word src dst a =
      if leb dst a && ltb a (dst + page_size) then word (a - dst + src) else word a

  -- The registers of the child
  abbrev pub child_cpu : Pcb → ℕ → Cpu
  child_cpu parent top =
      if parent.is_user then record (iret_cpu parent.cpu top) { rax = 0 } else record parent.cpu {
        rax = 0;
        rsp = sub64 top (sub64 parent.stack_top parent.cpu.rsp);
        rbp = sub64 top (sub64 parent.stack_top parent.cpu.rbp);
      }

  abbrev pub child_process : Process → ℕ → Process
  child_process parent pid = record parent {
    pid = pid;
    state = ready;
    ticks_remaining = parent.time_slice;
    next = 0;
  }

  -- The child in its slot, before the scheduler gets it
  abbrev pub forked : Kernel → ℕ → ℕ → ℕ → Memory × ℕ → Kernel
  forked k slot p stack dir =
      let cur = k.sched.current in
      let parent = k.pcb cur in
      let top = stack + page_size - 8 in
      let word = copy_stack k.word parent.stack stack in
      let framed =
        if parent.is_user then push_frame word top parent.user_esp parent.user_eip else word in
      install (record k { memory = dir.0; word = framed }) slot p
        (child_process (k.sched.proc cur) k.next_pid)
        (record parent {
          name = kstrcpy parent.name parent.name 32;
          cpu = child_cpu parent top;
          stack = stack;
          stack_top = top;
          page_dir = dir.1;
          parent_pid = (k.sched.proc cur).pid;
        })

  -- `process_fork` from its step 7, with the child `p` and its stack
  unfoldable pub fork_into : Kernel → ℕ → ℕ → ℕ → Option (Kernel × ℤ)
  fork_into k slot p stack = do
    dir ← paging_deep_copy_directory k.memory (k.pcb k.sched.current).page_dir
    sched ← scheduler_add (forked k slot p stack dir).sched p
    some (record (forked k slot p stack dir) { sched = sched }, pos k.next_pid)

  unfoldable pub without_stack : Kernel → ℕ → Option (Kernel × ℤ)
  without_stack k child = do
    heap ← kfree k.heap child
    some (record k { heap = heap; next_pid = add64 k.next_pid 1 }, negsuc 0)

  -- The return value -1 is for a stack at address 0.
  unfoldable pub process_fork : Kernel → Option (Kernel × ℤ)
  process_fork k = do
    slot ← if k.sched.current == 0 then none else free_slot max_processes 0 k.sched.table
    block ← kmalloc k.heap sizeof_process
    page ← pmm_alloc k.memory.pmm
    let k' = record k { heap = block.1; memory = record k.memory { pmm = page.1 } }
    (if page.0 == 0
        then without_stack k' block.0
        else fork_into k' slot block.0 (physical_to_virtual page.0))
