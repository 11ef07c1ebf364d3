-- ===== src/Lib.antt =====
-- AcornOS: the memory managers and page tables, the RAM file system, the virtual file system, processes,
-- the scheduler and the system calls, the kernel's formatted output, the string helpers, the clock and
-- the C library's allocator, translated from the C sources.
--
-- The parts and the files that model them, with paths from the repository's root:
--
-- - Strings: include/kernel/core/string.h. A C string is a list of bytes that ends at its first 0 or
--   at the end of the list. `kstrcpy`, `kstrcmp`, `kstreq` and `kstrlen` have the source's names.
-- - Pmm: kernel/memory/pmm.c and include/kernel/memory/pmm.h. The record `Pmm` is the file's three
--   static variables; the bitmap is a function from the index of a byte. `pmm_init` takes the memory
--   map as a list. Pmm/Bits has the bit operations, Pmm/Alloc allocation, Pmm/Count the counter and
--   Pmm/Init the start.
-- - Heap: kernel/memory/mem.c. The linked list of block headers is a list of blocks with their
--   addresses. Heap/Tiling says when a heap is valid, Heap/Malloc and Heap/Free are about `kmalloc`
--   and `kfree`, and Heap/RoundTrip about histories of them.
-- - ShadowFs: file_system/shadowfs/shadowfs.c. ShadowFs/File has write, read and truncate of files
--   as chains of 4 KB blocks, on pages that come from `Pmm`; ShadowFs/Dir has the directories and
--   ShadowFs/Ops the open and close that the VFS calls.
-- - Vfs: file_system/vfs/vfs.c and include/file_system/vfs.h. Vfs/Mounts is the mount table, Vfs/Path
--   the split of paths, Vfs/Resolve the walk of `vfs_resolve_path`, Vfs/Files the descriptor table and
--   the operations on open files, and Vfs/Open the operations on paths. An open file is allocated on
--   `Heap`, as in the code. File systems are reached through `fs_ops_t`, here the record `FsOps`, whose
--   operations act on a state of the file system's own and on the heap.
-- - Devfs: file_system/devfs/devfs.c, over `Heap` and Vfs/Mounts. The handlers of a device are functions
--   on a state of the hardware that is a parameter. Devfs/Register is about the table of devices after a
--   registration, and Devfs/Handlers about the reads and writes that reach a device.
-- - Libc: libc/src/malloc.c, the allocator of user programs. The system call that grows the heap is an
--   argument.
-- - Rtc: drivers/rtc/rtc.c: the decoding of a stable reading of the registers, and the count of days,
--   which Rtc/Years and Rtc/Calendar compare with the Gregorian calendar.
-- - Scheduler: kernel/processes/scheduler.c. A process is its address; its fields, the run queue's `next`
--   pointers among them, are functions of it. Scheduler/Pick is about the walk of the tick, and
--   Scheduler/Tick about the states that it leaves.
-- - Kprintf: kernel/core/kprintf.c. Kprintf/Digits is about numbers as text, Kprintf/Pieces about the
--   formats that are given as pieces, Kprintf/Cut about the loops at a full buffer, which do not advance
--   there, Kprintf/Format about `kvsnprintf`, and Kprintf/Print about the two that print.
-- - Paging: kernel/architecture/x86_64/paging.c. The tables are a function of the frame and the index,
--   in a record with `Pmm`. Paging/Tree says when the tables of a directory's user half are a tree,
--   Paging/Link is about a new table in it, Paging/Walk about `get_pt_entry`, Paging/Map about a store to
--   an entry and Paging/Translate about the operations; Paging/Copy has the copy and the release of a
--   directory.
-- - Processes: kernel/processes/process.c, over `Scheduler`, `Heap` and `Paging`: the table of processes,
--   their creation, fork, exit and reaping.
-- - Syscalls: kernel/processes/syscall.c, over `Processes` and `Vfs`. Syscalls/NoLostWake is about the
--   exit of a child, the wait of its parent, and the creation and fork of processes as steps that
--   interleave, Syscalls/Grow about the growth of a heap and Syscalls/Sleep about the ticks that end a
--   sleep.
-- - Keyboard: drivers/input/keyboard.c, over `Processes`. Keyboard/Race is about a key that comes between
--   the test for one and the wait.
-- - Common: Boolean tests, lists indexed by native numbers, words with their wrap-around, and integers.
--
-- A module named Tests has runs at concrete inputs. Unsigned C integers are native numbers with the
-- wrap-around of their width written out. A kernel panic, a write behind the end of a buffer and a
-- `kfree` of no block are values of the result types: `none`, `panic`, or `overflow`. The overflow of
-- the position in the formatter is `overflow` too.
--
-- Fuel: the walks of the scheduler run on MAX_PROCESSES steps, as in the code. The write loop of
-- shadowFS runs on a round for each byte of the buffer and one more, as each round writes at least one
-- byte; the walk of a path runs on a round for each character and one more, as each round that goes on
-- consumes one. The rounds of a loop of the formatter at one character are `2 ^ 31`, after which its
-- position, an `int`, has overflowed. The digits of a number run on 32 or 64 rounds, more than it has
-- digits; `kprintf` reads at most the 1024 bytes of its buffer, which holds a terminator; the growth
-- of a heap runs on the number of pages between its old and its new end.
--
-- Not modelled: `scheduler_start`, `process_spawn`, `process_exec`, the two system calls and the dispatch
-- table that need it, the ELF loader, procfs, the other drivers and the hardware tables, the rest of the
-- C library, the applications and the boot loader; log lines; the checks of null pointers that no caller
-- passes; and `shadowfs_mount` and `shadowfs_stats`. The heap blocks behind shadowFS's headers, inodes and
-- entries are values or arguments, since the kernel panics where `kmalloc` has none. Of a page table entry
-- the bits that paging.c never names are one number; the flush of the TLB and the switch of CR3 are left
-- out.
pub mod Common
pub mod Strings
pub mod Pmm
pub mod Paging
pub mod Heap
pub mod Kprintf
pub mod ShadowFs
pub mod Vfs
pub mod Libc
pub mod Rtc
pub mod Scheduler
pub mod Processes
pub mod Syscalls
pub mod Keyboard
pub mod Devfs
