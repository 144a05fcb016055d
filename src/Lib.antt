-- ===== src/Lib.antt =====
-- A model of the kernel of mos-riscv64, a teaching operating system for 64-bit RISC-V with Sv39
-- paging: its page tables and physical pages, its heap, its processes and their scheduler, and its
-- system calls on processes, address spaces and messages; and of its file system server, which is a
-- user program, its pipes, and its library of functions on memory and text.
--
-- How the parts interact. A process (`struct Env`) owns a page directory. The page table code takes
-- its tables from the list of free pages and counts the references to each page; the heap lives at a
-- fixed range of kernel addresses behind one directory entry. The scheduler picks the head of the
-- queue of RUNNABLE processes. The system calls change the status, the queue and the page tables of
-- the process that an identifier names, as far as `envid2env` permits. The file system server keeps
-- the blocks that it has read at fixed addresses of its own address space, marks free blocks in a
-- bitmap of cached blocks, and asks the kernel for a page where it needs one. A page fault takes a page and
-- maps it by the page table code, and so does fork, for which both entries lose their write permission.
-- A reader and a writer of a pipe share a page, and the kernel may switch between them anywhere. The
-- registry of devices takes its memory from the heap and maps registers by `kmmap_alloc`, which maps them
-- in every address space; the interrupt controller is one of the devices, and a process that handles an
-- interrupt is entered on a stack of its own, to which its frame is copied.
--
-- Where the code is modelled:
--   include/mmu.h, include/error.h        Kern/Mmu, Kern/Error
--   include/pmap.h, kern/pmap.c           Kern/Pmap: the memory and the list of free pages (Mem),
--                                         `pgdir_walk` and `va2pa` (Walk), `page_lookup`,
--                                         `page_remove` and `page_insert` (Map), `map_mem` and
--                                         `unmap_mem` (Range); theorems on a sound path of tables
--                                         (Path, Made, WalkLaws), on the free list (Supply, Cells)
--                                         on insertion and removal (Insert, InsertLaws, RoundTrip)
--                                         and on undefined behaviour (Safe)
--   include/kmalloc.h, kern/kmalloc.c     Kern/Kmalloc: the heap (Defs), its shape (Tiling, Joining),
--                                         freeing what was just allocated (Undo), what callers may
--                                         rely on (Service)
--   include/env.h, kern/env.c,            Kern/Env: the state (State), `asid_alloc` and `asid_free`
--   kern/sched.c                          (Asid), identifiers and `env_alloc` (Table), `env_free`
--                                         (Release), `schedule`, `env_run` and `env_destroy` (Sched),
--                                         `kmap` and `kunmap` of kern/pmap.c (Maps);
--                                         theorems on the queue (Queue, Turns, Fairness, RoundRobin),
--                                         on permission (Permission), on identifiers (Ids), on
--                                         undefined behaviour (Safe)
--   kern/syscall_all.c                    Kern/Syscall: the checks (Guard), status and destruction
--                                         (Process), address spaces (Memory), messages (Ipc), making a
--                                         process (Create), devices, the console and the list of
--                                         processes (Device), `do_syscall` (Table); theorems on the
--                                         queue (StatusLaws, QueueLaws, Blocking)
--   kern/kmmap.c                          Kern/Kmmap: the array of run lengths (Defs), the search
--                                         (FirstFit), allocate then free (RoundTrip)
--   kern/userspace.c                      Kern/Userspace, with undefined behaviour in Safe
--   kern/env_interrupt.c, kern/traps.c    Kern/Board: the kernel with its devices; Kern/Interrupt:
--                                         delivery and return (Defs), the queue (Queue)
--   kern/device.c                         Driver/Device: the registry (Defs), its mappings (Mapped)
--   kern/plic.c, kern/interrupt.c         Driver/Plic: the interrupt controller
--   driver/serial/char_queue.c, .h        Driver/CharQueue: the ring buffer, against a list
--   kern/tlbex.c, kern/traps.c            Kern/Fault: `passive_alloc` (Alloc), `do_page_fault` and
--                                         `do_cow` (Cow), what a page fault leaves (Fresh, Copied)
--   lib/elfloader.c, kern/env.c           Kern/Load: the segments of a program (Segment), what they look
--                                         like once mapped (Image); `load_icode`, `env_create` and
--                                         `env_init` (Create)
--   kern/fork.c                           Kern/Fork: `duppage` and `dup_userspace` (Share), the flags of
--                                         a page that is shared (Protect)
--   lib/string.c, lib/print.c             Libc: `memcpy` and `memset` (Memory), against bytes (Copy,
--                                         Fill); `strcpy`, `strlen`, `strchr`, `strcmp` (Text);
--                                         `parse_number` and `print_num` (Number), their digits
--                                         (Digits), the reversed buffer (Reversal), print then parse
--                                         (RoundTrip)
--   user/lib/pipe.c                       User/Pipe: `pipe_read` and `pipe_write` statement by statement
--                                         (Steps), what holds in between (State, Reader, Writer), the
--                                         order of the bytes (Order), when a call returns (Calls)
--   fs/fs.c, fs/block.c, fs/serv.h,       Fs: the state and commands of the server (Server), the cache
--   user/include/fs.h                     and the bitmap (Block), descriptors and the blocks of a file
--                                         (File), directories (Dir), `walk_path` (Path), whole files
--   fs/serv.c                             (Ops), the requests of clients (Serve); theorems on errors that
--                                         do not occur (Sure), on answers (Answers), on the
--                                         bitmap (Bitmap), on paths as lists of names (Names), on lookups (Lookup), on the blocks of a file
--                                         (Mapping) and on files with holes (Holes)
--
-- How state is modelled. A C function that changes state is a command: it takes a state and ends
-- `done` with a value and a new state, `stopped` by a panic or a failed assertion, or `wild`, which is
-- whatever leaves the states described here: undefined behaviour, or links of a queue that no list
-- describes (Prelude/Run). A pointer to an element of a static array is its index; the intrusive lists
-- and queues of include/queue.h are lists of indices in their order; an entry of a page table is a
-- frame with an index, and memory is a function from those to 64-bit words. Arguments and fields are
-- natural numbers with the wrap-around of their C type written out where the code computes with them.
-- Instructions that act on the TLB are logged in their order. `Keeps` says that a command has no
-- undefined behaviour and what holds where it does not panic; `KeepsUnless` says when it may panic,
-- and `Returns` that it comes back. What `memcpy` moves between the kernel and a process, the
-- addresses that the linker gives and the answers of devices are fields of `Machine`, an argument of
-- the operations that use them (Kern/Board); the theorems ask nothing of it.
--
-- Bounds. Every loop is structural recursion on the number of rounds that the source gives it: 256
-- identifiers of address spaces, 512 entries of a table, 1024 processes, the pages of a range, the blocks of the heap;
-- no fuel is used beyond those. The one exception is `walk_path`, which has the length of the path as
-- its fuel; its theorem shows that this is enough. The loops of `memcpy` and `memset` have `n` rounds
-- at most, those of `print_num` 64, the bits of a number, and those of `strcpy`, `strlen` and `strcmp` one
-- for each character and the zero behind them; their theorems show that these are enough.
--
-- Not modelled: the device tree, the serial and block drivers but for the character queue, the trap entry
-- and its assembly, the printing of backtraces and frames, the loop of the file
-- system server that receives requests, failures of its disk, and the user library but for its pipes. The
-- contents of heap blocks are not part of the heap's state, so freeing a pointer to no block is `wild` there.
pub mod Prelude
pub mod Kern
pub mod Driver
pub mod Fs
pub mod Libc
pub mod User
pub mod Tests
