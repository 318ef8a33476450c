-- ===== src/Lib.antt =====
-- Knail, an x86-64 kernel in C++, and its verification.
--
-- The memory side: `arch/x86_64/pmm.cpp` hands out physical frames from a bitmap, and
-- `kernel/heap.cpp` builds `kmalloc` and its kin on them. The task side: `kernel/scheduler.cpp` keeps
-- the tasks in a ring and switches between them; each task has a table of file descriptors
-- (`proc/fdtable.cpp`), whose files are those of `fs/vfs.cpp`, pipes among them; `proc/elf.cpp` reads
-- a program, and `arch/x86_64/vmm.cpp` has the tables of pages. `kernel/syscall.cpp` is how a program
-- calls these; `fs/fat32.cpp` keeps files on a disk. The devices: `drivers/keyboard.cpp` fills a ring of events in its interrupt and wakes
-- the reader through the scheduler, and `drivers/vga.cpp` is the console.
--
-- Modules and code:
--   Prelude     Boolean tests, lists over the native numbers, bitwise operations (Prelude/Bits), and
--               lemmas that the parts share.
--   Types       `kError` and `kResult` of kernel/include/types.hpp.
--   Pmm         arch/x86_64/pmm.cpp: the record of the bitmap and its counters, `alloc_frame`,
--               `free_frame`, `stats`; Pmm/Init has `init`. Pmm/Bits has the bit operations,
--               Pmm/Invariant, Alloc, Start and Ends the proofs.
--   Heap        kernel/heap.cpp: the blocks in the order of their addresses. Heap has the operations
--               on blocks and `kfree`, Heap/Requests the others, over the memory managers as the
--               interface `Frames`. Heap/Chain and Heap/Live say what a valid heap and a live
--               allocation are; Heap/Alloc, Free, RoundTrip, Realloc and Limits have the proofs.
--   Pipe        the pipe of fs/vfs.cpp: `pipe_read`, `pipe_write`, `pipe_close`.
--   Vfs         fs/vfs.cpp: the nodes and what stands at an address. Vfs/Ramfs has the files in memory,
--               Vfs/Tty the terminal's input, Vfs/Paths the walk over a path, Vfs/Tree creation and
--               removal, Vfs/Mounts `mount` and `init`, Vfs/Files the descriptors, Vfs/Pipes `pipe`.
--               Vfs/Bytes, Write, Walks, Segments, Kept, Created and Descriptors have the proofs.
--   Fat         fs/fat32.cpp: the table of clusters, over the interface `Device`; Fat/Chains has
--               `chain_read` and `chain_write`, Fat/Names the short names; Fat/Table, ReadBack, Free,
--               ChainSteps, ChainReadBack and RoundTrip have the proofs.
--   Vmm         arch/x86_64/vmm.cpp: tables as words at addresses. Vmm has `map_page`, `unmap_page`
--               and `virt_to_phys`, Vmm/Spaces the making, copying and end of address spaces;
--               Vmm/Flags, Tables and Mapped have the proofs.
--   Syscall     kernel/syscall.cpp: Syscall/Calls has the handlers, Syscall/Dispatch the routes;
--               Syscall/Duplicate has the proofs on `dup`.
--   FdTable     proc/fdtable.cpp; FdTable/Clone has `alloc`, `free` and `clone` over the interface
--               `Files`, the calls of the heap and of the VFS.
--   Scheduler   kernel/scheduler.cpp: tasks behind addresses with their `next` links. Scheduler has
--               the loops over the links, Scheduler/Switch `do_switch`, `tick`, `yield`, `exit`,
--               `wake`, `block_current`, Scheduler/Wait `wait`, Scheduler/Spawn `init` and `spawn`.
--               Scheduler/Ring says what a ring is; Queue, Pick, Spawned and Turns have the proofs.
--   Elf         proc/elf.cpp: `load` and `free`.
--   Keyboard    drivers/keyboard.cpp.
--   Mutex       kernel/include/mutex.hpp and kernel/mutex.cpp, as the passes of a task with one access
--               to the shared state each, the guard among it; Mutex/Places has the tasks and their
--               steps, Passes and Exclusion the proofs.
--   Pic         kernel/pic.cpp: the masks and the writes to the ports.
--   Timer       kernel/timer.cpp: its handler ends the interrupt and calls the scheduler's `tick`.
--   Block       drivers/block.cpp: the registry of block devices.
--   Vga         drivers/vga.cpp; Vga/Escape has the escape sequences, Vga/Print the characters; Vga/Bounds,
--               Sequences and Numerals have the proofs.
--
-- Numbers are natural numbers, and a machine word has its wrap-around written out. A loop over links
-- and the reading loop of the loader take fuel, one unit a round, and answer `none` without it; the
-- theorems on them ask for more units than the ring has other tasks, or than the file has bytes, and
-- so say that the loops end; the loops of `chain_read` and `chain_write` take the bytes asked for as
-- their rounds. Those of the memory map ask for 2^32 units, the most that the entries of
-- one tag take, and 65536 for its tags. A call that never returns, on a lock that its own task holds,
-- answers `none` too.
--
-- A walk over the children of a node, the segments of a path or the rows of a table takes `rounds` in
-- the same way, and the theorems ask for more rounds than it takes. `kmalloc` and `alloc_frame` under
-- the VFS and the page tables take their answers from a stream, the state's `supply`, of which nothing
-- is supposed but what a theorem says: 0 is a failure, and another answer is an address not in use.
--
-- A pointer that `kfree` or `krealloc` gets and that leads to no block of the heap's list, a stale one
-- among them, is not modelled: the code reads whatever header stands there, and the theorems ask for a
-- null pointer or a block. `map_page` of the memory managers that the heap calls has no reply, as the
-- heap ignores it, so a page that is not mapped shows no fault.
--
-- Not modelled: the heap's and the scheduler's reports on the screen, `fork_current`, `spawn_user` and
-- `spawn_elf`, the directories, nodes and mount of FAT32, the set-up of the registers for
-- system calls, the ATA and PCI drivers, the descriptor tables of the processor, its clock and its
-- identification, the serial line, boot code and user programs. The exchange of registers in a switch
-- is assembly and left out, and so is the flush of the translation buffer.
pub mod Prelude
pub mod Types
pub mod Pmm
pub mod Pipe
pub mod FdTable
pub mod Heap
pub mod Vga
pub mod Keyboard
pub mod Scheduler
pub mod Elf
pub mod Pic
pub mod Mutex
pub mod Block
pub mod Timer
pub mod Fat
pub mod Syscall
pub mod Vfs
pub mod Vmm
