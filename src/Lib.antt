-- ===== src/Lib.antt =====
-- NullOS: the kernel's memory management, processes, pipes and file system.
--
-- The kernel is a single-processor C program whose parts keep their state in static tables and call
-- each other directly. Each part is a record of its state and a function per operation, which takes
-- the state and gives back the result with the new state. Integers are natural numbers; where the
-- C type is a 32-bit word that can wrap, the model writes `% 2 ^ 32`, and a subtraction that can go
-- below 0 adds 2^32 first. Console output, TLB flushes and locks by `cli` have no part in the models.
--
-- Pmm.antt, kernel/memory/pmm.c. `Pmm` is the bitmap of 64 words with `pmm_total` and `pmm_used`;
--   `init`, `alloc_page`, `alloc_page_at`, `free_page`, `mark_used`, `mark_free` are the functions
--   `pmm_*` of that name. The memory map of the boot loader is an argument. Bitmap.antt has one bit
--   of the bitmap, Count.antt the counter, and the other files one operation each. Loops over words,
--   bits and pages recurse on the number of rounds that the C loop has at most.
-- Vmm.antt, kernel/memory/vmm.c. Physical memory is a function from word addresses to words, so
--   directories and tables can overlap; `IsSpace` (Vmm/Walk.antt) says when they do not. User page
--   tables and directories come from `Pmm.alloc_page`, whose theorems the proofs use.
-- Heap.antt, kernel/memory/heap.c. The doubly linked list of headers is a list of blocks in list
--   order: `next` and `prev` are the neighbours. `kfree` of a pointer that is no block of the list
--   would read a header from arbitrary memory and is not modelled. `vmm_map_page` is an argument
--   here, of which nothing is assumed. `kmalloc` calls itself after it has grown the heap; it runs on
--   fuel, and two rounds are enough.
-- Process.antt, kernel/process.c. `Table` is `process_table`, `current_process` (as a slot) and
--   `next_pid`. The stack of a new process is the list of words pushed on it. History.antt runs any
--   sequence of events. `process_fork` is not modelled.
-- Scheduler.antt, kernel/scheduler.c and kernel/timer.c. `run_once` is a scan, a dispatch, whatever
--   the process does until it switches back (an argument), and what follows the switch.
-- Pipe.antt, kernel/pipe.c. Everything between `cli` and `sti` is one section, a function on the pool
--   and the process table; Stream.antt runs any interleaving of sections. A blocked call is the reply
--   `blocks`, after which the caller runs the section again. A waiter is a process slot.
-- Keyboard.antt, kernel/keyboard.c. The two rings are one record type; `keyboard_callback` takes the
--   code that the port gives, and Stream.antt runs any interleaving of interrupts and reads. `getchar` is
--   given the codes that come in while `keyboard_getchar` halts.
-- Elf.antt, kernel/elf.c. An image is the list of its bytes; `validate` is every check before a page is
--   mapped, `map_segment` the pages of one segment over Vmm. Format.antt
--   has the layout of an ELF file byte by byte. The copy of the file data into the pages is not modelled.
-- Fat16.antt, kernel/fs/fat16.c. `Volume` is the variables `g_*`, the cached table and the disk, a
--   function from sector numbers to bytes, where each sector works or does not. Dirent.antt has entries
--   and 8.3 names, Directory.antt the walks over a directory, Resolve.antt paths, `find`, `create`,
--   `mkdir` and `get_path`, File.antt `read_at`, `write_file` and `write_at`. Region.antt says where the
--   format puts the sectors of a chain, apart from the code's own arithmetic. A walk over a chain runs
--   on fuel for every cluster of the table, and a circle, in which the C loop never ends, is the error
--   `endless`. The C code compares no cluster with the size of the table; an entry out of its bounds
--   reads as 0 here and is not written.
-- Vfs.antt, kernel/fs/vfs.c and kernel/ramfs.c. `Files` is the image in memory, the volume and the
--   pipes; `Fd` is `vfs_fd_t`. A read or a write of a pipe is one round of Pipe.antt, which may block.
-- BootConfig.antt, kernel/bootcfg.c. A buffer is the list of its 512 characters, a key or a value the
--   list of its characters before the NUL. `buf_get` is `bootcfg_buf_get`, and so on, with
--   `cfg_reset` and `has_magic` for `bootcfg_buf_init` and `bootcfg_buf_valid`.
--   BootConfig/Numbers.antt holds the values that are numbers, and BootConfig/Sector.antt the copy
--   in memory (`g_cfg`) and the sector that it is read from. The fuel of the loop of `find_key` is
--   the length of the text, since a line takes a character at least, and `fmt_u32` has ten digits to
--   fill, which 2^32 - 1 needs in decimal.
-- Prelude.antt and its files hold what all parts share: lists, Boolean tests, bits of a word, and the
--   bytes of a word.
--
-- The parts meet where the C code calls across files: Vmm and Heap call Pmm, Elf calls both Pmm and
-- Vmm, Pipe changes the states of Process, Scheduler runs Process, Fat16 calls Heap, Vfs calls
-- Pipe and Fat16, BootConfig reads the disk of Fat16. Their theorems are used, not assumed.
--
-- Not modelled: system calls (kernel/syscall.c), the start of programs (kernel/exec.c), drivers,
-- interrupt tables, start-up, and the user programs: they pass registers, ports and user memory to the
-- parts above. Of kernel/process.c, `process_fork` copies memory page by page, which is left out too.
pub mod BootConfig
pub mod Elf
pub mod Fat16
pub mod Heap
pub mod Keyboard
pub mod Pipe
pub mod Pmm
pub mod Prelude
pub mod Process
pub mod Scheduler
pub mod Vfs
pub mod Vmm
