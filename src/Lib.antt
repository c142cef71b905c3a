-- ===== src/Lib.antt =====
-- Verification library of the Cyanurus kernel, a small Unix-like kernel for ARM.
--
-- The kernel keeps processes (src/kernel/process.c) that own a table of 32 descriptors, an address
-- space and signals. A descriptor refers to a counted `struct file`, which tables of several
-- processes share, and which is an end of a pipe (src/kernel/pipe.c), a file of the Minix file system
-- (src/kernel/inode.c over src/kernel/block.c) or the terminal. System calls (src/kernel/syscall.c)
-- call the functions of process.c, these call the ones of the pipe or the inode, and a call that has
-- to wait puts its process on a wait queue.
--
-- The files, and what they model:
--   Base          Boolean tests, list functions, stores and machine integers on the native numbers
--   Bits          bit operations on words, by their bits
--   Sigset        src/kernel/lib/signal.c: a set is two 32-bit words
--   Bitset        src/kernel/lib/bitset.h: an array of words
--   Arithmetic    src/kernel/lib/arithmetic.c: the tests for overflow
--   Text          src/kernel/lib/string.c: a pointer is the bytes from there on
--   Pipe          src/kernel/pipe.c: one page as a ring, two counts, two wait queues
--   Links         src/kernel/lib/list.c: the two pointers of each cell, and the lists they stand for
--   Paths         src/kernel/lib/libgen.c: dirname and basename
--   Elf           src/kernel/elf.c: the check of a segment
--   Page          src/kernel/page.c; Page/Buddy is src/kernel/buddy.c, the free lists and the blocks,
--                 and Page/Slab src/kernel/slab.c, the slabs of a cache and their objects
--   Disk          the block device as src/kernel/inode.c uses it; Disk/Cache is src/kernel/block.c, which
--                 implements it on the card of src/kernel/mmc.c
--   Inode         src/kernel/inode.c: Inode has the allocation maps and the inode table, Inode/Zone
--                 extend_zone, shrink_zone and get_block, Inode/Data the operations on inodes
--   Process/Files src/kernel/process.c and src/kernel/file.h: descriptors and counted files;
--                 Process/Files/Calls has the calls on descriptors, Process/Files/Seek process_llseek
--   Process/Signals  src/kernel/process.c: sigaction, sigprocmask, kill, delivery and sigreturn
--   Process/Memory   src/kernel/process.c: segments, the break and the growth of the stack
--   Process/Life     src/kernel/process.c: fork, sleep, wake, exit, wait, and the scheduler
--   Tests         the theorems at concrete states
-- The laws of a component stand in its child modules. A function of the model has the name of the C
-- function it translates; a helper is a loop, a round of a loop or a branch of that function, named
-- for what it does.
--
-- State is passed explicitly. Functions of Process/Files run in a monad over the descriptors and the
-- objects at their addresses, in which a stop of the machine (system_halt, SYSTEM_BUG_ON, use of
-- freed memory) is `none`; pipe_read and pipe_write end in an outcome (returned, sleeping, bug).
-- In the models of their callers the addresses that slab_cache_alloc and buddy_alloc return are
-- arguments; Disk/Cache asks that the pages be different, which Page/Buddy shows for pages in use.
-- In Process/Life process_exit takes the wait queues of the pipes that go with the files as an
-- argument (Pipe has their release, Process/Files that of the files), and the SYSTEM_BUG_ON of
-- process_destroy is a result of process_wait.
-- Process/Life has the processes by their pid; Work is what a running process or an interrupt may do,
-- and Turns any sequence of that with calls of process_switch in between. An error is the negative
-- number that the C code returns.
--
-- Machine integers are natural numbers; additions and subtractions of 32-bit values go through add32
-- and sub32, casts to block_index and uint16_t are `% 0x1_0000`.
--
-- Loops over a list or a fixed range are structural. The loops of pipe_read and pipe_write have one
-- round a byte of the page and two more, which is enough since a round empties or fills the page up to
-- its end or to the other end of the ring. The loops that map pages have 2 ^ 20 rounds, the number of
-- pages of the address space. The clearing loop of inode_truncate has a round for each byte and one
-- more. The theorems on these calls say that they return.
--
-- buddy_free has a round for each order and one more, since each call of itself raises the order, and
-- the walk along a ring of cells needs one round more than the ring has cells.
--
-- Wait queues hold the sleeping processes in the order in which process_wake takes them. A call of
-- the pipe or of process_wait that sleeps ends the model's run of it, with the queue as it leaves it.
-- Outside Links and Page/Buddy a `struct list` is the list of its members; in Page/Buddy and Page/Slab
-- a list of blocks or slabs is the list that their `next` pointers link. slab_cache_alloc answers the
-- slab and the number of the object, of which object_address is the pointer. Strings are read and written in separate memory.
--
-- Not modelled: process_exec and the saved contexts of processes, process_open and the calls that
-- read and write through a descriptor, slab_cache_destroy, directory entries, the system call
-- dispatcher, the terminal, the loading of ELF files, and everything that only drives hardware (memory
-- management unit, interrupt controller, timer, serial port, memory card) or prints. User programs and
-- tests are not part of the kernel.
pub mod Base
pub mod Bits
pub mod Sigset
pub mod Bitset
pub mod Pipe
pub mod Disk
pub mod Inode
pub mod Links
pub mod Page
pub mod Process
pub mod Text
pub mod Paths
pub mod Elf
pub mod Arithmetic
pub mod Tests
