-- ===== src/Lib.antt =====
-- A model of the micro kernel: its files, pipes, terminals, memory, threads and task identities,
-- and what holds of them.
--
-- Parts, and where they are modelled (paths from the root of the repository):
--   * RingBuf: the byte rings of kernel/kern/ringbuf.c. A ring is a record with its two indices and
--     its storage; `Contents` reads it as a sequence.
--   * Pipe: kernel/kern/fs/pipe.c over a ring. A call that would block is a round that yields;
--     threads interleave as a sequence of such calls.
--   * Pty: kernel/kern/tty.c over two rings, and the names of the slaves, which Stdlib prints as
--     `itoa` of kernel/kern/stdlib.c does.
--   * Path: `vfs_mkcanon` of kernel/kern/fs/vfs.c over `strtok_r` of kernel/kern/stdlib.c. A text is a
--     list of bytes without its terminator.
--   * Vfs: the rest of kernel/kern/fs/vfs.c: permissions (Perm), the mount table (Mount), resolution
--     (Resolve), open files (File) and operations on names (Names). Drivers are reached through the
--     tables of function pointers of kernel/include/micro/vfs.h only, so `Drivers` is a parameter, with
--     a state of its own. An operation ends with a value, with an error number, or with a fault, which
--     is undefined behaviour such as a call of a null pointer.
--   * Sys: the system calls of open.c, link.c, readwr.c, fcntl.c, ioctl.c, readdir.c and pipe.c in
--     kernel/kern/fs. Their state is the running task, the open files and inodes on the heap, to
--     which a pointer is an index, so that descriptors share an open file, and the mount table.
--   * Ids: users, groups, process groups and sessions, of kernel/kern/sys.c.
--   * Wait: the searches for changed children of kernel/kern/exit.c. A child that was taken over from
--     another task is marked, since its end leaves it in the list.
--   * Heap: `kmalloc` and `kfree` of kernel/kern/heap.c, over the list of blocks in address order.
--   * Mmu: kernel/arch/amd64/amd64/mmu.c. Frames is the bitmap of page frames, over Bitmap, which ext2
--     shares; Tables the page tables of a user space; Areas the list of mapped areas; Fault
--     page faults, over these three; Pages the virtual pages of the kernel. Words has the bit
--     operations on the words of the tables.
--   * Ext2: kernel/dev/ext2/ext2.c over a disk, which keeps the blocks written to it: the packed
--     structures as bytes (Codec), inodes (Inodes, Attributes), allocation (Alloc), the blocks of a file
--     (Map), reading and writing (File), directories (Dir).
--   * LinkedList: kernel/kern/list.c over a store of nodes by their addresses; `kmalloc` is the address
--     that a call gets as its argument.
--   * Sched, Sem and Signal: the ready queue of kernel/kern/sched.c on one processor, the semaphores of
--     kernel/kern/sem.c over it, and the signals of kernel/kern/signal.c and kernel/kern/thread.c.
--   * Tasks: how a task is made and ends, kernel/kern/task.c, over the tasks by their addresses, with
--     the count that the list of children keeps. An end may also be a fault, or never come.
--   * Errno: the error numbers. Prelude: lists, tests and machine words shared by all.
--
-- Words of the machine wrap where the code computes on them (`add_size`, `sub_size`, `% 2 ^ 64`); a
-- signed word is given by its bit pattern. Fuel: the token loop gets one round more than the text has
-- bytes, and every token takes a byte; `digits` gets as many rounds as the number, which every round
-- makes smaller; `strrev` as many as the text has bytes; and the eight calls of `do_vfs_resolve` are
-- those that the code counts itself; `switch_next` has its number of rounds as an argument, and a
-- queue of ready threads needs one; the search of a directory has its rounds as an argument, and more
-- than the directory has bytes are enough; `list_clear` needs one for each node.
--
-- Not modelled: locks and several processors, fork and exec, program loading, the other drivers,
-- interrupts, user programs. The failures of the disk are left out, since the code does not test for
-- them. The fixed buffers of paths, but for the working directory of a task, are taken to be long
-- enough, and memory never to run out where the code does not test for it.
pub mod Tasks
pub mod LinkedList
pub mod Prelude
pub mod RingBuf
pub mod Pipe
pub mod Path
pub mod Errno
pub mod Vfs
pub mod Sys
pub mod Heap
pub mod Ids
pub mod Stdlib
pub mod Wait
pub mod Pty
pub mod Bitmap
pub mod Mmu
pub mod Ext2
pub mod Sched
pub mod Sem
pub mod Signal
pub mod Tests
