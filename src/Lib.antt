-- ===== src/Lib.antt =====
-- FastIPC: an xv6 kernel for RISC-V with shared ring buffers between two processes.
--
-- The parts and the files that model them. Paths are from the repository's root.
--
--  * Memory.antt: the byte-addressed memory, its 64-bit words, `memset` and `memmove` of
--    Xv6-Kernel/kernel/string.c and `mymemmove` of Xv6-Kernel/kernel/vm.c. A pointer is a number and
--    the memory one function from addresses to bytes, so aliasing is equality of addresses.
--  * Text.antt: `strcmp`, `strncmp`, `strncpy` and `safestrcpy`; a string is the list of its bytes up to
--    the NUL.
--  * Kalloc.antt: the page allocator of Xv6-Kernel/kernel/kalloc.c. The free list lies in the memory:
--    each free page begins with the address of the next. Kalloc/FreeList.antt says when a memory
--    holds such a list, Kalloc/Refine.antt relates the functions to a list of pages.
--  * Vm.antt, Vm/Grow.antt, Vm/Copy.antt: the page tables of Xv6-Kernel/kernel/vm.c, which also lie
--    in the memory and take their pages from the allocator. Vm/Walk.antt and its children are about
--    the walk, Vm/Ends.antt and Vm/Copy/Ends.antt about the loops, Vm/Unmap.antt about unmapping.
--  * Ringbuf.antt, Ringbuf/Calls.antt: the table of rings of Xv6-Kernel/kernel/ringbuf.c, with
--    `createbuf`, `closebuf` and `ringbufCleanup`. They map the pages of a ring by Vm and Kalloc.
--  * Ipc.antt: the library Xv6-Kernel/user/fastipc.h, by which a process uses its rings.
--    Ipc/Stream.antt has a writer and a reader as two state machines that share the counters and take
--    a step at each access, in any order.
--  * Pipe.antt: the pipe of Xv6-Kernel/kernel/pipe.c, and Pipe/Queue.antt and Pipe/Refine.antt a
--    bounded queue that it implements.
--  * Log.antt: the log of the file system, Xv6-Kernel/kernel/log.c. A commit is the sequence of its
--    disk writes, so that the disk at a crash is the result of a prefix of them; Log/Recovery.antt is
--    about crashes, Log/Space.antt about the room that operations reserve.
--  * Spinlock.antt and Sleeplock.antt: the locks of Xv6-Kernel/kernel/spinlock.c, with the nesting of
--    disabled interrupts, and of Xv6-Kernel/kernel/sleeplock.c.
--  * Bio.antt: the buffer cache of Xv6-Kernel/kernel/bio.c, each of whose buffers has a sleep lock. The
--    cache is the list of its buffers in order of use; Bio/Contents.antt says when the cache and the
--    device together hold given blocks.
--  * Fs.antt: the file system of Xv6-Kernel/kernel/fs.c over its blocks, from the map of the blocks in
--    use (Fs/Alloc) by the inodes and `bmap` (Fs/Inode) and `readi` and `writei` (Fs/Content) to the
--    table of inodes (Fs/Icache), directories (Fs/Dir) and paths (Fs/Path). A block is the bytes that
--    `bread` gives; a change followed by `log_write` is one of the blocks and of the log's header.
--    Fs/Inode/Map.antt says when the blocks of a file are sound.
--  * File.antt: the table of open files of Xv6-Kernel/kernel/file.c; File/Counts.antt relates the
--    reference counts to the references that are held.
--  * Proc.antt: the table of processes of Xv6-Kernel/kernel/proc.c. Proc/Life.antt has the state that
--    its functions share and those that set up and free an entry, Proc/Calls.antt `fork`, `exit` and
--    `wait`, Proc/Run.antt the scheduler. They call the page tables, the open files, the table of
--    inodes and the log. Proc/Family.antt and its children keep of each process whether it is in use or
--    has exited, its parent and its pid, and say what each call does to these; `fork` is three steps
--    there, since it holds no lock between them.
--  * Shell.antt: the parser of the shell, Xv6-Kernel/user/sh.c, on the text of a line. Shell/Printing.antt
--    prints commands, and Shell/Words.antt, Shell/Parts.antt and Shell/Reading.antt are about reading
--    them back.
--  * Sysfile.antt: the system calls of Xv6-Kernel/kernel/sysfile.c that make and remove names of files
--    over Fs, and those that duplicate and close descriptors over File.
--  * Base.antt: lists, options, Boolean tests, machine integers and outcomes for all of these.
--
-- A function that can panic, or read outside a table, returns an `Outcome`: `ok`, `panic`, or `fault`.
-- `fault` also stands for a loop of the model that has run out of its rounds, and for a call of `ilock`
-- on an inode whose lock the process holds already, which sleeps for ever. Spin locks are held over a
-- whole call or a whole run of a loop, so such a run is one step, but for `fork`; a call that sleeps
-- returns the place where it sleeps. A `uint64` is a number below 2^64 and its arithmetic is written out
-- modulo 2^64, an `int` likewise modulo 2^32. The calls of the file system are run by one process at a
-- time, so the sleep lock of an inode is a flag, whether that process holds it.
--
-- Rounds: `mappages` is given one more than the pages below MAXVA, after which `walk` panics;
-- `copyout`, `copyin` and `copyinstr` one for each byte, as each round takes a byte or more;
-- `mymemmove` one for each byte; the search for a place of a ring eleven, as ten jumps pass the last
-- place; `freewalk` the three levels of a table; `balloc` one for each block of the map and two more;
-- `readi` and `writei` one for each byte and one more, as each round takes a byte or more; the loops
-- over a directory one for each entry and two more; `namex` one for each byte of the path and one
-- more, as `skipelem` returns a shorter path; each loop of the shell's parser, and the nesting of its
-- calls, one for each byte of the text and one more, as each token takes a byte or more.
--
-- Not modelled: the switch of stacks, for which what runs meanwhile is an argument of the scheduler;
-- traps, devices, the fetching of the arguments of system calls, `exec`, `open` and `pipe`, and the
-- user programs but for the parser of the shell, whose words are their text, as `nulterminate` leaves
-- it. What the system call returned is an argument of `create_ring_buf`, and whether a copy to or from
-- user memory succeeds is one of `readi` and `writei`. Of the file system `fsinit`, `readsb` and
-- `iinit`, which run once, and `stati`.
pub mod Base
pub mod Bio
pub mod File
pub mod Fs
pub mod Ipc
pub mod Kalloc
pub mod Log
pub mod Memory
pub mod Pipe
pub mod Proc
pub mod Ringbuf
pub mod Shell
pub mod Sleeplock
pub mod Spinlock
pub mod Sysfile
pub mod Text
pub mod Vm
