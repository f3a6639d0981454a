-- ===== src/Lib.antt =====
-- Verification of the OS/161 kernel, os161/kern: its containers, its thread system and its
-- virtual file system layer.
--
-- Shared: Prelude (library names, Boolean tests, lists over machine-readable numbers, and
-- Prelude/Outcome with the result of running kernel code: a value, a panic, undefined behaviour,
-- or the end of the rounds that a model gives a loop); Errno (os161/kern/include/kern/errno.h).
--
-- Queue, Array and Bitmap are os161/kern/lib/queue.c, array.c and bitmap.c: a ring of pointers, a
-- resizable array and a set of bits, each a record of the C fields and one function per C
-- function, in the C names without their prefix (q_addtail is Queue.addtail). kmalloc is an
-- argument that says whether a request succeeds, `junk` is what a fresh block holds. Queue/Holds
-- says which list a ring holds, Array/Bounds what an array contains, Bitmap/Bits which bits are
-- set; Queue/Refine, Array/Size, Array/Calls and Bitmap/Alloc state the operations by these
-- views. Sizes wrap at 2^32 where the C code multiplies a size_t; a signed int that overflows is
-- undefined behaviour.
-- Rounds: Queue.grow_size doubles a size at least once a round, so the target size is enough
-- rounds; addtail_at calls itself once after growing, so a depth of 2 is enough; Array.grow_max
-- likewise takes the wanted size.
--
-- Scheduler is os161/kern/thread/scheduler.c over Queue; Threads is os161/kern/thread/thread.c
-- over Array and Scheduler: the current thread, the run queue, the sleepers and zombies, and the
-- calls that leave the thread system. A function that switches threads is one step up to the
-- context switch and one from there on (switch_out, switch_in). Threads/Switch has the invariant
-- that ties the lists together, Threads/Wakeup thread_wakeup, Threads/Fairness the order in which
-- threads run, Threads/Fork thread_fork. thread_wakeup looks at most once at each sleeper, so
-- their number is enough rounds. An interrupt while the scheduler idles is a function on the
-- state, in the list `wakes`.
-- Synch is os161/kern/thread/synch.c over Threads: P, V, lock_acquire and lock_release (p, v),
-- each with the pass of its loop after which the thread sleeps or goes on. Synch/Waiting states P
-- and V, Synch/Mutex the life of a lock as a step relation.
-- Vnode is os161/kern/fs/vfs/vnode.c with the interface of the file systems from include/vnode.h;
-- Vfs is os161/kern/fs/vfs: Vfs/Cwd and Vfs/Lookup are vfscwd.c and vfslookup.c, Vfs/Path is
-- vfspath.c (vfs_open is open_path). Vnode/Counts and Vnode/Opens say what the counting functions
-- do to the counts of all vnodes; Vnode/Held is about references to a vnode that stays
-- referenced. Vfs/Walk, Vfs/Chdir, Vfs/Balance and Vfs/Open have lemmas that follow the counts
-- through the layer, under the assumptions on a file system of Vfs/Contract. These are stronger
-- than the documentation of vnode.h: sfs_reclaim and dev_reclaim can leave the last reference,
-- and sfs_rename asserts that both directories are one. Vfs/OneDir is a file system that keeps
-- them. Vfs/Boot is about names with a colon. vfs_getroot of vfslist.c is an operation of the
-- interface.
--
-- Sfs is os161/kern/fs/sfs: Sfs has block transfers, the free map and sfs_bmap of sfs_io.c and
-- sfs_vnode.c, Sfs/Truncate sfs_truncate. The disk is a function from block numbers to bytes; the
-- device is an argument that says for each d_io whether it succeeds or, if it fails, with which
-- error and how many bytes of the uio it has moved by then; a d_io that fails leaves the block as
-- it was. sfs_rwblock retries ten times with the same uio: a d_io on a uio that a failed write
-- has used up writes nothing and returns 0. There are two hypotheses on the device. Accepts: it
-- does not answer EINVAL for a block of the file system. Rewinds, for what is stated of writes:
-- no d_io that returned EIO had used up its uio. Retries is both. Sfs/ReadBody reads what a file
-- can have, and Sfs/ReadPast is about reads that go past the largest file. An off_t compares as
-- 32 bits with a sign. Sfs/Mapping says which block of the disk holds which block of a file, and
-- that no two share one; Sfs/Bmap states sfs_bmap by it, Sfs/Shorten sfs_truncate. Sfs/Io has
-- sfs_partialio, sfs_blockio and sfs_io; Sfs/Look says what the bytes of a file are, Sfs/Read
-- states reading by them and Sfs/WriteFile writing. Sfs/Dir and Sfs/Find have the slots of a
-- directory and the search for a name. lhd_io of dev/lamebus/lhd.c keeps Rewinds as long as the
-- disk refuses no write.
-- Libc is memcpy and memmove of os161/lib/libc, which the kernel shares with user programs, on a
-- memory that is a function of addresses.
-- Uio is os161/kern/userprog/uio.c with the memory that a uio describes as lists of bytes: what
-- is still to come, and what reading has stored. Uio/Copy has copycheck, copyin, copyout and
-- copystr of os161/kern/lib/copyinout.c; UserMemory says whether touching a region of user memory
-- ends in copyfail, and after how many bytes; those bytes stay copied. uiomove of n bytes makes
-- at most n + 1 passes of its loop, uiomovezeros likewise.
--
-- Not modelled: the machine (registers, stacks, the MMU, assembly), device drivers, the rest of
-- SFS (links, inodes, mounting), the kernel heap, and console output.
-- Condition variables are empty functions in the source.
pub mod Prelude
pub mod Errno
pub mod Queue
pub mod Array
pub mod Bitmap
pub mod Scheduler
pub mod Threads
pub mod Vnode
pub mod Vfs
pub mod Synch
pub mod Sfs
pub mod Uio
pub mod Libc
