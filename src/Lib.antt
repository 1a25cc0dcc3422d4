-- ===== src/Lib.antt =====
-- An xv6 kernel for RISC-V, verified in parts. Paths are from the repository's root.
--
-- The kernel keeps processes (kernel/proc.c) that call one another through pipes (kernel/pipe.c),
-- takes its memory from a page allocator (kernel/kalloc.c), and keeps files on a disk behind a
-- block cache (kernel/bio.c) and a write-ahead log (kernel/log.c), which makes the disk writes of
-- each system call atomic. Spin locks make the critical sections of these parts atomic, so an
-- operation under its lock is one function here, and calls that sleep are split where they sleep.
--
-- The files:
-- - Prelude: shared names; Prelude/Tests has the Boolean tests and the order of C's int, whose
--   values are 32-bit words in two's complement; Prelude/Lists has lists and point updates;
--   Prelude/Tables has the two kinds of loop over a table.
-- - Log: kernel/log.c. `Machine` is the disk, the contents that `bread` returns for each block,
--   the pin counts, and `power`, the number of block writes until the device fails; a write takes
--   effect whole or not at all. `install_trans`, `write_log`, `write_head`, `read_head`,
--   `recover_from_log` and `commit` are the functions of these names; `init_log` is `initlog`
--   after a restart. Log/Words, Log/Phases, Log/Recovery and Log/Commit follow a commit phase by
--   phase, and Log/Crash puts the phases together. Log/Ops has `begin_op`, `end_op` and
--   `log_write`; a log of `size` blocks has the header and `size - 1` blocks for data, and `mkfs`
--   makes `size` equal to LOGSIZE. Log/Budget, Log/Reserve and Log/Calls have their
--   interleavings.
-- - Pipe: kernel/pipe.c. `write_pass` and `piperead` are what a call does between two sleeps;
--   user memory is a function that may fault at an address. Pipe/Ring sees the ring as a queue,
--   Pipe/Write and Pipe/Read describe a pass, Pipe/Steps lets passes of many processes alternate,
--   and Pipe/Fifo is what they leave.
-- - Bcache: kernel/bio.c and kernel/sleeplock.c. `Bcache` has the buffers and the links of their
--   list, `Storage` is the cache with the device. `bget`, `bread`, `bwrite`, `brelse`, `bpin`,
--   `bunpin` and `binit` are the functions of these names; `bread` is split where it sleeps for
--   the buffer's lock, and `bread_resume` is the rest of it. These are the calls when nobody
--   comes between; `unlock` and `drop_ref` are the two sections of `brelse`, and `read_in` is the
--   read of `bread`. Bcache/Links and Bcache/Lru see the list as a list, Bcache/Get, Bcache/Read,
--   Bcache/Release and Bcache/Boot treat the operations, Bcache/Contents what the cache shows of
--   a block, Bcache/Refs the references that are held, and Bcache/Steps, Bcache/Shares,
--   Bcache/Written and Bcache/Serial the interleavings of the critical sections. The list walk is
--   given a round for each buffer.
-- - Spinlock: kernel/spinlock.c. `acquire` and `release` are split at their writes to the lock;
--   `push_off` and the reads of `holding` are one step, as are those reads and the clearing of
--   the owner. Spinlock/Steps lets the CPUs take these steps in any order, with pushes and pops
--   for other locks between them; Spinlock/Exclusion is the invariant. The other parts take the
--   atomicity of their critical sections from here.
-- - File: kernel/file.c. `FileTable` is the table, and `Transfer` has the calls of pipes, devices
--   and inodes that move bytes; filestat is left out. File/Refs treats `filealloc`, `filedup` and
--   `fileclose` for a file with a given count, File/Held the references that processes hold,
--   File/Chunks the loop of `filewrite`, which is given a round for each byte. `locked_io` and
--   `transaction` are the calls under an inode's lock and in a transaction.
-- - Strings: kernel/string.c over memory as bytes at their addresses. Strings/Bytes treats
--   memset, memcmp and memmove, Strings/Text the functions on strings. The loop of `strlen` takes
--   fuel; more rounds than the string has letters are enough.
-- - Kalloc: kernel/kalloc.c over memory as 64-bit words. Kalloc/Chain describes the free list,
--   Kalloc/Init the boot. The loop of `freerange` is given a round for each page below its end.
-- - Proc: kernel/proc.c. `Kernel` is the process table with `nextpid` and `initproc`; what the
--   operations ask of the allocator, the page tables and the files is an argument (the page that
--   `kalloc` returned) or is recorded in `calls`. Proc/Fork, Proc/Wake and Proc/Born treat fork,
--   wakeup and kill; An operation is one step, so the separately locked sections of fork and the
--   calls of exit that sleep are not interleaved with others. Proc/Life has exit, wait, sleep,
--   yield, the scheduler's choice and growproc; Proc/Tree is the invariant of the process tree.
-- - Fs: kernel/fs.c. `Disk` is the disk as the cache shows it: the data that `bread` returns for
--   each block, and the blocks of the `log_write` calls, which reach the disk when the log
--   commits (Log). Fs/Logged says which changes have been logged; `balloc`, `bfree`, `iupdate`,
--   `bmap`, `readi` and `writei` are the functions of these names, and `get_inode` is what
--   `ilock` reads. Bits of a bitmap and words of a block are bytes with their positions written
--   out; user memory is a function that may fault at an address. Fs/Blocks treats the bitmap.
--   Fs/Inode/Codec is an inode's form on the disk; Fs/Inode/Slots sees the blocks that an inode
--   names as one table, Fs/Inode/Grow and Fs/Inode/Bmap how it gets a further one,
--   Fs/Inode/Content and Fs/Inode/Progress how a write changes the bytes, Fs/Inode/Write and
--   Fs/Inode/Wrote treat `writei`, Fs/Inode/ReadUpTo and Fs/Inode/Read `readi`, and
--   Fs/Inode/RoundTrip both. Fs/Inode/Free follows the loops of `itrunc`, and Fs/Inode/Trunc is
--   the whole. Fs/Itable is the table of inodes: `iget`, `idup`, `ilock`, `iunlock` and `iput`,
--   the last one split at its locks for Fs/Itable/Steps, which lets processes call them in any
--   order; Fs/Itable/Scan treats the search, Fs/Itable/Refs the references held,
--   Fs/Itable/Changes and Fs/Itable/Valid the invariant, Fs/Itable/Alloc `ialloc`. Fs/Dir has
--   `dirlookup` in front of its `iget`, and Fs/Dir/Search what it finds; the loop is given a
--   round for each byte of the directory. Fs/Path has `skipelem`, `namex`, `namei` and
--   `nameiparent` over a tree of which `dirlookup` is a parameter; a path is a list of bytes.
--   Fs/Path/Elements says what the elements of a path are, Fs/Path/Walk where they lead.
-- - User: the library of the user programs, user/ulib.c and user/printf.c. User/Ulib has `atoi`,
--   `strcmp`, `strchr` and `gets`, which returns the bytes that it has written, User/Printf
--   `printint`, `printptr` and `vprintf`, whose output is a list of bytes; an argument that is
--   missing is an error. User/Number treats the numbers, with 32 rounds for the digits, as many
--   as a number has in base 2, and User/Text lines and strings.
-- - Vm: kernel/vm.c, the lookup in a page table and the copies between the kernel and a process;
--   the entries of the page tables are kept apart from the other bytes of memory. Vm/Copy treats
--   `copyin`, Vm/Part and Vm/Text `copyinstr`. Their loops are given a round for each byte.
-- - Grep: the matcher of user/grep.c; `match_text` is `match`. A pattern and a text are lists of
--   bytes without the terminating zero. Grep/Meaning says what a pattern describes.
-- Each part has a module Tests with small runs and the theorems at concrete inputs.
--
-- Bounds and fuel: the loops over tables recur on the entries left. A `uint` wraps at 2^32.
-- `readi` and `writei` are given a round for each byte, `namex` one for each byte of the path and
-- one more. `freerange`, `scan`, `filewrite_loop` and `strlen_loop` take fuel, as said above, and
-- their theorems are about the values that they return with it.
--
-- Not modelled: the functions of kernel/vm.c that change a page table, `dirlink` and the boot
-- (kernel/fs.c), the system call layer, traps and devices, the assembly, and the user programs
-- but for the matcher of grep and parts of their library. The virtio driver and the page tables
-- are seen through what their callers get from them.
pub mod Prelude
pub mod Log
pub mod Pipe
pub mod Kalloc
pub mod Proc
pub mod Fs
pub mod Grep
pub mod Spinlock
pub mod File
pub mod Bcache
pub mod Strings
pub mod User
pub mod Vm
