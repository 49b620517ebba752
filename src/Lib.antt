-- ===== src/Lib.antt =====
-- vimix: an operating system kernel for RISC-V in C, with its file system and user programs. This
-- library models parts of the kernel and states what makes them correct.
--
-- A process calls the kernel through system calls. Files of every kind are reached through a virtual
-- file system, which asks kernel/kernel/permission.c before it opens, changes or unlinks a file. The
-- disk file system vimixfs reads and writes blocks through the buffer cache (kernel/kernel/bio.c) and
-- groups its writes into transactions of a redo log (kernel/fs/vimixfs/log.c), which is replayed when
-- the file system is mounted. Processes exchange bytes over pipes (kernel/ipc/pipe.c), whose buffer is a
-- page of the page allocator (kernel/mm/kalloc.c). The blocks of a file are found and allocated by
-- kernel/fs/vimixfs/bmap.c, whose changes go to the log. The page allocator also gives the pages of small
-- objects (kernel/mm/slab.c, cache.c) and takes back those of an address space whose regions
-- kernel/mm/memory_map.c removes. Below all of it stand the locks, the string and printing functions and
-- the buffers of kernel/lib.
--
-- Which file models which part:
-- - Base: names, Boolean tests and arrays that all modules share.
-- - Pipe: kernel/ipc/pipe.c. `Pipe` is struct pipe. A call of pipe_write or pipe_read is cut where it
--   sleeps: a segment runs under the pipe's lock and hands back where it stopped. Pipe/Ring has the
--   ring, Pipe/Inv the invariant, Pipe/Stream the traces of segments of any number of processes.
-- - BlockStore: the disk, the buffers of kernel/kernel/bio.c and the order of disk writes. A power
--   failure keeps a prefix of the writes.
-- - Journal: the side of kernel/fs/vimixfs/log.c that works on the disk: read_head, write_head,
--   write_log, install_trans, commit, recover_from_log. The words of a header block are a list.
-- - Transactions: the side of the same file that works in memory: the clients' reservations, log_write,
--   the end of a transaction. The waiting loop of a begin is a step that sleeps or starts.
-- - Permission: kernel/kernel/permission.c, every function. Permission/Classes compares it with the
--   three classes of a mode, Permission/OpenFlags follows the flags of an open file.
-- - PageAlloc: the buddy allocator of kernel/mm/kalloc.c. `KernelMemory` keeps the free lists by order;
--   the functions recurse on the lists from an order up, which ends at PAGE_ALLOC_MAX_ORDER.
--   PageAlloc/Counting says how many free blocks hold an address.
-- - CString: kernel/lib/string.c. A pointer is the list of the bytes up to the end of its object, so that
--   a read behind the end has no result; memmove works on a memory by address.
-- - RwSpinLock: kernel/lib/rwspinlock.c as a step relation, one atomic access of one CPU a step.
-- - CircularBuffer: kernel/lib/cbuffer.c, with the storage as a function of the index.
-- - Division: kernel/lib/div64.c. Division/Quotient follows the loop over the 64 bits, Signed the signs.
-- - InterruptStack: kernel/kernel/cpu.c, the nesting of sections without device interrupts on one CPU.
-- - Credentials: the system calls of kernel/syscalls/sys_cred.c that change user and group ids.
-- - MemoryMap: kernel/mm/memory_map.c. The list of regions is a List; MemoryMap/Lookup says what an
--   address maps to, Add and Split add a region, Remove and Ranges remove a range of addresses.
-- - BlockMap: kernel/fs/vimixfs/bmap.c for one inode. `Volume` holds the bitmap, the words of blocks, the
--   logged block numbers and the addresses of the inode. BlockMap/Alloc and Free are about the bitmap,
--   Slots names the addresses a file holds, Store, Gives and Lookup follow an allocation among them. The
--   search of the bitmap runs for one round for each block of the disk, and each advances by 8192 blocks.
-- - BufferCache: kernel/kernel/bio.c and buf.c. Buffers has the list of buffers, each known by its address,
--   Operations the functions. What kmalloc returns is an argument. BufferCache/Runs has the sequences of
--   calls, Invariant the counters and references, Coherence what buffers and disk hold for the callers.
--   Get and Acquire, Read and Reading, Changes, Release and Leaving, Trim, Limits and Settings follow the
--   calls.
-- - Print: kernel/lib/print_impl.c. A store outside of a local buffer has no result. Print/Digits has the
--   loop over the digits, Print/Buffer the padding, Numbers the text of a number, Bounded the memory that
--   vsnprintf changes, Format the format and its arguments, Ending the rounds of print_impl, which are one
--   for each character of the format and one more.
-- - Slab: kernel/mm/slab.c, the objects of one size in a page. Slab/Objects has the list that a new slab
--   starts with, Slab/Holding the objects that callers hold. The loop that builds the list runs for at most
--   one round for each byte of the page.
-- - ObjectCache: kernel/mm/cache.c on top of Slab. Pages says which slab the held objects are in, Alloc and
--   Free follow the loops over the slabs, Sound and Calls the calls, Separate and Holding the objects that
--   callers hold.
-- - SleepLock: kernel/lib/sleeplock.c with sleep and wakeup of kernel/kernel/proc.c, as steps of any number
--   of processes. SleepLock/Invariant says who holds which lock, Steps, Sleeping and Advance follow the
--   steps, Safety and Progress read off what the invariant means, Waking follows the loop of wakeup.
-- The Tests module of each part runs it on small inputs.
--
-- Numbers are natural numbers. The counters of a pipe, of log reservations and of allocated pages wrap
-- at their width, and those of the buffer cache where they count down; sums of addresses, block numbers,
-- references and counts of characters are taken not to. A division of words keeps the remainder of a word
-- in each shift, and the signed one negates in two's complement; its recursion has a bound on its depth,
-- and three calls are enough unless a number is LLONG_MIN. Loops over data recurse on the data. The rounds
-- of kalloc_init_memory_region run on fuel of one round for each page of the region and one more, and each
-- round advances by a page at least; the rounds of a wait are steps. Memory is sequentially consistent.
--
-- Not modelled: printk and debug checks, the contents of allocated pages and objects, device drivers, the
-- machine layer, the vendored libraries, and the parts that later extensions are to add: the rest of
-- vimixfs, open files, the life of processes and the choice of the next one, page tables, most system
-- calls.
pub mod Base
pub mod Pipe
pub mod BlockStore
pub mod Journal
pub mod Transactions
pub mod Permission
pub mod ObjectCache
pub mod PageAlloc
pub mod CString
pub mod RwSpinLock
pub mod CircularBuffer
pub mod Division
pub mod InterruptStack
pub mod Credentials
pub mod MemoryMap
pub mod BlockMap
pub mod BufferCache
pub mod Print
pub mod Slab
pub mod SleepLock
