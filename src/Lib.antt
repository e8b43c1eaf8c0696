-- ===== src/Lib.antt =====
-- Verification library for the file system and the kernel of pintos/src.
--
-- A `none` result of a definition stands for a PANIC or a failed ASSERT unless its comment says
-- otherwise. Machine integers are native numbers with their wrap-around written out where it can
-- occur. Loops over lists and counters are structural recursions, so no fuel bound is needed there.
--
-- The parts, from the bottom up:
-- - Prelude: lists, byte blocks (`memcpy`), single bits of words, Boolean tests.
-- - Block (pintos/src/devices/block.c): sector reads and writes with the range check and the counters.
--   The drivers and the hardware are the parameter `Driver`; Block/RamDisk is an instance of it.
-- - Buffer (pintos/src/filesys/buffer.c): the cache of 64 sectors. `walk` is the loop over
--   `open_sectors`, `read_miss` and `write_miss` are what follows it at a miss. The children prove
--   the invariant (Invariant), the eviction (Evict), reads and writes (Read, Write, Stale), the
--   write-back (Flush, Empty), the order of use (Recency) and whole histories (Session). Each
--   function but `buffer_clean` runs under `list_revise_lock`, so it is one step of the state;
--   `buffer_clean` is two, with other calls between them. An access behind the end of a sector is a
--   failure here; the code goes on in the memory of another entry.
-- - Bitmap (pintos/src/lib/kernel/bitmap.c): words of 32 bits with the bit instructions, ranges and scans.
-- - BitmapFile: `bitmap_read` and `bitmap_write`, over the calls of file.c (`WordFile`), of which
--   nothing is assumed.
-- - FreeMap (pintos/src/filesys/free-map.c): allocation of sectors. The call of inode_create is a
--   parameter of `free_map_create`.
-- - Inode (pintos/src/filesys/inode.c): the index of a file, `inode_read_at` and the counters of an
--   open inode, over Buffer. `read_loop` has the size and one more round as fuel: each round but the
--   last copies a byte. Inode/Index compares the index with the flat list of the sectors,
--   Inode/Reading the reads with the bytes of the file. Locks and the memory of `calloc` are left out.
-- - File (pintos/src/filesys/file.c): the position of an open file, reads from it, and the writes
--   that it denies. The inode stands beside the file, since files can share it.
-- - Intq (pintos/src/devices/intq.c): the ring of bytes between threads and interrupt handlers, with
--   the lock among the threads that wait. A thread that has to sleep, for the lock or for the queue,
--   ends the step; its next try is another call.
-- - Path (pintos/src/filesys/filesys.c): `get_next_part` and the loop that walks a path. The loop has
--   fuel; Path/Walk shows that two calls more than there are slash-separated names before the last
--   are enough.
-- - Thread (pintos/src/threads/thread.c): the states of the threads, the ready list and the switch.
--   Each function runs with interrupts off, so it is one step. Thread/Order has the invariant,
--   Thread/Fairness the order of the yields.
-- - Synch (pintos/src/threads/synch.c): semaphores and locks. Synch/System lets the threads and the
--   interrupts act in any order; a schedule is the list of the actions, and an action that the code
--   does not allow leaves the state. Steps, Switch and Wake treat the actions one by one, Safety the
--   schedules, and Checked those in which threads misuse locks and fail an ASSERT.
-- - Strings (pintos/src/lib/string.c): searching, comparing, copying and splitting. Strings/Tokens calls
--   `strtok_r` until no token is left; two calls more than there are words with a delimiter behind
--   them are enough fuel.
-- - Palloc (pintos/src/threads/palloc.c): the two pools of pages over Bitmap, with the contents of
--   memory. Palloc/Pages has the allocation, Free what is given back, Apart two allocations, Init the
--   pools that palloc_init makes.
-- - LinkedList (pintos/src/lib/kernel/list.c): doubly linked lists on a heap of links. Chains and Cut
--   say what a heap that holds a list is, Insert and Remove change one place, Queue the ends, and
--   Refine compares histories with those of a sequence, Order inserts
--   into an ordered list, Extrema has list_max and list_min. A loop over a list takes one round
--   more than the list has elements. The other modules take a sequence for such a list.
-- - Hash (pintos/src/lib/kernel/hash.c): hash tables with chains. Hash/Rounding has the number of
--   buckets, which is its own fuel, Buckets the search in a bucket, Tables the search in all of them,
--   Moving the rehash, Counts the number of the elements, Elements the valid tables, Laws the operations.
-- - Directory (pintos/src/filesys/directory.c): lookups of a name, over `inode_read_at` and the cache.
--   The loop takes one round more than the file has whole entries.
--
-- Not modelled: creating, extending, writing, opening and closing inodes, adding, removing and listing
-- the names of a directory, buffer_init, the
-- functions of filesys.c that use a walked path, the making of threads, condition variables, malloc, sorting
-- of lists and list_unique, processes and system calls. Nor are interrupt and context switch code in
-- assembly, device drivers, the user programs and tests, and output to the console.
pub mod Prelude
pub mod Block
pub mod Buffer
pub mod Bitmap
pub mod BitmapFile
pub mod FreeMap
pub mod Inode
pub mod File
pub mod Intq
pub mod Path
pub mod Strings
pub mod Thread
pub mod Synch
pub mod Palloc
pub mod LinkedList
pub mod Directory
pub mod Hash
