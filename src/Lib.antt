-- ===== src/Lib.antt =====
-- Xinu: the kernel's process queues, heap, scheduler, semaphores, messages and timers, the buffer
-- pools, the ports, the file system in memory, the loopback device, the name space, dotted addresses, the tokenizer of the shell, and the
-- string library.
--
-- Parts
--   Strings models lib/*.c. A string or an object is the list of the bytes from a pointer on, a
--   call that would read or write beyond it returns `none`, and a pointer into it is an index.
--   Strings/Scan is strlen, strnlen, strchr, strrchr, memchr and strstr, Strings/Compare is strcmp,
--   strncmp and memcmp, Strings/Copy is strcpy, strncpy, strncat, memcpy, memset and bzero, and
--   Strings/Number is atoi.
--   Queue models system/queue.c, newqueue.c, getitem.c, insert.c, insertd.c and include/queue.h.
--   The table `queuetab` is a function from indices to entries; `isbadpid`, which reads the process
--   table, is an argument. Queue/Chain and Queue/Frame say when the table holds a list of
--   processes, Queue/Fifo is about the unsorted operations, Queue/Order about `insert`, Queue/Delta
--   and Queue/Wake about `insertd`, Queue/Fresh about `newqueue`.
--   Memory models system/getmem.c, freemem.c, getstk.c, meminit.c and include/memory.h. The store
--   maps an address to the block header that may stand there; entry 0 is `memlist`. Memory/Blocks
--   is the free list as a list of blocks with first fit and coalescing on it, Memory/Allocate and
--   Memory/FirstFit are about `getmem`, Memory/Release, Coalesce, Merge and Bytes about `freemem`,
--   Memory/Return about the two together.
--   Kernel models the process table, the semaphore table and the scheduler: Kernel/Sched is
--   system/resched.c, ready.c, yield.c and getpid.c, Kernel/Sem is wait.c, signal.c, signaln.c,
--   semcreate.c, semdelete.c, semreset.c and semcount.c, Kernel/Proc is suspend.c, resume.c,
--   chprio.c and getprio.c, Kernel/Message is send.c, receive.c, recvclr.c and recvtime.c, and
--   Kernel/Timer is sleep.c, wakeup.c and unsleep.c. The scheduler and the semaphores use the
--   queues of Queue. Kernel/Switch, Blocking, Counts, Calls, Creation, Priority and Delivery hold
--   the theorems, Kernel/Untouched what rescheduling leaves alone. Kernel/Invariant ties the process
--   table, the ready list and the queues and counts of the semaphores together; its child modules
--   are about one call or a few each (Semaphores is `wait`, Signal `signal`, Leaving `yield`,
--   `resume` and the start of `receive`, Suspending `suspend`, Messages `send`, `recvclr` and the
--   end of `receive`, Creating `semcreate`), and Reach puts any sequence of them together.
--   Bufpool models system/bufinit.c, mkbufpool.c, getbuf.c, freebuf.c and include/bufpool.h on top of
--   `getmem` and the semaphores. Bufpool/Chain is about the lists of free buffers, Bufpool/Buffers
--   about the buffers linked in new memory, Bufpool/Make about `mkbufpool`.
--   Ports models system/ptinit.c, ptcreate.c, ptsend.c, ptrecv.c, ptclear.c, ptreset.c, ptdelete.c,
--   ptcount.c and include/ports.h on top of `getmem` and the semaphores. Ports/Nodes is about the lists
--   of nodes and says when every node is in one list, Ports/Moves, Sending, Receiving and Clearing
--   about the changes of these lists, Ports/Delivery about ptsend and ptrecv with their semaphores,
--   Ports/Reset about ptreset and ptdelete, Ports/Creating and Starting about ptcreate and ptinit.
--   The disposal function that the caller of ptreset and ptdelete passes is an argument, which changes
--   a state of its own.
--   Fs models system/bs.c, fs.c and include/fs.h. The memory of the disk is a function from 32-bit
--   offsets to bytes, and an inode is read from and written to its 64 bytes there. Fs/Bytes is about
--   these bytes, Fs/Inodes about `fs_get_inode_by_num` and `fs_put_inode_by_num`, Fs/Mask about the
--   mask of used blocks. Fs/Calls is the calls on files: Fs/Calls/Slots is about the search for a
--   descriptor, Fs/Calls/Opening about `fs_open` and `fs_close`, Creating about `fs_create`, Seeking
--   about `fs_read` and `fs_write`. The messages that the calls print are left out.
--   Loopback models device/loopback/loopbackInit.c, loopbackOpen.c, loopbackClose.c, loopbackGetc.c,
--   loopbackPutc.c and loopbackWrite.c on top of the semaphores of Kernel. Loopback/Ring is the ring
--   buffer as a bounded queue, Loopback/Write the loop of `loopbackWrite`.
--   Nam models device/nam/mount.c, nammap.c and include/name.h. Nam/Replace is the search of a list of
--   prefixes, Nam/Replace/Search compares `namrepl` with it, Nam/Mount is about `mount`, Nam/Map
--   about `nammap`, Nam/Long about names whose length a `char` does not hold.
--   Shell models shell/lexan.c. Shell/Lines is about any line with an end, Shell/Print and
--   Shell/Print/Reading about lines written from a list of parts.
--   Net models net/dot2ip.c; Net/Dotted is about a string written from its segments.
--   Prelude holds the shared names and the lemmas on lists, tests and numbers. A module called
--   Tests applies the theorems to concrete data.
--
-- Concurrency. Every call runs with interrupts disabled, so a call is one step up to the context
-- switch in `resched`. A call that goes on after the switch is a second function, which takes the
-- process that goes on (`receive_exit`, `recvtime_exit`, `loopback_getc_exit`, `getbuf_exit`,
-- `ptsend_exit`, `ptrecv_exit`, `ptreset_exit`, `ptdelete_exit`).
--
-- Numbers. C's 32-bit integers are patterns below 2 ^ 32 with the wrap-around written out; signed
-- comparisons go through `bias`, which adds 2 ^ 31. A table has 100 processes, 100 semaphores and
-- the entries of NQENT, as config/Configuration and include/queue.h set them.
--
-- Fuel. `insert_position` and `insertd_position` get one step for each entry of the table; a queue
-- has at most as many processes as there are, by a pigeonhole argument. The free list gets 2 ^ 29
-- steps: a block has at least 8 bytes. `newsem_from` runs once for each semaphore, as in the code.
-- `release_all` gets one step more than a count can be below 0, `drain` and `wakeup_loop` one for
-- each entry of the table. `lexan_from` gets one step for each byte of the line: a round takes one.
-- `nammap_from` runs once for each name, as in the code. `dispose_from` gets one step more than there
-- are addresses, and a list without a node twice is shorter. `create_from`, `find_slot`, `find_entry`,
-- `find_inode` and `find_block` run as often as their loops in the code; `read_loop` and `write_loop`
-- get one step for each byte that is left, and a round moves one at least. `round8` gets 8 steps.
--
-- Parameters. NDEVS, which the configuration program writes into conf.h, is an argument of `mount`;
-- what the buffer on the stack holds is one of `nammap`, and what the local variable m of `fs_write`
-- holds before it is set is one of `fs_write`. `char` has no sign, as on the ARM, which
-- compile/Makefile builds for.
--
-- Not modelled: context switching, the TLB and the page tables, `loopbackRead`, which may block in
-- every round, `loopbackControl`, `naminit` and `namopen`, which go through the generated device
-- table, the other device drivers, the network but for `dot2ip`, the local and the remote file system,
-- the printing of the file system's state, the commands of the shell, start-up, `create` and `kill`,
-- futures, and formatted input and output; the tools under config/ and compile/.
pub mod Prelude
pub mod Strings
pub mod Queue
pub mod Memory
pub mod Kernel
pub mod Loopback
pub mod Shell
pub mod Nam
pub mod Bufpool
pub mod Net
pub mod Fs
pub mod Ports
