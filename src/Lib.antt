-- ===== src/Lib.antt =====
-- The inter-process tools of the second assignment phase (a2-phase2): a list library on two fixed
-- pools (list.h, list_adders.c, list_movers.c, list_removers.c), the monitor server of Monitor.c, a
-- process that keeps its queues of PIDs in such lists and answers the messages of MonInit, MonEnter,
-- MonLeave, MonWait and MonSignal, the reader-writer monitor on top of it, the chat program s-chat on
-- the same lists, and, apart from these, the mutexes, the user threads and the prime sieve that were
-- added to xv6, and of xv6 itself the process table, the pipes, the spinlocks, the page allocator, the
-- log of the file system, and the operations on memory.
--
-- Prelude: the shared names, tests and lists over native numbers.
-- NodePool: the pools of list.h and Monitor.c as one record, with every global of the library, and
--   commands that read and write them. A command ends in a result and a pool, faults (an index
--   outside `pool_nodes`, or a read through NULL), or runs out of fuel. The functions of the library
--   are NodePool/Alloc (nodeAllocator, ListCreate), NodePool/Add (ListAdd, ListInsert, ListAppend,
--   ListPrepend), NodePool/Move (ListCount, ListSearch, ListFirst, ListLast, ListNext, ListPrev,
--   ListCurr) and NodePool/Remove (ListRemove, ListConcat, ListFree, ListTrim); the modules below each
--   say what a call does to the pools. NodePool/Links and NodePool/Shape describe a list in the
--   pools by the sequence of its nodes, and NodePool/Queues several lists at once.
-- Monitor: the static variables of Monitor.c as a record, one function for each case of the switch in
--   MonServer, and the loop over the messages that Receive gives. Monitor/Hoare is the monitor as an
--   abstract machine, one owner and first-in first-out queues; Monitor/Agree relates it to the
--   server's variables and pools; Monitor/Run and Monitor/Server run whole sequences of messages.
-- Mutexes: the mutexes of the xv6 kernel (a2-phase2/xv6-A2/kernel/proc.c): the table, procinit's part
--   of it, sys_mtx_create, sys_mtx_lock and sys_mtx_unlock, with wakeup on the channel of a mutex.
--   What sys_mtx_unlock does under the spinlock of a mutex is one step; sys_mtx_lock has two, the test of
--   the argument and the test of the loop. sys_mtx_create holds the lock of the table only, and is three
--   steps, up to its write of used, the write of locked, and the write of owner. A sequence of events is any order of such steps by any processes, a kkill of
--   a sleeping one included. The table has 64 slots, as in proc.h.
-- Memory: the block and string operations of the xv6 kernel (a2-phase2/xv6-A2/kernel/string.c) on a
--   memory of bytes. A block does not wrap around the end of the address space, and memset is called
--   with less than 2 ^ 31 bytes.
-- Chat: s-chat.c (a2-phase2), the threads keyboard, listener, display and speaker over their two lists
--   in the same pools, and the packets that they send and receive.
-- Pipe: the ring buffer of the xv6 pipes (a2-phase2/xv6-A2/kernel/pipe.c).
-- Threads: the user threads of xv6 (a2-phase2/xv6-A2/user/uthread.c), with the registers that
--   thread_switch saves and loads. Threads/Main has the calls of the threads once main waits for them.
-- Pages: the page allocator of the xv6 kernel (a2-phase2/xv6-A2/kernel/kalloc.c). The loop of freerange
--   runs on as many rounds as there are bytes; it stops of itself before.
-- Locks: the spinlocks of the xv6 kernel (a2-phase2/xv6-A2/kernel/spinlock.c), with the nested disabling of
--   interrupts, and any number of processors that take one lock.
-- ReadWrite: the reader-writer monitor (a2-phase2/reader_writer_monitor.c), whose procedures run over the
--   server of Monitor. A step takes a process from the reply of MonServer to one message to the next
--   message. ReadWrite/Ideal has the same over Monitor/Hoare, which ReadWrite/Served relates to the
--   server as long as no queue holds two processes; ReadWrite/Queued says which queue each process
--   waits in, and ReadWrite/Tally what the two variables count.
-- Sieve: the prime sieve of xv6 (a2-phase2/xv6-A2/user/primes.c), a chain of processes with a pipe between
--   each two, in any order of their steps. A pipe holds numbers here, of 4 bytes each.
-- Journal: the log of the xv6 file system (a2-phase2/xv6-A2/kernel/log.c), with the machine that may
--   stop at every block that it writes. Journal/Runs has the operations in any order, the commits
--   and the stops; Journal/Replay is what installing the log makes of a block.
-- Processes: the process table of the xv6 kernel (a2-phase2/xv6-A2/kernel/proc.c), with fork, exit, wait,
--   kill, sleep and wakeup. What a process does under wait_lock is one step, and so is a fork, whose
--   child nobody else can reach before it has a parent; Processes/Runs has the steps in any order.
--
-- An index -1 and a NULL are `none`. Items and PIDs are numbers: the cell that MonServer mallocs
-- for a PID is taken as the PID itself, malloc does not fail, and a freed cell is not read. The
-- fields `before` and `after`, which hold 0 or 1, are Booleans; `count` is a number, which the
-- library takes one off only where it is positive. Array accesses are checked for nodes; an index
-- of a list is one that ListCreate gave out. The pools hold 1000 nodes and 20 lists, as in list.h.
-- The loop of ListFree runs as often as the count says; the loop of ListSearch runs on fuel, of
-- which one more than the nodes that it may visit, and one for the end, is enough. The comparator
-- and itemFree are functions of the client. Messages to the terminal are left out, but for the
-- item that ListPrepend and ListInsert read to print it.
--
-- Not modelled: Send, Receive, Reply and Create of the RTX library, so the processes themselves;
-- the test program of the reader-writer monitor, the sockets of s-chat, and the xv6 kernel and
-- programs apart from the parts above: the context switches and the memory of processes, the page
-- tables, the buffer cache, the inodes and directories, the system calls, the devices, and the other
-- user programs; a2-phase1, which holds earlier versions of the same files.
pub mod Prelude
pub mod NodePool
pub mod Monitor
pub mod Mutexes
pub mod Memory
pub mod Chat
pub mod Pipe
pub mod Threads
pub mod Pages
pub mod Locks
pub mod ReadWrite
pub mod Sieve
pub mod Journal
pub mod Processes
