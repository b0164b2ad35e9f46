-- ===== src/Lib.antt =====
-- epoll-net, a network library over Linux epoll, written in C: the data structures under its server
-- and the routines that move bytes through its sockets, with what makes them correct.
--
-- The server accepts connections, keeps their objects in a pool, reads from them in an epoll loop,
-- hands what it read to worker threads through a queue, and sends replies. Pools and queues are
-- queue.c over list.c; a growing array is array.c, and hash.c is a table of such lists;
-- threadpool.c runs the workers, with the locks of lock.c; connobj.c reads and writes sockets;
-- log.c writes the log; test_server.c is the example, with a decoder of frames.
--
-- The files:
-- - Base and its children: lists, tests, `unsigned int` steps, and the libraries' names.
-- - Memory: objects at addresses, and programs over them that end, crash or are still running.
--   Memory.Ensures says that a run ends well; Memory.Holds runs the operations on an object.
--   Memory.Agrees compares two runs.
-- - DataList: every function of list.c under its name without the prefix (`add_tail` is
--   DataList_Addtail). A `struct tagDataList` is a value, nodes are in memory. DataList.Chain says
--   which cells a list stands for; DataList.Add, AddHead, RemoveHead, RemoveTail, RemoveNode, Find
--   and Clear are about the functions of these names; DataList.Taken is what the removals share.
-- - DataQueue: the functions of queue.c over those of DataList. DataQueue.Fifo is the queue that a
--   client should see, DataQueue.Refine compares the two, DataQueue.Interface is the table of
--   functions, DataQueue.Laws what the queue promises to the pool of connections.
-- - DynamicArray: array.c, with 32-bit arithmetic and the sizes of blocks. DynamicArray.Bounds is
--   about arrays that are valid, DynamicArray.Overflow about those that leave their block.
--   DynamicArray.Interface is the table of functions, DynamicArray.Leak about its life.
-- - Frame: `Decode` of test_server.c. Frame.Unescape is its recursive description, Frame.Roundtrip
--   what a caller may rely on.
-- - TestServer: readdata, DebugInfo and main of test_server.c.
-- - Socket: sendData and readData of connobj.c. Socket.Send and Socket.Read describe their runs,
--   Socket.Options is noDelay, keepAlive and noBlock.
-- - CStr: cstr.c over blocks with their sizes. CStr.Copies is about creating and duplicating
--   strings, CStr.Growth about CStr_MackSpace.
-- - World: the structs that the server's parts share, and the state they work on. Its queues are
--   lists, as DataQueue.Refine allows.
-- - ConnMgr: connmgr.c, and CreateNewConnObj and closeConnObj of connobj.c. ConnMgr.Recycle is
--   about what comes out of the pool, ConnMgr.Release about its end. ConnMgr.Lifecycle is
--   ConnMgr_Create and init_limit. ConnMgr.Linked is setConn and getConn over a queue with laws;
--   ConnMgr.Linked.Agreement and ConnMgr.Linked.Creation compare it with the pool of World.
-- - Epoll: epollevent.c.
--   Epoll.Lifecycle is epollBase_init, epollBase_destory and the interface over them.
-- - Handlers: event_read and event_write of epoll.c. Handlers.Reading and Handlers.Writing are
--   about their branches, Handlers.Sending about a write by what the kernel replies.
-- - Server: epollEvent_callback of epoll.c; Server_Accept, ServerSend, and the rounds of
--   Server_Loop and Server_Process of server.c. Server.Accepting is about new connections,
--   Server.Delivery about the way from the socket to the worker, Server.Reply about the way back,
--   Server.Hangup about the end, Server.Serving about the callback before its handlers, and
--   Server.Conversation about a request and its answer through all of them. Server.Ownership says
--   whose the strings in memory are; its children Steps, Events, Sends, Callbacks and Replies are about
--   one call each, Runs about any sequence of them. Server.Listen is Server_Create, Server_Listen,
--   StartServer and Server_Clear; Server.Listening, Server.Starting and Server.Launch are about
--   what they leave.
-- - Server.Workers: Server_Process and the part of event_read that queues an item, as steps of
--   threads, in any order, over one mutex, one semaphore and one queue. Server.Workers.Moves lists
--   the steps, Hands is the multiset of the items that workers hold, Invariant what every step
--   keeps, Drain bounds the steps, Progress says when a thread can move, Safety what follows.
-- - HashTable: hash.c over the functions of DataList. HashTable.Buckets says which rows of cells a
--   table stands for, HashTable.Rows is what a client should see, row by row, HashTable.Search
--   compares the searches, HashTable.Operations each function, HashTable.Refine sequences of calls;
--   HashTable.Dictionary forgets the rows, and HashTable.Release is about the end of a table.
--   HashTable.Interface is the table of functions.
-- - Lock: the return codes of lock.c, over the replies of the system's calls.
-- - Threads: one thread's step among many, and sums over threads, for the two models of threads.
-- - Threadpool: Threadpool_Run and Threadpool_Addtask as steps of threads, in any order, over one
--   mutex, one condition and one queue, where push and pop read the queue in one step and write it
--   in another, and the test of its size and the wait are two steps. Threadpool.Moves is what a step
--   does to sums over the threads, Threadpool.Snapshots what a thread still knows of the queue that
--   it read, Threadpool.Steps what each step keeps, Threadpool.Invariant what holds in every state,
--   Threadpool.Safety what follows.
--   Threadpool.Lifecycle is creating and destroying a pool, Threadpool.Teardown is about them.
-- - Logger: logv, rotate, the log calls and Logger_Create of log.c. Logger.Lines and Logger.Dumps
--   are about the line in its buffer, Logger.Digits about the digits of a dump, Logger.Rotation
--   about the calls. Logger.Closing is logclose and Logger_Destory.
-- - Tests: runs and concrete instances.
--
-- The environment: what malloc and realloc return is an argument (NULL when memory is exhausted);
-- what the kernel replies to write, read, accept and epoll_ctl is a function argument, and no reply
-- is ruled out unless a theorem says so. Except in Threadpool and Server.Workers, locks around
-- queues play no role: each call is one step. The address of a new block is not NULL and not in use
-- where a theorem says so.
--
-- Fuel: loops that follow pointers or wait for the kernel take a number of rounds. A list needs one
-- round more than it has nodes, and a table one more than it has data; a frame as many as it has
-- bytes; the socket loops one more than the replies that are tried again. Theorems about a loop
-- that never ends hold for every number of rounds.
--
-- Not modelled: the functions in the tables of locks and of epoll, what formats expand to, the
-- calls of the logger from other files, times and addresses as text, the release of the memory of
-- pools and of the tables of queues and hash tables. What the handlers do under a lock is one step,
-- but for the queue of received items. Threads read and write in one order, as if no two of them
-- used memory at once; `size`, which Server_Process reads without the mutex, is read so as well.
pub mod Base
pub mod Memory
pub mod DataList
pub mod DataQueue
pub mod DynamicArray
pub mod Frame
pub mod Socket
pub mod CStr
pub mod HashTable
pub mod Threads
pub mod Threadpool
pub mod Lock
pub mod Logger
mod Tests
pub mod World
pub mod ConnMgr
pub mod Epoll
pub mod Handlers
pub mod Server
pub mod TestServer
