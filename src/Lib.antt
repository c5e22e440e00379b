-- ===== src/Lib.antt =====
-- Verification of simplerpc: remote procedure calls between processes over shared memory.
--
-- A call is a request in shared memory. Its owner takes the processes that serve the function from the
-- registry (src/libsrpc.c), puts a pointer to the request into the queue of each receiver
-- (src/lf_mpmc_queue.c) and waits; the executors in the receivers write their responses into the
-- request (src/libsrpc_local.h). Processes, and the requests of a process, are in lists under a
-- spinlock (src/libsrpc_list_spin.c); the daemon keeps its clients in pools of blocks of one size
-- (src/libsrpc_fixblockalloc.c). A process joins by a message over a socket (src/libsrpc_unix_socket.c), for
-- which the daemon registers it (src/libsrpc_proc.c) and sends the descriptor of the shared memory
-- (src/libsrpc_shmem.c); when it ends, its blocks are freed or left to the collector (src/libsrpc_shm_gc.c).
--
-- Common and the modules below it: what the other files share. Numbers are the native naturals; the
-- arithmetic of `size_t`, `uint32_t` and `int` is written out (Common/Words, Common/Ints), an address
-- is a number with 0 for NULL, and memory is a function from addresses (Common/Arrays).
--
-- - Queue: src/lf_mpmc_queue.c. `try_enqueue`, `try_dequeue` and `try_find_ptr` as one thread runs them;
--   the retries of the weak compare-and-swap are fuel, and `spoils` says which attempts fail spuriously.
--   Queue/Spec is the bounded queue that it implements, Queue/Inv the order of its cells, Queue/Enqueue,
--   Queue/Dequeue, Queue/Find and Queue/Refine the operations, and Queue/Run sequences of calls.
--   Queue/Threads and the modules below it are any number of threads at one ring, access by access;
--   memory is sequentially consistent there, and fewer than 2 ^ 63 positions are won.
-- - Pool: src/libsrpc_fixblockalloc.c. `create`, `alloc_block` (`srpc_pool_alloc`) and `free_block`
--   (`srpc_pool_free`) on a chain of pools, which is a list; `malloc` is a parameter. Pool/Ring is the ring
--   of free blocks, Pool/Layout where it lies in memory.
-- - SpinList: src/libsrpc_list_spin.c and .h. A heap of nodes and list heads by address. A walk takes
--   fuel: more than the length of the list is enough, and a call that would wait for a held lock has no
--   result. SpinList/Chain says when a list is in order, SpinList/Push, SpinList/Remove and
--   SpinList/RemoveFrame what the operations do to it and to the other lists.
-- - Request: src/libsrpc_local.h. The word of a response (Request/Word), where the responses of a request
--   lie (Request/Bounds), one reader and one writer (Request/Answers), and any interleaving of several
--   executors with the marks for a timeout and for a cancelled request (Request/Race and below): each
--   atomic access and each byte of the copy is a step. sizeof(libsrpc_request_t) is the parameter
--   `header`, since its semaphore belongs to the system.
-- - Registry: the registry of functions in src/libsrpc.c and src/libsrpc_private.h, written by the one
--   thread of the daemon. Slots are counted by a test (Registry/Count); Registry/Grow is the step to a
--   larger block, Registry/Insert and Registry/Remove one function, Registry/Table and below all
--   functions, Registry/Dirty memory that is not cleared. What the allocator's memory holds is a
--   parameter; the ten attempts of the code are its fuel.
-- - Dispatch: `libsrpc_send_request_one` and the part of `libsrpc_send_request` in src/libsrpc.c that chooses
--   the receivers, with its first tests and the choice of the timeout. The 16 * 32 attempts to enqueue
--   are answered by the receiver, a parameter.
-- - Holds: `libsrpc_shmem_proc_lock`, `_unlock`, `_all_unlock` and `_check_uid_lock` in src/libsrpc.c, the
--   four slots of a request that keep the collector from the memory of a process. The allocator's
--   `tlsf_check_uid` is a parameter.
-- - Alloc: `libsrpc_req_is_bad`, `libsrpc_req_alloc`, `libsrpc_lastreq_num` and `libsrpc_lastreq_get` in
--   src/libsrpc.c, the current request of a thread. Whether the allocator has memory is a parameter.
-- - Process: `libsrpc_proc_get_uid`, `libsrpc_proc_get` and `libsrpc_proc_create` in src/libsrpc_proc.c. The
--   hundred collisions that the code allows are the fuel of the search for a UID.
-- - Trash: the lists of blocks that wait for the locks on their process, in src/libsrpc_shm_gc.c. Whether
--   realloc has memory is a parameter.
-- - Sweep: the searches over all processes by which the collector learns what is in use, in src/libsrpc.c
--   and src/libsrpc_proc.c, over the lists as they are at one moment.
-- - Waiting: the loop of `libsrpc_send_request` that waits for the answers, the setting of timeouts in
--   src/libsrpc.c, and `libsrpc_strerror` in src/libsrpc_errno.c. What the semaphore and the responses
--   say at each turn is a parameter, and the number of turns is fuel: the code has no bound of its own.
-- - Executor: the side of src/libsrpc.c that executes requests. `callback_func`, `request_processing` under
--   the hazard pointer of its thread, `cancel` and `queue_clear` (`libsrpc_thread_rcv_queue_clear`), and in
--   Executor/Receiver the receiving thread and its stop. What a called function computes is a parameter.
--   Executor/Slot finds the response of a process, Executor/Answered, Executor/Cleared and Executor/Idle
--   are the theorems. The turns of the clearing and of the wait for the end are fuel.
-- - Call: the wrapper of a function in src/libsrpc.c, from the allocation of its request to the answer, and
--   one process that serves it: the sender, the ring, the executor, the wait and the reader put together.
--   Call/Send is the whole of `libsrpc_send_request`, Call/Ring the way of a request through the ring and
--   Call/Executed what the process leaves of it. The
--   attempts at the ring and the turns of the wait are fuel; the process may execute the request before
--   any turn, and the call returns if there are more turns than that.
-- - Collector: the thread of src/libsrpc_shm_gc.c. `gather` walks the blocks that the allocator meets,
--   `gc_pool_destroy` frees those that the searches of Sweep do not find in use; Collector/Uses says what in
--   use means, Collector/Started is the start, the wake-up and the end of the thread.
-- - Process/Destroy: `libsrpc_proc_destroy` of src/libsrpc_proc.c with its destructor of blocks; the blocks
--   of the process are a parameter. `pass` and `walk` are the loop of the allocator's
--   `tlsf_free_uid_blocks` over them; its passes are fuel, and one more than there are blocks is enough
--   (Process/Walked).
-- - Memory: the mapping of shared memory in src/libsrpc_shmem.c; Memory/Blocks its functions that hand out
--   blocks, and `malloc`, `calloc`, `realloc` and `free` with their switch in src/libsrpc.c.
-- - Sockets: src/libsrpc_unix_socket.c. The file itself has the loops over partial transfers and the message
--   of registration, byte by byte; Sockets/Server the events of the daemon's server, Sockets/Setup its
--   start and end, Sockets/Client the thread of the client, Sockets/Init its start and end. What the kernel
--   answers is a parameter, and a loop takes one answer for each turn; an answer that does not come
--   leaves the loop without a result.
-- - Daemon: `simplerpc_daemon_main` in src/libsrpc_daemon.c over the rounds of epoll_wait that it meets.
-- - Threads: src/libsrpc_pthread.c. `pthread_start` as a chain of parts that go on or jump to `out`, with
--   its types in Threads/Flags, `start_thunk` and `pthread_start_all_cpu`; what the pthread calls answer
--   is a parameter.
-- - Times: the computed times in src/libsrpc_wrapper.h and in the collector's thread.
--
-- Not modelled: the filling of the message in `send_fd` (src/libsrpc_unix_socket.c), which is one
-- call of the system; the hazard pointer that a sender sets on a block of the registry while it
-- reads it; the start of a process and the loader, which only call the system; the code that the
-- macros generate for the arguments of the user's functions; and the allocator libs/tlsf_txn, a
-- library of its own, whose calls are parameters, but for the loop of `tlsf_free_uid_blocks`,
-- which is as libs/tlsf_txn/tlsf_txn.c has it: after a result of 0 it goes on, where the comment
-- in tlsf_txn.h says that it begins again. The threads that share a list or the registry are
-- modelled one at a time.
pub mod Common
pub mod Pool
pub mod Queue
pub mod SpinList
pub mod Request
pub mod Registry
pub mod Dispatch
pub mod Holds
pub mod Process
pub mod Alloc
pub mod Trash
pub mod Sweep
pub mod Waiting
pub mod Threads
pub mod Executor
pub mod Collector
pub mod Sockets
pub mod Times
pub mod Memory
pub mod Daemon
pub mod Call
