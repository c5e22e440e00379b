-- ===== src/Sockets/Client.antt =====
-- src/libsrpc_unix_socket.c: the client's side of the sockets. What the kernel, shared memory and the
-- threads answer are arguments.
use simplerpc.Common.{
  ℕ, zero, suc, ◌+◌, Bool, true, false, not, Option, none, some, List, [], ◌∷◌, ltb, ◌==◌,
  if◌then◌else◌, ℤ, pos, negsuc, neg, negative,
}

abbrev pub positive : ℤ → Bool
positive (pos n) = ltb 0 n
positive (negsuc n) = false

abbrev pub nonzero : ℤ → Bool
nonzero (pos n) = not (n == 0)
nonzero (negsuc n) = true

-- What `connect` answers: success, ECONNREFUSED, or another error.
pub data Connect : Type 0 where
  connected refused failed : Connect

-- The loop of `libsrpc_unix_socket_client_create`: `answer i` is that of the attempt `i`.
unfoldable pub connect_loop : (attempts i : ℕ) → (ℕ → Connect) → (last : Connect) → Connect
connect_loop zero i answer last = last
connect_loop (suc attempts) i answer last = elim (answer i) [
  | refused ↦ connect_loop attempts (suc i) answer refused
  | connected ↦ connected
  | failed ↦ failed
]

abbrev pub connect_result : ℕ → Connect → ℤ × List ℕ
connect_result sck connected = (pos sck, [])
connect_result sck refused = (neg 1, sck ∷ [])
connect_result sck failed = (neg 1, sck ∷ [])

-- `libsrpc_unix_socket_client_create`, with the number of its attempts, which is 10000: the socket or
-- -1, and what it has closed.
unfoldable pub client_create : (attempts : ℕ) → (socket : Option ℕ) → (ℕ → Connect) → ℤ × List ℕ
unfolding connect_loop
client_create attempts none answer = (neg 1, [])
client_create attempts (some sck) answer =
    connect_result sck (connect_loop attempts 0 answer connected)

-- The control message of `recvmsg`: whether its level is SOL_SOCKET and its type SCM_RIGHTS, its length, and
-- the descriptor in it.
pub record ControlMessage : Type 0 where
  pub is_socket_level : Bool
  pub is_rights : Bool
  pub len : ℕ
  pub fd : ℤ

-- `recv_fd`; CMSG_LEN(sizeof(int)) is 20.
unfoldable pub recv_fd : (recvmsg : ℤ) → Option ControlMessage → ℤ
recv_fd recvmsg none = neg 1
recv_fd recvmsg (some m) =
    if negative recvmsg
    then neg 1
    else if not m.is_socket_level
    then neg 1
    else if not m.is_rights
    then neg 1
    else if ltb m.len 20
    then neg 1
    else m.fd

-- What the calls of `unix_client` answer, in their order; `proc` is the address of the process, if it is
-- registered.
pub record Answers : Type 0 where
  pub socket : ℤ
  pub send_msg : ℤ
  pub recv_fd : ℤ
  pub shmem_open : ℤ
  pub proc : Option ℕ
  pub rcv_req_start : ℤ
  pub epoll_create : ℤ
  pub add_socket : ℤ
  pub eventfd : ℤ
  pub add_exit : ℤ

-- What `epoll_wait` reports: an error, the alarm with what `read` returns, that the daemon has hung up, input
-- with what `recv` returns, or none of these.
pub data Wake : Type 0 where
  wait_failed hang_up nothing : Wake
  alarm input : ℤ → Wake

-- The status of the process.
pub data Status : Type 0 where
  initial running stopped : Status

-- `libsrpc_client_t`, the local `epfd`, and what else the thread changes: how often it has posted
-- `sem_status`, whether calls are enabled, its process, and the descriptors that it has closed.
pub record Client : Type 0 where
  pub socket : ℤ
  pub shm_fd : ℤ
  pub efd_exit : ℤ
  pub epfd : ℤ
  pub posts : ℕ
  pub rpc_enable : Bool
  pub proc : Option ℕ
  pub status : Status
  pub closed : List ℤ

-- The client before the thread starts, which the loader has filled with zeros.
abbrev pub client_zero : Client
client_zero = record {
  socket = pos 0;
  shm_fd = pos 0;
  efd_exit = pos 0;
  epfd = neg 1;
  posts = 0;
  rpc_enable = false;
  proc = none;
  status = initial;
  closed = [];
}

-- The thread is over, still in its loop, or has used a NULL pointer to its process.
pub data Outcome : Type 0 where
  ended waiting fault : Client → Outcome

abbrev pub close_if : ℤ → List ℤ → List ℤ
close_if fd closed = if positive fd then fd ∷ closed else closed

-- `err_recv_fd`
unfoldable pub err_recv_fd : Client → Outcome
err_recv_fd c = ended (record c { closed = close_if c.socket c.closed; socket = neg 1 })

-- `close`: the status of the process and its threads are stopped before anything is closed.
unfoldable pub close : Client → Outcome
unfolding err_recv_fd
close c = elim c.proc [
  | none ↦ fault (record c { rpc_enable = false })
  | some p ↦ err_recv_fd (record c {
    rpc_enable = false;
    status = stopped;
    closed = close_if c.shm_fd (close_if c.epfd (close_if c.efd_exit c.closed));
    efd_exit = neg 1;
    shm_fd = neg 1;
  })
]

-- `err`, which tells the waiting thread.
abbrev pub err : Client → Outcome
err c = close (record c { posts = c.posts + 1 })

-- The loop, over what `epoll_wait` reports.
unfoldable pub wait_loop : List Wake → Client → Outcome
wait_loop [] c = waiting c
wait_loop (wait_failed ∷ ws) c = err c
wait_loop (alarm rl ∷ ws) c = if positive rl then close c else err c
wait_loop (hang_up ∷ ws) c = err c
wait_loop (input rc ∷ ws) c = let rest = wait_loop ws c in if positive rc then rest else err c
wait_loop (nothing ∷ ws) c = wait_loop ws c

-- From the alarm for the exit on: both descriptors are watched, the process runs, and the waiting thread
-- is told.
unfoldable pub start_loop : Answers → List Wake → Client → Outcome
unfolding wait_loop
start_loop a ws c =
    let alarmed : Client = record c { efd_exit = a.eventfd } in
    if negative a.eventfd
    then err alarmed
    else if negative a.add_exit
    then err alarmed
    else wait_loop ws (record alarmed { status = running; posts = c.posts + 1 })

-- From the receiving threads on.
unfoldable pub start_threads : Answers → List Wake → Client → Outcome
unfolding start_loop
start_threads a ws c =
    let enabled : Client = record c { rpc_enable = true } in
    let polled : Client = record enabled { epfd = a.epoll_create } in
    if nonzero a.rcv_req_start
    then err c
    else if negative a.epoll_create
    then err polled
    else if negative a.add_socket
    then err polled
    else start_loop a ws polled

-- From shared memory on.
unfoldable pub open_memory : Answers → List Wake → Client → Outcome
unfolding start_threads
open_memory a ws c =
    let known : Client = record c { proc = a.proc } in
    if negative a.shmem_open
    then err c
    else elim a.proc [ none ↦ err known | some p ↦ start_threads a ws known ]

-- `unix_client`
unfoldable pub unix_client : Answers → List Wake → Outcome
unfolding open_memory
unix_client a ws =
    let opened : Client = record client_zero { socket = a.socket } in
    let received : Client = record opened { shm_fd = a.recv_fd } in
    if not (positive a.socket)
    then err_recv_fd opened
    else if negative a.send_msg
    then err_recv_fd opened
    else if not (positive a.recv_fd)
    then err_recv_fd received
    else open_memory a ws received
