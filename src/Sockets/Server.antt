-- ===== src/Sockets/Server.antt =====
-- src/libsrpc_unix_socket.c: the daemon's side of the sockets. What the kernel, the pool of client
-- records and the registration of processes answer are arguments.
use simplerpc.Common.{
  ℕ, ◌+◌, ◌-◌, Bool, true, false, not, ◌||◌, ◌&&◌, Option, none, some, List, [], ◌∷◌, filter, ◌==◌,
  if◌then◌else◌, ℤ, pos, negsuc, neg, negative, e_inval, e_nomem,
}

-- `libsrpc_epoll_t` of a client: its place in the pool, its socket and its process.
pub record Client : Type 0 where
  pub slot : ℕ
  pub socket : ℕ
  pub pid : ℕ

-- The server: its number of clients, the records in use, the processes that are registered, the
-- clients that epoll watches, and the sockets that it has closed.
pub record Server : Type 0 where
  pub clients : ℕ
  pub used : List ℕ
  pub procs : List ℕ
  pub watched : List Client
  pub closed : List ℕ

-- What the calls of `libsrpc_unix_server_addclient` answer.
pub record Answers : Type 0 where
  pub slot : Option ℕ
  pub getsockopt : ℤ
  pub pid : ℕ
  pub proc_create : ℤ
  pub setsockopt : ℤ
  pub read_msg : ℤ
  pub has_shm : Bool
  pub send_fd : ℤ
  pub epoll_ctl : ℤ

abbrev pub is_zero : ℤ → Bool
is_zero (pos n) = n == 0
is_zero (negsuc n) = false

unfoldable pub remove_one : ℕ → List ℕ → List ℕ
remove_one x = filter (λ y. not (y == x))

-- `err`: the record goes back to the pool if there is one, and the socket is closed.
abbrev pub fail : (slot : Option ℕ) → (sck : ℕ) → ℤ → Server → ℤ × Server
fail none sck rc s = (rc, record s { closed = sck ∷ s.closed })
fail (some k) sck rc s = (rc, record s { used = remove_one k s.used; closed = sck ∷ s.closed })

-- `err_proc`: the process is destroyed before.
abbrev pub fail_proc : (slot : ℕ) → (sck pid : ℕ) → ℤ → Server → ℤ × Server
fail_proc slot sck pid rc s = fail (some slot) sck rc (record s { procs = remove_one pid s.procs })

-- The registration of the client for events, which makes it count.
abbrev pub watch : (slot sck : ℕ) → Answers → Server → ℤ × Server
watch slot sck a s = if negative a.epoll_ctl then fail_proc slot sck a.pid a.epoll_ctl s else (
  a.epoll_ctl,
  record s {
    clients = s.clients + 1;
    watched = record { slot = slot; socket = sck; pid = a.pid } ∷ s.watched;
  },
)

-- From the registration of the process on.
unfoldable pub introduce : (slot sck : ℕ) → Answers → Server → ℤ × Server
introduce slot sck a s =
    if negative a.setsockopt
    then fail (some slot) sck a.setsockopt s
    else if negative a.read_msg
    then fail (some slot) sck a.read_msg s
    else if a.has_shm && negative a.send_fd
    then fail_proc slot sck a.pid a.send_fd s
    else watch slot sck a s

-- From the record of the client on.
unfoldable pub admit : (slot sck : ℕ) → Answers → Server → ℤ × Server
unfolding introduce
admit slot sck a s =
    if not (is_zero a.getsockopt)
    then fail (some slot) sck a.getsockopt s
    else if negative a.proc_create
    then fail (some slot) sck a.proc_create s
    else introduce slot sck a (record s { procs = a.pid ∷ s.procs })

-- `libsrpc_unix_server_addclient`
unfoldable pub addclient : Answers → (sck : ℕ) → Server → ℤ × Server
unfolding admit
addclient a sck s = elim a.slot [
  | none ↦ fail none sck (neg e_nomem) s
  | some slot ↦ admit slot sck a (record s { used = slot ∷ s.used })
]

-- `libsrpc_unix_server_worker`: `accepted` is the socket, none or 0 for a failure with that errno.
unfoldable pub server_worker :
    (same : Bool) (errno : ℕ) (accepted : Option ℕ) → Answers → Server → ℤ × Server
server_worker false errno accepted a s = (neg e_inval, s)
server_worker true errno none a s = (neg errno, s)
server_worker true errno (some sck) a s = if sck == 0 then (neg errno, s) else addclient a sck s

-- The label `close` of the client's worker.
abbrev pub close_client : Client → Server → Server
close_client c s = record {
  clients = s.clients - 1;
  used = remove_one c.slot s.used;
  procs = remove_one c.pid s.procs;
  watched = filter (λ d. not (d.slot == c.slot)) s.watched;
  closed = c.socket ∷ s.closed;
}

-- `libsrpc_unix_client_worker`: `hup` says whether the peer has hung up, and `received` is what `recv`
-- returns.
unfoldable pub client_worker : (same hup : Bool) (received : ℤ) → Client → Server → ℤ × Server
client_worker false hup received c s = (neg e_inval, s)
client_worker true hup received c s =
    if hup || is_zero received then (pos 0, close_client c s) else (pos 0, s)

-- An event of epoll: at the listening socket, or at the client in a slot of the pool.
pub data Event : Type 0 where
  connection : (errno : ℕ) (accepted : Option ℕ) → Answers → Event
  message_at : (slot : ℕ) (hup : Bool) (received : ℤ) → Event

-- The client whose record an event names.
unfoldable pub find_client : ℕ → List Client → Option Client
find_client slot [] = none
find_client slot (c ∷ cs) = if c.slot == slot then some c else find_client slot cs

unfoldable pub handle : Event → Server → Server
unfolding server_worker client_worker
handle (connection errno accepted a) s = (server_worker true errno accepted a s).1
handle (message_at slot hup received) s = elim (find_client slot s.watched) [
  | none ↦ s
  | some c ↦ (client_worker true hup received c s).1
]

-- The loop of `libsrpc_unix_server_epoll_wait` over the events.
unfoldable pub handle_all : List Event → Server → Server
handle_all [] s = s
handle_all (e ∷ es) s = handle_all es (handle e s)

-- `libsrpc_unix_server_epoll_wait`: the events, or the errno of epoll_wait
unfoldable pub server_epoll_wait : (errno : ℕ) → Option (List Event) → Server → ℤ × Server
unfolding handle_all
server_epoll_wait errno none s = (neg errno, s)
server_epoll_wait errno (some es) s = (pos 0, handle_all es s)
