-- ===== src/Sockets/Setup.antt =====
-- src/libsrpc_unix_socket.c: the start and the end of the server. Descriptors are numbers, and an
-- errno is given beside the call that sets it.
use simplerpc.Common.{
  ℕ, ◌≡◌, Bool, true, false, not, ◌||◌, Option, none, some, List, [], ◌∷◌, ◌++◌, ltb, if◌then◌else◌,
  ℤ, pos, neg, negative, arith, inl, inr, Option-cases, ◌≢◌, e_inval, e_nomem,
}
use simplerpc.Sockets.Client.{positive, close_if}

-- What `socket`, `bind` and `listen` answer: the socket, or the errno of the one that fails.
pub record Listening : Type 0 where
  pub socket : Option ℕ
  pub socket_errno : ℕ
  pub bind_error : Option ℕ
  pub listen_error : Option ℕ

-- `libsrpc_unix_scoket_server_create`: the socket or an error, and what it has closed.
unfoldable pub server_create : Listening → ℤ × List ℤ
server_create l = elim l.socket [
  | none ↦ (neg l.socket_errno, [])
  | some sck ↦ elim l.bind_error [
    | some e ↦ (neg e, pos sck ∷ [])
    | none ↦ elim l.listen_error [ some e ↦ (neg e, pos sck ∷ []) | none ↦ (pos sck, []) ]
  ]
]

-- What the calls of `libsrpc_unix_server_init` answer.
pub record Answers : Type 0 where
  pub pool_create : Bool
  pub epoll_create : ℤ
  pub epoll_errno : ℕ
  pub listening : Listening
  pub epoll_ctl : ℤ

-- `libsrpc_server_t` with what was given back: whether the pool is destroyed, and the descriptors that are
-- closed.
pub record Server : Type 0 where
  pub pool : Bool
  pub epfd : ℤ
  pub socket : ℤ
  pub init : Bool
  pub destroyed : Bool
  pub closed : List ℤ

abbrev pub server_zero : Server
server_zero = record {
  pool = false;
  epfd = pos 0;
  socket = pos 0;
  init = false;
  destroyed = false;
  closed = [];
}

-- `libsrpc_epoll_add` for the record of the server, whose function is set: 0, -EINVAL, or what
-- epoll_ctl returns.
unfoldable pub epoll_add : (epoll_ctl : ℤ) → Server → ℤ
epoll_add epoll_ctl s =
    if not (positive s.epfd) || not (positive s.socket) then neg e_inval else epoll_ctl

-- `err`
abbrev pub give_back : ℤ → Server → ℤ × Server
give_back rc s =
    (rc, record s { destroyed = s.pool; closed = close_if s.epfd (close_if s.socket s.closed) })

-- From the record of the listening socket on.
abbrev pub watch_socket : ℤ → Server → ℤ × Server
watch_socket epoll_ctl s =
    let rc = epoll_add epoll_ctl s in
    if negative rc then give_back rc s else (rc, record s { init = true })

-- From the listening socket on.
unfoldable pub listen_on : Answers → Server → ℤ × Server
unfolding server_create epoll_add
listen_on a s =
    let (rc, closed) = server_create a.listening in
    if not (positive rc)
    then give_back rc (record s { closed = closed })
    else watch_socket a.epoll_ctl (record s { socket = rc })

-- `libsrpc_unix_server_init`
unfoldable pub server_init : Answers → Server → ℤ × Server
unfolding listen_on
server_init a s =
    let pooled : Server = record s { pool = true } in
    let polled : Server = record pooled { epfd = a.epoll_create } in
    if s.init
    then (pos 0, s)
    else if not a.pool_create
    then give_back (neg e_nomem) s
    else if negative a.epoll_create
    then give_back (neg a.epoll_errno) polled
    else listen_on a polled

-- The sockets of the clients in one pool of the chain, 0 for a block that is free.
abbrev pub active : List ℕ → List ℤ
active [] = []
active (sck ∷ scks) = if ltb 0 sck then pos sck ∷ active scks else active scks

-- FBA_FOREACH_POOL begins at the pool after the given one.
unfoldable pub active_in : List (List ℕ) → List ℤ
active_in [] = []
active_in (p ∷ ps) = active p ++ active_in ps

-- `libsrpc_unix_server_exit`, for the pool of the server and the pools that follow it.
unfoldable pub server_exit : (first : List ℕ) → (rest : List (List ℕ)) → Server → ℤ × Server
unfolding active_in
server_exit first rest s = if not s.init then (pos 0, s) else (
  pos 0,
  record s {
    init = false;
    destroyed = true;
    closed = active_in rest ++ (s.socket ∷ s.epfd ∷ s.closed);
  },
)

module _ (a : Answers) where
  -- The socket that was opened, if one was.
  abbrev pub opened_socket : ℤ
  opened_socket =
      if negative a.epoll_create
      then neg 1
      else (elim a.listening.socket [ none ↦ neg 1 | some sck ↦ pos sck ])

  -- The server runs with all that it needs, or what it had opened is closed.
  abbrev pub Begun : ℤ × Server → Type 0
  Begun r =
      if r.1.init
      then (r.1.pool ≡ true)
        × (positive r.1.epfd ≡ true)
        × (positive r.1.socket ≡ true)
        × (r.1.destroyed ≡ false)
        × (r.1.closed ≡ [])
        × (negative r.0 ≡ false)
      else (r.1.destroyed ≡ r.1.pool)
        × (r.1.closed
            ≡ (if a.pool_create then close_if a.epoll_create (close_if opened_socket []) else []))

  -- libsrpc_unix_server_init on a server of zeros, whose socket is not the descriptor 0: it
  -- either leaves the server marked as started, with its pool, its epoll descriptor and its
  -- socket open, nothing closed and a result that is not negative; or it destroys the pool that
  -- it made and closes what it opened, each descriptor above 0 once.
  pub server_init-Begun : opened_socket ≢ pos 0 → Begun (server_init a server_zero)
  unfolding server_init listen_on server_create epoll_add
  server_init-Begun above = elim (Option-cases a.listening.socket) [
    | inl e ↦ rw e (ground arith)
    | inr (sck, e) ↦ rw e (elim (Option-cases a.listening.bind_error) [
      | inr (b, f) ↦ rw f (ground arith)
      | inl f ↦ rw f (elim (Option-cases a.listening.listen_error) [
        | inr (l, g) ↦ rw g (ground arith)
        | inl g ↦ rw g (ground arith)
      ])
    ])
  ]
