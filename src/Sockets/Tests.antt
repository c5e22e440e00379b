-- ===== src/Sockets/Tests.antt =====
-- Messages in pieces, a refused and an accepted client, and a client without a daemon.
use simplerpc.Common.{
  ℕ, ◌≡◌, refl, true, false, ◌&&◌, none, some, List, [], ◌∷◌, ◌++◌, ℤ, pos, neg, negative, arith,
  if◌then◌else◌,
}
use simplerpc.Sockets.{
  Io, interrupted, moved, send_full, send_msg_regfn, read_msg_regfn, message, le32, le64, signature,
  zeros, put_words,
}
use simplerpc.Sockets.Message.{read_msg_regfn-sent}
use simplerpc.Sockets.Server
use simplerpc.Sockets.Server.{
  Server, addclient, Event, connection, message_at, server_epoll_wait, handle, client_worker,
  remove_one, find_client,
}
use simplerpc.Sockets.Served.{Refused, has_slot, introduction_failed, addclient-Refused}
use simplerpc.Sockets.Counted.{IsCounted, FreshAll, server_epoll_wait-IsCounted}
use simplerpc.Sockets.Client
use simplerpc.Sockets.Client.{unix_client, hang_up}
use simplerpc.Sockets.Told.{Told, has_connection, is_mapped, unix_client-Told}
use simplerpc.Sockets.Init.{
  returns, waits, races, client_init, client_flags, is_zero, client_init-waits,
}
use simplerpc.Sockets.Setup
use simplerpc.Sockets.Setup.{Begun, server_init, server_zero, server_init-Begun}
use simplerpc.Threads.{System, pthread_start}

abbrev name : List ℕ
name = 115 ∷ 49 ∷ []

abbrev other : List ℕ
other = 115 ∷ 50 ∷ []

abbrev bmp : List ℕ
bmp = 5 ∷ []

abbrev pieces : List Io
pieces = moved 30 ∷ interrupted ∷ moved 100 ∷ []

sent : send_msg_regfn pieces name bmp ≡ some (pos 0, message name bmp)
unfolding send_msg_regfn send_full message le32 le64 signature zeros put_words
sent = refl

read_msg_regfn-sent_example :
    read_msg_regfn pieces true name 1 (message name bmp ++ (7 ∷ []))
    ≡ some (pos 0, some bmp, 7 ∷ [])
read_msg_regfn-sent_example =
    read_msg_regfn-sent name bmp (omega arith) pieces pieces (message name bmp) (7 ∷ [])
      (omega arith) (omega arith) sent (omega arith) (omega arith)

abbrev answers : (read_msg : ℤ) → Server.Answers
answers read_msg = record {
  slot = some 3;
  getsockopt = pos 0;
  pid = 500;
  proc_create = pos 0;
  setsockopt = pos 0;
  read_msg = read_msg;
  has_shm = true;
  send_fd = pos 1;
  epoll_ctl = pos 0;
}

abbrev server : Server
server = record {
  clients = 1;
  used = 2 ∷ [];
  procs = 400 ∷ [];
  watched = record { slot = 2; socket = 6; pid = 400 } ∷ [];
  closed = [];
}

is_refused : negative (addclient (answers (neg 1)) 7 server).0 ≡ true
unfolding addclient
is_refused = refl

addclient-Refused_example :
    Refused
      (answers (neg 1))
      7
      server
      (omega arith)
      (has_slot (answers (neg 1)) && introduction_failed (answers (neg 1)))
      (addclient (answers (neg 1)) 7 server).1
addclient-Refused_example =
    addclient-Refused (answers (neg 1)) 7 server (omega arith) (omega arith) is_refused

abbrev events : List Event
events = message_at 2 true (pos 0) ∷ connection 0 (some 7) (answers (pos 0)) ∷ []

is_counted : IsCounted server
is_counted = record { counted = refl; records = refl; distinct = omega arith }

fresh : FreshAll events server
unfolding handle client_worker remove_one find_client
fresh = omega arith

server_epoll_wait-IsCounted_example : IsCounted (server_epoll_wait 0 (some events) server).1
server_epoll_wait-IsCounted_example = server_epoll_wait-IsCounted 0 events server fresh is_counted

-- The daemon closes the connection before it sends the descriptor.
abbrev turned_away : Client.Answers
turned_away = record {
  socket = pos 5;
  send_msg = pos 0;
  recv_fd = neg 1;
  shmem_open = pos 0;
  proc = some 4096;
  rcv_req_start = pos 0;
  epoll_create = pos 7;
  add_socket = pos 0;
  eventfd = pos 8;
  add_exit = pos 0;
}

unix_client-Told_example : Told turned_away (unix_client turned_away (hang_up ∷ []))
unix_client-Told_example = unix_client-Told turned_away (hang_up ∷ [])

abbrev system : System
system = record {
  attr_init = 0;
  setdetachstate = 0;
  priority_min = λ p. pos 1;
  priority_max = λ p. pos 99;
  setinheritsched = 0;
  setschedpolicy = 0;
  setschedparam = 0;
  setstack = 0;
  setstacksize = 0;
  setguardsize = 0;
  setaffinity = 0;
  strdup = true;
  malloc = true;
  create = 0;
}

client_init-waits_example : client_init (pos 0) false system 7 8 name turned_away [] ≡ (
    if is_zero (pthread_start system 7 8 (client_flags name)).0 && has_connection turned_away
    then (if is_mapped turned_away
        then returns (if false then neg 1 else pos 0)
        else races (if false then neg 1 else pos 0))
    else if false
    then returns (neg 1)
    else waits)
client_init-waits_example =
    client_init-waits (pos 0) false system 7 8 name turned_away [] refl (omega arith) refl

abbrev taken : Setup.Answers
taken = record {
  pool_create = true;
  epoll_create = pos 4;
  epoll_errno = 0;
  listening = record {
    socket = some 5;
    socket_errno = 0;
    bind_error = some 98;
    listen_error = none;
  };
  epoll_ctl = pos 0;
}
