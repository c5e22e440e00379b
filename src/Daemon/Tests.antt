-- ===== src/Daemon/Tests.antt =====
-- One client that comes and goes.
use simplerpc.Common.{◌≡◌, refl, true, some, List, [], ◌∷◌, pos, arith}
use simplerpc.Sockets.Server
use simplerpc.Sockets.Server.{
  Server, connection, message_at, server_epoll_wait, handle, handle_all, server_worker,
  client_worker, addclient, remove_one, find_client,
}
use simplerpc.Daemon.{Round, server_zero, daemon_main}
use simplerpc.Daemon.Ends.{FreshRounds, daemon_main-empty}

abbrev answers : Server.Answers
answers = record {
  slot = some 0;
  getsockopt = pos 0;
  pid = 500;
  proc_create = pos 0;
  setsockopt = pos 0;
  read_msg = pos 0;
  has_shm = true;
  send_fd = pos 1;
  epoll_ctl = pos 0;
}

abbrev rounds : List Round
rounds =
    record { errno = 0; events = some (connection 0 (some 7) answers ∷ []) }
    ∷ record { errno = 0; events = some (message_at 0 true (pos 0) ∷ []) }
    ∷ []

abbrev left : Server
left = record { clients = 0; used = []; procs = []; watched = []; closed = 7 ∷ [] }

goes :
    daemon_main (pos 0) (pos 0) rounds
    ≡ some (record { rc = pos 0; served = some left; destroyed = true })
unfolding daemon_main server_epoll_wait handle server_worker addclient client_worker remove_one
    find_client
goes = refl

fresh : FreshRounds rounds server_zero
fresh = omega arith

daemon_main-empty_example : (left.watched ≡ []) × (left.used ≡ [])
daemon_main-empty_example = daemon_main-empty (pos 0) (pos 0) rounds left (pos 0) fresh goes refl
