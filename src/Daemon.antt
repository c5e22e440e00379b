-- ===== src/Daemon.antt =====
-- src/libsrpc_daemon.c: the main function of the daemon, from the start of its server to the end of
-- its last client.
pub mod Ends
mod Tests
use simplerpc.Common.{
  ℕ, ◌+◌, Bool, true, false, Option, none, some, List, [], ◌∷◌, ◌||◌, ◌==◌, if◌then◌else◌, ℤ, pos,
  neg, negative,
}
use simplerpc.Sockets.Server.{Server, Event, server_epoll_wait}

-- A return of `epoll_wait`: its errno if it fails, or its events.
pub record Round : Type 0 where
  pub errno : ℕ
  pub events : Option (List Event)

-- The loop of `simplerpc_daemon_main`; none while it waits for more rounds.
unfoldable pub serve : List Round → Server → Option (ℤ × Server)
serve [] s = none
serve (r ∷ rs) s =
    let (rc, s') = server_epoll_wait r.errno r.events s in
    let rest = serve rs s' in if negative rc || (s'.clients == 0) then some (rc, s') else rest

-- The server before its first client.
abbrev pub server_zero : Server
server_zero = record { clients = 0; used = []; procs = []; watched = []; closed = [] }

-- How `simplerpc_daemon_main` ends: its result, the server if it has served, and whether shared memory was
-- created and destroyed.
pub record End : Type 0 where
  pub rc : ℤ
  pub served : Option Server
  pub destroyed : Bool

abbrev pub served : Option (ℤ × Server) → Option End
served none = none
served (some (rc, s)) = some (record { rc = rc; served = some s; destroyed = true })

-- `simplerpc_daemon_main`, for the results of `libsrpc_unix_server_init` and of `libsrpc_shmem_create`,
-- whose descriptor is above 0 if it succeeds.
unfoldable pub daemon_main : (server_init shmem_create : ℤ) → List Round → Option End
unfolding serve
daemon_main server_init shmem_create rs =
    let ends = served (serve rs server_zero) in
    if negative server_init
    then some (record { rc = server_init; served = none; destroyed = false })
    else if negative shmem_create
    then some (record { rc = shmem_create; served = none; destroyed = false })
    else ends
