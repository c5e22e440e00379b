-- ===== src/Daemon/Ends.antt =====
-- src/libsrpc_daemon.c: the daemon that ends without an error has no client left.
use simplerpc.Common.{
  ℕ, ◌≡◌, refl, true, false, Option, none, some, List, [], ◌∷◌, length, ℤ, negative, arith,
}
use simplerpc.Sockets.Server.{Client, Server, Event, server_epoll_wait}
use simplerpc.Sockets.Counted.{IsCounted, FreshAll, server_epoll_wait-IsCounted}
use simplerpc.Daemon.{Round, serve, server_zero, daemon_main}

abbrev pub FreshEvents : Option (List Event) → Server → Type 0
FreshEvents none s = Unit
FreshEvents (some es) s = FreshAll es s

-- Every connection of every round gets a record that is free at that time.
abbrev pub FreshRounds : List Round → Server → Type 0
FreshRounds [] s = Unit
FreshRounds (r ∷ rs) s =
    FreshEvents r.events s × FreshRounds rs (server_epoll_wait r.errno r.events s).1

round-IsCounted :
    (errno : ℕ) (events : Option (List Event)) (s : Server)
    → FreshEvents events s
    → IsCounted s
    → IsCounted (server_epoll_wait errno events s).1
unfolding server_epoll_wait
round-IsCounted errno none s fresh h = h
round-IsCounted errno (some es) s fresh h = server_epoll_wait-IsCounted errno es s fresh h

no_clients : (cs : List Client) → length cs ≡ 0 → cs ≡ []
no_clients [] h = refl
no_clients (c ∷ cs) h = absurd (omega arith)

serve-empty :
    (rs : List Round) (s t : Server) (rc : ℤ)
    → FreshRounds rs s
    → IsCounted s
    → serve rs s ≡ some (rc, t)
    → negative rc ≡ false
    → (t.watched ≡ []) × (t.used ≡ [])
unfolding serve
serve-empty [] s t rc fresh h e fine = cc
serve-empty (r ∷ rs) s t rc (fresh, later) h e fine = ground (
  arith,
  round-IsCounted r.errno r.events s fresh h,
  no_clients (server_epoll_wait r.errno r.events s).1.watched,
  serve-empty rs (server_epoll_wait r.errno r.events s).1 t rc later,
)

is_counted : IsCounted server_zero
is_counted = record { counted = refl; records = refl; distinct = tt }

-- A daemon that has served and ends with a result that is not negative, where each connection got
-- a record that was free at that time, has no client left: no socket of a client is watched and
-- no record is in use.
pub daemon_main-empty :
    (server_init shmem_create : ℤ) (rs : List Round) (t : Server) (rc : ℤ)
    → FreshRounds rs server_zero
    → daemon_main server_init shmem_create rs
      ≡ some (record { rc = rc; served = some t; destroyed = true })
    → negative rc ≡ false
    → (t.watched ≡ []) × (t.used ≡ [])
unfolding daemon_main
daemon_main-empty server_init shmem_create rs t rc fresh e fine = go (serve rs server_zero) refl
  where
    go : (o : Option (ℤ × Server)) → serve rs server_zero ≡ o → (t.watched ≡ []) × (t.used ≡ [])
    go none f = ground arith
    go (some (rc', t')) f = ground (arith, serve-empty rs server_zero t rc fresh is_counted)
