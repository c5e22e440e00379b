-- ===== src/Sockets/Counted.antt =====
-- src/libsrpc_unix_socket.c: the number of clients, by which the daemon knows when to end.
use simplerpc.Common.{
  ℕ, ◌+◌, ◌≡◌, refl, sym, Bool, not, ◌||◌, Option, none, some, List, [], ◌∷◌, filter, length, ◌==◌,
  ℤ, arith, inl, inr, Bool-cases, Option-cases,
}
use simplerpc.Sockets.Server.{
  Client, Server, Answers, is_zero, remove_one, admit, addclient, close_client, Event, connection,
  message_at, find_client, handle, handle_all, server_epoll_wait,
}
use simplerpc.Sockets.Served.{NotIn, Distinct, FreshSlot, remove_one_self}

abbrev pub slots : List Client → List ℕ
slots [] = []
slots (c ∷ cs) = c.slot ∷ slots cs

-- The clients are counted, and the records in use are theirs, each for one client.
pub record IsCounted (s : Server) : Type 0 where
  pub counted : s.clients ≡ length s.watched
  pub records : s.used ≡ slots s.watched
  pub distinct : Distinct s.used

admit-IsCounted :
    (k sck : ℕ) (a : Answers) (s : Server)
    → NotIn k s.used
    → IsCounted s
    → IsCounted (admit k sck a (record s { used = k ∷ s.used })).1
unfolding admit
admit-IsCounted k sck a s new h = ground (arith, remove_one_self k s.used new)

addclient-IsCounted :
    (a : Answers) (sck : ℕ) (s : Server)
    → FreshSlot a.slot s.used
    → IsCounted s
    → IsCounted (addclient a sck s).1
unfolding addclient
addclient-IsCounted a sck s fresh h = elim (Option-cases a.slot) [
  | inl e ↦ rw (e, addclient) (ground arith)
  | inr (k, e) ↦ rw (e, addclient) (admit-IsCounted k sck a s (rw e at fresh) h)
]

NotIn-remove : (x y : ℕ) (ys : List ℕ) → NotIn x ys → NotIn x (remove_one y ys)
unfolding remove_one
NotIn-remove x y [] h = tt
NotIn-remove x y (z ∷ ys) (h, hs) = ground (arith, NotIn-remove x y ys hs)

Distinct-remove : (y : ℕ) (ys : List ℕ) → Distinct ys → Distinct (remove_one y ys)
unfolding remove_one
Distinct-remove y [] h = tt
Distinct-remove y (z ∷ ys) (h, hs) = ground (arith, Distinct-remove y ys hs, NotIn-remove z y ys h)

abbrev unwatch : ℕ → List Client → List Client
unwatch k = filter (λ d. not (d.slot == k))

slots-unwatch : (k : ℕ) (cs : List Client) → slots (unwatch k cs) ≡ remove_one k (slots cs)
unfolding remove_one
slots-unwatch k [] = refl
slots-unwatch k (c ∷ cs) = ground (arith, slots-unwatch k cs)

unwatch-fresh : (k : ℕ) (cs : List Client) → NotIn k (slots cs) → unwatch k cs ≡ cs
unwatch-fresh k [] h = refl
unwatch-fresh k (c ∷ cs) (h, hs) = ground (arith, unwatch-fresh k cs hs)

length-unwatch :
    (k : ℕ) (cs : List Client) (c : Client)
    → Distinct (slots cs)
    → find_client k cs ≡ some c
    → (c.slot ≡ k) × (length (unwatch k cs) + 1 ≡ length cs)
unfolding find_client
length-unwatch k [] c d h = absurd (cc)
length-unwatch k (x ∷ xs) c (new, d) h = elim (Bool-cases (x.slot == k)) [
  | inl e ↦ rw e (ground (arith, unwatch-fresh k xs))
  | inr e ↦ rw e (ground (arith, length-unwatch k xs c d))
]

close-IsCounted :
    (slot : ℕ) (c : Client) (s : Server)
    → find_client slot s.watched ≡ some c
    → IsCounted s
    → IsCounted (close_client c s)
close-IsCounted slot c s found h =
    let (here, fewer) = length-unwatch slot s.watched c (rw (← h.records) h.distinct) found in
    record {
      counted = rw here (omega (arith, fewer, h.counted));
      records = rw h.records (sym (slots-unwatch c.slot s.watched));
      distinct = Distinct-remove c.slot s.used h.distinct;
    }

-- Each connection gets a record that is free at that time.
abbrev pub FreshAll : List Event → Server → Type 0
FreshAll [] s = Unit
FreshAll (connection errno accepted a ∷ es) s =
    FreshSlot a.slot s.used × FreshAll es (handle (connection errno accepted a) s)
FreshAll (message_at slot hup received ∷ es) s =
    FreshAll es (handle (message_at slot hup received) s)

connection-IsCounted :
    (errno : ℕ) (accepted : Option ℕ) (a : Answers) (s : Server)
    → FreshSlot a.slot s.used
    → IsCounted s
    → IsCounted (handle (connection errno accepted a) s)
unfolding handle
connection-IsCounted errno none a s fresh h = h
connection-IsCounted errno (some sck) a s fresh h =
    ground (arith, addclient-IsCounted a sck s fresh h)

message-IsCounted :
    (slot : ℕ) (hup : Bool) (received : ℤ) (s : Server)
    → IsCounted s
    → IsCounted (handle (message_at slot hup received) s)
unfolding handle
message-IsCounted slot hup received s h = elim (Option-cases (find_client slot s.watched)) [
  | inl e ↦ rw (e, handle) h
  | inr (c, e) ↦
      rw (e, handle)
        (elim (Bool-cases (hup || is_zero received)) [
          | inl over ↦ rw over (close-IsCounted slot c s e h)
          | inr stays ↦ rw stays h
        ])
]

handle_all-IsCounted :
    (es : List Event) (s : Server) → FreshAll es s → IsCounted s → IsCounted (handle_all es s)
unfolding handle_all
handle_all-IsCounted [] s fresh h = h
handle_all-IsCounted (connection errno accepted a ∷ es) s (fresh, later) h =
    handle_all-IsCounted es (handle (connection errno accepted a) s) later
      (connection-IsCounted errno accepted a s fresh h)
handle_all-IsCounted (message_at slot hup received ∷ es) s later h =
    handle_all-IsCounted es (handle (message_at slot hup received) s) later
      (message-IsCounted slot hup received s h)

-- libsrpc_unix_server_epoll_wait, for any sequence of new connections and of events of the
-- clients, where the pool gives each connection a record that is free at that time, keeps the
-- server in order: the number of clients is that of the sockets watched, and the records in use
-- are theirs, each for one client.
pub server_epoll_wait-IsCounted :
    (errno : ℕ) (es : List Event) (s : Server)
    → FreshAll es s
    → IsCounted s
    → IsCounted (server_epoll_wait errno (some es) s).1
unfolding server_epoll_wait
server_epoll_wait-IsCounted errno es s fresh h = handle_all-IsCounted es s fresh h
