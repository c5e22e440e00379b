-- ===== src/Sockets/Served.antt =====
-- src/libsrpc_unix_socket.c: how the daemon counts its clients, and what a refused one leaves.
use simplerpc.Common.{
  ℕ, ◌≡◌, ◌≢◌, refl, Bool, true, false, not, ◌||◌, ◌&&◌, Option, none, some, List, [], ◌∷◌,
  if◌then◌else◌, negative, arith, inl, inr, Option-cases, eq→==,
}
use simplerpc.Sockets.Server.{Server, Answers, is_zero, remove_one, admit, addclient}

abbrev pub NotIn : ℕ → List ℕ → Type 0
NotIn x [] = Unit
NotIn x (y ∷ ys) = (y ≢ x) × NotIn x ys

abbrev pub Distinct : List ℕ → Type 0
Distinct [] = Unit
Distinct (x ∷ xs) = NotIn x xs × Distinct xs

pub remove_one-fresh : (x : ℕ) (xs : List ℕ) → NotIn x xs → remove_one x xs ≡ xs
unfolding remove_one
remove_one-fresh x [] h = refl
remove_one-fresh x (y ∷ ys) (h, hs) = ground (arith, remove_one-fresh x ys hs)

pub remove_one_self : (x : ℕ) (xs : List ℕ) → NotIn x xs → remove_one x (x ∷ xs) ≡ xs
unfolding remove_one
remove_one_self x xs h = rw (eq→== x x refl) (remove_one-fresh x xs h)

-- The pool gives a record that is not in use.
abbrev pub FreshSlot : Option ℕ → List ℕ → Type 0
FreshSlot none used = Unit
FreshSlot (some k) used = NotIn k used

-- The process was registered and then the introduction failed.
abbrev pub introduction_failed : Answers → Bool
introduction_failed a =
    is_zero a.getsockopt
    && not (negative a.proc_create)
    && (negative a.setsockopt || negative a.read_msg)

abbrev pub has_slot : Answers → Bool
has_slot a = elim a.slot [ none ↦ false | some k ↦ true ]

module _ (a : Answers) (sck : ℕ) (s : Server) (unknown : NotIn a.pid s.procs) where
  -- The record is back in the pool, the socket closed, and nothing else has changed but the processes.
  abbrev pub Refused : (failed : Bool) → Server → Type 0
  Refused failed t =
      (t.clients ≡ s.clients)
      × (t.used ≡ s.used)
      × (t.watched ≡ s.watched)
      × (t.closed ≡ sck ∷ s.closed)
      × (t.procs ≡ (if failed then a.pid ∷ s.procs else s.procs))

  admit-Refused :
      (k : ℕ)
      → NotIn k s.used
      → negative (admit k sck a (record s { used = k ∷ s.used })).0 ≡ true
      → Refused (introduction_failed a) (admit k sck a (record s { used = k ∷ s.used })).1
  unfolding admit
  admit-Refused k new refused =
      ground (arith, remove_one_self k s.used new, remove_one_self a.pid s.procs unknown)

  -- A client that libsrpc_unix_server_addclient refuses, of a process unknown before and with a
  -- record from the pool that was free, leaves the number of clients, the records in use and
  -- the sockets watched as they were, and its socket closed; its process is not registered
  -- either, unless it was the timeout of the socket or the message of registration that failed,
  -- after which the process stays registered.
  pub addclient-Refused :
      FreshSlot a.slot s.used
      → negative (addclient a sck s).0 ≡ true
      → Refused (has_slot a && introduction_failed a) (addclient a sck s).1
  unfolding addclient
  addclient-Refused fresh refused = elim (Option-cases a.slot) [
    | inl e ↦ rw (e, addclient) (refl, refl, refl, refl, refl)
    | inr (k, e) ↦
        rw (e, addclient) (admit-Refused k (rw e at fresh) (rw (e, addclient) at refused))
  ]
