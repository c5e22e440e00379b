-- ===== src/Sockets/Told.antt =====
-- src/libsrpc_unix_socket.c: when the thread of the client tells the one that waits for it, and what
-- it closes.
use simplerpc.Common.{
  ℕ, zero, suc, ◌+◌, ◌≤◌, ◌≡◌, refl, ap, ◌∙◌, Bool, true, false, not, ◌||◌, ◌&&◌, none, some, List,
  [], ◌∷◌, if◌then◌else◌, ℤ, pos, negsuc, neg, negative, arith, inl, inr, Bool-cases, Option-cases,
}
use simplerpc.Sockets.Client.{
  positive, nonzero, Answers, Wake, wait_failed, hang_up, nothing, alarm, input, running, stopped,
  Client, client_zero, Outcome, ended, waiting, fault, close_if, err_recv_fd, close, err, wait_loop,
  start_loop, start_threads, open_memory, unix_client,
}

-- Of a list of descriptors, those above 0, in their order.
pub above_zero : List ℤ → List ℤ
above_zero [] = []
above_zero (pos zero ∷ fds) = above_zero fds
above_zero (pos (suc n) ∷ fds) = pos (suc n) ∷ above_zero fds
above_zero (negsuc n ∷ fds) = above_zero fds

close_if-above_zero : (fd : ℤ) (fds : List ℤ) → close_if fd (above_zero fds) ≡ above_zero (fd ∷ fds)
unfolding above_zero
close_if-above_zero (pos zero) fds = refl
close_if-above_zero (pos (suc n)) fds = ground arith
close_if-above_zero (negsuc n) fds = refl

closes_one : (fd : ℤ) → close_if fd [] ≡ above_zero (fd ∷ [])
unfolding above_zero
closes_one (pos zero) = refl
closes_one (pos (suc n)) = ground arith
closes_one (negsuc n) = refl

closes_four :
    (a b c d : ℤ)
    → close_if a (close_if b (close_if c (close_if d []))) ≡ above_zero (a ∷ b ∷ c ∷ d ∷ [])
closes_four a b c d =
    ap (λ l. close_if a (close_if b (close_if c l))) (closes_one d)
    ∙ ap (λ l. close_if a (close_if b l)) (close_if-above_zero c (d ∷ []))
    ∙ ap (λ l. close_if a l) (close_if-above_zero b (c ∷ d ∷ []))
    ∙ close_if-above_zero a (b ∷ c ∷ d ∷ [])

-- The descriptors that a client holds are closed, calls are disabled and the process is stopped; or the loop
-- goes on with everything open.
abbrev Leaves : Client → Outcome → Type 0
Leaves c (ended d) =
    (1 ≤ d.posts)
    × (d.rpc_enable ≡ false)
    × (d.status ≡ stopped)
    × (d.closed ≡ above_zero (c.socket ∷ c.shm_fd ∷ c.epfd ∷ c.efd_exit ∷ []))
Leaves c (waiting d) =
    (1 ≤ d.posts) × (d.status ≡ running) × (d.rpc_enable ≡ true) × (d.closed ≡ [])
Leaves c (fault d) = ⊥

module _ (p : ℕ) where
  close-Leaves : (c : Client) → c.proc ≡ some p → c.closed ≡ [] → 1 ≤ c.posts → Leaves c (close c)
  unfolding close err_recv_fd
  close-Leaves c known new told =
      rw (known, new, close) (told, refl, refl, closes_four c.socket c.shm_fd c.epfd c.efd_exit)

  err-Leaves : (c : Client) → c.proc ≡ some p → c.closed ≡ [] → Leaves c (err c)
  err-Leaves c known new = close-Leaves (record c { posts = c.posts + 1 }) known new (omega arith)

  wait_loop-Leaves :
      (ws : List Wake) (c : Client)
      → c.proc ≡ some p
      → c.closed ≡ []
      → 1 ≤ c.posts
      → c.status ≡ running
      → c.rpc_enable ≡ true
      → Leaves c (wait_loop ws c)
  unfolding wait_loop
  wait_loop-Leaves [] c known new told runs enabled = (told, runs, enabled, new)
  wait_loop-Leaves (wait_failed ∷ ws) c known new told runs enabled = err-Leaves c known new
  wait_loop-Leaves (alarm rl ∷ ws) c known new told runs enabled = elim (Bool-cases (positive rl)) [
    | inl e ↦ rw e (close-Leaves c known new told)
    | inr e ↦ rw e (err-Leaves c known new)
  ]
  wait_loop-Leaves (hang_up ∷ ws) c known new told runs enabled = err-Leaves c known new
  wait_loop-Leaves (input rc ∷ ws) c known new told runs enabled = elim (Bool-cases (positive rc)) [
    | inl e ↦ rw e (wait_loop-Leaves ws c known new told runs enabled)
    | inr e ↦ rw e (err-Leaves c known new)
  ]
  wait_loop-Leaves (nothing ∷ ws) c known new told runs enabled =
      wait_loop-Leaves ws c known new told runs enabled

-- The daemon has taken the introduction and sent the descriptor of shared memory.
abbrev pub has_connection : Answers → Bool
has_connection a = positive a.socket && not (negative a.send_msg) && positive a.recv_fd

-- Shared memory is mapped, and the process is registered in it.
abbrev pub is_mapped : Answers → Bool
is_mapped a = not (negative a.shmem_open) && (elim a.proc [ none ↦ false | some p ↦ true ])

-- The descriptors that are open at the end: those of epoll and of the alarm only if the calls before
-- them succeed.
abbrev pub opened : Answers → Client
opened a = record client_zero {
  socket = a.socket;
  shm_fd = a.recv_fd;
  epfd = if nonzero a.rcv_req_start then neg 1 else a.epoll_create;
  efd_exit =
      if nonzero a.rcv_req_start || negative a.epoll_create || negative a.add_socket
      then pos 0
      else a.eventfd;
}

abbrev Untold : Answers → Outcome → Type 0
Untold a (ended d) =
    (d.posts ≡ 0) × (d.rpc_enable ≡ false) × (d.closed ≡ above_zero (a.socket ∷ []))
Untold a (waiting d) = ⊥
Untold a (fault d) = ⊥

abbrev IsFault : Outcome → Type 0
IsFault (ended d) = ⊥
IsFault (waiting d) = ⊥
IsFault (fault d) = (d.posts ≡ 1) × (d.rpc_enable ≡ false) × (d.closed ≡ [])

abbrev pub Told : Answers → Outcome → Type 0
Told a o =
    if not (has_connection a)
    then Untold a o
    else if is_mapped a
    then Leaves (opened a) o
    else IsFault o

module _ (a : Answers) (ws : List Wake) where
  err-none : (c : Client) → c.proc ≡ none → c.posts ≡ 0 → c.closed ≡ [] → IsFault (err c)
  unfolding close
  err-none c unknown untold new = rw (unknown, close) (ap (λ n. n + 1) untold, refl, new)

  abbrev received : Client
  received = record client_zero { socket = a.socket; shm_fd = a.recv_fd }

  abbrev polled : Client
  polled = record received { epfd = a.epoll_create; rpc_enable = true; proc = a.proc }

  abbrev alarmed : Client
  alarmed = record polled { efd_exit = a.eventfd }

  start_loop-Leaves : (p : ℕ) → a.proc ≡ some p → Leaves alarmed (start_loop a ws polled)
  unfolding start_loop
  start_loop-Leaves p k = elim (Bool-cases (negative a.eventfd)) [
    | inl e ↦ rw e (err-Leaves p alarmed k refl)
    | inr e ↦ rw e (elim (Bool-cases (negative a.add_exit)) [
      | inl f ↦ rw f (err-Leaves p alarmed k refl)
      | inr f ↦ rw f (
          wait_loop-Leaves p ws (record alarmed { status = running; posts = 1 }) k refl
            (omega arith) refl refl)
    ])
  ]

  start_threads-Leaves :
      (p : ℕ)
      → a.proc ≡ some p
      → Leaves (opened a) (start_threads a ws (record received { proc = a.proc }))
  unfolding start_threads
  start_threads-Leaves p k = elim (Bool-cases (nonzero a.rcv_req_start)) [
    | inl e ↦ rw e (err-Leaves p (record received { proc = a.proc }) k refl)
    | inr e ↦ rw e (elim (Bool-cases (negative a.epoll_create)) [
      | inl f ↦ rw f (err-Leaves p polled k refl)
      | inr f ↦ rw f (elim (Bool-cases (negative a.add_socket)) [
        | inl g ↦ rw g (err-Leaves p polled k refl)
        | inr g ↦ rw g (start_loop-Leaves p k)
      ])
    ])
  ]

  open_memory-Told :
      if is_mapped a
      then Leaves (opened a) (open_memory a ws received)
      else IsFault (open_memory a ws received)
  unfolding open_memory
  open_memory-Told = elim (Bool-cases (negative a.shmem_open)) [
    | inl e ↦ rw (e, open_memory) (err-none received refl refl refl)
    | inr e ↦ elim (Option-cases a.proc) [
      | inl n ↦ rw (e, n, open_memory) (err-none (record received { proc = a.proc }) n refl refl)
      | inr (p, k) ↦ rw (e, k, open_memory) (start_threads-Leaves p k)
    ]
  ]

  -- The thread of the client, however the calls of the system end: when it gets no connection
  -- and descriptor from the daemon, it ends with its socket closed if that is above 0 and has
  -- never posted sem_status; when the memory is mapped and its process found there, it has
  -- posted sem_status at least once, and either waits in its loop with calls enabled and
  -- nothing closed, or has ended with calls disabled, the process stopped and exactly those of
  -- its four descriptors closed that it opened and that are above 0, each once; otherwise it
  -- posts sem_status once and then uses a NULL pointer, with nothing closed.
  pub unix_client-Told : Told a (unix_client a ws)
  unfolding unix_client err_recv_fd
  unix_client-Told = elim (Bool-cases (positive a.socket)) [
    | inr e ↦ rw e (refl, refl, at_socket e)
    | inl e ↦ rw e (elim (Bool-cases (negative a.send_msg)) [
      | inl f ↦ rw f (refl, refl, at_socket e)
      | inr f ↦ rw f (elim (Bool-cases (positive a.recv_fd)) [
        | inl g ↦ rw g open_memory-Told
        | inr g ↦ rw g (refl, refl, at_socket e)
      ])
    ])
  ]
    where
      at_socket :
          {b : Bool}
          → positive a.socket ≡ b
          → (if b then a.socket ∷ [] else []) ≡ above_zero (a.socket ∷ [])
      at_socket e = rw e at (closes_one a.socket)
