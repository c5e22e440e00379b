-- ===== src/Executor/Idle.antt =====
-- src/libsrpc.c: the receiving thread as its process counts it, and when it goes to sleep.
use simplerpc.Common.{
  ℕ, zero, suc, ◌+◌, ◌<◌, ◌≤◌, ◌≡◌, refl, ap, ◌∙◌, true, false, Option, List, [], ◌∷◌, ltb, arith,
  if◌then◌else◌, word32,
}
use simplerpc.Executor.Receiver.{
  Receiver, Turn, Ending, awake, asleep, take_one, take_all, rest_or_sleep, turn, receive,
  is_einval, thread_rcv_req,
}

-- The thread counts as one among the `others` exactly while it has announced that it waits.
abbrev pub Counted : (others : ℕ) → Receiver → Type 0
Counted others r = r.threads_wait ≡ (if r.wait_flag then others + 1 else others)

module _ (others : ℕ) (room : others + 1 < word32) where
  take_all-Counted :
      (reqs : List ℕ) (r : Receiver) → Counted others r → Counted others (take_all reqs r)
  unfolding take_all take_one
  take_all-Counted [] r h = h
  take_all-Counted (req ∷ reqs) r h =
      let rest = take_all-Counted reqs (take_one req r) (ground arith) in ground (arith, rest)

  turn-Counted : (t : Turn) (r : Receiver) → Counted others r → Counted others (turn t r).1
  unfolding turn rest_or_sleep
  turn-Counted t r h = ground (arith, take_all-Counted t.got r)

  receive-Counted :
      (ts : List Turn) (r : Receiver) → Counted others r → Counted others (receive ts r).1
  unfolding receive
  receive-Counted [] r h = h
  receive-Counted (t ∷ ts) r h = ground (arith, turn-Counted t r h, receive-Counted ts (turn t r).1)

  -- Whatever the turns of the receiving thread, threads_wait counts it exactly when its flag
  -- says that it waits, also when the thread has left its loop, and threads_run is back where
  -- it was when the thread has left or found no place, and one higher while it runs, if both
  -- counts with one more fit 32 bits.
  pub thread_rcv_req-Counted :
      (threads_num threads_run : ℕ) (ts : List Turn)
      → threads_run + 1 < word32
      → Counted others (thread_rcv_req threads_num threads_run others ts).2
        × ((thread_rcv_req threads_num threads_run others ts).1 ≡ (
            if ltb threads_run threads_num
            then (if (receive ts
                  (record { cnt = 0; wait_flag = false; threads_wait = others; processed = [] })).0
                then threads_run
                else threads_run + 1)
            else threads_run))
  unfolding thread_rcv_req
  thread_rcv_req-Counted threads_num threads_run ts lt = ground (
    arith,
    receive-Counted ts
        (record { cnt = 0; wait_flag = false; threads_wait = others; processed = [] }),
  )

-- A turn without a request and without a stop.
abbrev pub idle_turn : Option ℕ → Turn
idle_turn error = record { stop_flag = false; got = []; wait_error = error }

unfoldable pub repeat : ℕ → Turn → List Turn
repeat zero t = []
repeat (suc n) t = t ∷ repeat n t

-- How the turn ends that comes after `k` turns without a request.
abbrev pub idle_ending : (error : Option ℕ) (k : ℕ) → Receiver → Ending
idle_ending error k r = (turn (idle_turn error) (receive (repeat k (idle_turn error)) r).1).0

module _ (error : Option ℕ) (fine : is_einval error ≡ false) where
  poll_turn :
      (r : Receiver)
      → r.cnt < 1024
      → turn (idle_turn error) r ≡ (awake, record r { cnt = r.cnt + 1 })
  unfolding turn rest_or_sleep take_all
  poll_turn r lt = ground arith

  announce_turn :
      (r : Receiver)
      → r.cnt ≡ 1024
      → r.wait_flag ≡ false
      → ((turn (idle_turn error) r).0 ≡ awake)
        × ((turn (idle_turn error) r).1.cnt ≡ 1025)
        × ((turn (idle_turn error) r).1.wait_flag ≡ true)
  unfolding turn rest_or_sleep take_all
  announce_turn r full new = ground arith

  sleep_turn :
      (r : Receiver) → r.cnt ≡ 1025 → r.wait_flag ≡ true → (turn (idle_turn error) r).0 ≡ asleep
  unfolding turn rest_or_sleep take_all
  sleep_turn r full announced = ground arith

  idle_ending-suc :
      (k : ℕ) (r : Receiver)
      → (turn (idle_turn error) r).0 ≡ awake
      → idle_ending error (suc k) r ≡ idle_ending error k (turn (idle_turn error) r).1
  unfolding receive repeat
  idle_ending-suc k r e =
      let same : (receive (repeat (suc k) (idle_turn error)) r).1
          ≡ (receive (repeat k (idle_turn error)) (turn (idle_turn error) r).1).1 =
        rw (receive, e) refl in
      ap (λ s. (turn (idle_turn error) s).0) same

  poll_ending-suc :
      (k : ℕ) (r : Receiver)
      → r.cnt < 1024
      → idle_ending error (suc k) r ≡ idle_ending error k (record r { cnt = r.cnt + 1 })
  poll_ending-suc k r lt =
      let polled = poll_turn r lt in
      idle_ending-suc k r (ap (λ p. p.0) polled) ∙ ap (λ p. idle_ending error k p.1) polled

  idle-awake :
      (n k : ℕ) (r : Receiver)
      → r.cnt + n ≡ 1024
      → r.wait_flag ≡ false
      → k ≤ n
      → idle_ending error k r ≡ awake
  unfolding repeat receive
  idle-awake zero zero r full new le = (announce_turn r (omega arith) new).0
  idle-awake zero (suc k) r full new le = absurd (omega arith)
  idle-awake (suc n) zero r full new le = ap (λ p. p.0) (poll_turn r (omega arith))
  idle-awake (suc n) (suc k) r full new le =
      poll_ending-suc k r (omega arith)
      ∙ idle-awake n k (record r { cnt = r.cnt + 1 }) (omega arith) new (omega arith)

  idle-asleep :
      (n : ℕ) (r : Receiver)
      → r.cnt + n ≡ 1024
      → r.wait_flag ≡ false
      → idle_ending error (suc n) r ≡ asleep
  unfolding repeat receive
  idle-asleep zero r full new =
      let (e, cnt, flag) = announce_turn r (omega arith) new in
      idle_ending-suc 0 r e ∙ sleep_turn (turn (idle_turn error) r).1 cnt flag
  idle-asleep (suc n) r some_left new =
      poll_ending-suc (suc n) r (omega arith)
      ∙ idle-asleep n (record r { cnt = r.cnt + 1 }) (omega arith) new

  -- A receiving thread that has not announced that it waits, whose counter of idle turns is at
  -- most 1024, and that finds nothing and is not stopped, while its semaphore does not fail
  -- with EINVAL: every turn up to the one that brings the counter past 1024 ends awake, and the
  -- turn after that one ends asleep on the semaphore.
  pub receive-asleep :
      (n k : ℕ) (r : Receiver)
      → r.cnt + n ≡ 1024
      → r.wait_flag ≡ false
      → k ≤ n
      → (idle_ending error k r ≡ awake) × (idle_ending error (suc n) r ≡ asleep)
  receive-asleep n k r some_left new le =
      (idle-awake n k r some_left new le, idle-asleep n r some_left new)
