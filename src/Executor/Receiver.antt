-- ===== src/Executor/Receiver.antt =====
-- src/libsrpc.c: the loop of the thread that takes requests from the queue of its process, and the
-- stop of these threads. The counter `cnt` is taken not to reach 2 ^ 31, which takes as many turns
-- without a request.
use simplerpc.Common.{
  ℕ, zero, suc, ◌+◌, ◌-◌, ◌%◌, Bool, true, false, not, Option, none, some, List, [], ◌∷◌, ltb, leb,
  ◌==◌, if◌then◌else◌, word32,
}
use simplerpc.Queue.{Queue}
use simplerpc.Executor.{Served}

-- The receiving thread: its counter of empty turns, whether it has announced that it waits, the
-- number of waiting threads in its process, and the requests that it has processed.
pub record Receiver : Type 0 where
  pub cnt : ℕ
  pub wait_flag : Bool
  pub threads_wait : ℕ
  pub processed : List ℕ

abbrev pub add32 : ℕ → ℕ
add32 n = (n + 1) % word32

abbrev pub sub32 : ℕ → ℕ
sub32 n = (n + word32 - 1) % word32

-- One request: the announcement is taken back, the request processed, the counter reset.
unfoldable pub take_one : ℕ → Receiver → Receiver
take_one req r = record r {
  cnt = 0;
  wait_flag = false;
  threads_wait = if r.wait_flag then sub32 r.threads_wait else r.threads_wait;
  processed = req ∷ r.processed;
}

-- The inner loop, over the requests that it finds in the queue until that is empty; a NULL in the queue
-- ends it too.
unfoldable pub take_all : List ℕ → Receiver → Receiver
unfolding take_one
take_all [] r = r
take_all (req ∷ reqs) r = let rest = take_all reqs (take_one req r) in if req == 0 then r else rest

-- What a turn of the outer loop meets: the flag to stop, the requests of the queue, and the errno of the
-- semaphore if it fails; DEQUEUE_RETRY is 1024.
pub record Turn : Type 0 where
  pub stop_flag : Bool
  pub got : List ℕ
  pub wait_error : Option ℕ

-- How a turn ends: the loop goes on after a pause or an announcement, it goes on after a sleep, or it is
-- left.
pub data Ending : Type 0 where
  awake asleep left : Ending

abbrev pub is_einval : Option ℕ → Bool
is_einval none = false
is_einval (some e) = e == 22

-- The turn after the inner loop.
unfoldable pub rest_or_sleep : Option ℕ → Receiver → Ending × Receiver
rest_or_sleep error r =
    let counted : Receiver = record r { cnt = r.cnt + 1 } in
    if ltb r.cnt 1024
    then (awake, counted)
    else if not r.wait_flag
    then (awake, record counted { wait_flag = true; threads_wait = add32 r.threads_wait })
    else (
      if is_einval error then left else asleep,
      record counted { wait_flag = false; threads_wait = sub32 r.threads_wait },
    )

-- One turn of the outer loop.
unfoldable pub turn : Turn → Receiver → Ending × Receiver
turn t r = if t.stop_flag then (left, r) else rest_or_sleep t.wait_error (take_all t.got r)

abbrev pub is_left : Ending → Bool
is_left awake = false
is_left asleep = false
is_left left = true

-- The loop over the turns that are met: whether it was left, and the state.
unfoldable pub receive : List Turn → Receiver → Bool × Receiver
receive [] r = (false, r)
receive (t ∷ ts) r =
    let rest = receive ts (turn t r).1 in
    if is_left (turn t r).0 then (true, (turn t r).1) else rest

-- `libsrpc_thread_rcv_req`: the slot that the thread takes, none if there are enough threads, and
-- `threads_run` and the receiver when it ends or the turns are over.
unfoldable pub thread_rcv_req :
    (threads_num threads_run threads_wait : ℕ) → List Turn → Option ℕ × ℕ × Receiver
unfolding receive
thread_rcv_req threads_num threads_run threads_wait ts =
    let began : Receiver = record {
      cnt = 0;
      wait_flag = false;
      threads_wait = threads_wait;
      processed = [];
    } in
    let (over, r) = receive ts began in
    if leb threads_num threads_run
    then (none, sub32 (add32 threads_run), began)
    else (some threads_run, (if over then sub32 (add32 threads_run) else add32 threads_run), r)

-- The wait of `libsrpc_thread_rcv_req_stop` until no thread runs: the number of its turns, for the values
-- of `threads_run` that it sees.
unfoldable pub await_stopped : (fuel i : ℕ) → (runs : ℕ → ℕ) → Option ℕ
await_stopped zero i runs = none
await_stopped (suc fuel) i runs =
    let rest = await_stopped fuel (suc i) runs in if ltb 0 (runs i) then rest else some i

-- `libsrpc_thread_rcv_req_stop`: how often it posts the semaphore of the threads, the requests and the
-- queue that it leaves, and when its wait is over.
unfoldable pub thread_rcv_req_stop :
    (threads_wait : ℕ)
    → (cleared : Option ((ℕ → Option Served) × Queue)) → (fuel : ℕ) → (runs : ℕ → ℕ)
    → Option (ℕ × (ℕ → Option Served) × Queue × ℕ)
unfolding await_stopped
thread_rcv_req_stop threads_wait none fuel runs = none
thread_rcv_req_stop threads_wait (some (mem, q)) fuel runs = elim (await_stopped fuel 0 runs) [
  | none ↦ none
  | some i ↦ some (add32 threads_wait, mem, q, i)
]
