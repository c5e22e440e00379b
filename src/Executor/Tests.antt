-- ===== src/Executor/Tests.antt =====
-- A request with two responses, the second of them for the process at 900, whose UID is 6.
use simplerpc.Common.{
  ℕ, ◌+◌, ◌^◌, ◌≡◌, ◌⊎◌, refl, true, false, Option, none, some, List, [], ◌∷◌, arith, ◌==◌,
  if◌then◌else◌, ltb,
}
use simplerpc.Request.{Request, is_corrupted, get_response_fast, get_response, req_sign}
use simplerpc.Queue.{Queue, init, publish}
use simplerpc.Queue.Enqueue.{publish-Holds}
use simplerpc.Queue.Inv.{Holds, IsCapacity}
use simplerpc.Queue.Refine.{init-Holds}
use simplerpc.Executor.{Served, Function, is_own, request_processing, queue_clear}
use simplerpc.Executor.Answered.{answered, request_processing-answers, request_processing-guarded}
use simplerpc.Executor.Cleared.{Settled, times, queue_clear-all}
use simplerpc.Executor.Receiver.{Receiver, Turn, awake, asleep, receive, thread_rcv_req}
use simplerpc.Executor.Idle.{Counted, thread_rcv_req-Counted, receive-asleep, idle_ending}

abbrev request : Request
request = record {
  sign = req_sign;
  seq_num = 5;
  gc_lock = λ k. 0;
  funid = 17;
  bufsz = 200;
  retoff = 16;
  retsz = 32;
  retnum = 2;
  responses =
      λ off. record { hp_proc = if off == 48 then 900 else 800; rc = 0; uid = 6; buf = λ j. 0 };
}

abbrev served : Served
served = record { req = request; posts = 0 }

-- A function of the program that returns four bytes of 7.
abbrev sevens : Function
sevens = record { value = λ r. some (λ i. 7); size = 4; is_wrapper = false }

abbrev table : ℕ → Option Function
table id = if id == 17 then some sevens else none

not_corrupted : is_corrupted 120 (some request) none ≡ false
unfolding is_corrupted
not_corrupted = refl

second : get_response_fast 120 (some request) 1 ≡ some 48
unfolding get_response_fast
second = refl

second_checked : get_response 120 (some request) 1 ≡ some 48
unfolding get_response
second_checked = refl

request_processing-answers_example :
    (mine : ℕ) × (is_own 900 6 (request.responses mine) ≡ true)
    × (request_processing 120 3 table 4096 900 6 0 request request served
        ≡ answered 120 3 table 4096 900 6 (omega arith) (omega arith) served sevens mine)
request_processing-answers_example =
    request_processing-answers 120 3 table 4096 900 6 (omega arith) (omega arith) served sevens 1 48
      0 not_corrupted (omega arith) (omega arith) refl refl (omega arith) second refl
      (λ k own. refl)

request_processing-guarded_example :
    ((request_processing 120 3 table 4096 900 6 0 request request served).hp_req ≡ 0)
    × (((request_processing 120 3 table 4096 900 6 0 request request served).ran_under ≡ none)
        ⊎ ((request_processing 120 3 table 4096 900 6 0 request request served).ran_under
            ≡ some 4096))
request_processing-guarded_example =
    request_processing-guarded 120 3 table 4096 900 6 (omega arith) (omega arith) served 0 request
      request ((λ h. h), (λ h. h))

abbrev size : ℕ
size = 4

is_capacity : IsCapacity size
is_capacity = record {
  laps = 2 ^ 62;
  divides = omega arith;
  two_le = omega arith;
  le_half = omega arith;
}

abbrev memory : Queue
memory = record { head = 1; tail = 1; buffer = λ i. record { seq = 9; item = 9 }; mask = 7 }

-- The ring with the request at 4096.
abbrev queue : Queue
queue = publish 0 4096 (init size memory)

queue-Holds : Holds size 0 (4096 ∷ []) queue
unfolding init
queue-Holds = publish-Holds is_capacity (init-Holds size memory is_capacity) 4096 (omega arith)

abbrev store : ℕ → Option Served
store p = if p == 4096 then some served else none

queue_clear-all_example :
    (mem' : ℕ → Option Served) × (q' : Queue) × (start' : ℕ) × (queue_clear 120 900 6 size 2 2
        (λ k n. false)
        store
        queue
      ≡ some (mem', q'))
    × Holds size start' [] q'
    × Settled 900 6 served (mem' 4096)
    × (mem' 8192 ≡ store 8192)
unfolding times
queue_clear-all_example =
    queue_clear-all 120 900 6 2 is_capacity (4096 ∷ []) 0 2 (λ k n. false) store queue queue-Holds
      (omega arith) (λ k. (0, omega arith, refl)) 4096 served 1 48 refl refl not_corrupted
      (omega arith) second_checked refl 8192 refl

abbrev began : Receiver
began = record { cnt = 0; wait_flag = false; threads_wait = 3; processed = [] }

abbrev turns : List Turn
turns =
    record { stop_flag = false; got = 5 ∷ 6 ∷ []; wait_error = none }
    ∷ record { stop_flag = true; got = []; wait_error = none }
    ∷ []

thread_rcv_req-Counted_example :
    Counted 3 (thread_rcv_req 8 2 3 turns).2
    × ((thread_rcv_req 8 2 3 turns).1
        ≡ (if ltb 2 8 then (if (receive turns began).0 then 2 else 2 + 1) else 2))
thread_rcv_req-Counted_example = thread_rcv_req-Counted 3 (omega arith) 8 2 turns (omega arith)

receive-asleep_example :
    (idle_ending none 1 (record began { cnt = 1023 }) ≡ awake)
    × (idle_ending none 2 (record began { cnt = 1023 }) ≡ asleep)
receive-asleep_example =
    receive-asleep (none) (refl) 1 1 (record began { cnt = 1023 }) (omega arith) refl (omega arith)
