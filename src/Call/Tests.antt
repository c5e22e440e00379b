-- ===== src/Call/Tests.antt =====
-- src/libsrpc.c: a call at concrete inputs.
use simplerpc.Common.{
  ℕ, ◌+◌, ◌*◌, ◌^◌, ◌<◌, ◌≡◌, refl, true, false, not, none, some, [], ◌==◌, if◌then◌else◌, arith,
}
use simplerpc.Request.{copy_bytes}
use simplerpc.Queue.{Queue, init}
use simplerpc.Queue.Inv.{IsCapacity}
use simplerpc.Queue.Refine.{init-Holds}
use simplerpc.Alloc.{align_long, response_size, req_alloc}
use simplerpc.Executor.{Function}
use simplerpc.Waiting.{ends_wait}
use simplerpc.Dispatch.{send_rr}
use simplerpc.Dispatch.Alone.{IsAlone}
use simplerpc.Call.{Peer, zero_bytes, target, seen_by, call}
use simplerpc.Call.Send.{Sender, send_request}
use simplerpc.Registry
use simplerpc.Call.Answered.{call-returns}

abbrev size : ℕ
size = 4

is_capacity : IsCapacity size
is_capacity = record {
  laps = 2 ^ 62;
  divides = omega arith;
  two_le = omega arith;
  le_half = omega arith;
}

abbrev garbage : Queue
garbage = record { head = 1; tail = 1; buffer = λ i. record { seq = 9; item = 9 }; mask = 7 }

-- A function that returns the four bytes 7, 8, 9, 10.
abbrev counts : Function
counts = record { value = λ r. some (λ i. 7 + i); size = 4; is_wrapper = false }

-- Its process, in which every attempt at the ring but the first fails spuriously.
abbrev peer : Peer
peer = record {
  proc = 900;
  uid = 6;
  threads_run = 2;
  threads_wait = 1;
  ring = init size garbage;
  spurious_in = λ k i. not (i == 0);
  spurious_out = λ i. not (i == 0);
  fnnum = 3;
  function = λ k. if k == 18 then some counts else none;
}

small : 120 + align_long 8 + align_long (response_size + 4) * 1 < 2 ^ 31
unfolding align_long
small = omega arith

-- The fourth slot of the main block has the process.
abbrev registered : Registry.Function
registered = record {
  num_all = 1;
  ext_block = none;
  main_block = λ j. if j == 3 then 900 else 0;
  retired = [];
}

alone : IsAlone 900 registered
alone = record { slot = 3; within = omega arith; slots = λ j. refl; no_block = refl }

-- The semaphore fails with EINTR at the first turn.
abbrev sender : Sender
sender = record {
  shm = true;
  recursive = false;
  enabled = true;
  fnnum = 3;
  policy = send_rr;
  counter = 41;
  look = λ p. target 2 peer 4096;
  registry = λ k. registered;
  timeouts = record { oneshot = 0; func = λ k. 0; global = 5000 };
  turns = 3;
  wake = λ timeout i. if i == 0 then some 4 else none;
}

quiet : (t : ℕ) → ends_wait (sender.wake 0 t) ≡ false
quiet t = ground arith

call-returns_example :
    call 120 8 8 4
      (send_request 120 sender (seen_by 120 size 2 4096 1 peer) 0)
      (req_alloc 120 true 1 18 8 4 true none 0)
    ≡ some (record { value = copy_bytes (some (λ i. 7 + i)) 4 zero_bytes; errno = 0 })
call-returns_example =
    call-returns 120 size 2 4096 peer is_capacity 0 0 0 (init-Holds size garbage is_capacity)
      (omega arith) refl (omega arith) refl sender 1 18 0 8 4 (λ i. 7 + i) none (omega arith)
      (omega arith) (omega arith) (omega arith) (omega arith) refl (omega arith) small
      (λ r none_given. absurd cc) refl refl refl (omega arith) alone refl (λ timeout t. quiet t)
      (omega arith)
