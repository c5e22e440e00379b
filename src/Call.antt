-- ===== src/Call.antt =====
-- src/libsrpc.c: a whole call, from the wrapper that the macros make for a function to the executor in
-- another process and back. The arguments of the call are part of what the parameter for the function
-- knows; how a wrapper writes them is generated from the user's list.
pub mod Send
pub mod Ring
pub mod Executed
pub mod Answered
mod Tests
use simplerpc.Common.{
  ℕ, ◌+◌, Bool, true, false, not, Option, none, some, ◌==◌, ltb, if◌then◌else◌, ℤ, pos, negsuc,
  negative, e_badmsg,
}
use simplerpc.Request.{Request, Response, Answer, get_response_fast, response_get}
use simplerpc.Queue.{Queue, Result, ok, full, empty, not_found, try_enqueue, try_dequeue}
use simplerpc.Alloc.{Allocated}
use simplerpc.Dispatch.{Target, Round}
use simplerpc.Call.Send.{Sent}
use simplerpc.Executor.{Served, Function, request_processing}

-- What a call gives its caller: the bytes of the value, and errno.
pub record Returned : Type 0 where
  pub value : ℕ → ℕ
  pub errno : ℕ

-- `memset(rbuf, 0, rlen)`
abbrev pub zero_bytes : ℕ → ℕ
zero_bytes i = 0

-- `-grc`
abbrev pub magnitude : ℤ → ℕ
magnitude (pos n) = n
magnitude (negsuc n) = n + 1

-- The response as the loads of `libsrpc_req_response_get` see it when nobody writes to it any more.
abbrev pub view : Request → Option ℕ → Option ((ℕ → ℕ) × (ℕ → ℕ))
view r none = none
view r (some off) = some ((λ k. (r.responses off).rc), (r.responses off).buf)

-- The end of the wrapper: the answer is read and its failure goes to errno.
abbrev pub read_answer : Answer → Returned
read_answer a = record { value = a.out; errno = if negative a.rc then magnitude a.rc else a.errno }

abbrev pub read_sent : (header rlen : ℕ) → Request → Option Sent → Option Returned
read_sent header rlen r none = none
read_sent header rlen r (some sent) = some (
    read_answer (
      response_get (view sent.req (get_response_fast header (some r) 0)) true rlen sent.errno
        zero_bytes))

-- From the writing of the arguments on, which gave `written` bytes; `send` is `libsrpc_send_request` with
-- errno cleared, and `none` a call that still waits.
unfoldable pub send_and_read :
    (header written len rlen : ℕ) → (send : Request → Option Sent) → Request → Option Returned
send_and_read header written len rlen send r =
    if not (written == len)
    then some (record { value = zero_bytes; errno = e_badmsg })
    else read_sent header rlen r (send r)

-- The wrapper, for what `libsrpc_req_alloc` has left.
unfoldable pub call :
    (header written len rlen : ℕ) → (send : Request → Option Sent) → Allocated → Option Returned
unfolding send_and_read
call header written len rlen send a = elim a.errno [
  | some e ↦ some (record { value = zero_bytes; errno = e })
  | none ↦ elim a.current [
    | none ↦ some (record { value = zero_bytes; errno = 0 })
    | some r ↦ send_and_read header written len rlen send r
  ]
]

-- A process with its UID, threads, ring and functions, and which attempts at the ring fail spuriously.
pub record Peer : Type 0 where
  pub proc : ℕ
  pub uid : ℕ
  pub threads_run : ℕ
  pub threads_wait : ℕ
  pub ring : Queue
  pub spurious_in : ℕ → ℕ → Bool
  pub spurious_out : ℕ → Bool
  pub fnnum : ℕ
  pub function : ℕ → Option Function

abbrev pub is_ok : Option (Result × Queue) → Bool
is_ok (some (ok, q)) = true
is_ok (some (full, q)) = false
is_ok (some (empty, q)) = false
is_ok (some (not_found, q)) = false
is_ok none = false

-- The process as the sender of the request at `ptr` sees it.
abbrev pub target : (fuel : ℕ) → Peer → (ptr : ℕ) → Target
target fuel w ptr = record {
  proc_uid = w.uid;
  valid = true;
  valid_late = true;
  threads_run = w.threads_run;
  threads_wait = w.threads_wait;
  accepts = λ k. is_ok (try_enqueue fuel (w.spurious_in k) ptr w.ring);
}

-- What the receiver takes from the ring after the first attempt of the sender.
unfoldable pub taken : (size fuel : ℕ) → Peer → (ptr : ℕ) → Option ℕ
taken size fuel w ptr = elim (try_enqueue fuel (w.spurious_in 0) ptr w.ring) [
  | none ↦ none
  | some (r, q) ↦ elim (try_dequeue size fuel w.spurious_out q) [
    | none ↦ none
    | some (r', out, q') ↦ out
  ]
]

-- The request at `ptr` after the process has executed it, if its receiver takes it from the ring.
unfoldable pub executed_by : (header size fuel ptr : ℕ) → Peer → Request → Request
unfolding taken
executed_by header size fuel ptr w r =
    let done =
      request_processing header w.fnnum w.function ptr w.proc w.uid 0 r r
        (record { req = r; posts = 0 }) in
    elim (taken size fuel w ptr) [ none ↦ r | some p ↦ if p == ptr then done.served.req else r ]

-- The request at the turns of the wait: as it was sent before the turn `late`, and executed from then on.
abbrev pub seen_by : (header size fuel ptr late : ℕ) → Peer → Round → (turn : ℕ) → Request
seen_by header size fuel ptr late w round turn =
    if ltb turn late then round.req else executed_by header size fuel ptr w round.req
