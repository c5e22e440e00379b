-- ===== src/Executor.antt =====
-- src/libsrpc.c: the side that executes requests. The thread that takes them from the queue of its
-- process, the processing of one request, the clearing of the queue of a process that ends, and
-- the stop of the threads. What a called function computes is an argument, and so is the request
-- as it stands at each of the checks, since its owner may destroy it meanwhile.
pub mod Slot
pub mod Answered
pub mod Cleared
pub mod Receiver
pub mod Idle
mod Tests
use simplerpc.Common.{
  ℕ, zero, suc, ◌+◌, ◌-◌, Bool, true, false, not, ◌||◌, ◌&&◌, Option, none, some, List, [], ◌∷◌,
  ltb, leb, ◌==◌, if◌then◌else◌, ℤ, pos, neg, negative, unsigned, word32, update, e_inval, e_badmsg,
  e_recursive, e_notavailable, e_cancelled,
}
use simplerpc.Request.{
  Request, Response, control, is_corrupted, get_response_fast, get_response, response_set, rc_word,
  rc_st, st_ready, st_error, req_sign,
}
use simplerpc.Queue.{Queue, ok, full, empty, not_found, try_dequeue}

-- Whether the response waits for the process `proc`, whose UID is `uid`.
abbrev pub is_own : (proc uid : ℕ) → Response → Bool
is_own proc uid p = (p.hp_proc == proc) && (uid == p.uid)

-- The loop that looks for the response of the process, over the `n` responses from `i`; `response i` is
-- where the response number `i` is, and `resp` the variable as the loop finds it.
unfoldable pub find_slot :
    (response : ℕ → Option ℕ) → (n i : ℕ) → Request → (proc uid : ℕ) → (resp : Option ℕ) → Option ℕ
find_slot response zero i r proc uid resp = resp
find_slot response (suc n) i r proc uid resp = elim (response i) [
  | none ↦ find_slot response n (suc i) r proc uid none
  | some off ↦ elim (is_own proc uid (r.responses off)) [
    | true ↦ some off
    | false ↦ find_slot response n (suc i) r proc uid (some off)
  ]
]

-- The test after the loop.
abbrev pub keep_own : Request → (proc uid : ℕ) → Option ℕ → Option ℕ
keep_own r proc uid none = none
keep_own r proc uid (some off) = if is_own proc uid (r.responses off) then some off else none

unfoldable pub own_slot : (response : ℕ → Option ℕ) → Request → (proc uid : ℕ) → Option ℕ
unfolding find_slot
own_slot response r proc uid = keep_own r proc uid (find_slot response r.retnum 0 r proc uid none)

-- A request that is executed: its bytes, and how often its owner was woken.
pub record Served : Type 0 where
  pub req : Request
  pub posts : ℕ

-- What the function of a request computes from it: the bytes of its value and their number, none and
-- 0 for `void`; and whether the symbol of the function is the wrapper itself.
pub record Function : Type 0 where
  pub value : Request → Option (ℕ → ℕ)
  pub size : ℕ
  pub is_wrapper : Bool

-- A request whose response at `off` is set.
abbrev pub with_response : Request → ℕ → Response → Request
with_response r off p = record r { responses = update r.responses off p }

-- `libsrpc_callback_func` for a request and its response; `function` is none for an identifier that
-- the switch does not know.
unfoldable pub callback_func :
    (header : ℕ) → Option Function → (ctrl : ℕ) → Served → (off : ℕ) → ℤ × Served
unfolding response_set
callback_func header none ctrl s off = (neg e_badmsg, record s { posts = s.posts + 1 })
callback_func header (some f) ctrl s off =
    let set =
      response_set header (some s.req) (s.req.responses off) (some ctrl) (f.value s.req) f.size in
    if f.is_wrapper
    then (neg e_recursive, record s { posts = s.posts + 1 })
    else (set.0, record { req = with_response s.req off set.1; posts = s.posts + 1 })

-- `libsrpc_request_lock`: its two checks see the request as `first` and `second`; the number is `hp_req`.
unfoldable pub request_lock : (header address hp : ℕ) → (first second : Request) → ℤ × ℕ
request_lock header address hp first second =
    if is_corrupted header (some first) none
    then (neg e_badmsg, hp)
    else if is_corrupted header (some second) none
    then (neg e_badmsg, 0)
    else (pos 0, address)

-- `libsrpc_request_unlock`
abbrev pub request_unlock : ℕ → ℕ
request_unlock hp = 0

-- What processing leaves: its result, the request, `hp_req`, and what `hp_req` held while the
-- function ran.
pub record Processed : Type 0 where
  pub rc : ℤ
  pub served : Served
  pub hp_req : ℕ
  pub ran_under : Option ℕ

abbrev pub stopped : ℕ → Served → Processed
stopped hp s = record {
  rc = neg e_badmsg;
  served = s;
  hp_req = request_unlock hp;
  ran_under = none;
}

-- `((srpc_rc_t){.rc = rc}).st`
unfoldable pub rc_state : ℤ → ℕ
unfolding rc_st
rc_state rc = rc_st (unsigned word32 rc)

-- From the callback on.
abbrev pub run_in : (header : ℕ) → Option Function → (hp : ℕ) → Served → ℕ → Processed
run_in header f hp s off =
    let called = callback_func header f (control s.req) s off in
    record {
      rc = if rc_state called.0 == st_ready then pos 0 else neg e_badmsg;
      served = called.1;
      hp_req = request_unlock hp;
      ran_under = some hp;
    }

-- `libsrpc_request_processing`: `first` and `second` are the request at the checks of the lock; the rest
-- sees the request of `s`. Functions have the identifiers from 17 to 16 + `fnnum`.
unfoldable pub request_processing :
    (header fnnum : ℕ)
    → (function : ℕ → Option Function) → (address proc uid hp : ℕ) → (first second : Request)
    → Served
    → Processed
request_processing header fnnum function address proc uid hp first second s =
    let locked = request_lock header address hp first second in
    if (address == 0) || (proc == 0)
    then record { rc = neg e_inval; served = s; hp_req = hp; ran_under = none }
    else if is_corrupted header (some s.req) none
    then stopped locked.1 s
    else if leb (17 + fnnum) s.req.funid || leb s.req.funid 16
    then stopped locked.1 s
    else elim (own_slot (get_response_fast header (some s.req)) s.req proc uid) [
      | none ↦ stopped locked.1 s
      | some off ↦ run_in header (function s.req.funid) locked.1 s off
    ]

-- The swap of the word of the response at `off`, and the wake-up of the owner.
abbrev pub cancel_at : Served → ℕ → Served
cancel_at s off =
    let p = s.req.responses off in
    record {
      req =
          if p.rc == 0
          then with_response s.req off (record p { rc = rc_word (neg e_cancelled) st_error })
          else s.req;
      posts = if s.req.sign == req_sign then s.posts + 1 else s.posts;
    }

-- What `libsrpc_thread_rcv_queue_clear` does with one request of the queue.
unfoldable pub cancel : (header proc uid : ℕ) → Served → Served
cancel header proc uid s =
    if is_corrupted header (some s.req) none
    then s
    else elim (own_slot (get_response header (some s.req)) s.req proc uid) [
      | none ↦ s
      | some off ↦ cancel_at s off
    ]

abbrev pub cancel_if : (header proc uid : ℕ) → Option Served → Option Served
cancel_if header proc uid none = none
cancel_if header proc uid (some s) = some (cancel header proc uid s)

-- The requests by their addresses; what is no request counts as corrupted.
abbrev pub cancel_in : (header proc uid : ℕ) → ℕ → (ℕ → Option Served) → ℕ → Option Served
cancel_in header proc uid p mem = update mem p (cancel_if header proc uid (mem p))

-- `libsrpc_thread_rcv_queue_clear`, for at most `turns` turns, each with `fuel` attempts at the ring.
unfoldable pub queue_clear :
    (header proc uid capacity fuel : ℕ)
    → (turns : ℕ) → (spurious : ℕ → ℕ → Bool) → (ℕ → Option Served)
    → Queue
    → Option ((ℕ → Option Served) × Queue)
queue_clear header proc uid capacity fuel zero spurious mem q = none
queue_clear header proc uid capacity fuel (suc turns) spurious mem q =
    elim (try_dequeue capacity fuel (spurious 0) q) [
      | none ↦ none
      | some (ok, some p, q') ↦
          queue_clear header proc uid capacity fuel turns (λ k. spurious (suc k))
            (cancel_in header proc uid p mem) q'
      | some (ok, none, q') ↦ none
      | some (full, out, q') ↦ some (mem, q')
      | some (empty, out, q') ↦ some (mem, q')
      | some (not_found, out, q') ↦ some (mem, q')
    ]
