-- ===== src/Dispatch.antt =====
-- src/libsrpc.c: how `libsrpc_send_request` chooses the processes that get a request, and how
-- `libsrpc_send_request_one` puts it into the queue of one. `header` is sizeof(libsrpc_request_t). What
-- the threads of the receivers do meanwhile is part of a process as the sender sees it: whether the
-- process is still valid at the two tests, and which of the 16 * 32 attempts to enqueue succeeds.
pub mod Sent
pub mod Everyone
pub mod ToAll
pub mod Alone
mod Tests
use simplerpc.Common.{
  ℕ, zero, suc, ◌+◌, ◌*◌, ◌%◌, Bool, true, false, not, ◌&&◌, Option, none, some, List, [], ◌∷◌,
  ◌++◌, ltb, leb, ◌==◌, if◌then◌else◌, word32, ℤ, pos, negsuc, neg, update, e_notavailable, e_nomem,
  e_invalproc, e_inval, e_shmnoinit, e_recursive, e_rpcdisable, ◌||◌, ◌/◌,
}
use simplerpc.Registry.{Function, ExtBlock, rfmb_sz}
use simplerpc.Request.{Request, Response, rc_word, st_error, get_response_fast}

-- `libsrpc_proc_t` as a sender reads it.
pub record Target : Type 0 where
  pub proc_uid : ℕ
  pub valid : Bool
  pub valid_late : Bool
  pub threads_run : ℕ
  pub threads_wait : ℕ
  pub accepts : ℕ → Bool

-- The loops of `n` attempts from number `i`, a round of 32 after the other.
unfoldable pub try_all : (n i : ℕ) → (ℕ → Bool) → Bool
try_all zero i accepts = false
try_all (suc n) i accepts = let rest = try_all n (suc i) accepts in if accepts i then true else rest

abbrev pub is_zero : ℤ → Bool
is_zero (pos n) = n == 0
is_zero (negsuc n) = false

abbrev pub failed : ℕ → Response → ℤ × Response
failed e marked = (neg e, record marked { rc = rc_word (neg e) st_error; hp_proc = 0 })

-- The response after `libsrpc_send_request_one`, and its result.
unfoldable pub address : ℕ → Target → Response → ℤ × Response
address proc t resp =
    let marked : Response = record resp { rc = 0; uid = t.proc_uid; hp_proc = proc } in
    if not t.valid
    then failed e_invalproc marked
    else if t.threads_run == 0
    then failed e_notavailable marked
    else if not (try_all (16 * 32) 0 t.accepts)
    then failed e_nomem marked
    else (pos 0, marked)

-- What `libsrpc_send_request_one` leaves: its result, the request, and whether it posted the
-- semaphore of the receiver.
pub record Sending : Type 0 where
  pub rc : ℤ
  pub req : Request
  pub posted : Bool

unfoldable pub send_request_one : (header proc : ℕ) → Target → Request → (it : ℕ) → Sending
unfolding address
send_request_one header proc t req it = elim (get_response_fast header (some req) it) [
  | none ↦ record { rc = neg e_notavailable; req = req; posted = false }
  | some off ↦
      let r = address proc t (req.responses off) in
      record {
        rc = r.0;
        req = record req { responses = update req.responses off r.1 };
        posted = is_zero r.0 && not (t.threads_wait == 0) && t.valid_late;
      }
]

-- `libsrpc_flag_send_rpc_t`
pub data Policy : Type 0 where
  send_all send_first send_last send_rr : Policy

-- The variables of `libsrpc_send_request` in its loops; `sent` lists the processes that have got the
-- request, and `woken` those whose semaphore was posted.
pub record Round : Type 0 where
  pub req : Request
  pub it : ℕ
  pub proc_last : ℕ
  pub rr_cnt : ℕ
  pub sent : List ℕ
  pub woken : List ℕ

-- `rc = libsrpc_send_request_one(proc, req, it); if(rc == 0) it++;`
pub send_to : (header : ℕ) → (ℕ → Target) → ℕ → Round → Round
unfolding send_request_one
send_to header look proc r =
    let s = send_request_one header proc (look proc) r.req r.it in
    let woken = if s.posted then r.woken ++ proc ∷ [] else r.woken in
    if is_zero s.rc
    then record r { req = s.req; it = r.it + 1; sent = r.sent ++ proc ∷ []; woken = woken }
    else record r { req = s.req; woken = woken }

-- What the loops do with a process that is registered.
pub offer : Policy → (rr_pos header : ℕ) → (ℕ → Target) → ℕ → Round → Round
unfolding send_to
offer send_all rr_pos header look proc r = send_to header look proc r
offer send_first rr_pos header look proc r = send_to header look proc r
offer send_last rr_pos header look proc r = record r { proc_last = proc }
offer send_rr rr_pos header look proc r =
    let counted : Round = record r { rr_cnt = r.rr_cnt + 1 } in
    if rr_pos == r.rr_cnt then send_to header look proc counted else counted

-- The loop over the `n` slots from `i` while fewer than `retnum` requests are sent.
pub walk_slots :
    Policy → (rr_pos header retnum : ℕ) → (ℕ → Target) → (n i : ℕ) → (ℕ → ℕ) → Round → Round
unfolding offer
walk_slots policy rr_pos header retnum look zero i slots r = r
walk_slots policy rr_pos header retnum look (suc n) i slots r =
    let next = if slots i == 0 then r else offer policy rr_pos header look (slots i) r in
    let rest = walk_slots policy rr_pos header retnum look n (suc i) slots next in
    if leb retnum r.it then r else rest

-- How many requests are wanted, and the number of the process whose turn it is.
unfoldable pub wanted : Policy → ℕ → ℕ
wanted send_all retnum = retnum
wanted send_first retnum = 1
wanted send_last retnum = retnum
wanted send_rr retnum = 1

pub turn_of : (counter retnum : ℕ) → ℕ
turn_of counter retnum = counter % (if ltb 1 retnum then retnum else 1)

abbrev pub walk_ext :
    Policy → (rr_pos header retnum : ℕ) → (ℕ → Target) → Option ExtBlock → Round → Round
walk_ext policy rr_pos header retnum look none r = r
walk_ext policy rr_pos header retnum look (some eb) r =
    walk_slots policy rr_pos header retnum look eb.szfn 0 eb.proc r

-- The request after the last policy's process and the check of the number sent.
abbrev pub finish_last : Policy → (header : ℕ) → (ℕ → Target) → Round → Round
finish_last send_all header look r = r
finish_last send_first header look r = r
finish_last send_rr header look r = r
finish_last send_last header look r =
    if r.proc_last == 0 then r else send_to header look r.proc_last r

-- The part of `libsrpc_send_request` that sends, behind its first tests: errno where nothing was
-- sent, the request with the number of responses to wait for, and the processes that have it.
-- `counter` is the value of `req_send_rr` that the call has taken.
pub dispatch : Policy → (header counter : ℕ) → (ℕ → Target) → Function → Request → Option ℕ × Round
unfolding walk_slots wanted turn_of
dispatch policy header counter look f req =
    let retnum = wanted policy req.retnum in
    let rr_pos = turn_of counter req.retnum in
    let begin : Round = record {
      req = record req { retnum = retnum };
      it = 0;
      proc_last = 0;
      rr_cnt = 0;
      sent = [];
      woken = [];
    } in
    let main = walk_slots policy rr_pos header retnum look rfmb_sz 0 f.main_block begin in
    let ext = walk_ext policy rr_pos header retnum look f.ext_block main in
    let done = finish_last policy header look ext in
    if done.it == 0
    then (some e_notavailable, done)
    else (none, record done { req = record done.req { retnum = done.it } })

-- The tests that `libsrpc_send_request` makes first, with the errno that it sets.
unfoldable pub refusal : (shm recursive enabled : Bool) → (fnnum : ℕ) → Option Request → Option ℕ
refusal shm recursive enabled fnnum none = some e_inval
refusal shm recursive enabled fnnum (some req) =
    if req.retnum == 0
    then some e_inval
    else if not shm
    then some e_shmnoinit
    else if recursive
    then some e_recursive
    else if not enabled
    then some e_rpcdisable
    else if ltb req.funid 17 || leb (17 + fnnum) req.funid
    then some e_inval
    else none

-- The time to wait, and what is left of the time set for one call.
pub choose_timeout : (global oneshot func : ℕ) → ℕ × ℕ
choose_timeout global oneshot func =
    let chosen = if ltb 0 oneshot then oneshot else if ltb 0 func then func else global in
    (if ltb chosen 100 then 100 else chosen, 0)
