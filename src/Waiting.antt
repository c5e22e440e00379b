-- ===== src/Waiting.antt =====
-- src/libsrpc.c: the loop of `libsrpc_send_request` that waits for the answers, the timeouts that a
-- program sets, and the error texts of src/libsrpc_errno.c. What the semaphore says, and the
-- request as the executors have left it by then, are arguments: one value for each turn of the loop.
pub mod Ended
pub mod Comes
mod Tests
use simplerpc.Common.{
  ℕ, zero, suc, ◌+◌, ◌-◌, Bool, true, false, not, ◌||◌, ◌&&◌, Option, none, some, ltb, leb, ◌==◌,
  if◌then◌else◌, ℤ, pos, negsuc, neg, update, e_rpcwaitimedout,
}
use simplerpc.Request.{Request, Response, rc_word, rc_st, st_lock, st_error, get_response_fast}

-- `rpc_timeout_oneshot`, `rpc_timeout` and `rpc_timeout_global`
pub record Timeouts : Type 0 where
  pub oneshot : ℕ
  pub func : ℕ → ℕ
  pub global : ℕ

-- `libsrpc_timeout_func_set`, for one of `fnnum` functions; their identifiers begin at 17.
pub timeout_func_set : (fnnum funid timeout : ℕ) → Timeouts → Timeouts
timeout_func_set fnnum funid timeout t =
    if ltb funid 17 || leb (17 + fnnum) funid
    then t
    else record t { func = update t.func (funid - 17) timeout }

-- `libsrpc_timeout_oneshot_set`
pub timeout_oneshot_set : ℕ → Timeouts → Timeouts
timeout_oneshot_set timeout t = record t { oneshot = timeout }

-- `libsrpc_timeout_global_set`
pub timeout_global_set : ℕ → Timeouts → Timeouts
timeout_global_set timeout t = record t { global = timeout }

-- A response that is counted: answered, or no longer expected.
abbrev pub is_answered : Response → Bool
is_answered p = not (not (p.hp_proc == 0) && ((p.rc == 0) || (rc_st p.rc == st_lock)))

abbrev pub answered_in : Request → Option ℕ → Bool
answered_in r none = false
answered_in r (some off) = is_answered (r.responses off)

-- The loop that counts the answers, over the `n` responses from `i`.
unfoldable pub count_answers : (header n i : ℕ) → Request → ℕ
count_answers header zero i r = 0
count_answers header (suc n) i r =
    (if answered_in r (get_response_fast header (some r) i) then 1 else 0)
    + count_answers header n (suc i) r

abbrev pub timed_out_word : ℕ
timed_out_word = rc_word (neg e_rpcwaitimedout) st_error

abbrev pub mark_empty : Request → Option ℕ → Request
mark_empty r none = r
mark_empty r (some off) =
    if (r.responses off).rc == 0
    then record r {
      responses = update r.responses off (record (r.responses off) { rc = timed_out_word });
    }
    else r

-- The loop that marks the empty responses after a timeout.
pub mark_timeouts : (header n i : ℕ) → Request → Request
mark_timeouts header zero i r = r
mark_timeouts header (suc n) i r =
    mark_timeouts header n (suc i) (mark_empty r (get_response_fast header (some r) i))

-- How the wait stands: over with every answer, over by a timeout, or still going on.
pub data Wait : Type 0 where
  finished : Request → Wait
  timed_out : Request → Wait
  waits : Wait

-- ETIMEDOUT and EINVAL end the wait; another error, such as EINTR, does not.
abbrev pub ends_wait : Option ℕ → Bool
ends_wait none = false
ends_wait (some e) = (e == 110) || (e == 22)

-- The loop of `libsrpc_send_request` that waits for `retnum` answers, for at most `turns` turns from
-- number `i`; `wake i` is the errno of the semaphore, if it failed.
unfoldable pub await :
    (header retnum turns i : ℕ) → (wake : ℕ → Option ℕ) → (seen : ℕ → Request) → Wait
await header retnum zero i wake seen = waits
await header retnum (suc turns) i wake seen =
    let rest = await header retnum turns (suc i) wake seen in
    if ends_wait (wake i)
    then timed_out (mark_timeouts header retnum 0 (seen i))
    else if ltb (count_answers header retnum 0 (seen i)) retnum
    then rest
    else finished (seen i)

-- `libsrpc_strerror`, over the texts of the system, of the table from ELIBSRPC_START on, and for an
-- unknown code.
pub strerror : {A : Type 0} → (system table : ℕ → A) → (unknown : A) → (errnum : ℤ) → (ℤ → A) → A
strerror system table unknown (negsuc n) below = below (negsuc n)
strerror system table unknown (pos n) below =
    if leb n 4095 then system n else if leb 4109 n then unknown else table (n - 4095)
