-- ===== src/Alloc.antt =====
-- src/libsrpc.c: the current request of a thread, `libsrpc_req_is_bad`, `libsrpc_req_alloc` and the two
-- functions that read its responses. `header` is sizeof(libsrpc_request_t).
pub mod Fine
mod Tests
use simplerpc.Common.{
  ℕ, zero, suc, ◌+◌, ◌*◌, ◌/◌, ◌%◌, ◌^◌, Bool, true, false, not, ◌||◌, ◌&&◌, Option, none, some,
  ltb, leb, ◌==◌, if◌then◌else◌, word32, word64, ℤ, pos, negsuc, neg, negative, int32, e_inval,
  e_nomem, e_shmnoinit, e_noregfun, e_notavailable, e_badmsg, e_rpcwaitimedout,
}
use simplerpc.Request.{
  Request, Response, req_sign, rc_st, rc_code, st_lock, st_ready, st_error, is_corrupted,
  get_response_fast, copy_bytes, error_code, rc_word,
}

-- `ALIGNLONG`, and sizeof(libsrpc_response_t)
unfoldable pub align_long : ℕ → ℕ
align_long x = (x + 7) % word64 / 8 * 8

abbrev pub response_size : ℕ
response_size = 16

-- A response that keeps a request from being used again: being written, failed, timed out or empty.
pub is_unsettled : ℕ → Bool
is_unsettled rc = (rc_st rc == st_lock) || (rc_st rc == st_error) || (rc == 4294963193) || (rc == 0)

abbrev pub bad_response : Request → Option ℕ → Bool
bad_response r none = true
bad_response r (some off) = is_unsettled (r.responses off).rc

-- The loop of `libsrpc_req_is_bad` over the `n` responses from `i`.
pub bad_from : (header n i : ℕ) → Request → Bool
unfolding is_unsettled
bad_from header zero i r = false
bad_from header (suc n) i r =
    let rest = bad_from header n (suc i) r in
    if bad_response r (get_response_fast header (some r) i) then true else rest

-- `libsrpc_req_is_bad`
pub req_is_bad : (header : ℕ) → Option Request → Bool
unfolding bad_from
req_is_bad header none = true
req_is_bad header (some r) = bad_from header r.retnum 0 r

-- What `libsrpc_req_alloc` leaves: the errno of a failure, the current request, the number for the next
-- request, and whether the request that was current before has been freed.
pub record Allocated : Type 0 where
  pub errno : Option ℕ
  pub current : Option Request
  pub seq_num : ℕ
  pub freed : Bool

-- The fields that are set at the end.
abbrev pub set_up : (funid retoff retsz retnum sz seq : ℕ) → Request → Request
set_up funid retoff retsz retnum sz seq r = record r {
  seq_num = seq;
  funid = funid;
  bufsz = sz % word32;
  retoff = retoff;
  retsz = retsz;
  retnum = retnum;
}

abbrev pub old_locks : Option Request → ℕ → ℕ
old_locks none i = 0
old_locks (some r) i = r.gc_lock i

-- A block of the allocator, cleared, with its signature and the locks of the old request.
abbrev pub new_request : Option Request → Request
new_request current = record {
  sign = req_sign;
  seq_num = 0;
  gc_lock = old_locks current;
  funid = 0;
  bufsz = 0;
  retoff = 0;
  retsz = 0;
  retnum = 0;
  responses = λ off. record { hp_proc = 0; rc = 0; uid = 0; buf = λ i. 0 };
}

abbrev pub retoff_of : ℕ → ℕ
retoff_of reqlen = align_long reqlen % word32

abbrev pub retsz_of : ℕ → ℕ
retsz_of len = align_long (response_size + len) % word32

-- `sizeof(libsrpc_request_t) + retoff + retsz * retnum`
abbrev pub size_of : (header reqlen len retnum : ℕ) → ℕ
size_of header reqlen len retnum =
    (header + retoff_of reqlen + retsz_of len * retnum % word64) % word64

-- The use of the current request, or of a new one; `memory` is whether the allocator has any.
pub take_request :
    (header funid reqlen len retnum : ℕ) → (memory : Bool) → Option Request → ℕ → Allocated
unfolding align_long req_is_bad
take_request header funid reqlen len retnum memory none seq =
    let sz = size_of header reqlen len retnum * 2 % word64 in
    if not memory
    then record { errno = some e_nomem; current = none; seq_num = seq; freed = false }
    else record {
      errno = none;
      current =
          some (set_up funid (retoff_of reqlen) (retsz_of len) retnum sz seq (new_request none));
      seq_num = (seq + 1) % word32;
      freed = false;
    }
take_request header funid reqlen len retnum memory (some r) seq =
    let sz = size_of header reqlen len retnum in
    let larger = sz * 2 % word64 in
    if not (req_is_bad header (some r)) && leb sz r.bufsz
    then record {
      errno = none;
      current = some (set_up funid (retoff_of reqlen) (retsz_of len) retnum sz seq r);
      seq_num = (seq + 1) % word32;
      freed = false;
    }
    else if not memory
    then record { errno = some e_nomem; current = some r; seq_num = seq; freed = false }
    else record {
      errno = none;
      current =
          some (
            set_up funid (retoff_of reqlen) (retsz_of len) retnum larger seq
              (new_request (some r)));
      seq_num = (seq + 1) % word32;
      freed = true;
    }

-- `libsrpc_req_alloc`; `num_all` is the number of processes that serve the function.
pub req_alloc :
    (header : ℕ) (shm : Bool) (num_all funid reqlen len : ℕ)
    → (memory : Bool) → Option Request
    → ℕ
    → Allocated
unfolding take_request
req_alloc header shm num_all funid reqlen len memory current seq =
    if not shm
    then record { errno = some e_shmnoinit; current = current; seq_num = seq; freed = false }
    else if num_all == 0
    then record { errno = some e_noregfun; current = current; seq_num = seq; freed = false }
    else take_request header funid reqlen len num_all memory current seq

-- `libsrpc_lastreq_num`
pub lastreq_num : (header : ℕ) → Option Request → ℤ
lastreq_num header none = pos 0
lastreq_num header (some r) = if is_corrupted header (some r) none then pos 0 else int32 r.retnum

abbrev pub last_answer : Request → (has_val : Bool) → (sz : ℕ) → (ℕ → ℕ) → Option ℕ → ℤ × (ℕ → ℕ)
last_answer r has_val sz old none = (neg e_notavailable, old)
last_answer r has_val sz old (some off) =
    let resp = r.responses off in
    if rc_st resp.rc == st_error
    then (error_code e_notavailable (rc_code resp.rc), old)
    else if not (rc_st resp.rc == st_ready)
    then (neg e_notavailable, old)
    else if not (align_long (sz + response_size) == r.retsz)
    then (neg e_badmsg, old)
    else (rc_code resp.rc, if has_val then copy_bytes (some resp.buf) sz old else old)

-- `libsrpc_lastreq_get`, with the bytes at `retval` before and after.
pub lastreq_get :
    (header : ℕ)
    → (idx : ℤ) → (has_val : Bool) → (sz : ℕ) → (old : ℕ → ℕ) → Option Request
    → ℤ × (ℕ → ℕ)
unfolding align_long
lastreq_get header (negsuc n) has_val sz old current = (neg e_inval, old)
lastreq_get header (pos idx) has_val sz old none = (neg e_notavailable, old)
lastreq_get header (pos idx) has_val sz old (some r) =
    if is_corrupted header (some r) none || leb r.retnum idx
    then (neg e_notavailable, old)
    else last_answer r has_val sz old (get_response_fast header (some r) idx)
