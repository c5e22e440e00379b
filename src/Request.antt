-- ===== src/Request.antt =====
-- src/libsrpc_local.h: a request in shared memory with its responses, the word that holds the
-- state and the code of a response, and what the sides do to them. A pointer that may be NULL is an
-- `Option`; a response is named by its offset in the buffer of its request. `header` is
-- sizeof(libsrpc_request_t), whose semaphore is the system's.
pub mod Bounds
pub mod Word
pub mod Answers
pub mod Race
mod Tests
use simplerpc.Common.{
  ℕ, zero, suc, ◌+◌, ◌*◌, ◌/◌, ◌%◌, ◌^◌, Bool, true, false, not, ◌||◌, ◌&&◌, Option, none, some,
  ltb, leb, ◌==◌, if◌then◌else◌, word32, word64, ℤ, pos, neg, negative, signed, unsigned, int32,
  e_inval, e_already, e_busy, e_badfd, e_timedout, update,
}

-- `srpc_rc_staus_t`
abbrev pub st_empty : ℕ
st_empty = 0

abbrev pub st_lock : ℕ
st_lock = 1

abbrev pub st_ready : ℕ
st_ready = 2

abbrev pub st_error : ℕ
st_error = 3

-- `srpc_rc_t`: the code in the lower 30 bits, with its sign, and the state in the upper two.
abbrev pub word30 : ℕ
word30 = 2 ^ 30

unfoldable pub rc_word : ℤ → ℕ → ℕ
rc_word code st = unsigned word30 code + st * word30

unfoldable pub rc_st : ℕ → ℕ
rc_st w = w / word30

unfoldable pub rc_code : ℕ → ℤ
rc_code w = signed word30 (2 ^ 29) (w % word30)

-- `libsrpc_response_t`
pub record Response : Type 0 where
  pub hp_proc : ℕ
  pub rc : ℕ
  pub uid : ℕ
  pub buf : ℕ → ℕ

-- `libsrpc_request_t`, its responses by their offset in `buf`.
pub record Request : Type 0 where
  pub sign : ℕ
  pub seq_num : ℕ
  pub gc_lock : ℕ → ℕ
  pub funid : ℕ
  pub bufsz : ℕ
  pub retoff : ℕ
  pub retsz : ℕ
  pub retnum : ℕ
  pub responses : ℕ → Response

-- LIBSRPC_REQ_SIGN
abbrev pub req_sign : ℕ
req_sign = 1947962583

-- The union of `sign` and `seq_num`.
unfoldable pub control : Request → ℕ
control r = r.sign + r.seq_num * word32

-- `libsrpc_req_destroy`
unfoldable pub req_destroy : Option Request → ℤ × Option Request
req_destroy none = (neg e_inval, none)
req_destroy (some r) =
    if r.sign == req_sign
    then (pos 0, some (record r { sign = 0; retnum = 0; retsz = 0 }))
    else (neg e_already, some r)

-- The bytes that a request needs, in `size_t`.
unfoldable pub needed : (header : ℕ) → Request → ℕ
needed header r = (header + r.retoff + r.retsz * r.retnum % word64) % word64

abbrev pub ctrl_differs : Option ℕ → ℕ → Bool
ctrl_differs none c = false
ctrl_differs (some want) c = not (want == c)

-- The tests of `libsrpc_req_is_corrupted` on the copy of the request, and those on its control word
-- and on its signature as they are loaded after the copy.
unfoldable pub corrupted_at :
    (header : ℕ) → Request → Option ℕ → (late_control late_sign : ℕ) → Bool
unfolding control needed
corrupted_at header r ctrl late_control late_sign =
    ctrl_differs ctrl (control r)
    || not (r.sign == req_sign)
    || (r.retnum == 0)
    || (r.retsz == 0)
    || ltb r.bufsz (needed header r)
    || ctrl_differs ctrl late_control
    || not (late_sign == req_sign)

-- `libsrpc_req_is_corrupted` where no other thread writes to the request meanwhile.
unfoldable pub is_corrupted : (header : ℕ) → Option Request → Option ℕ → Bool
unfolding corrupted_at
is_corrupted header none ctrl = true
is_corrupted header (some r) ctrl = corrupted_at header r ctrl (control r) r.sign

-- `unsigned int offset = retoff + retsz * idx`
unfoldable pub response_offset : Request → ℕ → ℕ
response_offset r idx = (r.retoff + r.retsz * idx % word32) % word32

unfoldable pub get_response_fast : (header : ℕ) → Option Request → ℕ → Option ℕ
unfolding needed response_offset
get_response_fast header none idx = none
get_response_fast header (some r) idx =
    if ltb r.bufsz (needed header r)
    then none
    else if leb r.retnum idx
    then none
    else some (response_offset r idx)

unfoldable pub get_response : (header : ℕ) → Option Request → ℕ → Option ℕ
unfolding is_corrupted response_offset
get_response header none idx = none
get_response header (some r) idx =
    if is_corrupted header (some r) none || leb r.retnum idx
    then none
    else some (response_offset r idx)

-- memcpy of `sz` bytes, under its test for NULL; for a size of 0 it copies nothing.
abbrev pub copy_bytes : Option (ℕ → ℕ) → ℕ → (ℕ → ℕ) → ℕ → ℕ
copy_bytes none sz old i = old i
copy_bytes (some val) sz old i = if ltb i sz then val i else old i

-- The swap, the copy and the store of `libsrpc_req_response_set`, with no other writer between them.
unfoldable pub response_set :
    (header : ℕ) → Option Request → Response → Option ℕ → Option (ℕ → ℕ) → ℕ → ℤ × Response
unfolding is_corrupted rc_word
response_set header req resp ctrl val sz =
    if is_corrupted header req ctrl
    then (neg e_inval, resp)
    else if resp.rc == 0
    then (
      int32 (rc_word (pos 0) st_ready),
      record resp { buf = copy_bytes val sz resp.buf; rc = rc_word (pos 0) st_ready },
    )
    else (neg e_busy, resp)

-- What `libsrpc_req_response_get` leaves: its result, errno, and the bytes at `val`.
pub record Answer : Type 0 where
  pub rc : ℤ
  pub errno : ℕ
  pub out : ℕ → ℕ

abbrev pub error_code : ℕ → ℤ → ℤ
error_code other code = if negative code then code else neg other

-- The loop of at most `polls` loads of `rc`, whose values are `rcs`; `buf` is the buffer of the
-- response once it is ready.
pub poll :
    (polls i : ℕ)
    → (rcs : ℕ → ℕ) → (buf : ℕ → ℕ) → (has_val : Bool) → (sz errno : ℕ) → (old : ℕ → ℕ) → Answer
poll zero i rcs buf has_val sz errno old = record {
  rc = neg e_timedout;
  errno = e_timedout;
  out = old;
}
poll (suc polls) i rcs buf has_val sz errno old =
    let rest = poll polls (suc i) rcs buf has_val sz errno old in
    let final_rc = rcs i in
    if rc_st final_rc == st_lock
    then rest
    else if rc_st final_rc == st_error
    then record { rc = error_code e_badfd (rc_code final_rc); errno = errno; out = old }
    else if rc_st final_rc == st_ready
    then record {
      rc = rc_code final_rc;
      errno = errno;
      out = if has_val then copy_bytes (some buf) sz old else old;
    }
    else rest

-- `libsrpc_req_response_get`: the response is what its loads of `rc` give and its bytes.
pub response_get :
    Option ((ℕ → ℕ) × (ℕ → ℕ)) → (has_val : Bool) → (sz errno : ℕ) → (old : ℕ → ℕ) → Answer
unfolding poll
response_get none has_val sz errno old = record { rc = neg e_inval; errno = errno; out = old }
response_get (some (rcs, buf)) has_val sz errno old = poll 1024 0 rcs buf has_val sz errno old
