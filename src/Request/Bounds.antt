-- ===== src/Request/Bounds.antt =====
-- Where the responses of a request lie: `libsrpc_req_is_corrupted` and the two functions that give
-- a response by its number.
use simplerpc.Common.{
  ℕ, ◌+◌, ◌-◌, ◌*◌, ◌%◌, ◌≤◌, ◌<◌, ◌≡◌, refl, ◌≢◌, ◌∙◌, sym, true, false, Option, none, some,
  word32, word64, pos, neg, arith, e_already, ◌↔◌,
}
use native.Mathlib.Nat.{mul-le-mul_left, mul-le-mul_right, mul-suc, mod-eq_of_lt, le_trans}
use simplerpc.Request.{
  corrupted_at, Response, Request, req_sign, control, req_destroy, needed, is_corrupted,
  response_offset, get_response_fast, get_response,
}

-- The fields of a request are `unsigned int`, and so is its control word in its two halves.
pub record Fits (r : Request) : Type 0 where
  pub bufsz_fits : r.bufsz < word32
  pub retoff_fits : r.retoff < word32
  pub retsz_fits : r.retsz < word32
  pub retnum_fits : r.retnum < word32

module _ {header : ℕ} {r : Request} (fits : Fits r) (small : header < word32) where
  product : r.retsz * r.retnum ≤ (word32 - 1) * (word32 - 1)
  product =
      let sz : r.retsz ≤ word32 - 1 = omega (arith, fits.retsz_fits) in
      let num : r.retnum ≤ word32 - 1 = omega (arith, fits.retnum_fits) in
      le_trans (mul-le-mul_left r.retsz num) (mul-le-mul_right (word32 - 1) sz)

  -- No part of the sum wraps.
  pub needed_exact : needed header r ≡ header + r.retoff + r.retsz * r.retnum
  unfolding needed
  needed_exact =
      let inner : r.retsz * r.retnum % word64 ≡ r.retsz * r.retnum =
        mod-eq_of_lt (omega (arith, product)) in
      rw inner (mod-eq_of_lt (omega (arith, product, small, fits.retoff_fits)))

  up_to : (idx : ℕ) → idx < r.retnum → r.retsz * idx + r.retsz ≤ r.retsz * r.retnum
  up_to idx lt = let step = mul-le-mul_left r.retsz lt in omega (arith, step, mul-suc r.retsz idx)

  offset_exact :
      (idx : ℕ)
      → idx < r.retnum
      → header + r.retoff + r.retsz * r.retnum ≤ r.bufsz
      → response_offset r idx ≡ r.retoff + r.retsz * idx
  unfolding response_offset
  offset_exact idx lt room =
      let inside = up_to idx lt in
      let inner : r.retsz * idx % word32 ≡ r.retsz * idx =
        mod-eq_of_lt (omega (arith, inside, room, fits.bufsz_fits)) in
      rw inner (mod-eq_of_lt (omega (arith, inside, room, fits.bufsz_fits)))

  fast-inversion :
      (idx off : ℕ)
      → get_response_fast header (some r) idx ≡ some off
      → (needed header r ≤ r.bufsz) × (idx < r.retnum) × (response_offset r idx ≡ off)
  unfolding get_response_fast
  fast-inversion idx off e = ground arith

  -- A response that libsrpc_req_get_response_fast gives starts at its multiple of retsz behind
  -- retoff and ends within the bufsz bytes of the request, for fields of 32 bits and a request
  -- of less than 2 ^ 32 bytes before its buffer: neither the size nor the offset wraps.
  pub get_response_fast-within :
      (idx off : ℕ)
      → get_response_fast header (some r) idx ≡ some off
      → (off ≡ r.retoff + r.retsz * idx) × (header + off + r.retsz ≤ r.bufsz)
  get_response_fast-within idx off e =
      let (room, lt, at) = fast-inversion idx off e in
      let room' : header + r.retoff + r.retsz * r.retnum ≤ r.bufsz =
        omega (arith, room, needed_exact) in
      let exact = sym at ∙ offset_exact idx lt room' in
      (exact, omega (arith, exact, room', up_to idx lt))

  -- Two responses of one request that libsrpc_req_get_response_fast gives do not overlap, for
  -- fields of 32 bits and a request of less than 2 ^ 32 bytes before its buffer.
  pub get_response_fast-apart :
      (i j off_i off_j : ℕ)
      → i < j
      → get_response_fast header (some r) i ≡ some off_i
      → get_response_fast header (some r) j ≡ some off_j
      → off_i + r.retsz ≤ off_j
  get_response_fast-apart i j off_i off_j lt at_i at_j =
      let (e_i, in_i) = get_response_fast-within i off_i at_i in
      let (e_j, in_j) = get_response_fast-within j off_j at_j in
      omega (arith, e_i, e_j, mul-le-mul_left r.retsz lt, mul-suc r.retsz i)

  -- libsrpc_req_is_corrupted, called with no control word for a request with fields of 32 bits,
  -- lets the request through exactly when its signature is right, it has responses of some size
  -- and they lie within its bytes, as numbers that do not wrap.
  pub is_corrupted-none : (is_corrupted header (some r) none ≡ false) ↔ (
      (r.sign ≡ req_sign)
      × (r.retnum ≢ 0)
      × (r.retsz ≢ 0)
      × (header + r.retoff + r.retsz * r.retnum ≤ r.bufsz))
  unfolding is_corrupted
  is_corrupted-none = ground (arith, needed_exact)

  -- For a request that is not corrupted and has fields of 32 bits libsrpc_req_get_response and
  -- libsrpc_req_get_response_fast give the same response for every number.
  pub get_response-fast :
      (idx : ℕ)
      → is_corrupted header (some r) none ≡ false
      → get_response header (some r) idx ≡ get_response_fast header (some r) idx
  unfolding get_response get_response_fast
  get_response-fast idx fine = ground (arith, fine, is_corrupted-none, needed_exact)

-- A request that is alive is destroyed once: it is then corrupted for every later reader and has
-- no responses, and a second libsrpc_req_destroy answers -EALREADY and changes nothing.
pub req_destroy-twice :
    (header : ℕ) (r : Request) (ctrl : Option ℕ)
    → r.sign ≡ req_sign
    → (r' : Request) × (req_destroy (some r) ≡ (pos 0, some r'))
      × (is_corrupted header (some r') ctrl ≡ true)
      × ((idx : ℕ) → get_response_fast header (some r') idx ≡ none)
      × (req_destroy (some r') ≡ (neg e_already, some r'))
unfolding req_destroy is_corrupted get_response_fast control
req_destroy-twice header r ctrl alive = (
  record r { sign = 0; retnum = 0; retsz = 0 },
  ground (arith, alive),
  ground arith,
  λ idx. ground arith,
  refl,
)

-- The responses' contents do not move them.
pub get_response_fast-responses :
    (header : ℕ) (r : Request) (rs : ℕ → Response) (idx : ℕ)
    → get_response_fast header (some (record r { responses = rs })) idx
      ≡ get_response_fast header (some r) idx
unfolding get_response_fast needed response_offset
get_response_fast-responses header r rs idx = refl

pub get_response_fast-some :
    (header : ℕ) (r : Request) (idx : ℕ)
    → needed header r ≤ r.bufsz
    → idx < r.retnum
    → get_response_fast header (some r) idx ≡ some (response_offset r idx)
unfolding get_response_fast
get_response_fast-some header r idx room lt = ground arith

-- Neither do the locks make a request corrupted.
pub is_corrupted-gc_lock :
    (header : ℕ) (r : Request) (lock : ℕ → ℕ)
    → is_corrupted header (some (record r { gc_lock = lock })) none
      ≡ is_corrupted header (some r) none
unfolding is_corrupted corrupted_at control needed
is_corrupted-gc_lock header r lock = refl
