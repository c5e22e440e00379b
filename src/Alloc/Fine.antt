-- ===== src/Alloc/Fine.antt =====
-- The request that `libsrpc_req_alloc` gives.
use simplerpc.Common.{
  ℕ, ◌+◌, ◌*◌, ◌%◌, ◌^◌, ◌≤◌, ◌<◌, ◌≡◌, refl, ◌≢◌, sym, subst, true, false, not, ◌&&◌, Option, none,
  some, leb, ◌==◌, word32, word64, arith, inl, inr, Bool-cases,
}
use native.Mathlib.Nat.{mod-eq_of_lt, mul-le-mul_left}
use simplerpc.Request.{Request, req_sign, is_corrupted}
use simplerpc.Request.Bounds.{Fits, is_corrupted-none}
use simplerpc.Alloc.{
  align_long, response_size, req_is_bad, set_up, old_locks, new_request, retoff_of, retsz_of,
  size_of, take_request, req_alloc,
}

module _ (header reqlen len num : ℕ) (some_process : num ≢ 0) (few : num < word32)
    (short : len < word32)
    (size : header + align_long reqlen + align_long (response_size + len) * num < 2 ^ 31) where
  response_room : response_size ≤ align_long (response_size + len)
  unfolding align_long
  response_room = omega arith

  one_response : align_long (response_size + len) ≤ align_long (response_size + len) * num
  one_response =
      let some_num : 1 ≤ num = omega arith in
      omega (arith, mul-le-mul_left (align_long (response_size + len)) some_num)

  retoff_exact : retoff_of reqlen ≡ align_long reqlen
  retoff_exact = mod-eq_of_lt (omega arith)

  retsz_exact : retsz_of len ≡ align_long (response_size + len)
  retsz_exact = mod-eq_of_lt (omega (arith, one_response))

  size_exact :
      size_of header reqlen len num
      ≡ header + align_long reqlen + align_long (response_size + len) * num
  size_exact = rw (retoff_exact, retsz_exact) (inner_exact)
    where
      inner_exact :
          (header + align_long reqlen + align_long (response_size + len) * num % word64) % word64
          ≡ header + align_long reqlen + align_long (response_size + len) * num
      inner_exact =
          let product : align_long (response_size + len) * num % word64
              ≡ align_long (response_size + len) * num =
            mod-eq_of_lt (omega (arith, size)) in
          rw product (mod-eq_of_lt (omega (arith, size)))

  set_up-fine :
      (r : Request) (sz funid seq : ℕ)
      → r.sign ≡ req_sign
      → size_of header reqlen len num ≤ sz
      → sz < word32
      → is_corrupted header
          (some (set_up funid (retoff_of reqlen) (retsz_of len) num sz seq r))
          none
        ≡ false
  set_up-fine r sz funid seq signed_as room small =
      let kept : sz % word32 ≡ sz = mod-eq_of_lt small in
      let fits : Fits (set_up funid (retoff_of reqlen) (retsz_of len) num sz seq r) = record {
        bufsz_fits = omega (arith, kept, small);
        retoff_fits = omega arith;
        retsz_fits = omega arith;
        retnum_fits = few;
      } in
      (is_corrupted-none fits (omega (arith, size))).1 (
        signed_as,
        some_process,
        omega (arith, retsz_exact, response_room),
        subst (λ n. header + retoff_of reqlen + retsz_of len * num ≤ n) (sym kept)
            (subst (λ n. header + n + retsz_of len * num ≤ sz) (sym retoff_exact)
              (subst (λ n. header + align_long reqlen + n * num ≤ sz) (sym retsz_exact)
                (omega (arith, size_exact, room)))),
      )

  -- When memory is to be had and the current request, if there is one, has its signature,
  -- libsrpc_req_alloc for a function that processes serve gives a request that is not
  -- corrupted, new or used again: it has one response for each process, of the aligned size,
  -- behind the aligned arguments, and the locks of the current request, if the whole is smaller
  -- than 2 ^ 31 bytes and the numbers fit 32 bits.
  pub req_alloc-fine :
      (funid seq : ℕ) (current : Option Request)
      → ((r : Request) → current ≡ some r → r.sign ≡ req_sign)
      → let out = req_alloc header true num funid reqlen len true current seq in
        (r : Request) × (out.errno ≡ none)
        × (out.current ≡ some r)
        × (is_corrupted header (some r) none ≡ false)
        × (r.retnum ≡ num)
        × (r.retoff ≡ align_long reqlen)
        × (r.retsz ≡ align_long (response_size + len))
        × ((i : ℕ) → r.gc_lock i ≡ old_locks current i)
  unfolding req_alloc take_request
  req_alloc-fine funid seq none old =
      let some_num : (num == 0) ≡ false = ground arith in
      let twice : size_of header reqlen len num * 2 % word64 ≡ size_of header reqlen len num * 2 =
        mod-eq_of_lt (omega (arith, size_exact, size)) in
      rw (req_alloc, some_num)
        (
          _,
          refl,
          refl,
          set_up-fine (new_request none) (size_of header reqlen len num * 2 % word64) funid seq refl
              (omega (arith, twice)) (omega (arith, twice, size_exact, size)),
          refl,
          retoff_exact,
          retsz_exact,
          λ i. refl,
        )
  req_alloc-fine funid seq (some r) old =
      let some_num : (num == 0) ≡ false = ground arith in
      let twice : size_of header reqlen len num * 2 % word64 ≡ size_of header reqlen len num * 2 =
        mod-eq_of_lt (omega (arith, size_exact, size)) in
      elim (Bool-cases
        (not (req_is_bad header (some r)) && leb (size_of header reqlen len num) r.bufsz)) [
          | inl again ↦
              rw (req_alloc, some_num, again)
                (
                  _,
                  refl,
                  refl,
                  set_up-fine r (size_of header reqlen len num) funid seq (old r refl) (omega arith)
                      (omega (arith, size_exact, size)),
                  refl,
                  retoff_exact,
                  retsz_exact,
                  λ i. refl,
                )
          | inr new ↦
              rw (req_alloc, some_num, new)
                (
                  _,
                  refl,
                  refl,
                  set_up-fine (new_request (some r)) (size_of header reqlen len num * 2 % word64)
                      funid seq refl (omega (arith, twice))
                      (omega (arith, twice, size_exact, size)),
                  refl,
                  retoff_exact,
                  retsz_exact,
                  λ i. refl,
                )
        ]

-- A request that is given is for the function.
pub req_alloc_funid :
    (header num reqlen len funid seq : ℕ) (current : Option Request) (r : Request)
    → (req_alloc header true num funid reqlen len true current seq).errno ≡ none
    → (req_alloc header true num funid reqlen len true current seq).current ≡ some r
    → r.funid ≡ funid
unfolding req_alloc take_request
req_alloc_funid header num reqlen len funid seq none r fine at = ground arith
req_alloc_funid header num reqlen len funid seq (some old) r fine at = ground arith
