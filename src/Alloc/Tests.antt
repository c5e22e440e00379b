-- ===== src/Alloc/Tests.antt =====
-- A first request for a function of 12 bytes of arguments and 4 of result that 3 processes serve.
use simplerpc.Common.{ℕ, ◌≡◌, refl, true, false, none, some, arith}
use simplerpc.Request.{Request, is_corrupted}
use simplerpc.Alloc.{align_long, req_alloc}
use simplerpc.Alloc.Fine.{req_alloc-fine}

aligned : (align_long 12 ≡ 16) × (align_long 20 ≡ 24)
unfolding align_long
aligned = (refl, refl)

req_alloc-fine_example :
    let out = req_alloc 120 true 3 17 12 4 true none 5 in
    (r : Request) × (out.errno ≡ none)
    × (out.current ≡ some r)
    × (is_corrupted 120 (some r) none ≡ false)
    × (r.retnum ≡ 3)
    × (r.retoff ≡ align_long 12)
    × (r.retsz ≡ align_long 20)
    × ((i : ℕ) → r.gc_lock i ≡ 0)
req_alloc-fine_example =
    req_alloc-fine 120 12 4 3 (omega arith) (omega arith) (omega arith) (omega (arith, aligned)) 17
      5 none (λ r e. absurd (ground (arith, e)))
