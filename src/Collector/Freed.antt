-- ===== src/Collector/Freed.antt =====
-- src/libsrpc_shm_gc.c: which blocks a turn of the collector frees, and what it does to them before.
use simplerpc.Common.{
  ℕ, zero, suc, ◌+◌, ◌≤◌, ◌<◌, ◌≡◌, ◌≢◌, refl, ◌∙◌, false, not, ◌&&◌, Option, none, some, List, [],
  ◌∷◌, length, map, take, filter, ltb, leb, ◌==◌, if◌then◌else◌, ℤ, pos, arith,
}
use native.Mathlib.Decide.{dec_lt}
use simplerpc.Request.{Request, req_destroy, req_sign}
use simplerpc.Sweep.{Owner}
use simplerpc.Collector.{
  Block, Elm, GcPool, Memory, empty_pool, pool_size, destructor_fn, gather, is_used, retire,
  mark_one, mark_used, count_due, free_due, gc_pool_destroy,
}
use simplerpc.Collector.Uses.{in_use, is_used-in_use}
use simplerpc.Collector.Gathered.{listed, is_wanted, to_elm, Present, gather-listed}

module _ (header : ℕ) (owners : ℕ → List Owner) where
  -- The addresses of the elements that nobody uses at their check; the first has the number `i`.
  unfoldable pub due_of : (i : ℕ) → List Elm → List ℕ
  due_of i [] = []
  due_of i (e ∷ es) =
      let rest = due_of (suc i) es in
      if not (e.ptr == 0) && not (in_use header (owners i) e) then e.ptr ∷ rest else rest

  abbrev marked : ℕ → Elm → Elm
  marked k e = if is_used header (owners k) e then record e { refcount = e.refcount + 1 } else e

  mark_one-at :
      (i k : ℕ) (s : (ℕ → Elm) × Memory)
      → (mark_one header (owners i) i s).0 k ≡ (if k == i then marked k (s.0 k) else s.0 k)
  unfolding mark_one
  mark_one-at i k (elm, m) = ground arith

  mark_used-at :
      (n i k : ℕ) (s : (ℕ → Elm) × Memory)
      → (mark_used header owners n i s).0 k
        ≡ (if leb i k && ltb k (i + n) then marked k (s.0 k) else s.0 k)
  unfolding mark_used
  mark_used-at zero i k s = ground arith
  mark_used-at (suc n) i k s =
      mark_used-at n (suc i) k (mark_one header (owners i) i s)
      ∙ rw (mark_one-at i k s) (ground arith)

  due-due_of :
      (n i : ℕ) (elm f : ℕ → Elm)
      → ((k : ℕ) → i ≤ k → k < i + n → f k ≡ marked k (elm k))
      → ((k : ℕ) → (elm k).refcount ≡ 0)
      → (free_due n i f ≡ due_of i (listed n i elm))
        × (count_due n i f ≡ length (due_of i (listed n i elm)))
  unfolding free_due count_due due_of listed
  due-due_of zero i elm f h z = (refl, refl)
  due-due_of (suc n) i elm f h z =
      let (ih, count) = due-due_of n (suc i) elm f (λ k lo hi. h k (omega arith) (omega arith)) z in
      let same = is_used-in_use header (owners i) (elm i) in
      rw (h i (omega arith) (omega arith), z i)
        (ground (arith, ih, z i, same), ground (arith, count, z i, same))

  -- No element has been found in use by an earlier turn.
  abbrev Unmarked : GcPool → Type 0
  Unmarked p = (k : ℕ) → (p.elm k).refcount ≡ 0

  destructor_fn-Unmarked : (b : Block) (p : GcPool) → Unmarked p → Unmarked (destructor_fn b p).1
  unfolding destructor_fn
  destructor_fn-Unmarked b p h k = ground (arith, h k)

  gather-Unmarked : (bs : List Block) (p : GcPool) → Unmarked p → Unmarked (gather bs p)
  unfolding gather
  gather-Unmarked [] p h k = h k
  gather-Unmarked (b ∷ bs) p h k = ground (
    arith,
    destructor_fn-Unmarked b p h k,
    gather-Unmarked bs (destructor_fn b p).1 (destructor_fn-Unmarked b p h) k,
  )

  -- The blocks that a turn frees after its walk.
  abbrev pub due_blocks : List Block → List ℕ
  due_blocks bs = due_of 0 (take pool_size (map to_elm (filter is_wanted bs)))

  gc_pool_destroy-due :
      (p : GcPool) (m : Memory) (es : List Elm)
      → Unmarked p
      → listed p.count 0 p.elm ≡ es
      → ((gc_pool_destroy header owners p m).0 ≡ pos (length (due_of 0 es)))
        × ((gc_pool_destroy header owners p m).1 ≡ due_of 0 es)
  unfolding gc_pool_destroy
  gc_pool_destroy-due p m es z e =
      let (freed, count) =
        due-due_of p.count 0 p.elm (mark_used header owners p.count 0 (p.elm, m)).0 at z in
      rw (← e) (rw (count, freed) (whole (due_of 0 (listed p.count 0 p.elm))))
    where
      at :
          (k : ℕ)
          → 0 ≤ k
          → k < 0 + p.count
          → (mark_used header owners p.count 0 (p.elm, m)).0 k ≡ marked k (p.elm k)
      at k lo hi = mark_used-at p.count 0 k (p.elm, m) ∙ ground arith

      answer : List ℕ → ℤ × List ℕ × Memory
      answer l =
          if length l == 0
          then (pos 0, [], (mark_used header owners p.count 0 (p.elm, m)).1)
          else (pos (length l), l, (mark_used header owners p.count 0 (p.elm, m)).1)

      whole : (l : List ℕ) → ((answer l).0 ≡ pos (length l)) × ((answer l).1 ≡ l)
      whole [] = (refl, refl)
      whole (x ∷ l) = (ground arith, ground arith)

  -- After the walk over blocks that are all there, gc_pool_destroy frees exactly those of the
  -- gathered blocks that are not in use at their check, each once and in order, and returns
  -- their number: a process is in use while a request in any list has an empty response
  -- addressed to it, a block of the registry while a valid process has an intact request that
  -- protects it, and a request while it is in the queue of a valid process or one of its
  -- threads works on it. The walk calls the destructor as the loop of the allocator is written,
  -- which goes on to the next block after a result of 0.
  pub gather-destroy :
      (bs : List Block) (m : Memory)
      → Present bs
      → ((gc_pool_destroy header owners (gather bs empty_pool) m).0 ≡ pos (length (due_blocks bs)))
        × ((gc_pool_destroy header owners (gather bs empty_pool) m).1 ≡ due_blocks bs)
  gather-destroy bs m present =
      gc_pool_destroy-due (gather bs empty_pool) m _ (gather-Unmarked bs empty_pool (λ k. refl))
        (gather-listed bs present).0

-- No request, or one without the signature.
abbrev pub IsDead : Option Request → Type 0
IsDead none = Unit
IsDead (some r) = r.sign ≢ req_sign

req_destroy-IsDead : (o : Option Request) → IsDead (req_destroy o).1
unfolding req_destroy
req_destroy-IsDead none = tt
req_destroy-IsDead (some r) = ground arith

retire-IsDead : (e : Elm) (m : Memory) → e.type ≡ 3 → IsDead ((retire e m).requests e.ptr)
unfolding retire
retire-IsDead e m t = ground (arith, req_destroy-IsDead (m.requests e.ptr))

retire-kept :
    (e : Elm) (m : Memory) (ptr : ℕ) → IsDead (m.requests ptr) → IsDead ((retire e m).requests ptr)
unfolding retire
retire-kept e m ptr h = ground (arith, req_destroy-IsDead (m.requests e.ptr))

module _ (header : ℕ) (owners : ℕ → List Owner) where
  mark_one-kept :
      (i ptr : ℕ) (s : (ℕ → Elm) × Memory)
      → IsDead (s.1.requests ptr)
      → IsDead ((mark_one header (owners i) i s).1.requests ptr)
  unfolding mark_one
  mark_one-kept i ptr (elm, m) h = ground (arith, retire-kept (elm i) m ptr)

  mark_used-kept :
      (n i ptr : ℕ) (s : (ℕ → Elm) × Memory)
      → IsDead (s.1.requests ptr)
      → IsDead ((mark_used header owners n i s).1.requests ptr)
  unfolding mark_used
  mark_used-kept zero i ptr s h = h
  mark_used-kept (suc n) i ptr s h =
      mark_used-kept n (suc i) ptr (mark_one header (owners i) i s) (mark_one-kept i ptr s h)

  mark_one-IsDead :
      (i : ℕ) (s : (ℕ → Elm) × Memory)
      → (s.0 i).type ≡ 3
      → is_used header (owners i) (s.0 i) ≡ false
      → IsDead ((mark_one header (owners i) i s).1.requests (s.0 i).ptr)
  unfolding mark_one
  mark_one-IsDead i (elm, m) t u = rw (u, mark_one) (retire-IsDead (elm i) m t)

  mark_used-IsDead :
      (n i k : ℕ) (s : (ℕ → Elm) × Memory)
      → i ≤ k
      → k < i + n
      → (s.0 k).type ≡ 3
      → is_used header (owners k) (s.0 k) ≡ false
      → IsDead ((mark_used header owners n i s).1.requests (s.0 k).ptr)
  unfolding mark_used
  mark_used-IsDead zero i k s lo hi t u = absurd (omega arith)
  mark_used-IsDead (suc n) i k s lo hi t u = elim (dec_lt i k) [
    | yes later ↦
        let same : (mark_one header (owners i) i s).0 k ≡ s.0 k =
          mark_one-at header owners i k s ∙ ground arith in
        rw (← same) (
          mark_used-IsDead n (suc i) k (mark_one header (owners i) i s) (omega arith) (omega arith)
            (rw same t) (rw same u))
    | no first ↦
        let e : k ≡ i = omega arith in
        mark_used-kept n (suc i) (s.0 k).ptr (mark_one header (owners i) i s)
          (rw e (mark_one-IsDead i s (rw (← e) t) (rw (← e) u)))
  ]

  -- A request in the pool that no process uses when its turn comes has lost its signature when
  -- gc_pool_destroy ends, so that no reader takes the freed block for a request.
  pub gc_pool_destroy-IsDead :
      (p : GcPool) (m : Memory) (k : ℕ)
      → k < p.count
      → (p.elm k).type ≡ 3
      → is_used header (owners k) (p.elm k) ≡ false
      → IsDead ((gc_pool_destroy header owners p m).2.requests (p.elm k).ptr)
  unfolding gc_pool_destroy
  gc_pool_destroy-IsDead p m k lt t u =
      ground (arith, mark_used-IsDead p.count 0 k (p.elm, m) (omega arith) (omega arith) t u)
