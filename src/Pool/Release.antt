-- ===== src/Pool/Release.antt =====
-- `srpc_pool_free` over the chain of pools: the block goes back to the pool that it lies in.
use simplerpc.Common.{
  ℕ, suc, ◌+◌, ◌≤◌, ◌<◌, ◌≡◌, refl, ap, ◌∙◌, subst, true, false, List, [], ◌∷◌, ◌++◌, length,
  word32, arith, ◌==◌, lt→ltb, add64, ◌≢◌,
}
use simplerpc.Pool.{
  Pool, done, eafnosupport, enospc, unusable, inside, put_block, find_pool, free_block,
  block_address, block_of, fifo_size,
}
use simplerpc.Pool.Ring.{Free, put_block-Free, put_block-full}
use simplerpc.Pool.Create.{Shaped}
use simplerpc.Pool.Layout.{
  Fits, block_at, end_of_pool, block_of-block_address, blocks_fit, fifo_size-eq,
}

-- Pools in use in which the address does not lie.
abbrev pub Elsewhere : ℕ → List Pool → Type 0
Elsewhere ptr [] = Unit {0}
Elsewhere ptr (p ∷ ps) = (unusable p ≡ false) × (inside p ptr ≡ false) × Elsewhere ptr ps

find_pool-found :
    (ptr : ℕ) (before : List Pool) (p : Pool) (after : List Pool)
    → Elsewhere ptr before
    → unusable p ≡ false
    → inside p ptr ≡ true
    → find_pool ptr (before ++ p ∷ after)
      ≡ ((put_block p ptr).0, before ++ (put_block p ptr).1 ∷ after)
unfolding find_pool
find_pool-found ptr [] p after out usable here = rw (usable, here)
find_pool-found ptr (q ∷ before) p after (used, apart, out) usable here =
    rw (used, apart, find_pool-found ptr before p after out usable here)

find_pool-nowhere :
    (ptr : ℕ) (ps : List Pool) → Elsewhere ptr ps → find_pool ptr ps ≡ (eafnosupport, ps)
unfolding find_pool
find_pool-nowhere ptr [] out = refl
find_pool-nowhere ptr (q ∷ ps) (used, apart, out) = rw (used, apart, find_pool-nowhere ptr ps out)

free_block-found :
    (ptr : ℕ) (before : List Pool) (p : Pool) (after : List Pool)
    → ptr ≢ 0
    → Elsewhere ptr before
    → unusable p ≡ false
    → inside p ptr ≡ true
    → free_block ptr (before ++ p ∷ after)
      ≡ ((put_block p ptr).0, before ++ (put_block p ptr).1 ∷ after)
unfolding free_block
free_block-found ptr [] p after ne out usable here =
    let some_ptr : (ptr == 0) ≡ false = ground arith in
    rw some_ptr (find_pool-found ptr [] p after out usable here)
free_block-found ptr (q ∷ before) p after ne out usable here =
    let some_ptr : (ptr == 0) ≡ false = ground arith in
    rw some_ptr (find_pool-found ptr (q ∷ before) p after out usable here)

-- An address other than NULL that lies in no pool of a chain of pools in use is refused with
-- -EAFNOSUPPORT, and nothing changes.
pub free_block-nowhere :
    (ptr : ℕ) (p : Pool) (ps : List Pool)
    → ptr ≢ 0
    → Elsewhere ptr (p ∷ ps)
    → free_block ptr (p ∷ ps) ≡ (eafnosupport, p ∷ ps)
unfolding free_block
free_block-nowhere ptr p ps ne out =
    let some_ptr : (ptr == 0) ≡ false = ground arith in
    rw some_ptr (find_pool-nowhere ptr (p ∷ ps) out)

module _ {address n elm_size start : ℕ} {xs : List ℕ} {p : Pool} (before after : List Pool) (i : ℕ)
    (s : Shaped address n elm_size p) (small : suc n < word32) (fits : Fits address n elm_size)
    (f : Free start xs p) (usable : unusable p ≡ false) (valid : i < n) (pos : 0 < elm_size)
    (out : Elsewhere (block_address p i) before) where
  block_inside : (block_address p i ≢ 0) × (inside p (block_address p i) ≡ true)
  block_inside =
      let at = block_at s small fits i valid in
      let after_ring : address + 64 ≤ address + fifo_size n = omega (arith, fifo_size-eq n small) in
      let before_end : block_address p i < add64 p.base p.pool_size =
        omega (arith, at, end_of_pool s small fits, blocks_fit s small fits i valid) in
      let lower : p.base < block_address p i = omega (arith, at, s.base_at) in
      (omega arith, rw (lt→ltb _ _ lower, lt→ltb _ _ before_end))

  blocks_valid : block_of p (block_address p i) ≡ i
  blocks_valid = block_of-block_address s small fits i valid pos

  found :
      free_block (block_address p i) (before ++ p ∷ after)
      ≡ ((put_block p (block_address p i)).0, before ++ (put_block p (block_address p i)).1 ∷ after)
  found = free_block-found _ before p after block_inside.0 out usable block_inside.1

  -- The address of a block, given back by srpc_pool_free while a block of its pool is out and
  -- while the earlier pools of the chain are in use and do not contain it, goes to its own
  -- pool: the call returns 0, the block becomes the last free one, and the other pools stay as
  -- they are.
  pub free_block-Free :
      length xs < n
      → (p' : Pool) × (free_block (block_address p i) (before ++ p ∷ after)
          ≡ (done, before ++ p' ∷ after))
        × Free start (xs ++ i ∷ []) p'
  free_block-Free lt =
      let put =
        put_block-Free f (block_address p i) (omega (arith, blocks_valid, s.blk_nums_at))
          (omega (arith, s.blk_nums_at)) in
      (
        (put_block p (block_address p i)).1,
        found ∙ ap (λ c. (c, before ++ (put_block p (block_address p i)).1 ∷ after)) put.0,
        subst (λ b. Free start (xs ++ b ∷ []) (put_block p (block_address p i)).1) blocks_valid
            put.1,
      )

  -- A block given back while every block of its pool is free is refused with -ENOSPC, and
  -- nothing changes.
  pub free_block-twice :
      length xs ≡ n
      → free_block (block_address p i) (before ++ p ∷ after) ≡ (enospc, before ++ p ∷ after)
  free_block-twice all =
      let put =
        put_block-full f (block_address p i) (omega (arith, blocks_valid, s.blk_nums_at))
          (omega (arith, s.blk_nums_at)) in
      found ∙ ap (λ r. (r.0, before ++ r.1 ∷ after)) put
