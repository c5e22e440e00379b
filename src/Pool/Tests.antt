-- ===== src/Pool/Tests.antt =====
-- A pool of two blocks of 24 bytes at address 4096, and the theorems at it.
use simplerpc.Common.{
  ℕ, ◌%◌, ◌≤◌, ◌<◌, ◌≡◌, refl, some, List, [], ◌∷◌, arith, zero, suc, false, get_or, ◌-◌,
}
use simplerpc.Pool.{
  Pool, done, block_size, fifo_size, total_size, alloc_block, free_block, block_address, unusable,
}
use simplerpc.Pool.Ring.{Free}
use simplerpc.Pool.Create.{Shaped}
use simplerpc.Pool.Chain.{first_free, Chain, alloc_block-first}
use simplerpc.Pool.Release.{free_block-Free}

abbrev fifo : ℕ → ℕ
fifo zero = 0
fifo (suc zero) = 1
fifo (suc (suc n)) = 0

abbrev pool : Pool
pool = record {
  base = 4096;
  pool_size = 176;
  offset = 64;
  blk_size = 32;
  blk_nums = 2;
  alloc = 0;
  free = 2;
  fifo = fifo;
}

sizes : (total_size 2 24 ≡ 176) × (fifo_size 2 ≡ 64) × (block_size 24 ≡ 32)
unfolding total_size fifo_size block_size
sizes = (refl, refl, refl)

pool-Shaped : Shaped 4096 2 24 pool
pool-Shaped = record {
  base_at = refl;
  pool_size_at = omega (arith, sizes);
  offset_at = omega (arith, sizes);
  blk_size_at = omega (arith, sizes);
  blk_nums_at = refl;
}

pool-Free : Free 0 (0 ∷ 1 ∷ []) pool
pool-Free = record {
  alloc_at = refl;
  free_at = refl;
  room = omega arith;
  small = omega arith;
  held = cells;
}
  where
    cells : (n : ℕ) → 0 ≤ n → n < 2 → fifo (n % 3) ≡ get_or (0 ∷ 1 ∷ []) (n - 0) 0
    cells zero lo hi = refl
    cells (suc zero) lo hi = refl
    cells (suc (suc n)) lo hi = absurd (omega arith)

usable : unusable pool ≡ false
unfolding unusable
usable = refl

alloc_block-first_example :
    (ps' : List Pool) × (alloc_block 2 (λ n. 0) (pool ∷ []) ≡ some (block_address pool 0, ps'))
    × Chain ((1 ∷ []) ∷ []) ps'
unfolding first_free
alloc_block-first_example =
    alloc_block-first 2 (λ n. 0) ((0 ∷ 1 ∷ []) ∷ []) (pool ∷ []) ((0, pool-Free, usable), tt) refl
      (omega arith)

-- Both blocks are out.
abbrev drained : Pool
drained = record pool { alloc = 2 }

drained-Free : Free 2 [] drained
drained-Free = record {
  alloc_at = refl;
  free_at = refl;
  room = omega arith;
  small = omega arith;
  held = λ n lo hi. absurd (omega arith);
}

drained-usable : unusable drained ≡ false
unfolding unusable
drained-usable = refl

address_one : block_address pool 1 ≡ 4192
unfolding block_address
address_one = refl

-- Block 0 comes back behind block 1, into the second pool of a chain.
one_out-Free : Free 1 (1 ∷ []) (record pool { alloc = 1 })
one_out-Free = record {
  alloc_at = refl;
  free_at = refl;
  room = omega arith;
  small = omega arith;
  held = cells;
}
  where
    cells : (n : ℕ) → 1 ≤ n → n < 2 → fifo (n % 3) ≡ get_or (1 ∷ []) (n - 1) 0
    cells zero lo hi = absurd (omega arith)
    cells (suc zero) lo hi = refl
    cells (suc (suc n)) lo hi = absurd (omega arith)

one_out-Shaped : Shaped 4096 2 24 (record pool { alloc = 1 })
one_out-Shaped = record {
  base_at = refl;
  pool_size_at = omega (arith, sizes);
  offset_at = omega (arith, sizes);
  blk_size_at = omega (arith, sizes);
  blk_nums_at = refl;
}

free_block-Free_example :
    (p' : Pool) × (free_block
        (block_address (record pool { alloc = 1 }) 0)
        (record drained { base = 8192 } ∷ record pool { alloc = 1 } ∷ [])
      ≡ (done, record drained { base = 8192 } ∷ p' ∷ []))
    × Free 1 (1 ∷ 0 ∷ []) p'
unfolding unusable block_address
free_block-Free_example =
    free_block-Free (record drained { base = 8192 } ∷ []) [] 0 one_out-Shaped (omega arith)
      (omega arith) one_out-Free refl (omega arith) (omega arith) (refl, refl, tt) (omega arith)
