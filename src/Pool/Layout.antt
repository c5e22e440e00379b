-- ===== src/Pool/Layout.antt =====
-- Where the ring and the blocks of a pool lie in its memory.
use simplerpc.Common.{
  ℕ, suc, ◌+◌, ◌*◌, ◌/◌, ◌%◌, ◌≤◌, ◌<◌, ◌≡◌, ◌↔◌, word32, word64, arith, add64, sub64,
}
use native.Mathlib.Nat.{mul-le-mul_left, mul-div_cancel}
use simplerpc.Pool.{Pool, header_size, block_size, fifo_size, total_size, block_address, block_of}
use simplerpc.Pool.Create.{Shaped}

-- `&pool->fifo[i]`
abbrev pub cell_address : Pool → ℕ → ℕ
cell_address p i = p.base + header_size + 4 * i

-- The memory of the pool does not reach the end of the address space.
abbrev pub Fits : ℕ → ℕ → ℕ → Type 0
Fits address elm_num elm_size =
    address + (suc elm_num * (elm_size + 15) + header_size + 4 * elm_num + 68) < word64

pub fifo_size-eq : (n : ℕ) → suc n < word32 → fifo_size n ≡ (4 * n + 67) / 64 * 64
unfolding fifo_size
fifo_size-eq n small = omega arith

pub block_size-eq : (n : ℕ) → n + 15 < word64 → block_size n ≡ (n + 15) / 16 * 16
unfolding block_size
block_size-eq n small = omega arith

module _ {address n elm_size : ℕ} {p : Pool} (s : Shaped address n elm_size p)
    (small : suc n < word32) (fits : Fits address n elm_size) where
  first_block : block_address p 0 ≡ address + (4 * n + 67) / 64 * 64
  unfolding block_address
  first_block = rw (s.base_at, s.offset_at, fifo_size-eq n small) (omega (arith, s.blk_size_at))

  -- The whole ring of a created pool lies below its block 0 exactly for a number of blocks that
  -- leaves a rest below 4 when divided by 16; for the other numbers block 0 lies over the last
  -- cells of the ring.
  pub ring-below_blocks : (cell_address p n + 4 ≤ block_address p 0) ↔ (n % 16 < 4)
  ring-below_blocks = rw (first_block, s.base_at) (λ h. omega arith, λ h. omega arith)

  -- The product that places block `i` does not wrap, and the block ends inside the pool.
  block_bounds :
      (i : ℕ) → i < n → i * block_size elm_size + block_size elm_size ≤ n * block_size elm_size
  block_bounds i h = grind arith

  pub blocks_fit :
      (i : ℕ)
      → i < n
      → address + fifo_size n + (i * p.blk_size + p.blk_size)
        ≤ address + fifo_size n + n * p.blk_size
  blocks_fit i h = rw s.blk_size_at (omega (arith, block_bounds i h))

  pub sizes :
      (elm_size + 15 < word64) × (n * p.blk_size ≤ n * (elm_size + 15)) × (fifo_size n ≤ 4 * n + 67)
  sizes =
      let room : elm_size + 15 < word64 = grind arith in
      (
        room,
        rw (s.blk_size_at, block_size-eq elm_size room) (mul-le-mul_left n (omega arith)),
        omega (arith, fifo_size-eq n small),
      )

  pub block_at : (i : ℕ) → i < n → block_address p i ≡ address + fifo_size n + i * p.blk_size
  unfolding block_address
  block_at i h = rw (s.base_at, s.offset_at) (omega (arith, sizes, blocks_fit i h))

  -- `total_size` without the wraps.
  pub end_of_pool : add64 p.base p.pool_size ≡ address + fifo_size n + n * p.blk_size + header_size
  unfolding total_size
  end_of_pool =
      let products : (n * block_size elm_size ≤ n * (elm_size + 15))
          × (block_size elm_size * n ≡ n * block_size elm_size) =
        (rw s.blk_size_at at (sizes.1), omega arith) in
      let end : p.pool_size ≡ fifo_size n + n * p.blk_size + header_size =
        rw (s.pool_size_at, s.blk_size_at) (omega (arith, products, sizes)) in
      omega (arith, sizes, s.base_at)

  -- The block that `srpc_pool_free` works out from the address of a block is that block.
  pub block_of-block_address : (i : ℕ) → i < n → 0 < elm_size → block_of p (block_address p i) ≡ i
  unfolding block_of
  block_of-block_address i h pos =
      let blocks_pos : 0 < p.blk_size =
        rw (s.blk_size_at, block_size-eq elm_size (sizes.0)) (omega arith) in
      let back : sub64 (sub64 (block_address p i) p.base) p.offset ≡ i * p.blk_size =
        omega (arith, sizes, blocks_fit i h, block_at i h, s.base_at, s.offset_at) in
      rw (back, mul-div_cancel i blocks_pos) (omega arith)
