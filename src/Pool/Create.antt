-- ===== src/Pool/Create.antt =====
-- `srpc_pool_create`: a new pool has every block free, in the order of their indices.
use simplerpc.Common.{
  ℕ, zero, suc, ◌+◌, ◌-◌, ◌%◌, ◌<◌, ◌≡◌, refl, ap, ◌∙◌, List, [], ◌∷◌, length, get_or, word32,
  arith, some, ◌≢◌, update,
}
use native.Mathlib.Nat.{mod-eq_of_lt, zero-add}
use simplerpc.Pool.{Pool, fill, blank, create, total_size, fifo_size, block_size}
use simplerpc.Pool.Ring.{Free}

-- `n`, `n + 1`, … , `n + count - 1`
unfoldable pub count_up : (count n : ℕ) → List ℕ
count_up zero n = []
count_up (suc count) n = n ∷ count_up count (suc n)

pub length-count_up : (count n : ℕ) → length (count_up count n) ≡ count
unfolding count_up
length-count_up zero n = refl
length-count_up (suc count) n = ap suc (length-count_up count (suc n))

pub get_or-count_up : (count n i : ℕ) → i < count → get_or (count_up count n) i 0 ≡ n + i
unfolding count_up
get_or-count_up zero n i h = absurd (omega arith)
get_or-count_up (suc count) n zero h = omega arith
get_or-count_up (suc count) n (suc i) h =
    omega (arith, get_or-count_up count (suc n) i (omega arith))

-- What the loop of `create` leaves: the cells below `total` hold their own indices.
pub record Filled (total : ℕ) (p p' : Pool) : Type 0 where
  pub free_at : p'.free ≡ total
  pub cells : (j : ℕ) → j < total → p'.fifo j ≡ j
  pub base_same : p'.base ≡ p.base
  pub pool_size_same : p'.pool_size ≡ p.pool_size
  pub offset_same : p'.offset ≡ p.offset
  pub blk_size_same : p'.blk_size ≡ p.blk_size
  pub blk_nums_same : p'.blk_nums ≡ p.blk_nums
  pub alloc_same : p'.alloc ≡ p.alloc

fill-Filled :
    (rounds i : ℕ) (p : Pool)
    → p.free ≡ i
    → ((j : ℕ) → j < i → p.fifo j ≡ j)
    → i + rounds < word32
    → Filled (i + rounds) p (fill rounds i p)
unfolding fill
fill-Filled zero i p at before small = record {
  free_at = omega arith;
  cells = λ j h. before j (omega arith);
  base_same = refl;
  pool_size_same = refl;
  offset_same = refl;
  blk_size_same = refl;
  blk_nums_same = refl;
  alloc_same = refl;
}
fill-Filled (suc rounds) i p at before small =
    let next : Pool = record p {
      fifo = update p.fifo p.free (i % word32);
      free = (p.free + 1) % word32;
    } in
    let rest =
      fill-Filled rounds (i + 1) next (omega arith) (λ j h. ground (arith, before j))
        (omega arith) in
    ground (arith, rest)

Filled-Free :
    {n : ℕ} {p p' : Pool}
    → Filled n p p'
    → p.blk_nums ≡ n
    → p.alloc ≡ 0
    → suc n < word32
    → Free 0 (count_up n 0) p'
Filled-Free {n} {p} {p'} made nums first small =
    let size : p'.blk_nums ≡ n = made.blk_nums_same ∙ nums in
    let zero_mod : 0 % suc n ≡ 0 = omega arith in
    let end_mod : n % suc n ≡ n = mod-eq_of_lt (omega arith) in
    record {
      alloc_at = rw size (omega (arith, made.alloc_same));
      free_at = rw (size, length-count_up n 0, zero-add, end_mod) made.free_at;
      room = omega (arith, length-count_up n 0);
      small = omega arith;
      held = λ j lo hi. rw size (cell j (omega (arith, length-count_up n 0)));
    }
  where
    cell : (j : ℕ) → j < n → p'.fifo (j % suc n) ≡ get_or (count_up n 0) (j - 0) 0
    cell j h =
        let inner : j % suc n ≡ j = mod-eq_of_lt (omega arith) in
        let same : j - 0 ≡ j = omega arith in
        rw (inner, same, made.cells j h, get_or-count_up n 0 j h) (omega arith)

-- The fields that `create` sets, beside the ring.
pub record Shaped (address elm_num elm_size : ℕ) (p : Pool) : Type 0 where
  pub base_at : p.base ≡ address
  pub pool_size_at : p.pool_size ≡ total_size elm_num elm_size
  pub offset_at : p.offset ≡ fifo_size elm_num
  pub blk_size_at : p.blk_size ≡ block_size elm_size
  pub blk_nums_at : p.blk_nums ≡ elm_num

-- When malloc gives memory, srpc_pool_create makes a pool of the sizes asked for in which every
-- block is free, block 0 to be handed out first, if the number of blocks and one fit 32 bits.
pub create-Free :
    (address elm_num elm_size : ℕ)
    → address ≢ 0
    → suc elm_num < word32
    → (p : Pool) × (create address elm_num elm_size ≡ some p)
      × Shaped address elm_num elm_size p
      × Free 0 (count_up elm_num 0) p
unfolding create
create-Free address n elm_size got small =
    let start = blank address (total_size n elm_size) (fifo_size n) (block_size elm_size) n in
    let made : Filled n start (fill n 0 start) =
      rw zero-add at (fill-Filled n 0 start refl (λ j h. absurd (omega arith)) (omega arith)) in
    (fill n 0 start, ground arith, ground (arith, made), Filled-Free made refl refl small)
