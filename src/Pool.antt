-- ===== src/Pool.antt =====
-- src/libsrpc_fixblockalloc.h and src/libsrpc_fixblockalloc.c: blocks of a fixed size, with the
-- indices of the free ones in a ring. The list of pools is the chain through `nextpool`, and an
-- address is a number, 0 for NULL.
pub mod Ring
mod Tests
pub mod Release
pub mod Chain
pub mod Layout
pub mod Create
use simplerpc.Common.{
  ℕ, zero, suc, ◌+◌, ◌-◌, ◌*◌, ◌/◌, ◌%◌, ◌^◌, Bool, true, false, ◌&&◌, ◌||◌, Option, none, some,
  List, [], ◌∷◌, ltb, leb, ◌==◌, if◌then◌else◌, update, word64, word32, add64, sub64,
}

-- `base` is the address of the pool itself.
pub record Pool : Type 0 where
  pub base : ℕ
  pub pool_size : ℕ
  pub offset : ℕ
  pub blk_size : ℕ
  pub blk_nums : ℕ
  pub alloc : ℕ
  pub free : ℕ
  pub fifo : ℕ → ℕ

-- `sizeof(srpc_pool_fba_t)`: a pointer, four words of 8 bytes and two indices of 4.
abbrev pub header_size : ℕ
header_size = 48

abbrev mul64 : ℕ → ℕ → ℕ
mul64 a b = (a * b) % word64

pub block_size : ℕ → ℕ
block_size elm_size = mul64 (add64 elm_size 15 / 16) 16

pub fifo_size : ℕ → ℕ
fifo_size elm_num = mul64 (add64 (mul64 (add64 elm_num 1) 4) 63 / 64) 64

pub total_size : ℕ → ℕ → ℕ
total_size elm_num elm_size =
    add64 (add64 (mul64 (block_size elm_size) elm_num) header_size) (fifo_size elm_num)

-- `for(i = ...) pool->fifo[pool->free++] = (uint32_t)i`, with the rounds that are left
pub fill : ℕ → ℕ → Pool → Pool
fill zero i p = p
fill (suc rounds) i p =
    fill rounds (i + 1)
      (record p { fifo = update p.fifo p.free (i % word32); free = (p.free + 1) % word32 })

abbrev pub blank : ℕ → ℕ → ℕ → ℕ → ℕ → Pool
blank address size off bsize nums = record {
  base = address;
  pool_size = size;
  offset = off;
  blk_size = bsize;
  blk_nums = nums;
  alloc = 0;
  free = 0;
  fifo = λ i. 0;
}

-- `address` is what `malloc` returns. The memory is cleared before the fields are set.
pub create : (address : ℕ) → (elm_num elm_size : ℕ) → Option Pool
unfolding block_size fifo_size total_size fill
create address elm_num elm_size =
    if address == 0
    then none
    else some (
        fill elm_num 0 (
          blank address (total_size elm_num elm_size) (fifo_size elm_num) (block_size elm_size)
            elm_num))

-- A pool that `srpc_pool_alloc` and `srpc_pool_free` do not look into.
pub unusable : Pool → Bool
unusable p = p.pool_size == 0 || p.offset == 0 || p.blk_size == 0

-- `ni++; if(ni >= (pool->blk_nums+1)) ni = 0;`
pub next_index : Pool → ℕ → ℕ
next_index p i = let ni = (i + 1) % word32 in if leb (add64 p.blk_nums 1) ni then 0 else ni

pub block_address : Pool → ℕ → ℕ
block_address p blk = add64 (add64 p.base p.offset) (mul64 blk p.blk_size)

-- What follows the loop of `srpc_pool_alloc`.
pub take_block : Pool → ℕ × Pool
unfolding next_index block_address
take_block p = (block_address p (p.fifo p.alloc), record p { alloc = next_index p p.alloc })

abbrev pub option_list : Option Pool → List Pool
option_list none = []
option_list (some p) = p ∷ []

-- `if(!pool->nextpool) pool->nextpool = srpc_pool_create(...)`, with the later results of `malloc`
pub extend : (ℕ → ℕ) → Pool → List Pool → (ℕ → ℕ) × List Pool
unfolding create
extend mallocs p [] = (λ n. mallocs (suc n), option_list (create (mallocs 0) p.blk_nums p.blk_size))
extend mallocs p (next ∷ rest) = (mallocs, next ∷ rest)

abbrev pub with_first : Pool → Option (ℕ × List Pool) → Option (ℕ × List Pool)
with_first p none = none
with_first p (some (ptr, ps)) = some (ptr, p ∷ ps)

-- `mallocs n` is what the n-th call of `malloc` returns. The result is the pointer and the chain;
-- `none` means that the fuel ran out.
pub alloc_block : ℕ → (ℕ → ℕ) → List Pool → Option (ℕ × List Pool)
unfolding unusable take_block extend
alloc_block zero mallocs ps = none
alloc_block (suc fuel) mallocs [] = some (0, [])
alloc_block (suc fuel) mallocs (p ∷ ps) =
    let grown = extend mallocs p ps in
    let later = with_first p (alloc_block fuel grown.0 grown.1) in
    let taken = take_block p in
    if unusable p
    then some (0, p ∷ ps)
    else if p.alloc == p.free
    then later
    else some (taken.0, taken.1 ∷ ps)

-- What `srpc_pool_free` returns: 0, -EINVAL, -EAFNOSUPPORT, -EBADF or -ENOSPC.
pub data Code : Type 0 where
  done einval eafnosupport ebadf enospc : Code

abbrev pub inside : Pool → ℕ → Bool
inside p ptr = ltb p.base ptr && ltb ptr (add64 p.base p.pool_size)

pub block_of : Pool → ℕ → ℕ
block_of p ptr = (sub64 (sub64 ptr p.base) p.offset / p.blk_size) % word32

-- What follows the loop of `srpc_pool_free`.
pub put_block : Pool → ℕ → Code × Pool
unfolding block_of next_index
put_block p ptr =
    let blk = block_of p ptr in
    let ni = next_index p p.free in
    if leb p.blk_nums blk
    then (ebadf, p)
    else if ni == p.alloc
    then (enospc, p)
    else (done, record p { free = ni; fifo = update p.fifo p.free blk })

pub find_pool : ℕ → List Pool → Code × List Pool
unfolding unusable put_block
find_pool ptr [] = (eafnosupport, [])
find_pool ptr (p ∷ ps) =
    let rest = find_pool ptr ps in
    let put = put_block p ptr in
    if unusable p
    then (eafnosupport, p ∷ ps)
    else if inside p ptr
    then (put.0, put.1 ∷ ps)
    else (rest.0, p ∷ rest.1)

pub free_block : ℕ → List Pool → Code × List Pool
unfolding find_pool
free_block ptr [] = (einval, [])
free_block ptr (p ∷ ps) = if ptr == 0 then (einval, p ∷ ps) else find_pool ptr (p ∷ ps)
