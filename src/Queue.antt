-- ===== src/Queue.antt =====
-- src/lf_mpmc_queue.h and src/lf_mpmc_queue.c: the ring of cells with sequence numbers, as one
-- thread runs it. A weak compare-and-swap may fail for no reason; `spurious n` says whether the
-- n-th attempt of a call does. `none` means that the retries used up the fuel.
pub mod Inv
mod Tests
pub mod Run
pub mod Find
pub mod Refine
pub mod Spec
pub mod Dequeue
pub mod Enqueue
pub mod Threads
use simplerpc.Common.{
  ℕ, zero, suc, ◌+◌, ◌-◌, ◌%◌, ◌^◌, Bool, true, false, not, ◌&&◌, ◌||◌, Option, none, some, ltb,
  leb, ◌==◌, if◌then◌else◌, update, add64, sub64,
}

pub data Result : Type 0 where
  ok full empty not_found : Result

-- `seq` is a `size_t`, `item` the pointer `data`, 0 for NULL.
pub record Cell : Type 0 where
  pub seq : ℕ
  pub item : ℕ

pub record Queue : Type 0 where
  pub head : ℕ
  pub tail : ℕ
  pub buffer : ℕ → Cell
  pub mask : ℕ

-- `pos & mask`, for a mask of ones
abbrev pub index : ℕ → Queue → ℕ
index pos q = pos % (q.mask + 1)

abbrev pub seq_at : ℕ → Queue → ℕ
seq_at pos q = (q.buffer (index pos q)).seq

-- `(ptrdiff_t)d < 0`
abbrev pub negative : ℕ → Bool
negative d = leb (2 ^ 63) d

unfoldable pub init_cell : (ℕ → Cell) → ℕ → ℕ → Cell
init_cell old size i = if ltb i size then record { seq = i; item = 0 } else old i

-- The loop of `init` writes the cells below the capacity, whatever the memory held.
unfoldable pub init : (capacity : ℕ) → Queue → Queue
unfolding init_cell
init capacity q = record {
  head = 0;
  tail = 0;
  buffer = init_cell q.buffer capacity;
  mask = capacity - 1;
}

-- What the winner of the swap writes: the head, the pointer, then the sequence number.
unfoldable pub publish : ℕ → ℕ → Queue → Queue
publish pos x q = record q {
  head = add64 pos 1;
  buffer = update q.buffer (index pos q) (record { seq = add64 pos 1; item = x });
}

unfoldable pub enqueue_loop : ℕ → (ℕ → Bool) → ℕ → ℕ → Queue → Option (Result × Queue)
unfolding publish
enqueue_loop zero spurious pos x q = none
enqueue_loop (suc fuel) spurious pos x q =
    let diff = sub64 (seq_at pos q) pos in
    let retry = enqueue_loop fuel (λ n. spurious (suc n)) q.head x q in
    if diff == 0
    then (if q.head == pos && not (spurious 0) then some (ok, publish pos x q) else retry)
    else if negative diff
    then some (full, q)
    else retry

unfoldable pub try_enqueue : ℕ → (ℕ → Bool) → ℕ → Queue → Option (Result × Queue)
unfolding enqueue_loop
try_enqueue fuel spurious x q = enqueue_loop fuel spurious q.head x q

-- The capacity is added to the position, so that the cell is free for the next lap.
unfoldable pub release : ℕ → ℕ → Queue → Queue
release capacity pos q = record q {
  tail = add64 pos 1;
  buffer =
      update q.buffer (index pos q)
        (record { seq = add64 pos capacity; item = (q.buffer (index pos q)).item });
}

unfoldable pub dequeue_loop : ℕ → (ℕ → Bool) → ℕ → ℕ → Queue → Option (Result × Option ℕ × Queue)
unfolding release
dequeue_loop capacity spurious zero pos q = none
dequeue_loop capacity spurious (suc fuel) pos q =
    let diff = sub64 (seq_at pos q) (add64 pos 1) in
    let retry = dequeue_loop capacity (λ n. spurious (suc n)) fuel q.tail q in
    if diff == 0
    then (if q.tail == pos && not (spurious 0)
        then some (ok, some (q.buffer (index pos q)).item, release capacity pos q)
        else retry)
    else if negative diff
    then some (empty, none, q)
    else retry

-- The option is what is written through `data`.
unfoldable pub try_dequeue :
    (capacity : ℕ) → ℕ → (ℕ → Bool) → Queue → Option (Result × Option ℕ × Queue)
unfolding dequeue_loop
try_dequeue capacity fuel spurious q = dequeue_loop capacity spurious fuel q.tail q

-- The body of the loop of `try_find_ptr`: the cell is published, holds `ptr`, and is not taken.
pub holds : ℕ → ℕ → Queue → Bool
holds ptr pos q =
    seq_at pos q == add64 pos 1 && (q.buffer (index pos q)).item == ptr && not (ltb pos q.tail)

pub find_loop : ℕ → ℕ → ℕ → Queue → Result
unfolding holds
find_loop zero ptr pos q = not_found
find_loop (suc n) ptr pos q =
    let rest = find_loop n ptr (add64 pos 1) q in if holds ptr pos q then ok else rest

pub try_find_ptr : (capacity : ℕ) → ℕ → Queue → Result
unfolding find_loop
try_find_ptr capacity ptr q =
    if ptr == 0
    then not_found
    else if leb q.head q.tail
    then not_found
    else let n = q.head - q.tail in
      if ltb capacity n
      then find_loop capacity ptr (q.head - capacity) q
      else find_loop n ptr q.tail q
