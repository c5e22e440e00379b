-- ===== src/Memory/Routed.antt =====
-- src/libsrpc.c: where a block comes from and where it goes back to.
use simplerpc.Common.{◌≡◌, ◌↔◌, ◌⊎◌, true, false, arith}
use simplerpc.Memory.Blocks.{Allocator, malloc, calloc, realloc, free}

-- `libsrpc_init` has found every function of the C library; without them the program ends.
abbrev pub IsLoaded : Allocator → Type 0
IsLoaded a =
    (a.real_malloc ≡ true) × (a.real_calloc ≡ true) × (a.real_realloc ≡ true) × (a.real_free ≡ true)

-- A block of malloc, calloc or realloc goes back with free to the allocator that it came from
-- exactly when the allocation of shared memory was not enabled or the switch of the thread stands
-- at the call of free as it stood at the call of malloc, if the library has found the functions
-- of the C library and was enabled at both calls or at neither.
pub free-malloc :
    (a b : Allocator)
    → IsLoaded a
    → IsLoaded b
    → b.en_allocator ≡ a.en_allocator
    → ((free b ≡ malloc a) ↔ ((a.en_allocator ≡ false) ⊎ (b.switch_allocator ≡ a.switch_allocator)))
      × (calloc a ≡ malloc a)
      × (realloc a ≡ malloc a)
unfolding malloc calloc realloc free
free-malloc a b ha hb same = ground arith
