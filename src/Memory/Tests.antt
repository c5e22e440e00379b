-- ===== src/Memory/Tests.antt =====
-- Memory of a daemon of one version, and a block that is given back under the other switch.
use simplerpc.Common.{ℕ, ◌≡◌, ◌↔◌, ◌⊎◌, refl, true, false, none, some, List, [], ◌∷◌, pos, arith}
use simplerpc.Memory.{Pool, Answers, Opening, fill, shmem_open}
use simplerpc.Memory.Mapped.{shmem_open-created}
use simplerpc.Memory.Blocks.{Allocator, alloc_std, alloc_shm, malloc, calloc, realloc, free}
use simplerpc.Memory.Routed.{free-malloc}

abbrev name : List ℕ
name = 115 ∷ 49 ∷ []

abbrev other : List ℕ
other = 115 ∷ 50 ∷ []

abbrev pool : Pool
pool = record { shm = none; shm_size = 0; shm_fd = pos 0; mapped = false; open_fds = [] }

-- The heap does not fit into the memory.
abbrev answers : Answers
answers = record {
  memfd = pos 5;
  errno = 0;
  ftruncate = pos 0;
  mmap = true;
  madvise = pos 0;
  tlsf = false;
  list_init = pos 0;
}

abbrev opening : Opening
opening = record {
  fstat = pos 0;
  st_size = 4096;
  errno = 0;
  memory = some (fill 1000 name 4096 8192);
  madvise = pos 0;
}

shmem_open-created_example : ((shmem_open opening (pos 7) other pool).0 ≡ pos 0) ↔ (name ≡ other)
shmem_open-created_example =
    shmem_open-created 1000 4096 8192 name opening (pos 7) other pool (omega arith) (omega arith)
      refl refl refl

abbrev under_std : Allocator
under_std = record {
  en_allocator = true;
  switch_allocator = alloc_std;
  real_malloc = true;
  real_calloc = true;
  real_realloc = true;
  real_free = true;
}

abbrev under_shm : Allocator
under_shm = record under_std { switch_allocator = alloc_shm }

free-malloc_example :
    ((free under_std ≡ malloc under_shm) ↔ (
      (under_shm.en_allocator ≡ false) ⊎ (under_std.switch_allocator ≡ under_shm.switch_allocator)))
    × (calloc under_shm ≡ malloc under_shm)
    × (realloc under_shm ≡ malloc under_shm)
free-malloc_example =
    free-malloc under_shm under_std (refl, refl, refl, refl) (refl, refl, refl, refl) refl
