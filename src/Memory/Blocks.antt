-- ===== src/Memory/Blocks.antt =====
-- src/libsrpc_shmem.c: blocks of shared memory; and src/libsrpc.c: the `malloc`, `calloc`, `realloc`
-- and `free` that take the place of the C library's. What the allocators answer is an argument: an
-- address, 0 for NULL, and the errno of tlsf.
use simplerpc.Common.{
  ℕ, Bool, true, false, not, ◌||◌, Option, none, some, ◌==◌, if◌then◌else◌, ℤ, pos, neg, negative,
  e_libnoinit, e_shmnoinit, e_inval,
}

-- What a call of tlsf was given: sizes, addresses, the UID of the process, the type of the data.
pub data Call : Type 0 where
  tlsf_malloc : (size uid type : ℕ) → Call
  tlsf_calloc : (num size uid type : ℕ) → Call
  tlsf_realloc : (ptr size uid : ℕ) → Call
  tlsf_free : (ptr uid : ℕ) → Call
  tlsf_setdc : (ptr : ℕ) → Call
  tlsf_link : (ptr uid : ℕ) → Call
  tlsf_get_block_size : (ptr : ℕ) → Call

-- The library in this process: `simplerpc_data`, its shared memory, and its UID.
pub record Library : Type 0 where
  pub ready : Bool
  pub shm : Bool
  pub proc_uid : ℕ

-- The address returned, errno, and the call of tlsf, if there was one.
abbrev pub Reply : Type 0
Reply = ℕ × ℤ × Option Call

-- LIBSRPC_SHMDT_USER
abbrev pub type_user : ℕ
type_user = 0

-- The two checks that every function starts with.
abbrev pub checked : Library → Reply → Reply
checked l r =
    if not l.ready
    then (0, pos e_libnoinit, none)
    else if not l.shm
    then (0, pos e_shmnoinit, none)
    else r

-- `libsrpc_shmem_malloc_type`
unfoldable pub shmem_malloc_type : (size type : ℕ) → (ptr errno : ℕ) → Library → Reply
shmem_malloc_type size type ptr errno l =
    checked l (ptr, pos errno, some (tlsf_malloc size l.proc_uid type))

-- `libsrpc_shmem_malloc`
unfoldable pub shmem_malloc : (size : ℕ) → (ptr errno : ℕ) → Library → Reply
unfolding shmem_malloc_type
shmem_malloc size ptr errno l = shmem_malloc_type size type_user ptr errno l

-- `libsrpc_shmem_calloc_type`
unfoldable pub shmem_calloc_type : (num size type : ℕ) → (ptr errno : ℕ) → Library → Reply
shmem_calloc_type num size type ptr errno l =
    checked l (ptr, pos errno, some (tlsf_calloc num size l.proc_uid type))

-- `libsrpc_shmem_calloc`
unfoldable pub shmem_calloc : (num size : ℕ) → (ptr errno : ℕ) → Library → Reply
unfolding shmem_calloc_type
shmem_calloc num size ptr errno l = shmem_calloc_type num size type_user ptr errno l

-- `libsrpc_shmem_realloc`
unfoldable pub shmem_realloc : (old size : ℕ) → (ptr errno : ℕ) → Library → Reply
shmem_realloc old size ptr errno l =
    checked l (ptr, pos errno, some (tlsf_realloc old size l.proc_uid))

-- `libsrpc_shmem_free`
unfoldable pub shmem_free : (ptr errno : ℕ) → Library → Reply
shmem_free ptr errno l = checked l (0, pos errno, some (tlsf_free ptr l.proc_uid))

-- `libsrpc_shmem_free_dc`: errno is the result of tlsf_setdc, which is negative for an error.
unfoldable pub shmem_free_dc : (ptr : ℕ) → (setdc : ℤ) → Library → ℤ × Option Call
shmem_free_dc ptr setdc l =
    if l.shm then (setdc, some (tlsf_setdc ptr)) else (pos e_shmnoinit, none)

-- `libsrpc_shmem_link`: its result and errno.
unfoldable pub shmem_link : (ptr : ℕ) → (link errno : ℤ) → Library → ℤ × ℤ × Option Call
shmem_link ptr link errno l =
    if (ptr == 0) || not l.ready || not l.shm
    then (neg e_inval, errno, none)
    else (link, if negative link then link else errno, some (tlsf_link ptr l.proc_uid))

-- `libsrpc_shmem_get_size`: its result, and what is stored at `psz`, none for a NULL pointer.
unfoldable pub shmem_get_size :
    (ptr : ℕ) → (has_psz : Bool) → (size errno : ℕ) → Library → ℤ × Option ℕ × Option Call
shmem_get_size ptr has_psz size errno l =
    if l.shm
    then (pos errno, if has_psz then some size else none, some (tlsf_get_block_size ptr))
    else (neg e_inval, none, none)

-- SRPC_ALLOC_STD and SRPC_ALLOC_SHM
pub data Switch : Type 0 where
  alloc_std alloc_shm : Switch

-- Who serves a call: the C library, shared memory, or nobody.
pub data Server : Type 0 where
  by_libc by_shm by_none : Server

abbrev pub real : Bool → Server
real true = by_libc
real false = by_none

-- The library with `en_allocator`, the switch of the thread, and which functions of the C library were
-- found.
pub record Allocator : Type 0 where
  pub en_allocator : Bool
  pub switch_allocator : Switch
  pub real_malloc : Bool
  pub real_calloc : Bool
  pub real_realloc : Bool
  pub real_free : Bool

-- `libsrpc_alloc_sw_std` and `libsrpc_alloc_sw_shm`
abbrev pub alloc_sw_std : Allocator → Allocator
alloc_sw_std a = record a { switch_allocator = alloc_std }

abbrev pub alloc_sw_shm : Allocator → Allocator
alloc_sw_shm a = record a { switch_allocator = alloc_shm }

-- `malloc`
unfoldable pub malloc : Allocator → Server
malloc a =
    if not a.en_allocator
    then real a.real_malloc
    else elim a.switch_allocator [ alloc_shm ↦ by_shm | alloc_std ↦ real a.real_malloc ]

-- `calloc`
unfoldable pub calloc : Allocator → Server
calloc a =
    if not a.en_allocator
    then real a.real_calloc
    else elim a.switch_allocator [ alloc_shm ↦ by_shm | alloc_std ↦ real a.real_calloc ]

-- `realloc`
unfoldable pub realloc : Allocator → Server
realloc a =
    if not a.en_allocator
    then real a.real_realloc
    else elim a.switch_allocator [ alloc_shm ↦ by_shm | alloc_std ↦ real a.real_realloc ]

-- `free`
unfoldable pub free : Allocator → Server
free a =
    if not a.en_allocator
    then real a.real_free
    else elim a.switch_allocator [ alloc_shm ↦ by_shm | alloc_std ↦ real a.real_free ]
