-- ===== src/Memory.antt =====
-- src/libsrpc_shmem.c: the mapping of shared memory, by the daemon that creates it and by the
-- processes that open it. What the kernel and the allocator answer are arguments, an errno beside
-- the call that sets it.
pub mod Mapped
pub mod Blocks
pub mod Routed
mod Tests
use simplerpc.Common.{
  ℕ, Bool, true, false, not, ◌||◌, Option, none, some, List, [], ◌∷◌, ltb, ◌==◌, if◌then◌else◌, ℤ,
  pos, negsuc, neg, negative, take, sub64, e_inval, e_nomem,
}
use simplerpc.Sockets.{zeros, strncmp_eq}
use simplerpc.Sockets.Client.{positive, nonzero, close_if}

-- `libsrpc_shmem_t` as far as creation fills it, in memory that is zero.
pub record Shmem : Type 0 where
  pub sign : List ℕ
  pub basevadr : ℕ
  pub shmsize : ℕ
  pub poolsize : ℕ

-- `libsrpc_shmem_pool_t`, and what the process holds: the mappings and descriptors that are open.
pub record Pool : Type 0 where
  pub shm : Option Shmem
  pub shm_size : ℕ
  pub shm_fd : ℤ
  pub mapped : Bool
  pub open_fds : List ℤ

-- What the calls of `libsrpc_shmem_create` answer.
pub record Answers : Type 0 where
  pub memfd : ℤ
  pub errno : ℕ
  pub ftruncate : ℤ
  pub mmap : Bool
  pub madvise : ℤ
  pub tlsf : Bool
  pub list_init : ℤ

-- The descriptor among those that are open.
abbrev pub with_fd : ℤ → List ℤ → List ℤ
with_fd fd fds = if negative fd then fds else fd ∷ fds

-- `err`: a descriptor above 0 is closed, and the memory unmapped.
abbrev pub give_up : ℤ → (fds : List ℤ) → Pool → ℤ × Pool
give_up rc fds p = (
  rc,
  record p {
    shm = none;
    mapped = false;
    shm_fd = neg 1;
    open_fds = if positive p.shm_fd then fds else p.open_fds;
  },
)

-- `strncpy` of 31 bytes of the name; `header` is sizeof(libsrpc_shmem_t).
abbrev pub fill : (header : ℕ) → (name : List ℕ) → (size virtaddr : ℕ) → Shmem
fill header name size virtaddr = record {
  sign = take 31 name;
  basevadr = virtaddr;
  shmsize = size;
  poolsize = sub64 size header;
}

-- From the mapping on.
unfoldable pub set_up :
    (header : ℕ)
    → Answers
    → (name : List ℕ) → (size virtaddr : ℕ) → (fds : List ℤ) → Pool
    → ℤ × Pool
set_up header a name size virtaddr fds p =
    if nonzero a.madvise
    then give_up a.madvise fds p
    else if not a.tlsf
    then give_up (neg e_nomem) fds p
    else if negative a.list_init
    then give_up a.list_init fds p
    else (a.list_init, record p { shm = some (fill header name size virtaddr) })

-- `libsrpc_shmem_create`, with the descriptors `fds` open before
unfoldable pub shmem_create :
    (header : ℕ) → Answers → (name : Option (List ℕ)) → (size virtaddr : ℕ) → Pool → ℤ × Pool
unfolding set_up
shmem_create header a none size virtaddr p = (neg e_inval, p)
shmem_create header a (some name) size virtaddr p =
    let fds = p.open_fds in
    let made : Pool = record p { shm = none; shm_fd = a.memfd; open_fds = with_fd a.memfd fds } in
    let sized : Pool = record made { shm_size = size } in
    if negative a.memfd
    then give_up (neg a.errno) fds made
    else if negative a.ftruncate
    then give_up (neg a.errno) fds made
    else if not a.mmap
    then give_up (neg a.errno) fds sized
    else set_up header a name size virtaddr fds (record sized { mapped = true })

-- What the calls of `libsrpc_shmem_open` answer: the memory that is mapped, or none, and its size.
pub record Opening : Type 0 where
  pub fstat : ℤ
  pub st_size : ℕ
  pub errno : ℕ
  pub memory : Option Shmem
  pub madvise : ℤ

-- `libsrpc_shmem_open`; the memory is unmapped after an error, the descriptor is its caller's.
unfoldable pub shmem_open : Opening → (shm_fd : ℤ) → (name : List ℕ) → Pool → ℤ × Pool
shmem_open o shm_fd name p = elim o.memory [
  | none ↦ (neg o.errno, p)
  | some m ↦
      if negative o.fstat
      then (neg o.errno, p)
      else if not (strncmp_eq 32 m.sign name)
      then (neg e_inval, p)
      else if nonzero o.madvise
      then (o.madvise, p)
      else (pos 0, record p { shm = some m; shm_fd = shm_fd; shm_size = o.st_size; mapped = true })
]

-- `libsrpc_shmem_destroy`, after which the descriptor is closed: `munmap` is its result.
unfoldable pub shmem_destroy : (munmap : ℤ) → (fds : List ℤ) → Pool → ℤ × Pool
shmem_destroy munmap fds p = elim p.shm [
  | none ↦ (neg e_inval, p)
  | some m ↦
      (munmap, record p { shm = none; shm_fd = neg 1; mapped = negative munmap; open_fds = fds })
]
