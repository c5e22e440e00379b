-- ===== src/Memory/Mapped.antt =====
-- src/libsrpc_shmem.c: what creation leaves, and who can open what was created.
use simplerpc.Common.{
  ℕ, ◌≡◌, ◌≢◌, true, false, none, some, List, ◌∷◌, append-nil, take, take_all, ◌⊎◌, ℤ, pos, neg,
  negative, arith, ◌↔◌,
}
use simplerpc.Sockets.{zeros, strncmp_eq}
use simplerpc.Sockets.Client.{nonzero}
use simplerpc.Sockets.Message.{IsName, strncmp_eq_self, strncmp_eq_sound}
use simplerpc.Memory.{Pool, Answers, Opening, fill, shmem_create, shmem_open}

module _ (header size virtaddr : ℕ) (name : List ℕ) where
  -- The memory is mapped and described, or nothing of it is left.
  abbrev pub Created : Answers → Pool → ℤ × Pool → Type 0
  Created a p r =
      ((r.0 ≡ a.list_init)
        × (r.1.shm ≡ some (fill header name size virtaddr))
        × (r.1.shm_fd ≡ a.memfd)
        × (r.1.mapped ≡ true)
        × (r.1.open_fds ≡ a.memfd ∷ p.open_fds))
      ⊎ ((r.1.shm ≡ none)
          × (r.1.shm_fd ≡ neg 1)
          × (r.1.mapped ≡ false)
          × (r.1.open_fds ≡ p.open_fds))

  pub shmem_create-Created :
      (a : Answers) (p : Pool)
      → a.memfd ≢ pos 0
      → Created a p (shmem_create header a (some name) size virtaddr p)
  unfolding shmem_create
  shmem_create-Created a p above = ground arith

  same_name :
      (name' : List ℕ)
      → IsName name
      → IsName name'
      → (strncmp_eq 32 (take 31 name) name' ≡ true) ↔ (name ≡ name')
  unfolding zeros
  same_name name' (short, whole) named' = rw (take_all 31 name short) (
    (λ h. strncmp_eq_sound 32 0 name name' whole named'.1 (omega arith) (rw (append-nil name) h)),
    (λ e. rw (← e) (rw (append-nil name) at (strncmp_eq_self 32 0 name whole))),
  )

  -- libsrpc_shmem_open, on the memory that libsrpc_shmem_create describes for one name, when
  -- fstat and madvise succeed, returns 0 exactly when the name given is that name, if both
  -- names are shorter than 32 bytes and hold no NUL.
  pub shmem_open-created :
      (o : Opening) (fd : ℤ) (name' : List ℕ) (p : Pool)
      → IsName name
      → IsName name'
      → negative o.fstat ≡ false
      → nonzero o.madvise ≡ false
      → o.memory ≡ some (fill header name size virtaddr)
      → ((shmem_open o fd name' p).0 ≡ pos 0) ↔ (name ≡ name')
  unfolding shmem_open
  shmem_open-created o fd name' p named named' stat advise memory =
      rw (memory, shmem_open) (rw (stat, advise) (ground (arith, same_name name' named named')))
