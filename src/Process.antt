-- ===== src/Process.antt =====
-- src/libsrpc_proc.c: the UIDs of processes and their registration, which one thread of the daemon
-- does. The list of processes is read in the order of LIBSRPC_LIST_FOREACH; what the system and the
-- allocator answer are arguments.
pub mod Fresh
pub mod Destroy
pub mod Walked
pub mod Left
mod DestroyTests
mod Tests
use simplerpc.Common.{
  ℕ, zero, suc, ◌+◌, ◌%◌, Bool, true, false, not, ◌||◌, Option, none, some, List, [], ◌∷◌, ltb, leb,
  ◌==◌, if◌then◌else◌, ℤ, pos, negsuc, neg, negative, e_inval, e_shmnoinit, e_exist, e_nomem,
}

-- DAEMON_PROC_UID
abbrev pub daemon_uid : ℕ
daemon_uid = 1

-- `libsrpc_proc_t` as far as registration sets it, and the address of its block.
pub record Proc : Type 0 where
  pub address : ℕ
  pub pid : ℕ
  pub proc_uid : ℕ
  pub threads_num : ℕ
  pub sign : ℕ

-- LIBSRPC_PROC_SIGN
abbrev pub proc_sign : ℕ
proc_sign = 4010939119

-- The processes in shared memory, the next UID to try, and the blocks that were given back.
pub record Table : Type 0 where
  pub procs : List Proc
  pub uid_next : ℕ
  pub freed : List ℕ

-- The search of `libsrpc_proc_get_uid` for a process with the UID.
pub uid_used : List Proc → ℕ → Bool
uid_used [] uid = false
uid_used (p ∷ ps) uid = if p.proc_uid == uid then true else uid_used ps uid

-- From the label `find`, with `left` more collisions allowed: the UID, 0 for none, and the next one.
pub find_uid : (left : ℕ) → List Proc → ℕ → ℕ × ℕ
unfolding uid_used
find_uid zero ps next =
    let after = (next + 1) % 65536 in
    if not (uid_used ps next)
    then (next, next)
    else if after == 0
    then (0, daemon_uid + 1)
    else (0, after)
find_uid (suc left) ps next =
    let after = (next + 1) % 65536 in
    let again = find_uid left ps after in
    if not (uid_used ps next)
    then (next, next)
    else if after == 0
    then (0, daemon_uid + 1)
    else again

-- `libsrpc_proc_get_uid`: the hundred-and-first collision ends it.
pub get_uid : List Proc → ℕ → ℕ × ℕ
unfolding find_uid
get_uid ps next = find_uid 100 ps next

-- `libsrpc_proc_get`
unfoldable pub proc_get : List Proc → ℕ → Option Proc
proc_get [] pid = none
proc_get (p ∷ ps) pid = if p.pid == pid then some p else proc_get ps pid

-- The errors after the allocation, which give the block back.
abbrev pub give_up : ℤ → ℕ → Table → ℤ × Table
give_up rc block t = (rc, record t { freed = block ∷ t.freed })

-- From the allocation on. `sem_rc`, `list_rc` and `push_rc` are the results of the initialisations and of
-- the push to the list of processes.
pub make_proc :
    (pid threads : ℕ) → (memory : Option ℕ) → (sem_rc list_rc push_rc : ℤ) → Table → ℤ × Table
unfolding get_uid
make_proc pid threads none sem_rc list_rc push_rc t = (neg e_nomem, t)
make_proc pid threads (some block) sem_rc list_rc push_rc t =
    let found = get_uid t.procs t.uid_next in
    let counted : Table = record t { uid_next = found.1 } in
    if found.0 == 0
    then give_up (neg 9) block counted
    else if negative sem_rc
    then give_up sem_rc block counted
    else if negative list_rc
    then give_up list_rc block counted
    else if negative push_rc
    then give_up push_rc block counted
    else (
      pos 0,
      record counted {
        procs =
            record {
              address = block;
              pid = pid;
              proc_uid = found.0;
              threads_num = threads;
              sign = proc_sign;
            }
            ∷ t.procs;
      },
    )

-- `libsrpc_proc_create`; `threads` is what sysconf says of the processors, and a `pid_t` has a sign.
pub proc_create :
    (threads pid : ℤ)
    → (shm : Bool) → (memory : Option ℕ) → (sem_rc list_rc push_rc : ℤ) → Table
    → ℤ × Table
unfolding proc_get make_proc
proc_create (negsuc n) pid shm memory sem_rc list_rc push_rc t = (neg e_inval, t)
proc_create (pos threads) (negsuc n) shm memory sem_rc list_rc push_rc t = (neg e_inval, t)
proc_create (pos threads) (pos pid) shm memory sem_rc list_rc push_rc t =
    if (threads == 0) || ltb 1024 threads || (pid == 0)
    then (neg e_inval, t)
    else if not shm
    then (neg e_shmnoinit, t)
    else elim (proc_get t.procs pid) [
      | some p ↦ (neg e_exist, t)
      | none ↦ make_proc pid threads memory sem_rc list_rc push_rc t
    ]
