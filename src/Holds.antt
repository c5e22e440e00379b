-- ===== src/Holds.antt =====
-- src/libsrpc.c: the four slots of a request that keep the collector from the memory of a process.
-- What the other threads do to the process between the two tests is part of a holder; `owns` is whether
-- the allocator's `tlsf_check_uid` says that the block belongs to the process.
pub mod Held
mod Tests
use simplerpc.Common.{
  ℕ, zero, suc, ◌+◌, ◌%◌, ◌^◌, Bool, true, false, not, ◌||◌, Option, none, some, ltb, leb, ◌==◌,
  if◌then◌else◌, ℤ, pos, negsuc, neg, update, e_inval, e_shmnoinit, e_invalrequest, e_invalresponse,
  e_notavailable, e_procdestroyed, e_nomem, e_notfound,
}
use simplerpc.Request.{Request, Response, is_corrupted, get_response_fast}

-- A process as the caller reads it: at the first test and at the second.
pub record Holder : Type 0 where
  pub proc_uid : ℕ
  pub valid : Bool
  pub late_uid : ℕ
  pub late_valid : Bool

-- The first of the `n` slots from `i` that is 0.
unfoldable pub free_slot : (n i : ℕ) → (ℕ → ℕ) → Option ℕ
free_slot zero i lock = none
free_slot (suc n) i lock =
    let rest = free_slot n (suc i) lock in if lock i == 0 then some i else rest

abbrev pub with_lock : Request → (ℕ → ℕ) → Request
with_lock r lock = record r { gc_lock = lock }

-- The store into the slot, and the tests after it, which clear the slot again.
abbrev pub use_slot : Holder → (owns : Bool) → Request → ℕ → ℤ × Request
use_slot holder owns r i =
    let lock = update r.gc_lock i holder.proc_uid in
    if not holder.late_valid || not (holder.late_uid == holder.proc_uid)
    then (neg e_procdestroyed, with_lock r (update lock i 0))
    else if not owns
    then (neg e_notfound, with_lock r (update lock i 0))
    else (pos i, with_lock r lock)

-- From the search for a slot to the end of `libsrpc_shmem_proc_lock`.
unfoldable pub take_slot : Holder → (owns : Bool) → Request → ℤ × Request
take_slot holder owns r = elim (free_slot 4 0 r.gc_lock) [
  | none ↦ (neg e_nomem, r)
  | some i ↦ use_slot holder owns r i
]

-- The tests of the process behind a response.
unfoldable pub check_holder : (ℕ → Holder) → (owns : Bool) → Response → Request → ℤ × Request
check_holder look owns resp r =
    if resp.hp_proc == 0
    then (neg e_notavailable, r)
    else if not ((look resp.hp_proc).proc_uid == resp.uid) || not (look resp.hp_proc).valid
    then (neg e_procdestroyed, r)
    else take_slot (look resp.hp_proc) owns r

abbrev pub at_response : (ℕ → Holder) → Bool → Request → Option ℕ → ℤ × Request
at_response look owns r none = (neg e_invalresponse, r)
at_response look owns r (some off) = check_holder look owns (r.responses off) r

-- `libsrpc_shmem_proc_lock` of a thread whose current request is `r`.
unfoldable pub shmem_proc_lock :
    (header : ℕ) (shm : Bool) → (ℕ → Holder) → (owns : Bool) → (idx : ℤ) → Request → ℤ × Request
shmem_proc_lock header shm look owns (negsuc n) r = (neg e_inval, r)
shmem_proc_lock header shm look owns (pos idx) r =
    if not shm
    then (neg e_shmnoinit, r)
    else if is_corrupted header (some r) none || leb r.retnum idx
    then (neg e_invalrequest, r)
    else at_response look owns r (get_response_fast header (some r) idx)

-- `libsrpc_shmem_proc_unlock`
pub shmem_proc_unlock : (header : ℕ) → (slot : ℤ) → Request → ℤ × Request
shmem_proc_unlock header (negsuc n) r = (neg e_inval, r)
shmem_proc_unlock header (pos slot) r =
    if leb 4 slot
    then (neg e_inval, r)
    else if is_corrupted header (some r) none
    then (neg e_notavailable, r)
    else (pos 0, with_lock r (update r.gc_lock slot 0))

-- `libsrpc_shmem_proc_all_unlock`
pub shmem_proc_all_unlock : (header : ℕ) → Request → ℤ × Request
shmem_proc_all_unlock header r =
    if is_corrupted header (some r) none
    then (neg e_notavailable, r)
    else (pos 0, with_lock r (λ i. 0))

-- The loop of `libsrpc_shmem_check_uid_lock`.
unfoldable pub find_uid : (n i : ℕ) → (ℕ → ℕ) → ℕ → Bool
find_uid zero i lock uid = false
find_uid (suc n) i lock uid =
    let rest = find_uid n (suc i) lock uid in if lock i == uid then true else rest

-- `libsrpc_shmem_check_uid_lock`
unfoldable pub shmem_check_uid_lock : (header : ℕ) → Request → (uid : ℤ) → ℤ
shmem_check_uid_lock header r (negsuc n) = neg e_inval
shmem_check_uid_lock header r (pos uid) =
    if (uid == 0) || leb (2 ^ 16) uid
    then neg e_inval
    else if is_corrupted header (some r) none
    then neg e_notavailable
    else if find_uid 4 0 r.gc_lock uid
    then pos 1
    else pos 0
