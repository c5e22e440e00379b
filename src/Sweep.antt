-- ===== src/Sweep.antt =====
-- The searches over all processes and their requests: `libsrpc_shmem_is_locked_uid`,
-- `libsrpc_shmem_is_busy_regfn` and `libsrpc_req_is_busy_proc` in src/libsrpc.c, and
-- `libsrpc_proc_cs_aimed_at` in src/libsrpc_proc.c. A list is read in the order of
-- LIBSRPC_LIST_FOREACH, at one moment.
pub mod Found
mod Tests
use simplerpc.Common.{
  ℕ, zero, suc, ◌+◌, Bool, true, false, not, ◌||◌, ◌&&◌, Option, none, some, List, [], ◌∷◌, ◌==◌,
  if◌then◌else◌, ℤ, pos, negsuc,
}
use simplerpc.Request.{Request, is_corrupted, get_response_fast}
use simplerpc.Holds.{shmem_check_uid_lock}

-- A request in the list of its process, with its address and the block that its `hp_regfn` holds.
pub record Listed : Type 0 where
  pub address : ℕ
  pub hp_regfn : ℕ
  pub req : Request

-- A process in the list of processes: `queued` says whether its queue holds a request, and `hp_req` lists
-- the requests that its threads work on.
pub record Owner : Type 0 where
  pub address : ℕ
  pub valid : Bool
  pub requests : List Listed
  pub queued : ℕ → Bool
  pub hp_req : List ℕ

abbrev pub is_one : ℤ → Bool
is_one (pos n) = n == 1
is_one (negsuc n) = false

-- `libsrpc_shmem_is_locked_uid_proc`
unfoldable pub is_locked_uid_proc : (header uid : ℕ) → List Listed → Bool
is_locked_uid_proc header uid [] = false
is_locked_uid_proc header uid (l ∷ ls) =
    if is_one (shmem_check_uid_lock header l.req (pos uid))
    then true
    else is_locked_uid_proc header uid ls

-- `libsrpc_shmem_is_locked_uid` with shared memory.
unfoldable pub is_locked_uid : (header uid : ℕ) → List Owner → Bool
is_locked_uid header uid [] = false
is_locked_uid header uid (o ∷ os) =
    if o.valid && is_locked_uid_proc header uid o.requests
    then true
    else is_locked_uid header uid os

-- `libsrpc_shmem_is_locked_regfn_proc`
unfoldable pub is_locked_regfn_proc : (header eb : ℕ) → List Listed → Bool
is_locked_regfn_proc header eb [] = false
is_locked_regfn_proc header eb (l ∷ ls) =
    if not (is_corrupted header (some l.req) none) && (l.hp_regfn == eb)
    then true
    else is_locked_regfn_proc header eb ls

-- The loop of `libsrpc_shmem_is_busy_regfn`.
unfoldable pub regfn_busy_in : (header eb : ℕ) → List Owner → Bool
regfn_busy_in header eb [] = false
regfn_busy_in header eb (o ∷ os) =
    if o.valid && is_locked_regfn_proc header eb o.requests
    then true
    else regfn_busy_in header eb os

-- `libsrpc_shmem_is_busy_regfn`
unfoldable pub is_busy_regfn : (shm : Bool) (header eb : ℕ) → List Owner → Bool
unfolding regfn_busy_in
is_busy_regfn shm header eb os = if (eb == 0) || not shm then false else regfn_busy_in header eb os

-- The loop over the threads of a process.
unfoldable pub has_hp_req : ℕ → List ℕ → Bool
has_hp_req req [] = false
has_hp_req req (hp ∷ hps) = if hp == req then true else has_hp_req req hps

-- The loop of `libsrpc_req_is_busy_proc`.
unfoldable pub req_busy_in : ℕ → List Owner → Bool
req_busy_in req [] = false
req_busy_in req (o ∷ os) =
    if o.valid && (o.queued req || has_hp_req req o.hp_req) then true else req_busy_in req os

-- `libsrpc_req_is_busy_proc`
unfoldable pub req_is_busy_proc : (shm : Bool) → ℕ → List Owner → Bool
req_is_busy_proc shm req os = if (req == 0) || not shm then false else req_busy_in req os

abbrev pub aims_in : Request → ℕ → Option ℕ → Bool
aims_in r target none = false
aims_in r target (some off) = ((r.responses off).rc == 0) && ((r.responses off).hp_proc == target)

-- The loop of `libsrpc_req_list_aims_at` over the `n` responses from `i`.
unfoldable pub aims_from : (header n i : ℕ) → Request → ℕ → Bool
aims_from header zero i r target = false
aims_from header (suc n) i r target =
    let rest = aims_from header n (suc i) r target in
    if aims_in r target (get_response_fast header (some r) i) then true else rest

-- `libsrpc_req_list_aims_at`
unfoldable pub req_list_aims_at : (header : ℕ) → List Listed → ℕ → Bool
unfolding aims_from
req_list_aims_at header [] target = false
req_list_aims_at header (l ∷ ls) target =
    if aims_from header l.req.retnum 0 l.req target then true else req_list_aims_at header ls target

-- The loop of `libsrpc_proc_cs_aimed_at`, which does not ask whether a process is valid.
unfoldable pub aimed_in : (header : ℕ) → List Owner → ℕ → Bool
aimed_in header [] target = false
aimed_in header (o ∷ os) target =
    if req_list_aims_at header o.requests target then true else aimed_in header os target

-- `libsrpc_proc_cs_aimed_at`
unfoldable pub proc_cs_aimed_at : (shm : Bool) (header : ℕ) → List Owner → ℕ → Bool
proc_cs_aimed_at shm header os target =
    if (target == 0) || not shm then false else aimed_in header os target
