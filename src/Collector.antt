-- ===== src/Collector.antt =====
-- src/libsrpc_shm_gc.c: the thread that frees the blocks whose release was put off. One turn of it
-- gathers them in an array, keeps those that a process may still use, and frees the others. The
-- blocks that the walk through the heap hands to the destructor are an argument, with what the
-- allocator answers about each; so is the list of processes at each of the checks.
pub mod Gathered
pub mod Uses
pub mod Freed
pub mod Started
mod Tests
use simplerpc.Common.{
  ℕ, zero, suc, ◌+◌, ◌%◌, Bool, true, false, not, ◌||◌, ◌&&◌, Option, none, some, List, [], ◌∷◌,
  ltb, leb, ◌==◌, if◌then◌else◌, ℤ, pos, negsuc, neg, negative, update, e_inval, e_nomem,
  e_shmnoinit,
}
use simplerpc.Request.{Request, req_destroy}
use simplerpc.Sweep.{Owner, is_busy_regfn, req_is_busy_proc, proc_cs_aimed_at}
use simplerpc.Trash.{Trash, clear_list}
use simplerpc.Threads.{System, ThreadFlag, thread_flag_default, flag_joinable, pthread_start, Start}

-- A block as the destructor meets it: its address, what tlsf_get_data_type and tlsf_getdc answer,
-- and its owner.
pub record Block : Type 0 where
  pub ptr : ℕ
  pub data_type : ℤ
  pub dc : ℤ
  pub uid : ℕ

-- `gc_elm_t`
pub record Elm : Type 0 where
  pub ptr : ℕ
  pub type : ℕ
  pub uid : ℕ
  pub refcount : ℕ

-- POOL_SIZE
abbrev pub pool_size : ℕ
pool_size = 1024

-- `gc_pool_t`, and the blocks that the destructor has freed, the last one first.
pub record GcPool : Type 0 where
  pub count : ℕ
  pub type_cnt : ℕ → ℕ
  pub elm : ℕ → Elm
  pub freed : List ℕ

-- After the memset.
abbrev pub empty_pool : GcPool
empty_pool = record {
  count = 0;
  type_cnt = λ t. 0;
  elm = λ i. record { ptr = 0; type = 0; uid = 0; refcount = 0 };
  freed = [];
}

-- A negative answer counts as 0.
abbrev pub clip : ℤ → ℕ
clip (pos n) = n
clip (negsuc n) = 0

-- PROC, REGFN and REQUEST; another type is a block of the program.
abbrev pub is_special : ℕ → Bool
is_special t = (t == 1) || (t == 2) || (t == 3)

abbrev pub add_elm : Block → GcPool → GcPool
add_elm b p = record p {
  elm =
      update p.elm p.count
        (record { ptr = b.ptr; type = clip b.data_type; uid = b.uid; refcount = 0 });
  count = p.count + 1;
  type_cnt = update p.type_cnt (clip b.data_type) (p.type_cnt (clip b.data_type) + 1);
}

-- `destructor_fn`
unfoldable pub destructor_fn : Block → GcPool → ℤ × GcPool
destructor_fn b p =
    if b.ptr == 0
    then (neg e_inval, p)
    else if leb pool_size p.count
    then (neg e_nomem, p)
    else if is_special (clip b.data_type)
    then (if not (clip b.dc == 0)
        then (if leb pool_size (p.count + 1)
            then (neg e_nomem, add_elm b p)
            else (pos 0, add_elm b p))
        else (pos 0, p))
    else (pos 0, record p { freed = b.ptr ∷ p.freed })

-- The walk of tlsf_free_uid_blocks, which as it is written goes on after 0 and ends at a negative result;
-- only after more than 0, which this destructor never returns, would it begin again.
unfoldable pub gather : List Block → GcPool → GcPool
gather [] p = p
gather (b ∷ bs) p =
    let (rc, p') = destructor_fn b p in let rest = gather bs p' in if negative rc then p' else rest

-- What the collector changes outside its array: the states of the processes and the requests, by their
-- addresses, and the processes whose semaphore it has destroyed.
pub record Memory : Type 0 where
  pub status : ℕ → ℕ
  pub requests : ℕ → Option Request
  pub sem_destroyed : List ℕ

-- LIBSRPC_PROC_STATUS_DEAD and LIBSRPC_PROC_STATUS_DELETE
abbrev pub status_dead : ℕ
status_dead = 5

abbrev pub status_delete : ℕ
status_delete = 6

-- Whether the element may still be used, with the processes as they are at its check.
unfoldable pub is_used : (header : ℕ) → List Owner → Elm → Bool
is_used header os e =
    if e.type == 1
    then proc_cs_aimed_at true header os e.ptr
    else if e.type == 2
    then is_busy_regfn true header e.ptr os
    else (e.type == 3) && req_is_busy_proc true e.ptr os

-- What happens to the memory of an element that is not used.
unfoldable pub retire : Elm → Memory → Memory
retire e m =
    if e.type == 1
    then (if m.status e.ptr == status_delete
        then record m {
          status = update m.status e.ptr status_dead;
          sem_destroyed = e.ptr ∷ m.sem_destroyed;
        }
        else m)
    else if e.type == 3
    then record m { requests = update m.requests e.ptr (req_destroy (m.requests e.ptr)).1 }
    else m

-- The body of the first loop of `gc_pool_destroy`.
unfoldable pub mark_one :
    (header : ℕ) → List Owner → (i : ℕ) → (ℕ → Elm) × Memory → (ℕ → Elm) × Memory
mark_one header os i (elm, m) =
    if is_used header os (elm i)
    then (update elm i (record (elm i) { refcount = (elm i).refcount + 1 }), m)
    else (elm, retire (elm i) m)

-- The first loop, over the `n` elements from `i`.
unfoldable pub mark_used :
    (header : ℕ) → (owners : ℕ → List Owner) → (n i : ℕ) → (ℕ → Elm) × Memory → (ℕ → Elm) × Memory
unfolding mark_one
mark_used header owners zero i s = s
mark_used header owners (suc n) i s =
    mark_used header owners n (suc i) (mark_one header (owners i) i s)

abbrev pub is_due : Elm → Bool
is_due e = not (e.ptr == 0) && (e.refcount == 0)

-- The second loop, which counts.
unfoldable pub count_due : (n i : ℕ) → (ℕ → Elm) → ℕ
count_due zero i elm = 0
count_due (suc n) i elm = (if is_due (elm i) then 1 else 0) + count_due n (suc i) elm

-- The third loop, which frees.
unfoldable pub free_due : (n i : ℕ) → (ℕ → Elm) → List ℕ
free_due zero i elm = []
free_due (suc n) i elm =
    let rest = free_due n (suc i) elm in if is_due (elm i) then (elm i).ptr ∷ rest else rest

-- `gc_pool_destroy`: its result, the blocks that it frees, and the memory.
unfoldable pub gc_pool_destroy :
    (header : ℕ) → (owners : ℕ → List Owner) → GcPool → Memory → ℤ × List ℕ × Memory
unfolding mark_used count_due free_due
gc_pool_destroy header owners p m =
    let (elm, m') = mark_used header owners p.count 0 (p.elm, m) in
    let free_count = count_due p.count 0 elm in
    if free_count == 0 then (pos 0, [], m') else (pos free_count, free_due p.count 0 elm, m')

-- What one turn of the thread meets: the flag to stop before and after its wait, the errno of the wait if
-- it fails, the UIDs whose memory is locked, the blocks of the walk, and the processes.
pub record Round : Type 0 where
  pub stop_before : Bool
  pub wait_error : Option ℕ
  pub stop_after : Bool
  pub locked : ℕ → Bool
  pub visited : List Block
  pub owners : ℕ → List Owner

-- The state of the collector: the lists that wait, the memory, and the blocks that it has freed in its
-- turns, the last turn first.
pub record Heap : Type 0 where
  pub trash : List Trash
  pub memory : Memory
  pub freed : List (List ℕ)

-- ETIMEDOUT, EINTR and EAGAIN do not end the loop.
abbrev pub ends_loop : Option ℕ → Bool
ends_loop none = false
ends_loop (some e) = not ((e == 110) || (e == 4) || (e == 11))

-- The work of a turn.
unfoldable pub collect : (header : ℕ) → Round → Heap → Heap
unfolding gather
collect header r h =
    let (kept, swept) = clear_list r.locked h.trash in
    let p = gather r.visited empty_pool in
    let (rc, due, m) = gc_pool_destroy header r.owners p h.memory in
    if p.count == 0
    then record h { trash = kept; freed = p.freed ∷ swept ∷ h.freed }
    else record { trash = kept; memory = m; freed = due ∷ p.freed ∷ swept ∷ h.freed }

-- The loop of `libsrpc_shm_gc_thread`: whether it was left, and the heap.
unfoldable pub gc_thread : (header : ℕ) → List Round → Heap → Bool × Heap
gc_thread header [] h = (false, h)
gc_thread header (r ∷ rs) h =
    let rest = gc_thread header rs (collect header r h) in
    if r.stop_before || ends_loop r.wait_error || r.stop_after then (true, h) else rest
