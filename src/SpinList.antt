-- ===== src/SpinList.antt =====
-- src/libsrpc_list_spin.h and src/libsrpc_list_spin.c: singly linked lists through the nodes of the
-- elements, each list under a spinlock. An address is a number, 0 for NULL. A call that would spin
-- for ever on a held lock, or whose walk runs out of fuel, is `none`.
pub mod Chain
pub mod Erase
pub mod Remove
pub mod RemoveFrame
mod Tests
pub mod Push
use simplerpc.Common.{
  ℕ, zero, suc, ◌+◌, ◌%◌, Bool, true, false, not, ◌&&◌, ◌||◌, Option, none, some, List, [], ◌∷◌,
  ◌==◌, if◌then◌else◌, update, word64,
}

-- `libsrpc_list_node_t`
pub record Node : Type 0 where
  pub next : ℕ
  pub head : ℕ

-- `libsrpc_list_head_t`; `write_ops` is an `unsigned long`.
pub record Head : Type 0 where
  pub locked : Bool
  pub first : ℕ
  pub write_ops : ℕ

pub record Heap : Type 0 where
  pub nodes : ℕ → Node
  pub heads : ℕ → Head

-- LIBSRPC_LIST_OK, _EINVAL, _ENOTFOUND, _EALREADY and _ELOCK
pub data Code : Type 0 where
  ok einval enotfound ealready elock : Code

abbrev pub set_node : ℕ → Node → Heap → Heap
set_node n c h = record h { nodes = update h.nodes n c }

abbrev pub set_head : ℕ → Head → Heap → Heap
set_head l c h = record h { heads = update h.heads l c }

-- `lock_rc` is what `pthread_spin_init` and `pthread_spin_destroy` return.
pub head_init : (lock_rc : ℕ) → ℕ → Heap → Code × Heap
head_init lock_rc l h =
    if l == 0
    then (einval, h)
    else if lock_rc == 0
    then (ok, set_head l (record { locked = false; first = 0; write_ops = 0 }) h)
    else (elock, h)

pub head_destroy : (lock_rc : ℕ) → ℕ → Code
head_destroy lock_rc l = if l == 0 then einval else if lock_rc == 0 then ok else elock

pub node_init : ℕ → Heap → Heap
node_init n h = if n == 0 then h else set_node n (record { next = 0; head = 0 }) h

-- `pthread_spin_lock`
pub lock : ℕ → Heap → Option Heap
lock l h =
    if (h.heads l).locked then none else some (set_head l (record (h.heads l) { locked = true }) h)

pub unlock : ℕ → Heap → Heap
unlock l h = set_head l (record (h.heads l) { locked = false }) h

abbrev pub count_write : Head → Head
count_write c = record c { write_ops = (c.write_ops + 1) % word64 }

-- The stores of `push_front` and of its tail, under the lock.
pub link_front : ℕ → ℕ → Heap → Heap
link_front l n h =
    let old = (h.heads l).first in
    record {
      nodes = update h.nodes n (record { next = old; head = l });
      heads = update h.heads l (count_write (record (h.heads l) { first = n }));
    }

push_locked : ℕ → ℕ → Heap → Code × Heap
unfolding link_front unlock
push_locked l n h =
    if (h.nodes n).head == 0 then (ok, unlock l (link_front l n h)) else (ealready, unlock l h)

abbrev pub after_lock {ℓ} : {A : Type ℓ} → Option Heap → (Heap → Option A) → Option A
after_lock none k = none
after_lock (some h) k = k h

pub push_front : ℕ → ℕ → Heap → Option (Code × Heap)
unfolding lock push_locked
push_front l n h =
    if l == 0 || n == 0
    then some (einval, h)
    else after_lock (lock l h) (λ h'. some (push_locked l n h'))

-- The walk of `remove`: whether `node` was met, and the node before it, 0 for none.
pub search_node : ℕ → Heap → (node cur prev : ℕ) → Option (Bool × ℕ)
search_node zero h node cur prev = none
search_node (suc fuel) h node cur prev =
    let rest = search_node fuel h node (h.nodes cur).next cur in
    if cur == 0 then some (false, prev) else if cur == node then some (true, prev) else rest

-- The stores of `remove` once the node is found.
pub unlink : ℕ → ℕ → ℕ → Heap → Heap
unlink l node prev h =
    let next_of_node = (h.nodes node).next in
    let skipped =
      if prev == 0
      then set_head l (record (h.heads l) { first = next_of_node }) h
      else set_node prev (record (h.nodes prev) { next = next_of_node }) h in
    set_node node (record { next = 0; head = 0 })
      (set_head l (count_write (skipped.heads l)) skipped)

abbrev pub remove_found : ℕ → ℕ → Heap → Option (Bool × ℕ) → Option (Code × Heap)
remove_found l node h none = none
remove_found l node h (some (false, prev)) = some (enotfound, unlock l h)
remove_found l node h (some (true, prev)) = some (ok, unlock l (unlink l node prev h))

pub remove : ℕ → ℕ → Heap → Option (Code × Heap)
unfolding lock unlock search_node unlink
remove fuel node h =
    let l = (h.nodes node).head in
    if node == 0
    then some (einval, h)
    else if l == 0
    then some (enotfound, h)
    else after_lock (lock l h)
        (λ h'. remove_found l node h' (search_node fuel h' node (h'.heads l).first 0))

-- LIBSRPC_LIST_FOREACH: the nodes in the order of the walk.
pub walk : ℕ → Heap → ℕ → Option (List ℕ)
walk zero h cur = none
walk (suc fuel) h cur =
    let rest = walk fuel h (h.nodes cur).next in
    if cur == 0 then some [] else elim rest [ none ↦ none | some ns ↦ some (cur ∷ ns) ]

pub foreach : ℕ → ℕ → Heap → Option (List ℕ)
unfolding walk
foreach fuel l h = walk fuel h (h.heads l).first
