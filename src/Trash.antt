-- ===== src/Trash.antt =====
-- src/libsrpc_shm_gc.c: the lists of blocks that wait until no request holds the memory of their
-- process. The array of a list is a function from its cells, of which `num` are in its block; whether
-- realloc has memory is an argument. The list of lists is read in the order of
-- LIBSRPC_LIST_FOREACH_SAFE.
pub mod Freed
mod Tests
use simplerpc.Common.{
  ℕ, zero, suc, ◌+◌, ◌*◌, ◌/◌, ◌%◌, Bool, true, false, not, ◌||◌, Option, none, some, List, [], ◌∷◌,
  ◌++◌, ltb, leb, ◌==◌, if◌then◌else◌, word32, ℤ, pos, neg, update, e_inval, e_nomem,
}

-- `libsrpc_shm_trash_t`
pub record Trash : Type 0 where
  pub uid : ℕ
  pub num : ℕ
  pub cnt : ℕ
  pub ptr : ℕ → ℕ

-- `libsrpc_shm_trash_create_node`, in memory that holds `cells`, and the UID set by its caller.
unfoldable pub create_node : (cells : Option (ℕ → ℕ)) → (num uid : ℕ) → Option Trash
create_node none num uid = none
create_node (some cells) num uid = some (record { uid = uid; num = num; cnt = 0; ptr = cells })

-- The size of the array after realloc.
abbrev pub larger : ℕ → ℕ
larger num = (num + num / 4) % word32

abbrev pub put : ℕ → Trash → Trash
put p t = record t { ptr = update t.ptr t.cnt p; cnt = (t.cnt + 1) % word32 }

-- `libsrpc_shm_trash_add_ptr`
unfoldable pub add_ptr : (memory : Bool) → ℕ → Option Trash → ℤ × Option Trash
add_ptr memory p none = (neg e_inval, none)
add_ptr memory p (some t) =
    if p == 0
    then (neg e_inval, some t)
    else if ltb t.cnt t.num
    then (pos 0, some (put p t))
    else if not memory
    then (neg e_nomem, some t)
    else (pos 0, some (put p (record t { num = larger t.num })))

-- The blocks that the loop of `libsrpc_shm_trash_destroy_node` frees, `n` from cell `i`.
pub free_cells : (n i : ℕ) → (ℕ → ℕ) → List ℕ
free_cells zero i ptr = []
free_cells (suc n) i ptr = ptr i ∷ free_cells n (suc i) ptr

-- `libsrpc_shm_trash_destroy_node`: what it frees.
unfoldable pub destroy_node : Trash → List ℕ
unfolding free_cells
destroy_node t = free_cells t.cnt 0 t.ptr

-- `libsrpc_shm_trash_clear_list`: the lists that stay, and the blocks that are freed.
unfoldable pub clear_list : (locked : ℕ → Bool) → List Trash → List Trash × List ℕ
unfolding destroy_node
clear_list locked [] = ([], [])
clear_list locked (t ∷ ts) =
    let rest = clear_list locked ts in
    if locked t.uid then (t ∷ rest.0, rest.1) else (rest.0, destroy_node t ++ rest.1)

-- The calls of `add_ptr` that the destructor of blocks makes, one for each block; it does not look at
-- their results.
unfoldable pub add_all : List ℕ → Option Trash → Option Trash
unfolding add_ptr
add_all [] t = t
add_all (p ∷ ps) t = add_all ps (add_ptr true p t).1
