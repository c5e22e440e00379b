-- ===== src/Registry/Table.antt =====
-- The table of all functions: `libsrpc_reg_func_form_bmp`, `libsrpc_unreg_func_proc` and
-- `libsrpc_fnreg_num_get`. How many functions there are, `sRPC_FNNUM`, is the user's list.
pub mod Register
pub mod Unregister
mod Tests
use simplerpc.Common.{
  ℕ, zero, suc, ◌+◌, ◌-◌, ◌*◌, ◌/◌, ◌%◌, ◌^◌, ◌≤◌, ◌<◌, ◌≡◌, refl, ◌≢◌, ap, ◌∙◌, sym, subst, Bool,
  true, false, not, ◌||◌, ◌&&◌, Option, none, some, ltb, leb, ◌==◌, if◌then◌else◌, word32, word64,
  ℤ, pos, negsuc, neg, negative, signed, unsigned, int32, arith, e_inval, e_already, e_busy,
  e_badfd, e_timedout, update, inl, inr, Bool-cases, ◌↔◌, ◌⊎◌, update_self, update_ne, e_nomem,
  List, [], ◌∷◌, e_shmnoinit,
}
use simplerpc.Registry.{
  ExtBlock, Function, regfn_sign, rfeb_sz, rfmb_sz, slot_within, next_block, retire,
  regfn_ext_block, fill_free, count_one, needs_block, fill_ext, insert_ext, insert, clear_slots,
  remove,
}

-- `bmp->bmp[i / 64] & (1ULL << (i % 64))`
pub bit_set : (ℕ → ℕ) → ℕ → Bool
bit_set bmp i = not (bmp (i / 64) / 2 ^ (i % 64) % 2 == 0)

-- The loop of `libsrpc_reg_func_form_bmp` over the `n` functions from `i`; `memory i j` is what the
-- allocator gives for function `i` in attempt `j`.
pub reg_loop :
    (n i : ℕ)
    → (memory : ℕ → ℕ → Option (ℕ → ℕ)) → (bmp : ℕ → ℕ) → (proc : ℕ) → (ℕ → Function)
    → (rc : ℤ) → ℤ × (ℕ → Function)
unfolding bit_set
reg_loop zero i memory bmp proc table rc = (rc, table)
reg_loop (suc n) i memory bmp proc table rc =
    let entry = insert (memory i) proc (table i) in
    let next : ℤ × (ℕ → Function) =
      if bit_set bmp i then (entry.0, update table i entry.1) else (rc, table) in
    reg_loop n (suc i) memory bmp proc next.1 next.0

pub reg_func_form_bmp :
    (shm : Bool) (fnnum : ℕ)
    → (memory : ℕ → ℕ → Option (ℕ → ℕ)) → (bmp : ℕ → ℕ) → (proc : ℕ) → (ℕ → Function)
    → ℤ × (ℕ → Function)
unfolding reg_loop
reg_func_form_bmp shm fnnum memory bmp proc table =
    if shm then reg_loop fnnum 0 memory bmp proc table (pos 0) else (neg e_shmnoinit, table)

-- The loop of `libsrpc_unreg_func_proc`.
pub unreg_loop : (n i proc : ℕ) → (ℕ → Function) → ℕ → Function
unreg_loop zero i proc table = table
unreg_loop (suc n) i proc table = unreg_loop n (suc i) proc (update table i (remove proc (table i)))

pub unreg_func_proc : (shm : Bool) (fnnum : ℕ) → ℕ → (ℕ → Function) → ℤ × (ℕ → Function)
unfolding unreg_loop
unreg_func_proc shm fnnum proc table =
    if shm then (pos 0, unreg_loop fnnum 0 proc table) else (neg e_shmnoinit, table)

-- `libsrpc_fnreg_num_get`, its identifiers from `start` to `max`, both excluded.
pub fnreg_num_get : (shm : Bool) (start max funid : ℕ) → (ℕ → Function) → ℤ
fnreg_num_get shm start max funid table =
    if not shm
    then neg e_shmnoinit
    else if leb max funid || leb funid start
    then neg e_inval
    else int32 ((table (funid - start - 1)).num_all)
