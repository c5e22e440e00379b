-- ===== src/Registry/Table/Unregister.antt =====
-- What unregistering a process does to the table of functions.
use simplerpc.Common.{
  ℕ, zero, suc, ◌+◌, ◌≤◌, ◌<◌, ◌≡◌, refl, ◌≢◌, ap, ◌∙◌, sym, subst, true, false, ◌==◌, word32, pos,
  arith, update, update_self, update_ne,
}
use simplerpc.Registry.{Function, remove}
use simplerpc.Registry.Grow.{total, IsRegistry}
use simplerpc.Registry.Remove.{is_proc, Left, remove-IsRegistry}
use simplerpc.Registry.Table.{unreg_loop, unreg_func_proc}
use native.Mathlib.Decide.{ℕ_discrete}

unreg_loop-outside :
    (n i proc : ℕ) (table : ℕ → Function) (j : ℕ) → j < i → unreg_loop n i proc table j ≡ table j
unfolding unreg_loop
unreg_loop-outside zero i proc table j lt = refl
unreg_loop-outside (suc n) i proc table j lt =
    unreg_loop-outside n (suc i) proc (update table i (remove proc (table i))) j (omega arith)
    ∙ update_ne table i j (remove proc (table i)) (omega arith)

unreg_loop-remove :
    (n i proc : ℕ) (table : ℕ → Function) (j : ℕ)
    → i ≤ j
    → j < i + n
    → unreg_loop n i proc table j ≡ remove proc (table j)
unfolding unreg_loop
unreg_loop-remove zero i proc table j lo hi = absurd (omega arith)
unreg_loop-remove (suc n) i proc table j lo hi = elim (ℕ_discrete j i) [
  | yes here ↦
      unreg_loop-outside n (suc i) proc (update table i (remove proc (table i))) j (omega arith)
      ∙ ap (update table i (remove proc (table i))) here
      ∙ update_self table i (remove proc (table i))
      ∙ ap (λ k. remove proc (table k)) (sym here)
  | no apart ↦
      unreg_loop-remove n (suc i) proc (update table i (remove proc (table i))) j (omega arith)
        (omega arith)
      ∙ ap (remove proc) (update_ne table i j (remove proc (table i)) apart)
]

zero_out : (proc : ℕ) → proc ≢ 0 → is_proc proc 0 ≡ false
zero_out proc ne = ground arith

-- After libsrpc_unreg_func_proc, for registries in order, no function has an entry of the
-- process, every registry is in order, and the entries of the other processes are as many as
-- before.
pub unreg_func_proc-gone :
    (fnnum proc : ℕ) (table : ℕ → Function)
    → proc ≢ 0
    → ((i : ℕ) → i < fnnum → IsRegistry (table i) × ((table i).num_all < word32))
    → (after : ℕ → Function) × (unreg_func_proc true fnnum proc table ≡ (pos 0, after))
      × ((i : ℕ)
          → i < fnnum
          → IsRegistry (after i)
            × (total (is_proc proc) (after i) ≡ 0)
            × Left proc (table i) (after i))
unfolding unreg_func_proc
unreg_func_proc-gone fnnum proc table ne ordered = (
  unreg_loop fnnum 0 proc table,
  refl,
  λ i lt.
      let (is, small) = ordered i lt in
      let (is', left, num) = remove-IsRegistry proc (table i) is ne small in
      let mine = left (is_proc proc) (zero_out proc ne) in
      let self : (proc == proc) ≡ true = ground arith in
      let share : total (is_proc proc) (remove proc (table i)) ≡ 0 = ground (arith, mine, self) in
      subst (λ g. IsRegistry g × (total (is_proc proc) g ≡ 0) × Left proc (table i) g)
        (sym (unreg_loop-remove fnnum 0 proc table i (omega arith) (omega arith)))
        (is', share, left),
)
