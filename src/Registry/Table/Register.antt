-- ===== src/Registry/Table/Register.antt =====
-- What registering a process does to the table of functions.
use simplerpc.Common.{
  ℕ, zero, suc, ◌+◌, ◌≤◌, ◌<◌, ◌≡◌, refl, ap, ◌∙◌, sym, subst, true, false, Option, if◌then◌else◌,
  ℤ, pos, arith, update, inl, inr, Bool-cases, update_self, update_ne,
}
use simplerpc.Registry.{Function, insert}
use simplerpc.Registry.Table.{bit_set, reg_loop, reg_func_form_bmp}
use native.Mathlib.Decide.{ℕ_discrete}

reg_loop_set :
    (n i : ℕ) (memory : ℕ → ℕ → Option (ℕ → ℕ)) (bmp : ℕ → ℕ) (proc : ℕ) (table : ℕ → Function)
    (rc : ℤ)
    → bit_set bmp i ≡ true
    → reg_loop (suc n) i memory bmp proc table rc
      ≡ reg_loop n
          (suc i)
          memory
          bmp
          proc
          (update table i (insert (memory i) proc (table i)).1)
          (insert (memory i) proc (table i)).0
unfolding reg_loop
reg_loop_set n i memory bmp proc table rc e = rw (reg_loop, e) refl

reg_loop_clear :
    (n i : ℕ) (memory : ℕ → ℕ → Option (ℕ → ℕ)) (bmp : ℕ → ℕ) (proc : ℕ) (table : ℕ → Function)
    (rc : ℤ)
    → bit_set bmp i ≡ false
    → reg_loop (suc n) i memory bmp proc table rc ≡ reg_loop n (suc i) memory bmp proc table rc
unfolding reg_loop
reg_loop_clear n i memory bmp proc table rc e = rw (reg_loop, e) refl

-- What becomes of function `j`.
abbrev pub registered : (ℕ → ℕ → Option (ℕ → ℕ)) → (ℕ → ℕ) → ℕ → (ℕ → Function) → ℕ → Function
registered memory bmp proc table j =
    if bit_set bmp j then (insert (memory j) proc (table j)).1 else table j

reg_loop-outside :
    (n i : ℕ) (memory : ℕ → ℕ → Option (ℕ → ℕ)) (bmp : ℕ → ℕ) (proc : ℕ) (table : ℕ → Function)
    (rc : ℤ) (j : ℕ)
    → j < i
    → (reg_loop n i memory bmp proc table rc).1 j ≡ table j
unfolding reg_loop
reg_loop-outside zero i memory bmp proc table rc j lt = refl
reg_loop-outside (suc n) i memory bmp proc table rc j lt = elim (Bool-cases (bit_set bmp i)) [
  | inl e ↦
      ap (λ r. r.1 j) (reg_loop_set n i memory bmp proc table rc e)
      ∙ reg_loop-outside n (suc i) memory bmp proc _ _ j (omega arith)
      ∙ update_ne table i j (insert (memory i) proc (table i)).1 (omega arith)
  | inr e ↦
      ap (λ r. r.1 j) (reg_loop_clear n i memory bmp proc table rc e)
      ∙ reg_loop-outside n (suc i) memory bmp proc table rc j (omega arith)
]

reg_loop-registered :
    (n i : ℕ) (memory : ℕ → ℕ → Option (ℕ → ℕ)) (bmp : ℕ → ℕ) (proc : ℕ) (table : ℕ → Function)
    (rc : ℤ) (j : ℕ)
    → i ≤ j
    → j < i + n
    → (reg_loop n i memory bmp proc table rc).1 j ≡ registered memory bmp proc table j
reg_loop-registered zero i memory bmp proc table rc j lo hi = absurd (omega arith)
reg_loop-registered (suc n) i memory bmp proc table rc j lo hi = elim (ℕ_discrete j i) [
  | yes here ↦
      subst
        (λ k.
          (reg_loop (suc n) i memory bmp proc table rc).1 k ≡ registered memory bmp proc table k)
        (sym here) at_i
  | no apart ↦ elim (Bool-cases (bit_set bmp i)) [
    | inl e ↦
        ap (λ r. r.1 j) (reg_loop_set n i memory bmp proc table rc e)
        ∙ reg_loop-registered n (suc i) memory bmp proc _ _ j (omega arith) (omega arith)
        ∙ ap (λ (f : Function). if bit_set bmp j then (insert (memory j) proc f).1 else f)
            (update_ne table i j (insert (memory i) proc (table i)).1 apart)
    | inr e ↦
        ap (λ r. r.1 j) (reg_loop_clear n i memory bmp proc table rc e)
        ∙ reg_loop-registered n (suc i) memory bmp proc table rc j (omega arith) (omega arith)
  ]
]
  where
    at_i : (reg_loop (suc n) i memory bmp proc table rc).1 i ≡ registered memory bmp proc table i
    at_i = elim (Bool-cases (bit_set bmp i)) [
      | inl e ↦
          ap (λ r. r.1 i) (reg_loop_set n i memory bmp proc table rc e)
          ∙ reg_loop-outside n (suc i) memory bmp proc _ _ i (omega arith)
          ∙ update_self table i (insert (memory i) proc (table i)).1
          ∙ sym (rw e refl)
      | inr e ↦
          ap (λ r. r.1 i) (reg_loop_clear n i memory bmp proc table rc e)
          ∙ reg_loop-outside n (suc i) memory bmp proc table rc i (omega arith)
          ∙ sym (rw e refl)
    ]

reg_loop-rest :
    (n i : ℕ) (memory : ℕ → ℕ → Option (ℕ → ℕ)) (bmp : ℕ → ℕ) (proc : ℕ) (table : ℕ → Function)
    (rc : ℤ)
    → ((k : ℕ) → i ≤ k → k < i + n → bit_set bmp k ≡ false)
    → (reg_loop n i memory bmp proc table rc).0 ≡ rc
unfolding reg_loop
reg_loop-rest zero i memory bmp proc table rc no_more = refl
reg_loop-rest (suc n) i memory bmp proc table rc no_more =
    ap (λ r. r.0)
      (reg_loop_clear n i memory bmp proc table rc (no_more i (omega arith) (omega arith)))
    ∙ reg_loop-rest n (suc i) memory bmp proc table rc
        (λ k lo hi. no_more k (omega arith) (omega arith))

reg_loop-last :
    (n i : ℕ) (memory : ℕ → ℕ → Option (ℕ → ℕ)) (bmp : ℕ → ℕ) (proc : ℕ) (table : ℕ → Function)
    (rc : ℤ) (j : ℕ)
    → i ≤ j
    → j < i + n
    → bit_set bmp j ≡ true
    → ((k : ℕ) → j < k → k < i + n → bit_set bmp k ≡ false)
    → (reg_loop n i memory bmp proc table rc).0 ≡ (insert (memory j) proc (table j)).0
reg_loop-last zero i memory bmp proc table rc j lo hi set no_more = absurd (omega arith)
reg_loop-last (suc n) i memory bmp proc table rc j lo hi set no_more = elim (ℕ_discrete j i) [
  | yes here ↦
      let at_i = subst (λ k. bit_set bmp k ≡ true) here set in
      ap (λ r. r.0) (reg_loop_set n i memory bmp proc table rc at_i)
      ∙ reg_loop-rest n (suc i) memory bmp proc _ _
          (λ k lo' hi'. no_more k (omega arith) (omega arith))
      ∙ ap (λ k. (insert (memory k) proc (table k)).0) (sym here)
  | no apart ↦ elim (Bool-cases (bit_set bmp i)) [
    | inl e ↦
        ap (λ r. r.0) (reg_loop_set n i memory bmp proc table rc e)
        ∙ reg_loop-last n (suc i) memory bmp proc _ _ j (omega arith) (omega arith) set
            (λ k lo' hi'. no_more k lo' (omega arith))
        ∙ ap (λ (f : Function). (insert (memory j) proc f).0)
            (update_ne table i j (insert (memory i) proc (table i)).1 apart)
    | inr e ↦
        ap (λ r. r.0) (reg_loop_clear n i memory bmp proc table rc e)
        ∙ reg_loop-last n (suc i) memory bmp proc table rc j (omega arith) (omega arith) set
            (λ k lo' hi'. no_more k lo' (omega arith))
  ]
]

-- libsrpc_reg_func_form_bmp inserts the process for exactly the functions whose bits are set and
-- leaves the others alone, and its result is that of the last function whose bit is set, whatever
-- the earlier ones gave.
pub reg_func_form_bmp-registered :
    (fnnum : ℕ) (memory : ℕ → ℕ → Option (ℕ → ℕ)) (bmp : ℕ → ℕ) (proc : ℕ) (table : ℕ → Function)
    (j : ℕ)
    → j < fnnum
    → bit_set bmp j ≡ true
    → ((k : ℕ) → j < k → k < fnnum → bit_set bmp k ≡ false)
    → ((reg_func_form_bmp true fnnum memory bmp proc table).0
        ≡ (insert (memory j) proc (table j)).0)
      × ((i : ℕ)
          → i < fnnum
          → (reg_func_form_bmp true fnnum memory bmp proc table).1 i
            ≡ registered memory bmp proc table i)
unfolding reg_func_form_bmp
reg_func_form_bmp-registered fnnum memory bmp proc table j lt set no_more = (
  reg_loop-last fnnum 0 memory bmp proc table (pos 0) j (omega arith) (omega arith) set
      (λ k lo hi. no_more k lo (omega arith)),
  λ i lt'. reg_loop-registered fnnum 0 memory bmp proc table (pos 0) i (omega arith) (omega arith),
)
