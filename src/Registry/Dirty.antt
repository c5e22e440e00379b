-- ===== src/Registry/Dirty.antt =====
-- Registration when the allocator's memory is not cleared.
use simplerpc.Common.{
  ℕ, zero, suc, ◌≡◌, refl, ◌≢◌, ap, ◌∙◌, true, false, Option, none, some, neg, arith, e_nomem,
}
use simplerpc.Registry.{
  Function, rfeb_sz, rfmb_sz, next_block, regfn_ext_block, needs_block, fill_ext, insert_ext,
  insert,
}
use simplerpc.Registry.Count.{count, taken}
use simplerpc.Registry.Fill.{fill_free-full}
use simplerpc.Registry.Grow.{in_ext, IsRegistry}
use simplerpc.Registry.Insert.{insert-full, needs_block-none}

-- A block that needs no successor and takes no process ends every attempt with -ENOMEM.
insert_ext-stuck :
    (attempts j : ℕ) (memory : ℕ → Option (ℕ → ℕ)) (proc : ℕ) (f : Function)
    → needs_block f ≡ false
    → fill_ext proc f ≡ none
    → insert_ext attempts j memory proc f ≡ (neg e_nomem, f)
unfolding insert_ext
insert_ext-stuck zero j memory proc f keep full = refl
insert_ext-stuck (suc attempts) j memory proc f keep full =
    rw (insert_ext, keep, full) (insert_ext-stuck attempts (suc j) memory proc f keep full)

count-all : (n i : ℕ) (f : ℕ → ℕ) → ((j : ℕ) → f j ≢ 0) → count taken n i f ≡ n
unfolding count
count-all zero i f all = refl
count-all (suc n) i f all =
    let here = all i in let rest = count-all n (suc i) f all in ground (arith, rest)

insert_ext-dirty :
    (attempts j : ℕ) (memory : ℕ → Option (ℕ → ℕ)) (proc : ℕ) (f g : Function)
    → needs_block f ≡ true
    → regfn_ext_block (memory j) f ≡ some g
    → needs_block g ≡ false
    → fill_ext proc g ≡ none
    → insert_ext (suc attempts) j memory proc f ≡ (neg e_nomem, g)
unfolding insert_ext
insert_ext-dirty attempts j memory proc f g grow e keep full =
    rw (insert_ext, grow, e, full) (insert_ext-stuck attempts (suc j) memory proc g keep full)

-- The function with a block of its own in such memory.
abbrev pub first_block : Function → (ℕ → ℕ) → Function
first_block f blank = record f { ext_block = some (next_block none blank) }

module _ {f : Function} {blank : ℕ → ℕ} (is : IsRegistry f) (alone : f.ext_block ≡ none)
    (all : count taken rfmb_sz 0 f.main_block ≡ rfmb_sz) (dirty : (i : ℕ) → blank i ≢ 0) where
  first_block-made : regfn_ext_block (some blank) f ≡ some (first_block f blank)
  unfolding regfn_ext_block
  first_block-made = rw (regfn_ext_block, alone) refl

  first_block-keeps : needs_block (first_block f blank) ≡ false
  unfolding next_block needs_block
  first_block-keeps =
      let held = ap (in_ext taken) alone in
      let few : f.num_all ≡ 8 = omega (arith, is.num, all, held) in ground (arith, few)

  first_block-full : (proc : ℕ) → fill_ext proc (first_block f blank) ≡ none
  unfolding next_block fill_ext
  first_block-full proc =
      rw (fill_ext, fill_free-full rfeb_sz 0 proc blank (count-all rfeb_sz 0 blank dirty)) refl

  -- With the main block full and no extended block, memory from the allocator that holds no
  -- zero word makes the registration fail with -ENOMEM although the block was allocated: its
  -- slots are not cleared and do not look free.
  pub insert-dirty :
      (memory : ℕ → Option (ℕ → ℕ)) (proc : ℕ)
      → memory 0 ≡ some blank
      → insert memory proc f ≡ (neg e_nomem, (first_block f blank))
  insert-dirty memory proc given =
      insert-full memory proc f all
      ∙ insert_ext-dirty 9 0 memory proc f (first_block f blank) (needs_block-none f alone)
          (ap (λ m. regfn_ext_block m f) given ∙ first_block-made) first_block-keeps
          (first_block-full proc)
