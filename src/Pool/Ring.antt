-- ===== src/Pool/Ring.antt =====
-- The ring of free blocks of one pool against the list of their indices.
use simplerpc.Common.{
  ℕ, suc, ◌+◌, ◌-◌, ◌%◌, ◌≤◌, ◌<◌, ◌≡◌, refl, ap, sym, ◌∙◌, true, false, List, [], ◌∷◌, ◌++◌,
  length, length-append, get_or, get_or-append_lt, get_or-append_last, word32, arith, mod-ne, ◌==◌,
  update, gt→leb,
}
use native.Mathlib.Decide.{dec_lt, ℕ_discrete}
use native.Mathlib.Nat.{mod-eq_of_lt, mod-lt, mod_self, suc-mod, add-mod_right}
use simplerpc.Pool.{Pool, next_index, take_block, put_block, block_address, block_of, done, enospc}

-- The free blocks of `p` are `xs`, the next to be handed out first; `start` counts allocations.
pub record Free (start : ℕ) (xs : List ℕ) (p : Pool) : Type 0 where
  pub alloc_at : p.alloc ≡ start % suc p.blk_nums
  pub free_at : p.free ≡ (start + length xs) % suc p.blk_nums
  pub room : length xs ≤ p.blk_nums
  pub small : suc p.blk_nums < word32
  pub held :
      (n : ℕ)
      → start ≤ n
      → n < start + length xs
      → p.fifo (n % suc p.blk_nums) ≡ get_or xs (n - start) 0

next_index-mod :
    (p : Pool) (n : ℕ)
    → suc p.blk_nums < word32
    → next_index p (n % suc p.blk_nums) ≡ suc n % suc p.blk_nums
unfolding next_index
next_index-mod p n small =
    let m = suc p.blk_nums in
    let r = n % m in
    let in_ring : r < m = mod-lt n (omega arith) in
    let step : suc n % m ≡ suc r % m = suc-mod n m in
    elim (dec_lt (suc r) m) [
      | yes inner ↦ ground (arith, step, mod-eq_of_lt inner)
      | no last ↦
          let end : suc r ≡ m = omega arith in
          let wrap : suc r % m ≡ 0 = rw end (mod_self m) in ground (arith, step, wrap)
    ]

module _ {start : ℕ} {xs : List ℕ} {p : Pool} (f : Free start xs p) where
  -- The two indices meet exactly when no block is free.
  pub indices_meet : (p.alloc == p.free) ≡ (length xs == 0)
  indices_meet = elim (ℕ_discrete (length xs) 0) [
    | yes none_left ↦
        let at : start + length xs ≡ start = omega arith in
        let meet : p.free ≡ p.alloc =
          f.free_at ∙ ap (λ k. k % suc p.blk_nums) at ∙ sym f.alloc_at in
        ground arith
    | no left ↦
        let apart =
          mod-ne (suc p.blk_nums) start (start + length xs) (omega arith) (omega (arith, f.room)) in
        ground (arith, f.alloc_at, f.free_at)
  ]

-- The block that is handed out is the first free one, and the rest stay free.
pub take_block-Free :
    {start x : ℕ} {xs : List ℕ} {p : Pool}
    → Free start (x ∷ xs) p
    → ((take_block p).0 ≡ block_address p x) × Free (suc start) xs (take_block p).1
unfolding take_block
take_block-Free {start} {x} {xs} {p} f =
    let at : start - start ≡ 0 = omega arith in
    let first = rw at at (f.held start (omega arith) (omega arith)) in
    (
      rw (f.alloc_at, first),
      record {
        alloc_at = rw f.alloc_at (next_index-mod p start f.small);
        free_at = f.free_at ∙ ap (λ k. k % suc p.blk_nums) (omega arith);
        room = omega (arith, f.room);
        small = f.small;
        held = λ n lo hi.
            let shift : n - start ≡ suc (n - suc start) = omega arith in
            rw shift at (f.held n (omega arith) (omega arith));
      },
    )

module _ {start : ℕ} {xs : List ℕ} {p : Pool} (f : Free start xs p) where
  -- The index after `free` meets `alloc` exactly when every block is free already.
  next-meets : (next_index p p.free == p.alloc) ≡ (length xs == p.blk_nums)
  next-meets =
      let m = suc p.blk_nums in
      let next : next_index p p.free ≡ suc (start + length xs) % m =
        ap (next_index p) f.free_at ∙ next_index-mod p (start + length xs) f.small in
      elim (ℕ_discrete (length xs) p.blk_nums) [
        | yes all ↦
            let round : suc (start + length xs) ≡ start + m = omega arith in
            let meet = next ∙ ap (λ k. k % m) round ∙ add-mod_right start m ∙ sym f.alloc_at in
            ground (arith, meet)
        | no some_out ↦
            let apart =
              mod-ne m start (suc (start + length xs)) (omega arith) (omega (arith, f.room)) in
            ground (arith, next, f.alloc_at)
      ]

  -- The cells of the ring after `blk` was written past the last free block.
  put_cell :
      (blk n : ℕ)
      → start ≤ n
      → n < suc (start + length xs)
      → length xs < p.blk_nums
      → update p.fifo p.free blk (n % suc p.blk_nums) ≡ get_or (xs ++ blk ∷ []) (n - start) 0
  put_cell blk n lo hi lt = elim (dec_lt n (start + length xs)) [
    | yes old ↦ ground (
      arith,
      f.free_at,
      mod-ne (suc p.blk_nums) n (start + length xs) old (omega arith),
      f.held n lo old,
      get_or-append_lt xs (blk ∷ []) (n - start) 0 (omega arith),
    )
    | no new ↦
        let last : n ≡ start + length xs = omega arith in
        let at : n - start ≡ length xs = omega arith in
        rw (at, get_or-append_last xs blk 0, f.free_at, last) (ground arith)
  ]

  next-of_free : next_index p p.free ≡ suc (start + length xs) % suc p.blk_nums
  next-of_free = ap (next_index p) f.free_at ∙ next_index-mod p (start + length xs) f.small

  -- A block of the pool that comes back, with a block still out, will be handed out last.
  pub put_block-Free :
      (ptr : ℕ)
      → block_of p ptr < p.blk_nums
      → length xs < p.blk_nums
      → ((put_block p ptr).0 ≡ done) × Free start (xs ++ block_of p ptr ∷ []) (put_block p ptr).1
  unfolding put_block
  put_block-Free ptr valid lt =
      let out : (next_index p p.free == p.alloc) ≡ false = next-meets ∙ ground arith in
      rw (gt→leb p.blk_nums (block_of p ptr) (omega arith), out)
        (
          refl,
          record {
            alloc_at = f.alloc_at;
            free_at =
                next-of_free
                ∙ ap (λ k. k % suc p.blk_nums)
                    (omega (arith, length-append xs (block_of p ptr ∷ [])));
            room = omega (arith, length-append xs (block_of p ptr ∷ []));
            small = f.small;
            held = λ n lo hi.
                put_cell (block_of p ptr) n lo
                  (omega (arith, length-append xs (block_of p ptr ∷ []))) lt;
          },
        )

  -- With every block free already the pool refuses it.
  pub put_block-full :
      (ptr : ℕ)
      → block_of p ptr < p.blk_nums
      → length xs ≡ p.blk_nums
      → put_block p ptr ≡ (enospc, p)
  unfolding put_block
  put_block-full ptr valid all =
      let meet : (next_index p p.free == p.alloc) ≡ true = next-meets ∙ ground arith in ground arith
