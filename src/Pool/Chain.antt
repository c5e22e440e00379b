-- ===== src/Pool/Chain.antt =====
-- `srpc_pool_alloc` over the whole chain of pools, against the lists of their free blocks.
use simplerpc.Common.{
  ℕ, zero, suc, ◌-◌, ◌<◌, ◌≡◌, refl, ap, sym, subst, ◌∙◌, true, false, Option, none, some, List, [],
  ◌∷◌, ◌++◌, length, length-append, word32, arith, ◌==◌, ◌≢◌,
}
use simplerpc.Pool.{
  Pool, alloc_block, unusable, take_block, extend, with_first, block_address, total_size, fifo_size,
  block_size,
}
use simplerpc.Pool.Ring.{Free, indices_meet, take_block-Free}
use simplerpc.Pool.Create.{Shaped, count_up, create-Free}

-- The pools of the chain have the free blocks `xss`, and are in use.
abbrev pub Chain : List (List ℕ) → List Pool → Type 0
Chain [] [] = Unit
Chain [] (p ∷ ps) = ⊥
Chain (xs ∷ xss) [] = ⊥
Chain (xs ∷ xss) (p ∷ ps) = ((start : ℕ) × Free start xs p × (unusable p ≡ false)) × Chain xss ps

abbrev pub keep_empty : Option (ℕ × List (List ℕ)) → Option (ℕ × List (List ℕ))
keep_empty none = none
keep_empty (some (a, xss)) = some (a, [] ∷ xss)

-- The first free block of the first pool that has one: its address, and what is free then.
unfoldable pub first_free : List Pool → List (List ℕ) → Option (ℕ × List (List ℕ))
first_free [] xss = none
first_free (p ∷ ps) [] = none
first_free (p ∷ ps) ([] ∷ xss) = keep_empty (first_free ps xss)
first_free (p ∷ ps) ((x ∷ xs) ∷ xss) = some (block_address p x, xs ∷ xss)

keep_empty-some :
    (o : Option (ℕ × List (List ℕ))) {a : ℕ} {yss : List (List ℕ)}
    → keep_empty o ≡ some (a, yss)
    → (xss : List (List ℕ)) × (o ≡ some (a, xss)) × (yss ≡ [] ∷ xss)
keep_empty-some none e = cc
keep_empty-some (some (b, xss)) e = (xss, ground arith, ground arith)

module _ (fuel : ℕ) (mallocs : ℕ → ℕ) (p : Pool) (ps : List Pool)
    (usable : unusable p ≡ false) where
  alloc_block-taken :
      (p.alloc == p.free) ≡ false
      → alloc_block (suc fuel) mallocs (p ∷ ps) ≡ some ((take_block p).0, (take_block p).1 ∷ ps)
  unfolding alloc_block
  alloc_block-taken apart = rw (usable, apart)

  alloc_block-later :
      (p.alloc == p.free) ≡ true
      → alloc_block (suc fuel) mallocs (p ∷ ps)
        ≡ with_first p (alloc_block fuel (extend mallocs p ps).0 (extend mallocs p ps).1)
  unfolding alloc_block
  alloc_block-later meet = rw (usable, meet)

unusable-take : (p : Pool) → unusable (take_block p).1 ≡ unusable p
unfolding unusable take_block
unusable-take p = refl

keep_empty-none : (o : Option (ℕ × List (List ℕ))) → keep_empty o ≡ none → o ≡ none
keep_empty-none none e = refl
keep_empty-none (some a) e = cc

alloc_block-null :
    (fuel : ℕ) (mallocs : ℕ → ℕ) → 0 < fuel → alloc_block fuel mallocs [] ≡ some (0, [])
unfolding alloc_block
alloc_block-null zero mallocs h = absurd (omega arith)
alloc_block-null (suc fuel) mallocs h = refl

extend-null : (mallocs : ℕ → ℕ) (p : Pool) → mallocs 0 ≡ 0 → (extend mallocs p []).1 ≡ []
unfolding extend
extend-null mallocs p out = ground arith

extend-next :
    (mallocs : ℕ → ℕ) (p q : Pool) (ps : List Pool) → extend mallocs p (q ∷ ps) ≡ (mallocs, q ∷ ps)
unfolding extend
extend-next mallocs p q ps = refl

extend-later :
    (mallocs : ℕ → ℕ) (p : Pool) (ps : List Pool) (last : Pool)
    → extend mallocs p (ps ++ last ∷ []) ≡ (mallocs, ps ++ last ∷ [])
unfolding extend
extend-later mallocs p [] last = refl
extend-later mallocs p (q ∷ ps) last = refl

-- A chain of pools that has a free block hands out the first free block of the first pool that
-- has one, and leaves every other free list of the chain as it was.
pub alloc_block-first :
    (fuel : ℕ) (mallocs : ℕ → ℕ) (xss : List (List ℕ)) (ps : List Pool) {a : ℕ}
    {yss : List (List ℕ)}
    → Chain xss ps
    → first_free ps xss ≡ some (a, yss)
    → length ps < fuel
    → (ps' : List Pool) × (alloc_block fuel mallocs ps ≡ some (a, ps')) × Chain yss ps'
unfolding first_free extend
alloc_block-first zero mallocs xss ps ch e few = absurd (omega arith)
alloc_block-first (suc fuel) mallocs [] [] ch e few = cc
alloc_block-first (suc fuel) mallocs [] (p ∷ ps) ch e few = absurd ch
alloc_block-first (suc fuel) mallocs (xs ∷ xss) [] ch e few = cc
alloc_block-first (suc fuel) mallocs ((x ∷ xs) ∷ xss) (p ∷ ps) {a} {yss} ((start, f, usable), ch) e
      few =
    let (address, f') = take_block-Free f in
    let apart : (p.alloc == p.free) ≡ false = indices_meet f ∙ ground arith in
    let left : xs ∷ xss ≡ yss = ground arith in
    let rest : Chain (xs ∷ xss) ((take_block p).1 ∷ ps) =
      ((suc start, f', unusable-take p ∙ usable), ch) in
    (
      (take_block p).1 ∷ ps,
      alloc_block-taken fuel mallocs p ps usable apart ∙ ground arith,
      subst (λ wss. Chain wss ((take_block p).1 ∷ ps)) left rest,
    )
alloc_block-first (suc fuel) mallocs ([] ∷ xss) (p ∷ []) ((start, f, usable), ch) e few = cc
alloc_block-first (suc fuel) mallocs ([] ∷ xss) (p ∷ q ∷ ps) {a} {yss} ((start, f, usable), ch) e
      few =
    let (zss, found, left) = keep_empty-some (first_free (q ∷ ps) xss) e in
    let (ps', done, ch') = alloc_block-first fuel mallocs xss (q ∷ ps) ch found (omega arith) in
    let meet : (p.alloc == p.free) ≡ true = indices_meet f in
    let rest : Chain ([] ∷ zss) (p ∷ ps') = ((start, f, usable), ch') in
    (
      p ∷ ps',
      alloc_block-later fuel mallocs p (q ∷ ps) usable meet ∙ ap (with_first p) done,
      subst (λ wss. Chain wss (p ∷ ps')) (sym left) rest,
    )

-- With no block free in the chain and no memory to be had, srpc_pool_alloc returns NULL and
-- changes nothing.
pub alloc_block-no_memory :
    (fuel : ℕ) (mallocs : ℕ → ℕ) (xss : List (List ℕ)) (ps : List Pool)
    → Chain xss ps
    → first_free ps xss ≡ none
    → mallocs 0 ≡ 0
    → length ps < fuel
    → alloc_block fuel mallocs ps ≡ some (0, ps)
unfolding first_free
alloc_block-no_memory zero mallocs xss ps ch e out few = absurd (omega arith)
alloc_block-no_memory (suc fuel) mallocs [] [] ch e out few =
    alloc_block-null (suc fuel) mallocs (omega arith)
alloc_block-no_memory (suc fuel) mallocs [] (p ∷ ps) ch e out few = absurd ch
alloc_block-no_memory (suc fuel) mallocs (xs ∷ xss) [] ch e out few = absurd ch
alloc_block-no_memory (suc fuel) mallocs ((x ∷ xs) ∷ xss) (p ∷ ps) ch e out few = cc
alloc_block-no_memory (suc fuel) mallocs ([] ∷ xss) (p ∷ []) ((start, f, usable), ch) e out few =
    alloc_block-later fuel mallocs p [] usable (indices_meet f)
    ∙ rw (extend-null mallocs p out) (ap (with_first p) (alloc_block-null fuel _ (omega arith)))
alloc_block-no_memory (suc fuel) mallocs ([] ∷ xss) (p ∷ q ∷ ps) ((start, f, usable), ch) e out
      few =
    alloc_block-later fuel mallocs p (q ∷ ps) usable (indices_meet f)
    ∙ rw (extend-next mallocs p q ps) (
        ap (with_first p) (
          alloc_block-no_memory fuel mallocs xss (q ∷ ps) ch
            (keep_empty-none (first_free (q ∷ ps) xss) e) out (omega arith)))

-- The pool that a full chain grows by, and what `srpc_pool_alloc` does with it.
pub record Grown (address : ℕ) (last fresh : Pool) : Type 0 where
  pub shaped : Shaped address last.blk_nums last.blk_size fresh
  pub free : Free 0 (count_up last.blk_nums 0) fresh
  pub usable : unusable fresh ≡ false

-- The sizes of a pool like `last` are none of them zero, so that the new pool can be used.
abbrev pub CanGrow : Pool → Type 0
CanGrow last =
    (0 < last.blk_nums)
    × (suc last.blk_nums < word32)
    × (total_size last.blk_nums last.blk_size ≢ 0)
    × (fifo_size last.blk_nums ≢ 0)
    × (block_size last.blk_size ≢ 0)

unusable-false : (q : Pool) → q.pool_size ≢ 0 → q.offset ≢ 0 → q.blk_size ≢ 0 → unusable q ≡ false
unfolding unusable
unusable-false q size offset blk = ground arith

extend-Grown :
    (mallocs : ℕ → ℕ) (p : Pool)
    → mallocs 0 ≢ 0
    → CanGrow p
    → (fresh : Pool) × (extend mallocs p [] ≡ (λ n. mallocs (suc n), fresh ∷ []))
      × Grown (mallocs 0) p fresh
unfolding extend
extend-Grown mallocs p got (some_blocks, small, total, offset, size) =
    let (fresh, made, s, f) = create-Free (mallocs 0) p.blk_nums p.blk_size got small in
    (fresh, rw made, record { shaped = s; free = f; usable = usable_lem fresh s })
  where
    usable_lem : (q : Pool) → Shaped (mallocs 0) p.blk_nums p.blk_size q → unusable q ≡ false
    usable_lem q s =
        unusable-false q (omega (arith, s.pool_size_at)) (omega (arith, s.offset_at))
          (omega (arith, s.blk_size_at))

-- Block 0 of a fresh pool is the first to go.
Grown-first :
    {address : ℕ} {last fresh : Pool}
    → Grown address last fresh
    → 0 < last.blk_nums
    → ((fresh.alloc == fresh.free) ≡ false) × ((take_block fresh).0 ≡ block_address fresh 0)
unfolding count_up
Grown-first {last} {fresh} g some_blocks =
    let count : last.blk_nums ≡ suc (last.blk_nums - 1) = omega arith in
    let f = subst (λ n. Free 0 (count_up n 0) fresh) count g.free in
    (indices_meet f ∙ ground arith, (take_block-Free f).0)

-- With no block free in the chain and memory to be had, srpc_pool_alloc adds at the end a pool of
-- the sizes of the last one, with every block free, and hands out its block 0.
pub alloc_block-extend :
    (fuel : ℕ) (mallocs : ℕ → ℕ) (xss : List (List ℕ)) (ps : List Pool) (last : Pool)
    → Chain xss (ps ++ last ∷ [])
    → first_free (ps ++ last ∷ []) xss ≡ none
    → mallocs 0 ≢ 0
    → CanGrow last
    → length (ps ++ last ∷ []) < fuel
    → (fresh : Pool) × (alloc_block fuel mallocs (ps ++ last ∷ [])
        ≡ some (block_address fresh 0, ps ++ last ∷ (take_block fresh).1 ∷ []))
      × Grown (mallocs 0) last fresh
unfolding first_free
alloc_block-extend zero mallocs xss ps last ch e got can few = absurd (omega arith)
alloc_block-extend (suc zero) mallocs xss ps last ch e got can few =
    absurd (omega (arith, length-append {0} ps (last ∷ [])))
alloc_block-extend (suc (suc fuel)) mallocs [] [] last ch e got can few = absurd ch
alloc_block-extend (suc (suc fuel)) mallocs ((x ∷ xs) ∷ xss) [] last ch e got can few = cc
alloc_block-extend (suc (suc fuel)) mallocs ([] ∷ xss) [] last ((start, f, usable), ch) e got can
      few =
    let (fresh, grown, g) = extend-Grown mallocs last got can in
    let (apart, first) = Grown-first g can.0 in
    (
      fresh,
      alloc_block-later (suc fuel) mallocs last [] usable (indices_meet f)
          ∙ rw
              (grown, alloc_block-taken fuel (λ n. mallocs (suc n)) fresh [] g.usable apart, first),
      g,
    )
alloc_block-extend (suc (suc fuel)) mallocs [] (p ∷ ps) last ch e got can few = absurd ch
alloc_block-extend (suc (suc fuel)) mallocs ((x ∷ xs) ∷ xss) (p ∷ ps) last ch e got can few = cc
alloc_block-extend (suc (suc fuel)) mallocs ([] ∷ xss) (p ∷ ps) last ((start, f, usable), ch) e got
      can few =
    let (fresh, done, g) =
      alloc_block-extend (suc fuel) mallocs xss ps last ch
        (keep_empty-none (first_free (ps ++ last ∷ []) xss) e) got can (omega arith) in
    (
      fresh,
      alloc_block-later (suc fuel) mallocs p (ps ++ last ∷ []) usable (indices_meet f)
          ∙ rw (extend-later mallocs p ps last) (ap (with_first p) done),
      g,
    )
