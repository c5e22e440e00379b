-- ===== src/Collector/Gathered.antt =====
-- src/libsrpc_shm_gc.c: what the array of the collector holds after the walk.
use simplerpc.Common.{
  ℕ, zero, suc, ◌+◌, ◌-◌, ◌≤◌, ◌<◌, ◌≡◌, ◌≢◌, refl, ◌∙◌, ap, sym, Bool, true, false, not, ◌&&◌,
  List, [], ◌∷◌, ◌++◌, append_assoc, append-nil, map, take, filter, update, ◌==◌, if◌then◌else◌,
  pos, inl, inr, Bool-cases, arith, neg,
}
use native.Mathlib.Decide.{dec_lt}
use simplerpc.Collector.{
  Block, Elm, GcPool, empty_pool, pool_size, clip, is_special, add_elm, destructor_fn, gather,
}

-- The elements `i` to `i + n - 1` of the array.
unfoldable pub listed : (n i : ℕ) → (ℕ → Elm) → List Elm
listed zero i elm = []
listed (suc n) i elm = elm i ∷ listed n (suc i) elm

-- A block of the library that was given back for later.
abbrev pub is_wanted : Block → Bool
is_wanted b = is_special (clip b.data_type) && not (clip b.dc == 0)

abbrev pub to_elm : Block → Elm
to_elm b = record { ptr = b.ptr; type = clip b.data_type; uid = b.uid; refcount = 0 }

listed-snoc : (n i : ℕ) (f : ℕ → Elm) → listed (suc n) i f ≡ listed n i f ++ f (i + n) ∷ []
unfolding listed
listed-snoc zero i f = ap (λ k. f k ∷ []) (omega arith)
listed-snoc (suc n) i f =
    ap (λ l. f i ∷ l)
      (listed-snoc n (suc i) f ∙ ap (λ k. listed n (suc i) f ++ f k ∷ []) (omega arith))

listed-update :
    (n i k : ℕ) (f : ℕ → Elm) (e : Elm) → i + n ≤ k → listed n i (update f k e) ≡ listed n i f
unfolding listed
listed-update zero i k f e h = refl
listed-update (suc n) i k f e h = ground (arith, listed-update n (suc i) k f e)

listed-add :
    (b : Block) (p : GcPool)
    → listed (p.count + 1) 0 (add_elm b p).elm ≡ listed p.count 0 p.elm ++ to_elm b ∷ []
listed-add b p =
    ap (λ k. listed k 0 (add_elm b p).elm) (omega arith)
    ∙ listed-snoc p.count 0 (add_elm b p).elm
    ∙ ground (arith, listed-update p.count 0 p.count p.elm (to_elm b))

module _ (b : Block) (p : GcPool) (present : b.ptr ≢ 0) where
  full_step : pool_size ≤ p.count → destructor_fn b p ≡ (neg 12, p)
  unfolding destructor_fn
  full_step h = ground arith

  last_step :
      is_wanted b ≡ true → p.count + 1 ≡ pool_size → destructor_fn b p ≡ (neg 12, add_elm b p)
  unfolding destructor_fn
  last_step w h = ground arith

  wanted_step :
      is_wanted b ≡ true → p.count + 1 < pool_size → destructor_fn b p ≡ (pos 0, add_elm b p)
  unfolding destructor_fn
  wanted_step w h = ground arith

  other_pool : GcPool
  other_pool = if is_special (clip b.data_type) then p else record p { freed = b.ptr ∷ p.freed }

  other_step :
      is_wanted b ≡ false
      → p.count < pool_size
      → (destructor_fn b p ≡ (pos 0, other_pool))
        × (other_pool.count ≡ p.count)
        × (other_pool.elm ≡ p.elm)
  unfolding destructor_fn other_pool
  other_step w h = (ground arith, ground arith, ground arith)

-- No block of the walk has the address NULL.
abbrev pub Present : List Block → Type 0
Present [] = Unit
Present (b ∷ bs) = (b.ptr ≢ 0) × Present bs

abbrev Gathers : List Block → GcPool → GcPool → Type 0
Gathers bs p p' =
    (listed p'.count 0 p'.elm
      ≡ listed p.count 0 p.elm ++ take (pool_size - p.count) (map to_elm (filter is_wanted bs)))
    × (p'.count ≤ pool_size)

gather-stop :
    (b : Block) (bs : List Block) (p p' : GcPool)
    → destructor_fn b p ≡ (neg 12, p')
    → gather (b ∷ bs) p ≡ p'
unfolding gather
gather-stop b bs p p' e = rw (e, gather) refl

gather-on :
    (b : Block) (bs : List Block) (p p' : GcPool)
    → destructor_fn b p ≡ (pos 0, p')
    → gather (b ∷ bs) p ≡ gather bs p'
unfolding gather
gather-on b bs p p' e = rw (e, gather) refl

take_none : (n : ℕ) (xs : List Elm) → n ≡ 0 → take n xs ≡ []
take_none n xs e = rw e refl

take_nil : (n : ℕ) → take {A = Elm} n [] ≡ []
take_nil zero = refl
take_nil (suc n) = refl

take_some : (n : ℕ) (x : Elm) (xs : List Elm) → 0 < n → take n (x ∷ xs) ≡ x ∷ take (n - 1) xs
take_some zero x xs h = absurd (omega arith)
take_some (suc n) x xs h = ap (λ k. x ∷ take k xs) (omega arith)

wanted-cons :
    (b : Block) (bs : List Block)
    → is_wanted b ≡ true
    → map to_elm (filter is_wanted (b ∷ bs)) ≡ to_elm b ∷ map to_elm (filter is_wanted bs)
wanted-cons b bs w = rw w refl

other-cons :
    (b : Block) (bs : List Block)
    → is_wanted b ≡ false
    → map to_elm (filter is_wanted (b ∷ bs)) ≡ map to_elm (filter is_wanted bs)
other-cons b bs w = rw w refl

-- An element is added, and `room` places are left after it.
Gathers-add :
    (b : Block) (bs : List Block) (p : GcPool) (room : ℕ) (l : List Elm)
    → is_wanted b ≡ true
    → p.count + 1 + room ≡ pool_size
    → l ≡ listed (p.count + 1) 0 (add_elm b p).elm ++ take room (map to_elm (filter is_wanted bs))
    → l
      ≡ listed p.count 0 p.elm
        ++ take (pool_size - p.count) (map to_elm (filter is_wanted (b ∷ bs)))
Gathers-add b bs p room l w full e =
    e
    ∙ rw (listed-add b p) (append_assoc (listed p.count 0 p.elm) (to_elm b ∷ []) _)
    ∙ ap (λ xs. listed p.count 0 p.elm ++ xs) (sym taken)
  where
    taken :
        take (pool_size - p.count) (map to_elm (filter is_wanted (b ∷ bs)))
        ≡ to_elm b ∷ take room (map to_elm (filter is_wanted bs))
    taken =
        ap (take (pool_size - p.count)) (wanted-cons b bs w)
        ∙ take_some (pool_size - p.count) (to_elm b) (map to_elm (filter is_wanted bs))
            (omega arith)
        ∙ ap (λ k. to_elm b ∷ take k (map to_elm (filter is_wanted bs))) (omega arith)

gather-Gathers :
    (bs : List Block) (p : GcPool) → p.count ≤ pool_size → Present bs → Gathers bs p (gather bs p)
unfolding gather
gather-Gathers [] p h present = (
  sym (append-nil _)
      ∙ ap (λ xs. listed p.count 0 p.elm ++ xs) (sym (take_nil (pool_size - p.count))),
  h,
)
gather-Gathers (b ∷ bs) p h (present, rest) = elim (dec_lt p.count pool_size) [
  | no full ↦ rw (gather-stop b bs p p (full_step b p present (omega arith))) (
    sym (append-nil _)
        ∙ ap (λ xs. listed p.count 0 p.elm ++ xs)
            (sym (take_none (pool_size - p.count) _ (omega arith))),
    h,
  )
  | yes free ↦ elim (Bool-cases (is_wanted b)) [
    | inr other ↦
        let (e, count, elm) = other_step b p present other free in
        let (ih, fits) = gather-Gathers bs (other_pool b p present) (omega (arith, count)) rest in
        rw (gather-on b bs p (other_pool b p present) e)
          (ih ∙ rw (count, elm, other-cons b bs other) refl, fits)
    | inl wanted ↦ elim (dec_lt (p.count + 1) pool_size) [
      | yes more ↦
          let (ih, fits) = gather-Gathers bs (add_elm b p) (omega arith) rest in
          rw (gather-on b bs p (add_elm b p) (wanted_step b p present wanted more))
            (Gathers-add b bs p (pool_size - (p.count + 1)) _ wanted (omega arith) ih, fits)
      | no last ↦
          rw (gather-stop b bs p (add_elm b p) (last_step b p present wanted (omega arith)))
            (Gathers-add b bs p 0 _ wanted (omega arith) (sym (append-nil _)), omega arith)
    ]
  ]
]

pub gather-listed :
    (bs : List Block)
    → Present bs
    → (listed (gather bs empty_pool).count 0 (gather bs empty_pool).elm
        ≡ take pool_size (map to_elm (filter is_wanted bs)))
      × ((gather bs empty_pool).count ≤ pool_size)
unfolding listed
gather-listed bs present = gather-Gathers bs empty_pool (omega arith) present
