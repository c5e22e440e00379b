-- ===== src/Process/Walked.antt =====
-- src/libsrpc_proc.c: what the walk through the heap does to the blocks of a process.
use simplerpc.Common.{
  ℕ, zero, suc, ◌+◌, ◌≤◌, ◌<◌, ◌≡◌, ◌≢◌, refl, ◌∙◌, ap, sym, Bool, true, Option, none, some, List,
  [], ◌∷◌, length, pos, arith,
}
use simplerpc.Trash.{Trash, add_all, add_ptr}
use simplerpc.Trash.Freed.{Proper}
use simplerpc.Process.Destroy.{
  Block, Kind, daemon, request, user, kind_of, Leaving, destructor_fn, Pass, over, found, left_as,
  keep_block, pass, walk, walk_all,
}

-- The addresses of the program's own blocks.
unfoldable pub users : List Block → List ℕ
users [] = []
users (b ∷ bs) =
    let rest = users bs in elim (kind_of b.data_type) [ user ↦ b.ptr ∷ rest | other ↦ rest ]

abbrev pub Present : List Block → Type 0
Present [] = Unit
Present (b ∷ bs) = (b.ptr ≢ 0) × Present bs

pub users-Proper : (bs : List Block) → Present bs → Proper (users bs)
unfolding users
users-Proper [] h = refl
users-Proper (b ∷ bs) (h, hs) = ground (arith, users-Proper bs hs)

pass-on :
    (memory : Bool) (b : Block) (bs : List Block) (l l' : Leaving)
    → destructor_fn memory b l ≡ (pos 0, l')
    → pass memory (b ∷ bs) l ≡ keep_block (left_as b) (pass memory bs l')
unfolding pass
pass-on memory b bs l l' e =
    rw (e, pass) (ap (λ m. keep_block (left_as b) (pass memory bs m)) (ap (λ x. x.1) e))

pass-found :
    (memory : Bool) (b : Block) (bs : List Block) (l l' : Leaving)
    → destructor_fn memory b l ≡ (pos 1, l')
    → pass memory (b ∷ bs) l ≡ found bs l'
unfolding pass
pass-found memory b bs l l' e = rw (e, pass) (ap (λ m. found bs m) (ap (λ x. x.1) e))

pub users-le : (bs : List Block) → length (users bs) ≤ length bs
unfolding users
users-le [] = omega arith
users-le (b ∷ bs) = ground (arith, users-le bs)

add_ptr-some : (p : ℕ) (t : Trash) → (t' : Trash) × ((add_ptr true p (some t)).1 ≡ some t')
unfolding add_ptr
add_ptr-some p t = go (add_ptr true p (some t)).1 refl
  where
    go :
        (o : Option Trash)
        → (add_ptr true p (some t)).1 ≡ o
        → (t' : Trash) × ((add_ptr true p (some t)).1 ≡ some t')
    go (some t') e = (t', e)
    go none e = absurd (ground arith)

-- The three kinds of a block, with the equation.
data KindOf (b : Block) : Type 0 where
  as_user : kind_of b.data_type ≡ user → KindOf b
  as_other : kind_of b.data_type ≢ user → KindOf b

KindOf-cases : (b : Block) → KindOf b
KindOf-cases b = go (kind_of b.data_type) refl
  where
    go : (k : Kind) → kind_of b.data_type ≡ k → KindOf b
    go user e = as_user e
    go daemon e = as_other (ground arith)
    go request e = as_other (ground arith)

users-user :
    (b : Block) (bs : List Block) → kind_of b.data_type ≡ user → users (b ∷ bs) ≡ b.ptr ∷ users bs
unfolding users
users-user b bs e = rw (e, users) refl

users-other : (b : Block) (bs : List Block) → kind_of b.data_type ≢ user → users (b ∷ bs) ≡ users bs
unfolding users
users-other b bs e = ground arith

module _ (b : Block) (l : Leaving) (present : b.ptr ≢ 0) where
  list_step :
      (t : Trash)
      → kind_of b.data_type ≡ user
      → l.trash ≡ some t
      → destructor_fn true b l ≡ (pos 0, record l { trash = (add_ptr true b.ptr (some t)).1 })
  unfolding destructor_fn
  list_step t k e = ground arith

  free_step :
      (memory : Bool)
      → kind_of b.data_type ≡ user
      → l.trash ≡ none
      → destructor_fn memory b l ≡ (pos 1, record l { freed = b.ptr ∷ l.freed })
  unfolding destructor_fn
  free_step memory k e = ground arith

  other_step :
      (memory : Bool)
      → kind_of b.data_type ≢ user
      → (l' : Leaving) × (destructor_fn memory b l ≡ (pos 0, l'))
        × (l'.trash ≡ l.trash)
        × (l'.freed ≡ l.freed)
  unfolding destructor_fn
  other_step memory k = ((destructor_fn memory b l).1, ground arith, ground arith, ground arith)

users-left_as :
    (b : Block) (bs : List Block) → kind_of b.data_type ≢ user → users (left_as b ∷ bs) ≡ users bs
unfolding users
users-left_as b bs k = ground (arith, k)

left_as-ptr : (b : Block) → (left_as b).ptr ≡ b.ptr
left_as-ptr b = ground arith

-- With a list one pass puts the program's blocks there, in order, and frees none.
pub pass-listed :
    (bs : List Block) (l : Leaving) (t : Trash)
    → Present bs
    → l.trash ≡ some t
    → (bs' : List Block) × (l' : Leaving) × (pass true bs l ≡ over bs' l')
      × (l'.trash ≡ add_all (users bs) (some t))
      × (l'.freed ≡ l.freed)
unfolding pass users add_all
pass-listed [] l t h e = ([], l, refl, e, refl)
pass-listed (b ∷ bs) l t (h, hs) e = elim (KindOf-cases b) [
  | as_user k ↦
      let (t', put) = add_ptr-some b.ptr t in
      let next : Leaving = record l { trash = (add_ptr true b.ptr (some t)).1 } in
      let (bs', l', e', listed, kept) = pass-listed bs next t' hs put in
      (
        left_as b ∷ bs',
        l',
        pass-on true b bs l next (list_step b l h t k e) ∙ ap (keep_block (left_as b)) e',
        listed
            ∙ ap (add_all (users bs)) (sym put)
            ∙ ap (λ ps. add_all ps (some t)) (sym (users-user b bs k)),
        kept,
      )
  | as_other k ↦
      let (next, step, same, freed) = other_step b l h true k in
      let (bs', l', e', listed, kept) = pass-listed bs next t hs (same ∙ e) in
      (
        left_as b ∷ bs',
        l',
        pass-on true b bs l next step ∙ ap (keep_block (left_as b)) e',
        listed ∙ ap (λ ps. add_all ps (some t)) (sym (users-other b bs k)),
        kept ∙ freed,
      )
]

-- Without a list a pass frees the first of them, if there is one.
data PassFreed (bs : List Block) (l : Leaving) (out : Pass) : Type 0 where
  nothing :
      (bs' : List Block) (l' : Leaving)
      → out ≡ over bs' l'
      → users bs ≡ []
      → l'.freed ≡ l.freed
      → PassFreed bs l out
  one :
      (bs' : List Block) (l' : Leaving) (p : ℕ)
      → out ≡ found bs' l'
      → users bs ≡ p ∷ users bs'
      → l'.freed ≡ p ∷ l.freed
      → l'.trash ≡ none
      → Present bs'
      → PassFreed bs l out

pass-PassFreed :
    (memory : Bool) (bs : List Block) (l : Leaving)
    → Present bs
    → l.trash ≡ none
    → PassFreed bs l (pass memory bs l)
unfolding pass users
pass-PassFreed memory [] l h e = nothing [] l refl refl refl
pass-PassFreed memory (b ∷ bs) l (h, hs) e = elim (KindOf-cases b) [
  | as_user k ↦
      one bs (record l { freed = b.ptr ∷ l.freed }) b.ptr
        (pass-found memory b bs l _ (free_step b l h memory k e)) (users-user b bs k) refl e hs
  | as_other k ↦
      let (next, step, same, kept) = other_step b l h memory k in
      let on = pass-on memory b bs l next step in
      elim (pass-PassFreed memory bs next hs (same ∙ e)) [
        | nothing bs' l' e' none_there freed ↦
            nothing (left_as b ∷ bs') l' (on ∙ ap (keep_block (left_as b)) e')
              (users-other b bs k ∙ none_there) (freed ∙ kept)
        | one bs' l' p e' first freed unlisted here ↦
            one (left_as b ∷ bs') l' p (on ∙ ap (keep_block (left_as b)) e')
              (users-other b bs k ∙ first ∙ ap (λ ps. p ∷ ps) (sym (users-left_as b bs' k)))
              (freed ∙ ap (λ ps. p ∷ ps) kept) unlisted ((λ z. h (sym (left_as-ptr b) ∙ z)), here)
      ]
]

-- In the order of the walk, on top of what was freed before.
unfoldable pub freed_after : List ℕ → List ℕ → List ℕ
freed_after [] freed = freed
freed_after (p ∷ ps) freed = freed_after ps (p ∷ freed)

-- Without a list they are freed, with a pass for each of them and one more.
pub walk-freed :
    (memory : Bool) (rounds : ℕ) (bs : List Block) (l : Leaving)
    → Present bs
    → l.trash ≡ none
    → length (users bs) < rounds
    → (l' : Leaving) × (walk rounds memory bs l ≡ some l')
      × (l'.freed ≡ freed_after (users bs) l.freed)
unfolding walk freed_after
walk-freed memory zero bs l h e lt = absurd (omega arith)
walk-freed memory (suc rounds) bs l h e lt = elim (pass-PassFreed memory bs l h e) [
  | nothing bs' l' e' none_there kept ↦ (l', rw (e', walk) refl, rw none_there kept)
  | one bs' l' p e' first freed unlisted here ↦
      let fewer : length (users bs') < rounds = omega (arith, ap length first, lt) in
      let (l'', e'', all) = walk-freed memory rounds bs' l' here unlisted fewer in
      (l'', rw (e', walk) e'', rw first (all ∙ ap (freed_after (users bs')) freed))
]

pub walk-once :
    (memory : Bool) (bs : List Block) (l : Leaving) {bs' : List Block} {l' : Leaving}
    → pass memory bs l ≡ over bs' l'
    → walk_all memory bs l ≡ some l'
unfolding walk
walk-once memory bs l {bs'} {l'} e = go (length bs + 1) (omega arith)
  where
    go : (n : ℕ) → 0 < n → walk n memory bs l ≡ some l'
    go zero lt = absurd (omega arith)
    go (suc n) lt = rw (e, walk) refl
