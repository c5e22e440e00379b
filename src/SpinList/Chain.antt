-- ===== src/SpinList/Chain.antt =====
-- When a list is in order, and how far a write to one node reaches.
use simplerpc.Common.{
  ℕ, zero, suc, ◌<◌, ◌≡◌, ◌≢◌, Bool, true, false, ◌||◌, some, List, [], ◌∷◌, length, ◌==◌, update,
  arith,
}
use simplerpc.SpinList.{Node, Heap, walk}

abbrev pub has : ℕ → List ℕ → Bool
has a [] = false
has a (x ∷ xs) = (a == x) || has a xs

-- From `p` the `next` pointers lead through the distinct nodes `xs` to NULL, and each of them
-- names the list `l`.
abbrev pub Chain : (ℕ → Node) → ℕ → ℕ → List ℕ → Type 0
Chain nodes l p [] = p ≡ 0
Chain nodes l p (x ∷ xs) =
    (p ≡ x) × (x ≢ 0) × (has x xs ≡ false) × ((nodes x).head ≡ l) × Chain nodes l (nodes x).next xs

-- The list `l` is not locked and consists of exactly the nodes that name it, in the order `xs`.
pub record IsList (h : Heap) (l : ℕ) (xs : List ℕ) : Type 0 where
  pub not_null : l ≢ 0
  pub chain : Chain h.nodes l (h.heads l).first xs
  pub members : (n : ℕ) → (h.nodes n).head ≡ l → has n xs ≡ true
  pub free : (h.heads l).locked ≡ false

pub Chain-update :
    (nodes : ℕ → Node) (l p a : ℕ) (c : Node) (xs : List ℕ)
    → Chain nodes l p xs
    → has a xs ≡ false
    → Chain (update nodes a c) l p xs
Chain-update nodes l p a c [] ch out = ch
Chain-update nodes l p a c (x ∷ xs) (e, ne, fresh, mine, ch) out =
    let apart : (x == a) ≡ false = ground arith in
    rw apart (e, ne, fresh, mine, Chain-update nodes l (nodes x).next a c xs ch (ground arith))

-- A walk over a list in order meets exactly its nodes.
pub walk-Chain :
    (fuel l p : ℕ) (h : Heap) (xs : List ℕ)
    → Chain h.nodes l p xs
    → length xs < fuel
    → walk fuel h p ≡ some xs
unfolding walk
walk-Chain zero l p h xs ch few = absurd (omega arith)
walk-Chain (suc fuel) l p h [] ch few = ground arith
walk-Chain (suc fuel) l p h (x ∷ xs) (e, ne, fresh, mine, ch) few =
    let rest = walk-Chain fuel l (h.nodes x).next h xs ch (omega arith) in ground (arith, rest)

pub has-tail : (a x : ℕ) (xs : List ℕ) → has a (x ∷ xs) ≡ true → a ≢ x → has a xs ≡ true
has-tail a x xs h ne = ground arith
