-- ===== src/SpinList/Erase.antt =====
-- A list in order without one of its nodes.
use simplerpc.Common.{
  ℕ, ◌≡◌, refl, ◌≢◌, ap, ◌∙◌, true, false, List, [], ◌∷◌, ◌==◌, if◌then◌else◌, update, arith,
  Bool-cases, inl, inr, sym, subst,
}
use simplerpc.SpinList.{Node}
use simplerpc.SpinList.Chain.{has, Chain, Chain-update}

-- The list without the first `n`.
unfoldable pub erase : ℕ → List ℕ → List ℕ
erase n [] = []
erase n (x ∷ xs) = if x == n then xs else x ∷ erase n xs

-- The node before the first `n`, where `prev` stands before the list.
unfoldable pub prev_of : ℕ → ℕ → List ℕ → ℕ
prev_of n prev [] = prev
prev_of n prev (x ∷ xs) = let rest = prev_of n x xs in if x == n then prev else rest

has-erase : (a n : ℕ) (xs : List ℕ) → has a xs ≡ false → has a (erase n xs) ≡ false
unfolding erase
has-erase a n [] out = refl
has-erase a n (x ∷ xs) out = ground (arith, has-erase a n xs)

pub has-erase_self :
    (n l p : ℕ) (nodes : ℕ → Node) (xs : List ℕ) → Chain nodes l p xs → has n (erase n xs) ≡ false
unfolding erase
has-erase_self n l p nodes [] ch = refl
has-erase_self n l p nodes (x ∷ xs) (e, ne, fresh, mine, ch) =
    let rest = has-erase_self n l (nodes x).next nodes xs ch in ground (arith, rest)

pub has-erase_ne : (a n : ℕ) (xs : List ℕ) → a ≢ n → has a xs ≡ true → has a (erase n xs) ≡ true
unfolding erase
has-erase_ne a n [] ne h = cc
has-erase_ne a n (x ∷ xs) ne h = ground (arith, has-erase_ne a n xs)

pub has-prev_of :
    (n prev : ℕ) (xs : List ℕ) → has n xs ≡ true → has (prev_of n prev xs) (prev ∷ xs) ≡ true
unfolding prev_of
has-prev_of n prev [] h = cc
has-prev_of n prev (x ∷ xs) h = ground (arith, has-prev_of n x xs)

-- The nodes after the node `n` behind `prev` was taken out.
abbrev pub without : (ℕ → Node) → ℕ → ℕ → ℕ → Node
without nodes n prev =
    update (update nodes prev (record (nodes prev) { next = (nodes n).next })) n
      (record { next = 0; head = 0 })

has-apart : (a b : ℕ) (xs : List ℕ) → has a xs ≡ true → has b xs ≡ false → b ≢ a
has-apart a b xs inn out e = let moved = subst (λ c. has c xs ≡ false) e out in cc

Chain-without_next :
    (nodes : ℕ → Node) (l p n x : ℕ) (ys : List ℕ)
    → (p ≡ x) × (x ≢ 0) × (has x ys ≡ false) × ((nodes x).head ≡ l)
    → Chain nodes l (nodes n).next ys
    → x ≢ n
    → has n ys ≡ false
    → Chain (without nodes n x) l p (x ∷ ys)
Chain-without_next nodes l p n x ys (e, nz, fresh, mine) ch ne gone =
    let at : without nodes n x x ≡ record (nodes x) { next = (nodes n).next } = ground arith in
    let skipped =
      Chain-update nodes l (nodes n).next x (record (nodes x) { next = (nodes n).next }) ys ch
        fresh in
    let tail = Chain-update _ l (nodes n).next n (record { next = 0; head = 0 }) ys skipped gone in
    (
      e,
      nz,
      fresh,
      ap (λ c. c.head) at ∙ mine,
      subst (λ m. Chain (without nodes n x) l m ys) (sym (ap (λ c. c.next) at)) tail,
    )

pub erase_hit : (n y : ℕ) (ys : List ℕ) → (y == n) ≡ true → erase n (y ∷ ys) ≡ ys
unfolding erase
erase_hit n y ys hit = rw hit

pub erase_miss : (n y : ℕ) (ys : List ℕ) → (y == n) ≡ false → erase n (y ∷ ys) ≡ y ∷ erase n ys
unfolding erase
erase_miss n y ys miss = rw miss

pub prev_of_hit : (n prev y : ℕ) (ys : List ℕ) → (y == n) ≡ true → prev_of n prev (y ∷ ys) ≡ prev
unfolding prev_of
prev_of_hit n prev y ys hit = rw hit

pub prev_of_miss :
    (n prev y : ℕ) (ys : List ℕ) → (y == n) ≡ false → prev_of n prev (y ∷ ys) ≡ prev_of n y ys
unfolding prev_of
prev_of_miss n prev y ys miss = rw miss

-- Behind another node the list without `n` is what the pointers give after the store to the node
-- before `n`.
pub Chain-without :
    (nodes : ℕ → Node) (l p n x : ℕ) (xs : List ℕ)
    → Chain nodes l p (x ∷ xs)
    → x ≢ n
    → has n xs ≡ true
    → Chain (without nodes n (prev_of n x xs)) l p (x ∷ erase n xs)
Chain-without nodes l p n x [] ch ne member = absurd (ground arith)
Chain-without nodes l p n x (y ∷ ys) (e, nz, fresh, mine, (e', nz', fresh', mine', ch)) ne member =
    elim (Bool-cases (y == n)) [
      | inl hit ↦
          let eq : y ≡ n = ground arith in
          let found =
            Chain-without_next nodes l p n x ys (e, nz, ground arith, mine)
              (subst (λ m. Chain nodes l (nodes m).next ys) eq ch) ne
              (subst (λ m. has m ys ≡ false) eq fresh') in
          subst (λ q. Chain (without nodes n q) l p (x ∷ erase n (y ∷ ys)))
            (sym (prev_of_hit n x y ys hit))
            (subst (λ zs. Chain (without nodes n x) l p (x ∷ zs)) (sym (erase_hit n y ys hit))
              found)
      | inr miss ↦
          let q = prev_of n y ys in
          let rest =
            Chain-without nodes l (nodes x).next n y ys (e', nz', fresh', mine', ch) (ground arith)
              (ground arith) in
          let apart = has-apart q x (y ∷ ys) (has-prev_of n y ys (ground arith)) fresh in
          let at : without nodes n q x ≡ nodes x = ground arith in
          let out : has x (y ∷ erase n ys) ≡ false = ground (arith, has-erase x n ys) in
          let found : Chain (without nodes n q) l p (x ∷ y ∷ erase n ys) = (
            e,
            nz,
            out,
            ap (λ c. c.head) at ∙ mine,
            subst (λ m. Chain (without nodes n q) l m (y ∷ erase n ys)) (sym (ap (λ c. c.next) at))
                rest,
          ) in
          subst (λ q'. Chain (without nodes n q') l p (x ∷ erase n (y ∷ ys)))
            (sym (prev_of_miss n x y ys miss))
            (subst (λ zs. Chain (without nodes n q) l p (x ∷ zs)) (sym (erase_miss n y ys miss))
              found)
    ]
