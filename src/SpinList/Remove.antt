-- ===== src/SpinList/Remove.antt =====
-- `libsrpc_list_remove` on a list in order.
use simplerpc.Common.{
  ℕ, zero, suc, ◌+◌, ◌%◌, ◌<◌, ◌≡◌, refl, ◌≢◌, ap, ◌∙◌, true, false, some, List, [], ◌∷◌, length,
  ◌==◌, update, arith, word64, Bool-cases, inl, inr, sym, subst,
}
use simplerpc.SpinList.{
  Node, Heap, ok, enotfound, unlock, search_node, unlink, remove, remove_found, foreach,
}
use simplerpc.SpinList.Chain.{has, Chain, IsList, Chain-update, walk-Chain}
use simplerpc.SpinList.Erase.{
  erase, prev_of, erase_hit, erase_miss, prev_of_hit, prev_of_miss, has-erase_ne, has-prev_of,
  without, Chain-without,
}
use simplerpc.SpinList.Push.{taken}

search_node-prev_of :
    (fuel l n p prev : ℕ) (h : Heap) (xs : List ℕ)
    → Chain h.nodes l p xs
    → has n xs ≡ true
    → length xs < fuel
    → search_node fuel h n p prev ≡ some (true, prev_of n prev xs)
unfolding search_node prev_of
search_node-prev_of zero l n p prev h xs ch member few = absurd (omega arith)
search_node-prev_of (suc fuel) l n p prev h [] ch member few = cc
search_node-prev_of (suc fuel) l n p prev h (x ∷ xs) (e, ne, fresh, mine, ch) member few =
    ground (arith, search_node-prev_of fuel l n (h.nodes x).next x h xs ch)

search_node-absent :
    (fuel l n p prev : ℕ) (h : Heap) (xs : List ℕ)
    → Chain h.nodes l p xs
    → has n xs ≡ false
    → length xs < fuel
    → (last : ℕ) × (search_node fuel h n p prev ≡ some (false, last))
unfolding search_node
search_node-absent zero l n p prev h xs ch member few = absurd (omega arith)
search_node-absent (suc fuel) l n p prev h [] ch member few = (prev, ground arith)
search_node-absent (suc fuel) l n p prev h (x ∷ xs) (e, ne, fresh, mine, ch) member few =
    let (last, found) =
      search_node-absent fuel l n (h.nodes x).next x h xs ch (ground arith) (omega arith) in
    (last, ground (arith, found))

-- The heap after a removal that succeeds.
unfoldable pub removed : ℕ → ℕ → ℕ → Heap → Heap
unfolding unlock unlink
removed l n prev h = unlock l (unlink l n prev (taken l h))

abbrev pub cleared : Node
cleared = record { next = 0; head = 0 }

pub removed-nodes_first : (l n : ℕ) (h : Heap) → (removed l n 0 h).nodes ≡ update h.nodes n cleared
unfolding removed
removed-nodes_first l n h = refl

pub removed-nodes :
    (l n prev : ℕ) (h : Heap) → prev ≢ 0 → (removed l n prev h).nodes ≡ without h.nodes n prev
unfolding removed
removed-nodes l n prev h ne = let no : (prev == 0) ≡ false = ground arith in rw no

removed-head_first :
    (l n : ℕ) (h : Heap)
    → (removed l n 0 h).heads l ≡ record {
      locked = false;
      first = (h.nodes n).next;
      write_ops = ((h.heads l).write_ops + 1) % word64;
    }
unfolding removed
removed-head_first l n h = ground arith

removed-head :
    (l n prev : ℕ) (h : Heap)
    → prev ≢ 0
    → (removed l n prev h).heads l ≡ record {
      locked = false;
      first = (h.heads l).first;
      write_ops = ((h.heads l).write_ops + 1) % word64;
    }
unfolding removed
removed-head l n prev h ne = ground arith

has-nonzero :
    (n l p : ℕ) (nodes : ℕ → Node) (xs : List ℕ) → Chain nodes l p xs → has n xs ≡ true → n ≢ 0
has-nonzero n l p nodes [] ch member = absurd (ground arith)
has-nonzero n l p nodes (x ∷ xs) (e, nz, fresh, mine, ch) member =
    let rest = has-nonzero n l (nodes x).next nodes xs ch in ground (arith, rest)

pub has-head :
    (n l p : ℕ) (nodes : ℕ → Node) (xs : List ℕ)
    → Chain nodes l p xs
    → has n xs ≡ true
    → (nodes n).head ≡ l
has-head n l p nodes [] ch member = absurd (ground arith)
has-head n l p nodes (x ∷ xs) (e, nz, fresh, mine, ch) member =
    let rest = has-head n l (nodes x).next nodes xs ch in ground (arith, rest)

removed-Chain :
    (l n : ℕ) (h : Heap) (xs : List ℕ)
    → Chain h.nodes l (h.heads l).first xs
    → has n xs ≡ true
    → Chain
        (removed l n (prev_of n 0 xs) h).nodes
        l
        ((removed l n (prev_of n 0 xs) h).heads l).first
        (erase n xs)
removed-Chain l n h [] ch member = absurd (ground arith)
removed-Chain l n h (x ∷ xs) (e, nz, fresh, mine, ch) member = elim (Bool-cases (x == n)) [
  | inl hit ↦
      let eq : x ≡ n = ground arith in
      let kept =
        Chain-update h.nodes l (h.nodes n).next n cleared xs
          (subst (λ m. Chain h.nodes l (h.nodes m).next xs) eq ch)
          (subst (λ m. has m xs ≡ false) eq fresh) in
      let first =
        subst (λ m. Chain (update h.nodes n cleared) l m xs)
          (sym (ap (λ c. c.first) (removed-head_first l n h))) kept in
      let done =
        subst (λ nodes. Chain nodes l ((removed l n 0 h).heads l).first xs)
          (sym (removed-nodes_first l n h)) first in
      subst
        (λ q. Chain (removed l n q h).nodes l ((removed l n q h).heads l).first (erase n (x ∷ xs)))
        (sym (prev_of_hit n 0 x xs hit))
        (subst (λ zs. Chain (removed l n 0 h).nodes l ((removed l n 0 h).heads l).first zs)
          (sym (erase_hit n x xs hit)) done)
  | inr miss ↦
      let q = prev_of n x xs in
      let inside : has n xs ≡ true = ground arith in
      let q≢0 =
        has-nonzero q l (h.heads l).first h.nodes (x ∷ xs) (e, nz, fresh, mine, ch)
          (has-prev_of n x xs inside) in
      let kept =
        Chain-without h.nodes l (h.heads l).first n x xs (e, nz, fresh, mine, ch) (ground arith)
          inside in
      let first =
        subst (λ m. Chain (without h.nodes n q) l m (x ∷ erase n xs))
          (sym (ap (λ c. c.first) (removed-head l n q h q≢0))) kept in
      let done =
        subst (λ nodes. Chain nodes l ((removed l n q h).heads l).first (x ∷ erase n xs))
          (sym (removed-nodes l n q h q≢0)) first in
      subst
        (λ q'.
          Chain (removed l n q' h).nodes l ((removed l n q' h).heads l).first (erase n (x ∷ xs)))
        (sym (prev_of_miss n 0 x xs miss))
        (subst (λ zs. Chain (removed l n q h).nodes l ((removed l n q h).heads l).first zs)
          (sym (erase_miss n x xs miss)) done)
]

pub removed_self : (l n prev : ℕ) (h : Heap) → (removed l n prev h).nodes n ≡ cleared
unfolding removed
removed_self l n prev h = ground arith

pub removed-other :
    (l n prev m : ℕ) (h : Heap) → m ≢ n → ((removed l n prev h).nodes m).head ≡ (h.nodes m).head
unfolding removed
removed-other l n prev m h ne = ground arith

pub removed-frame : (l n prev k : ℕ) (h : Heap) → k ≢ l → (removed l n prev h).heads k ≡ h.heads k
unfolding removed
removed-frame l n prev k h ne = ground arith

removed-free : (l n prev : ℕ) (h : Heap) → ((removed l n prev h).heads l).locked ≡ false
unfolding removed
removed-free l n prev h = ground arith

removed-writes :
    (l n prev : ℕ) (h : Heap)
    → ((removed l n prev h).heads l).write_ops ≡ ((h.heads l).write_ops + 1) % word64
unfolding removed
removed-writes l n prev h = ground arith

remove-locked :
    (fuel l n : ℕ) (h : Heap)
    → n ≢ 0
    → l ≢ 0
    → (h.nodes n).head ≡ l
    → (h.heads l).locked ≡ false
    → remove fuel n h
      ≡ remove_found l n (taken l h) (search_node fuel (taken l h) n ((taken l h).heads l).first 0)
unfolding remove
remove-locked fuel l n h ne_n ne_l mine free = ground arith

taken-first : (l : ℕ) (h : Heap) → ((taken l h).heads l).first ≡ (h.heads l).first
taken-first l h = ground arith

remove_found-true :
    (l n prev : ℕ) (h : Heap)
    → remove_found l n (taken l h) (some (true, prev)) ≡ some (ok, removed l n prev h)
unfolding removed
remove_found-true l n prev h = refl

module _ {h : Heap} {l : ℕ} {xs : List ℕ} (fuel n : ℕ) (is : IsList h l xs)
    (member : has n xs ≡ true) where
  ne : n ≢ 0
  ne = has-nonzero n l (h.heads l).first h.nodes xs is.chain member

  mine : (h.nodes n).head ≡ l
  mine = has-head n l (h.heads l).first h.nodes xs is.chain member

  pub remove-removed :
      length xs < fuel → remove fuel n h ≡ some (ok, removed l n (prev_of n 0 xs) h)
  remove-removed few =
      remove-locked fuel l n h ne is.not_null mine is.free
      ∙ ap (remove_found l n (taken l h)) (
          ap (λ p. search_node fuel (taken l h) n p 0) (taken-first l h)
          ∙ search_node-prev_of fuel l n (h.heads l).first 0 (taken l h) xs is.chain member few)
      ∙ remove_found-true l n (prev_of n 0 xs) h

  removed-IsList : IsList (removed l n (prev_of n 0 xs) h) l (erase n xs)
  removed-IsList = record {
    not_null = is.not_null;
    chain = removed-Chain l n h xs is.chain member;
    members = stays;
    free = removed-free l n (prev_of n 0 xs) h;
  }
    where
      stays :
          (m : ℕ) → ((removed l n (prev_of n 0 xs) h).nodes m).head ≡ l → has m (erase n xs) ≡ true
      stays m e = elim (Bool-cases (m == n)) [
        | inl same ↦
            let eq : m ≡ n = ground arith in
            let gone = ap (λ c. c.head) (removed_self l n (prev_of n 0 xs) h) in
            let e' = subst (λ k. ((removed l n (prev_of n 0 xs) h).nodes k).head ≡ l) eq e in
            absurd (is.not_null (sym e' ∙ gone))
        | inr other ↦
            let apart : m ≢ n = ground arith in
            has-erase_ne m n xs apart
              (is.members m (sym (removed-other l n (prev_of n 0 xs) m h apart) ∙ e))
      ]

  -- A node of a list in order that is not locked is removed: the call returns OK within the
  -- length of the list, the list stays in order without the node, is unlocked again and has
  -- counted one more write, and the node is in no list.
  pub remove-IsList :
      length xs < fuel
      → (h' : Heap) × (remove fuel n h ≡ some (ok, h'))
        × IsList h' l (erase n xs)
        × (h'.nodes n ≡ cleared)
        × ((h'.heads l).write_ops ≡ ((h.heads l).write_ops + 1) % word64)
  remove-IsList few = (
    removed l n (prev_of n 0 xs) h,
    remove-removed few,
    removed-IsList,
    removed_self l n (prev_of n 0 xs) h,
    removed-writes l n (prev_of n 0 xs) h,
  )

-- A node of no list is refused, whatever the lists are.
pub remove_alone :
    (fuel n : ℕ) (h : Heap) → n ≢ 0 → (h.nodes n).head ≡ 0 → remove fuel n h ≡ some (enotfound, h)
unfolding remove
remove_alone fuel n h ne alone = ground arith

-- LIBSRPC_LIST_FOREACH over a list in order ends and meets exactly its nodes, in order.
pub foreach-IsList :
    {h : Heap} {l : ℕ} {xs : List ℕ} (fuel : ℕ)
    → IsList h l xs
    → length xs < fuel
    → foreach fuel l h ≡ some xs
unfolding foreach
foreach-IsList {h} {l} {xs} fuel is few = walk-Chain fuel l (h.heads l).first h xs is.chain few
