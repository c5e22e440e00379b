-- ===== src/SpinList/Push.antt =====
-- `libsrpc_list_push_front` on a list in order.
use simplerpc.Common.{
  ℕ, ◌+◌, ◌%◌, ◌≡◌, refl, ◌≢◌, ap, ◌∙◌, true, false, some, List, [], ◌∷◌, ◌==◌, update, arith,
  word64, Bool-cases, inl, inr, sym, subst, fun_ext,
}
use simplerpc.SpinList.{Node, Head, Heap, ok, ealready, set_head, unlock, link_front, push_front}
use simplerpc.SpinList.Chain.{has, Chain, IsList, Chain-update}

abbrev pub taken : ℕ → Heap → Heap
taken l h = set_head l (record (h.heads l) { locked = true }) h

-- The heap after a push that succeeds.
pub pushed : ℕ → ℕ → Heap → Heap
unfolding unlock link_front
pushed l n h = unlock l (link_front l n (taken l h))

pub push_front-pushed :
    (l n : ℕ) (h : Heap)
    → l ≢ 0
    → n ≢ 0
    → (h.heads l).locked ≡ false
    → (h.nodes n).head ≡ 0
    → push_front l n h ≡ some (ok, pushed l n h)
unfolding push_front pushed
push_front-pushed l n h ne_l ne_n free alone = ground arith

not-has :
    (h : Heap) (l n p : ℕ) (xs : List ℕ)
    → l ≢ 0
    → (h.nodes n).head ≡ 0
    → Chain h.nodes l p xs
    → has n xs ≡ false
not-has h l n p [] ne alone ch = refl
not-has h l n p (x ∷ xs) ne alone (e, nz, fresh, mine, ch) =
    let rest = not-has h l n (h.nodes x).next xs ne alone ch in ground (arith, rest)

pushed-nodes :
    (l n : ℕ) (h : Heap)
    → (pushed l n h).nodes ≡ update h.nodes n (record { next = (h.heads l).first; head = l })
unfolding pushed
pushed-nodes l n h = ap (λ (f : ℕ). update h.nodes n (record { next = f; head = l })) (ground arith)

-- The list gets the node for its first, counts a write, and is not locked.
pub pushed-head :
    (l n : ℕ) (h : Heap)
    → (pushed l n h).heads l
      ≡ record { locked = false; first = n; write_ops = ((h.heads l).write_ops + 1) % word64 }
unfolding pushed
pushed-head l n h = ground arith

pushed-head_ne : (l n k : ℕ) (h : Heap) → k ≢ l → (pushed l n h).heads k ≡ h.heads k
unfolding pushed
pushed-head_ne l n k h ne = ground arith

module _ {h : Heap} {l : ℕ} {xs : List ℕ} (n : ℕ) (is : IsList h l xs) (ne : n ≢ 0)
    (alone : (h.nodes n).head ≡ 0) where
  fresh : has n xs ≡ false
  fresh = not-has h l n (h.heads l).first xs is.not_null alone is.chain

  pushed-members : (m : ℕ) → ((pushed l n h).nodes m).head ≡ l → has m (n ∷ xs) ≡ true
  pushed-members m e = elim (Bool-cases (m == n)) [
    | inl same ↦ rw same
    | inr other ↦ let old = rw (pushed-nodes l n h, other) at e in rw other (is.members m old)
  ]

  pushed-Chain : Chain (pushed l n h).nodes l n (n ∷ xs)
  pushed-Chain =
      let c : Node = record { next = (h.heads l).first; head = l } in
      let self : update h.nodes n c n ≡ c = ground arith in
      let tail : Chain (update h.nodes n c) l (update h.nodes n c n).next xs =
        subst (λ m. Chain (update h.nodes n c) l m xs) (sym (ap (λ m. m.next) self))
          (Chain-update h.nodes l (h.heads l).first n c xs is.chain fresh) in
      subst (λ nodes. Chain nodes l n (n ∷ xs)) (sym (pushed-nodes l n h))
        (refl, ne, fresh, ap (λ m. m.head) self, tail)

  pushed-IsList : IsList (pushed l n h) l (n ∷ xs)
  pushed-IsList = record {
    not_null = is.not_null;
    chain =
        subst (λ m. Chain (pushed l n h).nodes l m (n ∷ xs))
          (sym (ap (λ c. c.first) (pushed-head l n h))) pushed-Chain;
    members = pushed-members;
    free = ap (λ c. c.locked) (pushed-head l n h);
  }

  -- A node that is in no list, pushed to a list in order that is not locked, becomes its first
  -- node: the list stays in order, is unlocked again, and has counted one more write.
  pub push_front-IsList :
      (h' : Heap) × (push_front l n h ≡ some (ok, h'))
      × IsList h' l (n ∷ xs)
      × ((h'.heads l).write_ops ≡ ((h.heads l).write_ops + 1) % word64)
  push_front-IsList = (
    pushed l n h,
    push_front-pushed l n h is.not_null ne is.free alone,
    pushed-IsList,
    ap (λ c. c.write_ops) (pushed-head l n h),
  )

  -- A push that succeeds leaves every other list in order with the nodes that it had.
  pub push_front-frame :
      {k : ℕ} {ys : List ℕ} {h' : Heap}
      → k ≢ l
      → IsList h k ys
      → push_front l n h ≡ some (ok, h')
      → IsList h' k ys
  push_front-frame {k} {ys} {h'} apart other done = subst (λ g. IsList g k ys) same kept
    where
      same : pushed l n h ≡ h'
      same =
          let e = sym (push_front-pushed l n h is.not_null ne is.free alone) ∙ done in ground arith

      out : has n ys ≡ false
      out = not-has h k n (h.heads k).first ys other.not_null alone other.chain

      kept : IsList (pushed l n h) k ys
      kept = record {
        not_null = other.not_null;
        chain = rw (pushed-head_ne l n k h apart) (
            subst (λ nodes. Chain nodes k (h.heads k).first ys) (sym (pushed-nodes l n h))
              (Chain-update h.nodes k (h.heads k).first n _ ys other.chain out));
        members = λ m e. other.members m (old m e);
        free = rw (pushed-head_ne l n k h apart) other.free;
      }
        where
          old : (m : ℕ) → ((pushed l n h).nodes m).head ≡ k → (h.nodes m).head ≡ k
          old m e =
              let e' = subst (λ nodes. (nodes m).head ≡ k) (pushed-nodes l n h) e in ground arith

-- Taking the lock and giving it back changes nothing.
pub unlock-taken : (l : ℕ) (h : Heap) → (h.heads l).locked ≡ false → unlock l (taken l h) ≡ h
unfolding unlock
unlock-taken l h free = ap (λ (f : ℕ → Head). record h { heads = f }) (fun_ext (λ k. ground arith))

-- A node that is in a list already is refused with EALREADY by a list that is not locked, and the
-- heap is as it was.
pub push_front-member :
    (l n : ℕ) (h : Heap)
    → l ≢ 0
    → n ≢ 0
    → (h.heads l).locked ≡ false
    → (h.nodes n).head ≢ 0
    → push_front l n h ≡ some (ealready, h)
unfolding push_front
push_front-member l n h ne_l ne_n free member = let same = unlock-taken l h free in ground arith
