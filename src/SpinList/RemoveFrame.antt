-- ===== src/SpinList/RemoveFrame.antt =====
-- What `libsrpc_list_remove` leaves alone.
use simplerpc.Common.{
  ℕ, zero, suc, ◌<◌, ◌≡◌, refl, ◌≢◌, ap, ◌∙◌, true, false, some, List, [], ◌∷◌, length, ◌==◌, arith,
  Bool-cases, inl, inr, sym, subst,
}
use simplerpc.SpinList.{Node, Heap, ok, remove}
use simplerpc.SpinList.Chain.{has, Chain, IsList, Chain-update, has-tail}
use simplerpc.SpinList.Erase.{prev_of, has-prev_of}
use simplerpc.SpinList.Remove.{
  removed, cleared, removed-nodes_first, removed-nodes, removed-frame, removed_self, removed-other,
  has-head, remove-removed,
}

has-other :
    (a k p : ℕ) (nodes : ℕ → Node) (ys : List ℕ)
    → Chain nodes k p ys
    → (nodes a).head ≢ k
    → has a ys ≡ false
has-other a k p nodes [] ch ne = refl
has-other a k p nodes (y ∷ ys) (e, nz, fresh, mine, ch) ne =
    let rest = has-other a k (nodes y).next nodes ys ch ne in ground (arith, rest)

removed-Chain_other :
    (l n prev k p : ℕ) (h : Heap) (ys : List ℕ)
    → Chain h.nodes k p ys
    → (h.nodes n).head ≢ k
    → (prev ≢ 0 → (h.nodes prev).head ≢ k)
    → Chain (removed l n prev h).nodes k p ys
removed-Chain_other l n zero k p h ys ch apart other =
    subst (λ nodes. Chain nodes k p ys) (sym (removed-nodes_first l n h))
      (Chain-update h.nodes k p n cleared ys ch (has-other n k p h.nodes ys ch apart))
removed-Chain_other l n (suc q) k p h ys ch apart other =
    subst (λ nodes. Chain nodes k p ys) (sym (removed-nodes l n (suc q) h (omega arith)))
      (Chain-update _ k p n cleared ys
        (Chain-update h.nodes k p (suc q) (record (h.nodes (suc q)) { next = (h.nodes n).next }) ys
          ch (has-other (suc q) k p h.nodes ys ch (other (omega arith))))
        (has-other n k p h.nodes ys ch apart))

-- A removal that succeeds leaves every other list in order with the nodes that it had.
pub remove-frame :
    {h : Heap} {l : ℕ} {xs : List ℕ} {k : ℕ} {ys : List ℕ} {h' : Heap} (fuel n : ℕ)
    → IsList h l xs
    → has n xs ≡ true
    → length xs < fuel
    → k ≢ l
    → IsList h k ys
    → remove fuel n h ≡ some (ok, h')
    → IsList h' k ys
remove-frame {h} {l} {xs} {k} {ys} {h'} fuel n is member few apart other done =
    subst (λ g. IsList g k ys) same kept
  where
    q : ℕ
    q = prev_of n 0 xs

    same : removed l n q h ≡ h'
    same = let e = sym (remove-removed fuel n is member few) ∙ done in ground arith

    mine : (h.nodes n).head ≡ l
    mine = has-head n l (h.heads l).first h.nodes xs is.chain member

    before : q ≢ 0 → (h.nodes q).head ≢ k
    before ne e =
        let inside = has-tail q 0 xs (has-prev_of n 0 xs member) ne in
        let at = has-head q l (h.heads l).first h.nodes xs is.chain inside in apart (sym e ∙ at)

    kept : IsList (removed l n q h) k ys
    kept = record {
      not_null = other.not_null;
      chain =
          subst (λ p. Chain (removed l n q h).nodes k p ys)
            (sym (ap (λ c. c.first) (removed-frame l n q k h apart)))
            (removed-Chain_other l n q k (h.heads k).first h ys other.chain
              (λ e. apart (sym e ∙ mine)) before);
      members = stays;
      free = ap (λ c. c.locked) (removed-frame l n q k h apart) ∙ other.free;
    }
      where
        stays : (m : ℕ) → ((removed l n q h).nodes m).head ≡ k → has m ys ≡ true
        stays m e = elim (Bool-cases (m == n)) [
          | inl hit ↦
              let eq : m ≡ n = ground arith in
              let gone = ap (λ c. c.head) (removed_self l n q h) in
              let e' = subst (λ j. ((removed l n q h).nodes j).head ≡ k) eq e in
              absurd (other.not_null (sym e' ∙ gone))
          | inr miss ↦ other.members m (sym (removed-other l n q m h (ground arith)) ∙ e)
        ]
