-- ===== src/Queue/Threads/Kept.antt =====
-- src/lf_mpmc_queue.c: every access of a thread keeps the ring in order.
use simplerpc.Common.{
  ℕ, ◌+◌, ◌%◌, ◌^◌, ◌<◌, ◌≡◌, refl, sym, subst, Bool, not, ◌&&◌, inl, inr, Bool-cases, ◌==◌, add64,
  sub64, arith,
}
use simplerpc.Queue.{index, negative}
use simplerpc.Queue.Inv.{IsCapacity}
use simplerpc.Queue.Threads.{
  Stage, outside, enq_at, enq_saw, enq_won, enq_wrote, deq_at, deq_saw, deq_won, deq_read,
  delivered, write_item, write_seq, advance, System, after, execute,
}
use simplerpc.Queue.Threads.Order.{seq_of, item_of, Knows, Inv, stay}
use simplerpc.Queue.Threads.Head.{won-Inv, wrote-Inv, shown-Inv}
use simplerpc.Queue.Threads.Tail.{taken-Inv, freed-Inv}

module _ (size : ℕ) (c : IsCapacity size) (s : System) (i : ℕ) (spurious : Bool) (inv : Inv size s)
    (bound : s.wins + size < 2 ^ 63) where
  stage-Knows : (st : Stage) → s.stage i ≡ st → Knows size s st
  stage-Knows st e = subst (Knows size s) e (inv.knows i)

  -- The mask gives the cell of a position.
  at_cell : (P : ℕ → Type 0) (p : ℕ) → P (p % size) → P (index p s.ring)
  at_cell P p h = subst (λ m. P (p % m)) (sym inv.ring.masked) h

  saw-Inv :
      (x p v : ℕ)
      → s.stage i ≡ enq_saw x p v
      → Inv size (after i s (advance size spurious (enq_saw x p v) s.ring))
  unfolding advance
  saw-Inv x p v e =
      let mine : Knows size s (enq_saw x p v) = stage-Knows _ e in
      (elim (Bool-cases (sub64 v p == 0)) [
        | inl z ↦ rw z (elim (Bool-cases ((s.ring.head == p) && not spurious)) [
          | inl w ↦ rw w (
              won-Inv size c s i x p inv bound (ground (arith, inv.ring.head_at))
                (ground (arith, mine, inv.ring.head_at)) (rw e refl))
          | inr l ↦ rw l (
              stay size c s i (enq_at x s.ring.head) inv (omega (arith, inv.ring.head_at))
                (inl refl) (inl refl))
        ])
        | inr nz ↦ rw nz (elim (Bool-cases (negative (sub64 v p))) [
          | inl f ↦ rw f (stay size c s i outside inv tt (inl refl) (inl refl))
          | inr g ↦ rw g (
              stay size c s i (enq_at x s.ring.head) inv (omega (arith, inv.ring.head_at))
                (inl refl) (inl refl))
        ])
      ])

  seen-Inv :
      (p v : ℕ)
      → s.stage i ≡ deq_saw p v
      → Inv size (after i s (advance size spurious (deq_saw p v) s.ring))
  unfolding advance
  seen-Inv p v e =
      let mine : Knows size s (deq_saw p v) = stage-Knows _ e in
      (elim (Bool-cases (sub64 v (add64 p 1) == 0)) [
        | inl z ↦ rw z (elim (Bool-cases ((s.ring.tail == p) && not spurious)) [
          | inl w ↦ rw w (
              taken-Inv size c s i 0 p inv bound (ground arith)
                (ground (arith, mine, inv.ring.tail_le)) (rw e refl))
          | inr l ↦
              rw l (stay size c s i (deq_at s.ring.tail) inv (omega arith) (inl refl) (inl refl))
        ])
        | inr nz ↦ rw nz (elim (Bool-cases (negative (sub64 v (add64 p 1)))) [
          | inl f ↦ rw f (stay size c s i outside inv tt (inl refl) (inl refl))
          | inr g ↦
              rw g (stay size c s i (deq_at s.ring.tail) inv (omega arith) (inl refl) (inl refl))
        ])
      ])

  advance-Inv :
      (st : Stage) → s.stage i ≡ st → Inv size (after i s (advance size spurious st s.ring))
  unfolding advance
  advance-Inv outside e = (stay size c s i outside inv tt (inl refl) (inl refl))
  advance-Inv (enq_at x p) e =
      at_cell (λ k. Inv size (after i s (enq_saw x p (s.ring.buffer k).seq, s.ring))) p
        (stay size c s i (enq_saw x p (seq_of size s p)) inv
          (stage-Knows _ e, inv.ring.words p, λ at le. at) (inl refl) (inl refl))
  advance-Inv (enq_saw x p v) e = saw-Inv x p v e
  advance-Inv (enq_won x p) e =
      at_cell (λ k. Inv size (after i s (enq_wrote x p, write_item k x s.ring))) p
        (wrote-Inv size c s i x p inv bound e)
  advance-Inv (enq_wrote x p) e =
      at_cell (λ k. Inv size (after i s (outside, write_seq k (add64 p 1) s.ring))) p
        (shown-Inv size c s i x p inv bound e)
  advance-Inv (deq_at p) e =
      at_cell (λ k. Inv size (after i s (deq_saw p (s.ring.buffer k).seq, s.ring))) p
        (stay size c s i (deq_saw p (seq_of size s p)) inv
          (stage-Knows _ e, inv.ring.words p, λ at le. at) (inl refl) (inl refl))
  advance-Inv (deq_saw p v) e = seen-Inv p v e
  advance-Inv (deq_won p) e =
      let mine : Knows size s (deq_won p) = stage-Knows _ e in
      at_cell (λ k. Inv size (after i s (deq_read p (s.ring.buffer k).item, s.ring))) p
        (stay size c s i (deq_read p (item_of size s p)) inv
          (mine.0, mine.1, (inv.ring.published p mine.1).1) (inl refl) (inr (rw e refl)))
  advance-Inv (deq_read p x) e =
      at_cell (λ k. Inv size (after i s (delivered p x, write_seq k (add64 p size) s.ring))) p
        (freed-Inv size c s i x p inv bound e)
  advance-Inv (delivered p x) e =
      stay size c s i (delivered p x) inv (stage-Knows _ e) (inl refl) (inr (rw e refl))

  pub execute-Inv : Inv size (execute size i spurious s)
  unfolding execute
  execute-Inv = advance-Inv (s.stage i) refl
