-- ===== src/Queue/Threads/Safe.antt =====
-- src/lf_mpmc_queue.c: any number of threads at one ring, in any interleaving.
use simplerpc.Common.{
  ℕ, ◌+◌, ◌%◌, ◌^◌, ◌≤◌, ◌<◌, ◌≡◌, ◌≢◌, refl, ap, subst, Option, none, some, inl, inr, ◌⊎◌, arith,
}
use native.Mathlib.Nat.{mod-lt, mod-le}
use simplerpc.Queue.{Queue, init, init_cell}
use simplerpc.Queue.Inv.{IsCapacity}
use simplerpc.Queue.Threads.{
  Stage, outside, enq_at, enq_saw, enq_won, enq_wrote, deq_at, deq_saw, deq_won, deq_read,
  delivered, advance, System, after, execute, Step, enqueue, dequeue, access, Reach, start, later,
}
use simplerpc.Queue.Threads.Order.{seq_of, Knows, filling, taking, Inv, apart, stay}
use simplerpc.Queue.Threads.Kept.{execute-Inv}

-- The ring as lf_mpmc_queue_init makes it, with every thread outside a call.
abbrev pub fresh : (size : ℕ) → Queue → System
fresh size q = record { ring = init size q; stage = λ i. outside; wins = 0; given = λ p. 0 }

-- The position whose cell a thread has for itself.
abbrev pub owned : Stage → Option ℕ
owned (enq_won x p) = some p
owned (enq_wrote x p) = some p
owned (deq_won p) = some p
owned (deq_read p x) = some p
owned outside = none
owned (enq_at x p) = none
owned (enq_saw x p v) = none
owned (deq_at p) = none
owned (deq_saw p v) = none
owned (delivered p x) = none

module _ (size : ℕ) (c : IsCapacity size) where
  fresh-Inv : (q : Queue) → Inv size (fresh size q)
  unfolding init init_cell
  fresh-Inv q = record {
    ring = record {
      masked = omega (arith, c.two_le);
      head_at = refl;
      tail_le = omega arith;
      words = λ p. ground (arith, c.le_half, mod-lt p {m = size} (omega (arith, c.two_le)));
      published = λ p at.
          ground (arith, c.two_le, mod-lt p {m = size} (omega (arith, c.two_le)), mod-le p size);
    };
    knows = λ i. tt;
    one_fills = λ a b p ne fa fb. cc;
    one_takes = λ a b p ne fa fb. cc;
  }

  wins_after : (i : ℕ) (s : System) (st : Stage) (q : Queue) → s.wins ≤ (after i s (st, q)).wins
  wins_after i s (enq_won x p) q = omega arith
  wins_after i s outside q = omega arith
  wins_after i s (enq_at x p) q = omega arith
  wins_after i s (enq_saw x p v) q = omega arith
  wins_after i s (enq_wrote x p) q = omega arith
  wins_after i s (deq_at p) q = omega arith
  wins_after i s (deq_saw p v) q = omega arith
  wins_after i s (deq_won p) q = omega arith
  wins_after i s (deq_read p x) q = omega arith
  wins_after i s (delivered p x) q = omega arith

  wins-Step : {t u : System} → Step size t u → t.wins ≤ u.wins
  unfolding execute
  wins-Step (enqueue i x over) = omega arith
  wins-Step (dequeue i over) = omega arith
  wins-Step {t} (access i spurious) =
      let next = advance size spurious (t.stage i) t.ring in wins_after i t next.0 next.1

  step-Inv : {t u : System} → Inv size t → t.wins + size < 2 ^ 63 → Step size t u → Inv size u
  step-Inv {t} inv bound (enqueue i x over) =
      stay size c t i (enq_at x t.ring.head) inv (omega (arith, inv.ring.head_at)) (inl refl)
        (inl refl)
  step-Inv {t} inv bound (dequeue i over) =
      stay size c t i (deq_at t.ring.tail) inv (omega arith) (inl refl) (inl refl)
  step-Inv {t} inv bound (access i spurious) = execute-Inv size c t i spurious inv bound

  reach-Inv :
      (q : Queue) {t : System} → Reach size (fresh size q) t → t.wins + size < 2 ^ 63 → Inv size t
  reach-Inv q start bound = fresh-Inv q
  reach-Inv q (later r st) bound =
      let before = wins-Step st in
      step-Inv (reach-Inv q r (omega (arith, before, bound))) (omega (arith, before, bound)) st

  -- The owner of a cell fills it or takes from it, and the sequence number says which.
  owned_kind :
      (s : System) (st : Stage) (p : ℕ)
      → Knows size s st
      → owned st ≡ some p
      → ((filling st ≡ some p) × (seq_of size s p ≡ p))
        ⊎ ((taking st ≡ some p) × (seq_of size s p ≡ p + 1))
  owned_kind s outside p h o = cc
  owned_kind s (enq_at x q) p h o = cc
  owned_kind s (enq_saw x q v) p h o = cc
  owned_kind s (enq_won x q) p h o = inl (o, ground arith)
  owned_kind s (enq_wrote x q) p h o = inl (o, ground arith)
  owned_kind s (deq_at q) p h o = cc
  owned_kind s (deq_saw q v) p h o = cc
  owned_kind s (deq_won q) p h o = inr (o, ground arith)
  owned_kind s (deq_read q x) p h o = inr (o, ground arith)
  owned_kind s (delivered q x) p h o = cc

  module _ (q : Queue) (t : System) (reached : Reach size (fresh size q) t)
      (bound : t.wins + size < 2 ^ 63) where
    in_order : Inv size t
    in_order = reach-Inv q reached bound

    -- However any number of threads enqueue and dequeue at one ring, for a capacity that is a
    -- power of two above one and while fewer than 2 ^ 63 positions less a lap have been won:
    -- two threads that have won positions and have not given them on yet are at different
    -- cells, so no two threads ever access the pointer of one cell at a time.
    pub owned_apart :
        (i j k p : ℕ)
        → i ≢ j
        → owned (t.stage i) ≡ some k
        → owned (t.stage j) ≡ some p
        → k % size ≢ p % size
    owned_apart i j k p ne mine other same = ground (
      arith,
      owned_kind t (t.stage i) k (in_order.knows i) mine,
      owned_kind t (t.stage j) p (in_order.knows j) other,
      in_order.one_fills i j k ne,
      in_order.one_takes i j k ne,
      apart size c k p,
      apart size c p k,
    )

    -- However any number of threads enqueue and dequeue at one ring, access by access and
    -- with spurious failures of the swaps, for a capacity that is a power of two above one
    -- and while fewer than 2 ^ 63 positions less a lap have been won: a thread that comes
    -- back from a dequeue with a position has the pointer with which that position was won
    -- for an enqueue, whole and published, and tail has passed the position and not passed
    -- head.
    pub delivered-given :
        (i p x : ℕ)
        → t.stage i ≡ delivered p x
        → (x ≡ t.given p) × (p < t.ring.tail) × (t.ring.tail ≤ t.ring.head)
    delivered-given i p x e =
        let mine : Knows size t (delivered p x) = subst (Knows size t) e (in_order.knows i) in
        (mine.1, mine.0, omega (arith, in_order.ring.tail_le, in_order.ring.head_at))

    pub delivered_once :
        (i j k p x y : ℕ) → i ≢ j → t.stage i ≡ delivered k x → t.stage j ≡ delivered p y → k ≢ p
    delivered_once i j k p x y ne mine other same =
        ground (arith, in_order.one_takes i j k ne, ap taking mine, ap taking other)
