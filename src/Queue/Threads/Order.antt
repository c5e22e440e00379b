-- ===== src/Queue/Threads/Order.antt =====
-- src/lf_mpmc_queue.c: what holds of the ring and of the threads between two accesses.
use simplerpc.Common.{
  ℕ, ◌+◌, ◌%◌, ◌≤◌, ◌<◌, ◌≡◌, ◌≢◌, Option, none, some, update, word64, arith, mod-ne, ◌⊎◌,
}
use simplerpc.Queue.Inv.{IsCapacity}
use simplerpc.Queue.Threads.{
  Stage, outside, enq_at, enq_saw, enq_won, enq_wrote, deq_at, deq_saw, deq_won, deq_read,
  delivered, System,
}

-- The sequence number and the pointer of the cell of a position.
abbrev pub seq_of : (size : ℕ) → System → ℕ → ℕ
seq_of size s p = (s.ring.buffer (p % size)).seq

abbrev pub item_of : (size : ℕ) → System → ℕ → ℕ
item_of size s p = (s.ring.buffer (p % size)).item

-- What a thread knows where it stands.
abbrev pub Knows : (size : ℕ) → System → Stage → Type 0
Knows size s outside = Unit
Knows size s (enq_at x p) = p ≤ s.wins
Knows size s (enq_saw x p v) =
    (p ≤ s.wins) × (v < word64) × (v ≡ p → s.wins ≤ p → seq_of size s p ≡ p)
Knows size s (enq_won x p) =
    (p < s.wins) × (s.ring.tail ≤ p) × (seq_of size s p ≡ p) × (s.given p ≡ x)
Knows size s (enq_wrote x p) =
    (p < s.wins)
    × (s.ring.tail ≤ p)
    × (seq_of size s p ≡ p)
    × (s.given p ≡ x)
    × (item_of size s p ≡ x)
Knows size s (deq_at p) = p ≤ s.ring.tail
Knows size s (deq_saw p v) =
    (p ≤ s.ring.tail) × (v < word64) × (v ≡ p + 1 → s.ring.tail ≤ p → seq_of size s p ≡ p + 1)
Knows size s (deq_won p) = (p < s.ring.tail) × (seq_of size s p ≡ p + 1)
Knows size s (deq_read p x) = (p < s.ring.tail) × (seq_of size s p ≡ p + 1) × (x ≡ s.given p)
Knows size s (delivered p x) = (p < s.ring.tail) × (x ≡ s.given p)

-- The position that a thread has won for an enqueue and has not published yet, and the one that it has
-- won for a dequeue.
abbrev pub filling : Stage → Option ℕ
filling outside = none
filling (enq_at x p) = none
filling (enq_saw x p v) = none
filling (enq_won x p) = some p
filling (enq_wrote x p) = some p
filling (deq_at p) = none
filling (deq_saw p v) = none
filling (deq_won p) = none
filling (deq_read p x) = none
filling (delivered p x) = none

abbrev pub taking : Stage → Option ℕ
taking outside = none
taking (enq_at x p) = none
taking (enq_saw x p v) = none
taking (enq_won x p) = none
taking (enq_wrote x p) = none
taking (deq_at p) = none
taking (deq_saw p v) = none
taking (deq_won p) = some p
taking (deq_read p x) = some p
taking (delivered p x) = some p

-- The ring is in order.
pub record Ordered (size : ℕ) (s : System) : Type 0 where
  pub masked : s.ring.mask + 1 ≡ size
  pub head_at : s.ring.head ≡ s.wins
  pub tail_le : s.ring.tail ≤ s.wins
  pub words : (p : ℕ) → seq_of size s p < word64
  pub published : (p : ℕ) → seq_of size s p ≡ p + 1 → (p < s.wins) × (item_of size s p ≡ s.given p)

-- The threads know what they have to, and no two have won the same position.
pub record Inv (size : ℕ) (s : System) : Type 0 where
  pub ring : Ordered size s
  pub knows : (i : ℕ) → Knows size s (s.stage i)
  pub one_fills : (i j p : ℕ) → i ≢ j → filling (s.stage i) ≡ some p → filling (s.stage j) ≢ some p
  pub one_takes : (i j p : ℕ) → i ≢ j → taking (s.stage i) ≡ some p → taking (s.stage j) ≢ some p

module _ (size : ℕ) (c : IsCapacity size) where
  -- Neighbours lie in different cells.
  pub apart : (p q : ℕ) → q ≡ p + 1 → q % size ≢ p % size
  apart p q e = mod-ne size p q (omega arith) (omega (arith, c.two_le))

  -- The next position of a cell is a lap later.
  pub lap_apart : (p q : ℕ) → q ≡ p + size → (k : ℕ) → k + 1 ≡ q → k % size ≢ p % size
  lap_apart p q e k l = mod-ne size p k (omega (arith, c.two_le)) (omega (arith, c.two_le))

  -- A step that changes no more than the stage of the thread.
  module _ (s : System) (i : ℕ) (st : Stage) (inv : Inv size s) where
    pub stay :
        Knows size s st
        → (filling st ≡ none) ⊎ (filling st ≡ filling (s.stage i))
        → (taking st ≡ none) ⊎ (taking st ≡ taking (s.stage i))
        → Inv size (record s { stage = update s.stage i st })
    stay k f t = record {
      ring = record {
        masked = inv.ring.masked;
        head_at = inv.ring.head_at;
        tail_le = inv.ring.tail_le;
        words = inv.ring.words;
        published = inv.ring.published;
      };
      knows = λ j. ground (arith, k, inv.knows j);
      one_fills = λ a b p ne fa fb. ground (arith, inv.one_fills a b p ne);
      one_takes = λ a b p ne fa fb. ground (arith, inv.one_takes a b p ne);
    }
