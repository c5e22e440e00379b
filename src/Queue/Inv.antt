-- ===== src/Queue/Inv.antt =====
-- When a ring of cells is in order: the lap of each cell, by positions that do not wrap.
use simplerpc.Common.{ℕ, ◌+◌, ◌-◌, ◌*◌, ◌%◌, ◌^◌, ◌≤◌, ◌<◌, ◌≡◌, List, length, get_or, word64}
use simplerpc.Queue.{Queue}

-- A power of two above one divides `2 ^ 64`, and the signed difference can show a full ring.
pub record IsCapacity (size : ℕ) : Type 0 where
  pub laps : ℕ
  pub divides : size * laps ≡ word64
  pub two_le : 2 ≤ size
  pub le_half : size ≤ 2 ^ 63

-- `q` holds the pointers `xs`, oldest first; `start` counts the dequeues ever made.
pub record Holds (size start : ℕ) (xs : List ℕ) (q : Queue) : Type 0 where
  pub head_at : q.head ≡ (start + length xs) % word64
  pub tail_at : q.tail ≡ start % word64
  pub masked : q.mask + 1 ≡ size
  pub room : length xs ≤ size
  pub published :
      (p : ℕ)
      → start ≤ p
      → p < start + length xs
      → q.buffer (p % size) ≡ record { seq = (p + 1) % word64; item = get_or xs (p - start) 0 }
  pub vacant :
      (p : ℕ) → start + length xs ≤ p → p < start + size → (q.buffer (p % size)).seq ≡ p % word64
