-- ===== src/Queue/Find.antt =====
-- `lf_mpmc_queue_try_find_ptr` on a ring in order: whether the ring holds the pointer.
use simplerpc.Common.{
  ℕ, zero, suc, ◌+◌, ◌-◌, ◌%◌, ◌≤◌, ◌<◌, ◌≡◌, refl, ap, ◌∙◌, Bool, false, ◌||◌, List, [], ◌∷◌,
  length, get_or, drop, drop-cons, drop_all, word64, arith, ◌==◌, if◌then◌else◌, add64, ◌&&◌, not,
}
use native.Mathlib.Decide.{ℕ_discrete}
use simplerpc.Queue.{Queue, ok, not_found, index, holds, find_loop, try_find_ptr}
use simplerpc.Queue.Inv.{IsCapacity, Holds}

unfoldable pub contains : ℕ → List ℕ → Bool
contains x [] = false
contains x (y ∷ ys) = y == x || contains x ys

module _ {size start : ℕ} {xs : List ℕ} {q : Queue} (c : IsCapacity size)
    (h : Holds size start xs q) (whole : start + length xs < word64) where
  -- The test of the loop, at a position of the ring.
  holds-eq :
      (ptr p : ℕ)
      → start ≤ p
      → p < start + length xs
      → holds ptr p q ≡ (get_or xs (p - start) 0 == ptr)
  unfolding holds
  holds-eq ptr p lo hi =
      let at : index p q ≡ p % size = rw h.masked in
      let cell = ap q.buffer at ∙ h.published p lo hi in rw (cell) (ground (arith, h.tail_at))

  find_loop-contains :
      (ptr n p : ℕ)
      → start ≤ p
      → p + n ≡ start + length xs
      → find_loop n ptr p q ≡ (if contains ptr (drop (p - start) xs) then ok else not_found)
  unfolding find_loop contains
  find_loop-contains ptr zero p lo e = rw (drop_all (p - start) xs (omega arith))
  find_loop-contains ptr (suc n) p lo e =
      let next : suc p - start ≡ suc (p - start) = omega arith in
      let step : add64 p 1 ≡ suc p = omega arith in
      let rest = rw (next) at (find_loop-contains ptr n (suc p) (omega arith) (omega arith)) in
      rw (drop-cons (p - start) xs 0 (omega arith), step)
        (ground (arith, holds-eq ptr p lo (omega arith), rest))

  -- lf_mpmc_queue_try_find_ptr finds a pointer exactly when it is not NULL and the ring in
  -- order holds it, as long as fewer than 2 ^ 64 pointers have gone through the ring.
  pub try_find_ptr-contains :
      (ptr : ℕ)
      → try_find_ptr size ptr q ≡ (if not (ptr == 0) && contains ptr xs then ok else not_found)
  unfolding try_find_ptr
  try_find_ptr-contains ptr =
      let head_at : q.head ≡ start + length xs = omega (arith, h.head_at) in
      let tail_at : q.tail ≡ start = omega (arith, h.tail_at) in
      let at : start - start ≡ 0 = omega arith in
      let found = rw at at (find_loop-contains ptr (length xs) start (omega arith) refl) in
      let count : start + length xs - start ≡ length xs = omega arith in
      rw (head_at, tail_at, count)
        (elim (ℕ_discrete (length xs) 0) [
          | yes e ↦ ground (arith, drop_all 0 xs (omega arith))
          | no held ↦ ground (arith, found, h.room)
        ])
