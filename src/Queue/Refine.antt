-- ===== src/Queue/Refine.antt =====
-- The ring of cells behaves as the bounded queue of the pointers that it holds.
use simplerpc.Common.{
  ℕ, suc, ◌<◌, ◌≡◌, refl, Bool, false, some, List, [], ◌∷◌, length, lt→ltb, ge→ltb, arith,
}
use native.Mathlib.Decide.{dec_lt}
use native.Mathlib.Nat.{mod-eq_of_lt}
use simplerpc.Queue.{Queue, init, init_cell, publish, release, try_enqueue, try_dequeue}
use simplerpc.Queue.Inv.{IsCapacity, Holds}
use simplerpc.Queue.Spec.{push, pop}
use simplerpc.Queue.Enqueue.{enqueue_loop-room, publish-Holds, try_enqueue-full}
use simplerpc.Queue.Dequeue.{dequeue_loop-held, try_dequeue-empty, release-Holds}

-- lf_mpmc_queue_init makes an empty ring in order of the given capacity, whatever the memory held
-- before.
pub init-Holds : (size : ℕ) (q : Queue) → IsCapacity size → Holds size 0 [] (init size q)
unfolding init init_cell
init-Holds size q c = record {
  head_at = omega arith;
  tail_at = omega arith;
  masked = omega (arith, c.two_le);
  room = omega arith;
  published = λ p lo hi. absurd (omega arith);
  vacant = λ p lo hi. ground (arith, c.le_half, mod-eq_of_lt {n = p} {m = size} (omega arith));
}

module _ {size start : ℕ} {q : Queue} (fuel r : ℕ) (spurious : ℕ → Bool) (c : IsCapacity size)
    (few : r < fuel) (fine : spurious r ≡ false) where
  -- On a ring in order that holds the list xs, lf_mpmc_queue_try_enqueue answers as the bounded
  -- queue does (OK below the capacity, FULL at it) and leaves a ring in order that holds the
  -- list of that queue, if one of its attempts is not spoiled by a spurious failure of the
  -- swap.
  pub try_enqueue_refines :
      (x : ℕ) (xs : List ℕ)
      → Holds size start xs q
      → (q' : Queue) × (try_enqueue fuel spurious x q ≡ some ((push size x xs).0, q'))
        × Holds size start (push size x xs).1 q'
  unfolding push try_enqueue
  try_enqueue_refines x xs h = elim (dec_lt (length xs) size) [
    | yes lt ↦ rw (lt→ltb (length xs) size lt) (
      publish q.head x q,
      enqueue_loop-room c h x fuel r spurious lt few fine,
      publish-Holds c h x lt,
    )
    | no ge ↦
        rw (ge→ltb (length xs) size (omega arith))
          (q, try_enqueue-full c h x fuel spurious (omega (arith, h.room)) (omega arith), h)
  ]

  -- On a ring in order that holds the list xs, lf_mpmc_queue_try_dequeue answers and delivers
  -- what the queue does (the oldest pointer, or EMPTY) and leaves a ring in order that holds
  -- the rest, if one of its attempts is not spoiled by a spurious failure of the swap.
  pub try_dequeue_refines :
      (xs : List ℕ)
      → Holds size start xs q
      → (q' : Queue) × (start' : ℕ) × (try_dequeue size fuel spurious q
          ≡ some ((pop xs).0, (pop xs).1, q'))
        × Holds size start' (pop xs).2 q'
  unfolding pop try_dequeue
  try_dequeue_refines [] h = (q, start, try_dequeue-empty c h fuel spurious refl (omega arith), h)
  try_dequeue_refines (y ∷ ys) h = (
    release size q.tail q,
    suc start,
    dequeue_loop-held c h fuel r spurious (omega arith) few fine,
    release-Holds c h,
  )
