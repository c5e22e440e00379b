-- ===== src/Queue/Run.antt =====
-- Sequences of calls: what one thread sees of the ring, and what it would see of the queue.
use simplerpc.Common.{ℕ, ◌<◌, ◌≡◌, refl, Bool, false, Option, none, some, List, [], ◌∷◌}
use simplerpc.Queue.{Queue, Result, try_enqueue, try_dequeue}
use simplerpc.Queue.Inv.{IsCapacity, Holds}
use simplerpc.Queue.Spec.{push, pop}
use simplerpc.Queue.Refine.{try_enqueue_refines, try_dequeue_refines}

-- A call, with the retries that it is given and the attempts whose swap fails for no reason.
pub data Call : Type 0 where
  enqueue : ℕ → (ℕ → Bool) → ℕ → Call
  dequeue : ℕ → (ℕ → Bool) → Call

abbrev pub Reply : Type 0
Reply = Result × Option ℕ

-- Among the attempts of each call is one that is not spoiled.
abbrev pub Lucky : List Call → Type 0
Lucky [] = Unit {0}
Lucky (enqueue fuel spurious x ∷ calls) =
    ((r : ℕ) × (r < fuel) × (spurious r ≡ false)) × Lucky calls
Lucky (dequeue fuel spurious ∷ calls) = ((r : ℕ) × (r < fuel) × (spurious r ≡ false)) × Lucky calls

abbrev cons_reply : Reply → Option (List Reply) → Option (List Reply)
cons_reply r none = none
cons_reply r (some rs) = some (r ∷ rs)

-- The replies of the ring; `none` if some call ran out of its retries.
unfoldable pub run : (size : ℕ) → List Call → Queue → Option (List Reply)
run size [] q = some []
run size (enqueue fuel spurious x ∷ calls) q = elim (try_enqueue fuel spurious x q) [
  | none ↦ none
  | some (r, q') ↦ cons_reply (r, none) (run size calls q')
]
run size (dequeue fuel spurious ∷ calls) q = elim (try_dequeue size fuel spurious q) [
  | none ↦ none
  | some (r, out, q') ↦ cons_reply (r, out) (run size calls q')
]

-- The replies of the queue.
unfoldable pub run_spec : (size : ℕ) → List Call → List ℕ → List Reply
run_spec size [] xs = []
run_spec size (enqueue fuel spurious x ∷ calls) xs =
    ((push size x xs).0, none) ∷ run_spec size calls (push size x xs).1
run_spec size (dequeue fuel spurious ∷ calls) xs =
    ((pop xs).0, (pop xs).1) ∷ run_spec size calls (pop xs).2

-- No sequence of calls of try_enqueue and try_dequeue tells a ring from the bounded
-- first-in-first-out queue of the pointers that it holds: every result and every delivered
-- pointer is the same, for a capacity that is a power of two above one, if each call has an
-- attempt whose weak compare-and-swap does not fail spuriously.
pub run_refines :
    {size : ℕ} (start : ℕ) (calls : List Call) (xs : List ℕ) (q : Queue)
    → IsCapacity size
    → Lucky calls
    → Holds size start xs q
    → run size calls q ≡ some (run_spec size calls xs)
unfolding run run_spec
run_refines start [] xs q c lucky h = refl
run_refines {size} start (enqueue fuel spurious x ∷ calls) xs q c ((r, few, fine), lucky) h =
    let (q', step, h') = try_enqueue_refines fuel r spurious c few fine x xs h in
    rw (step, run, run_refines start calls (push size x xs).1 q' c lucky h')
run_refines {size} start (dequeue fuel spurious ∷ calls) xs q c ((r, few, fine), lucky) h =
    let (q', start', step, h') = try_dequeue_refines fuel r spurious c few fine xs h in
    rw (step, run, run_refines start' calls (pop xs).2 q' c lucky h')
