-- ===== src/Queue/Tests.antt =====
-- The ring at four cells.
use simplerpc.Common.{ℕ, ◌^◌, ◌<◌, ◌≡◌, refl, Bool, false, none, some, List, [], ◌∷◌, arith, ◌==◌}
use simplerpc.Queue.{Queue, ok, full, empty, init, try_enqueue, try_dequeue, try_find_ptr, publish}
use simplerpc.Queue.Inv.{IsCapacity, Holds}
use simplerpc.Queue.Refine.{init-Holds}
use simplerpc.Queue.Enqueue.{publish-Holds}
use simplerpc.Queue.Run.{Call, enqueue, dequeue, Lucky, run, run_spec, run_refines}
use simplerpc.Queue.Find.{contains, try_find_ptr-contains}

two : IsCapacity 2
two = record { laps = 2 ^ 63; divides = refl; two_le = omega arith; le_half = omega arith }

four : IsCapacity 4
four = record { laps = 2 ^ 62; divides = refl; two_le = omega arith; le_half = omega arith }

abbrev memory : Queue
memory = record { head = 7; tail = 9; buffer = λ i. record { seq = 5; item = 6 }; mask = 0 }

-- The swap fails for no reason at the first attempt.
abbrev once : ℕ → Bool
once n = n == 0

abbrev calls : List Call
calls =
    enqueue 2 once 10
    ∷ dequeue 1 (λ n. false)
    ∷ dequeue 1 (λ n. false)
    ∷ enqueue 1 (λ n. false) 11
    ∷ enqueue 1 (λ n. false) 12
    ∷ enqueue 1 (λ n. false) 13
    ∷ dequeue 3 once
    ∷ []

abbrev at_once : (r : ℕ) × (r < 1) × (◌≡◌ {A = Bool} false false)
at_once = (0, omega arith, refl)

lucky : Lucky calls
lucky = (
  (1, omega arith, refl),
  (at_once, (at_once, (at_once, (at_once, (at_once, ((1, omega arith, refl), tt)))))),
)

replies :
    run 2 calls (init 2 memory)
    ≡ some (
        (ok, none)
        ∷ (ok, some 10)
        ∷ (empty, none)
        ∷ (ok, none)
        ∷ (ok, none)
        ∷ (full, none)
        ∷ (ok, some 11)
        ∷ [])
unfolding run init try_enqueue try_dequeue
replies = refl

run_refines_example : run 2 calls (init 2 memory) ≡ some (run_spec 2 calls [])
run_refines_example = run_refines 0 calls [] (init 2 memory) two lucky (init-Holds 2 memory two)

-- One pointer stands in the ring.
abbrev one : Queue
one = publish (init 4 memory).head 10 (init 4 memory)

one-Holds : Holds 4 0 (10 ∷ []) one
one-Holds = publish-Holds four (init-Holds 4 memory four) 10 (omega arith)

try_find_ptr-contains_example : try_find_ptr 4 10 one ≡ ok
unfolding contains
try_find_ptr-contains_example = try_find_ptr-contains four one-Holds (omega arith) 10
