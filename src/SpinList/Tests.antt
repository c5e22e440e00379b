-- ===== src/SpinList/Tests.antt =====
-- A list 1 of the nodes 10, 11 and 12, a list 2 of the node 20, and the theorems at them.
use simplerpc.Common.{
  ℕ, ◌+◌, ◌%◌, ◌≡◌, refl, false, some, [], ◌∷◌, arith, ◌==◌, if◌then◌else◌, word64,
}
use simplerpc.SpinList.{Node, Head, Heap, ok, push_front, remove}
use simplerpc.SpinList.Chain.{IsList}
use simplerpc.SpinList.Erase.{erase}
use simplerpc.SpinList.Push.{push_front-IsList}
use simplerpc.SpinList.Remove.{cleared, remove-IsList}

abbrev nodes : ℕ → Node
nodes n =
    if n == 10
    then record { next = 11; head = 1 }
    else if n == 11
    then record { next = 12; head = 1 }
    else if n == 12
    then record { next = 0; head = 1 }
    else if n == 20
    then record { next = 0; head = 2 }
    else record { next = 0; head = 0 }

abbrev heads : ℕ → Head
heads l =
    if l == 1
    then record { locked = false; first = 10; write_ops = 3 }
    else if l == 2
    then record { locked = false; first = 20; write_ops = 1 }
    else record { locked = false; first = 0; write_ops = 0 }

abbrev heap : Heap
heap = record { nodes = nodes; heads = heads }

one : IsList heap 1 (10 ∷ 11 ∷ 12 ∷ [])
one = record {
  not_null = omega arith;
  chain = (
    refl,
    omega arith,
    refl,
    refl,
    (refl, omega arith, refl, refl, (refl, omega arith, refl, refl, refl)),
  );
  members = λ n e. ground arith;
  free = refl;
}

two : IsList heap 2 (20 ∷ [])
two = record {
  not_null = omega arith;
  chain = (refl, omega arith, refl, refl, refl);
  members = λ n e. ground arith;
  free = refl;
}

push_front-IsList_example :
    (h' : Heap) × (push_front 1 13 heap ≡ some (ok, h'))
    × IsList h' 1 (13 ∷ 10 ∷ 11 ∷ 12 ∷ [])
    × ((h'.heads 1).write_ops ≡ ((heap.heads 1).write_ops + 1) % word64)
push_front-IsList_example = push_front-IsList 13 one (omega arith) refl

remove-IsList_example :
    (h' : Heap) × (remove 4 11 heap ≡ some (ok, h'))
    × IsList h' 1 (erase 11 (10 ∷ 11 ∷ 12 ∷ []))
    × (h'.nodes 11 ≡ cleared)
    × ((h'.heads 1).write_ops ≡ ((heap.heads 1).write_ops + 1) % word64)
remove-IsList_example = remove-IsList 4 11 one refl (omega arith)
