-- ===== src/Queue/Spec.antt =====
-- What a client sees of the ring: a bounded first-in-first-out queue of pointers.
use simplerpc.Common.{ℕ, Option, none, some, List, [], ◌∷◌, ◌++◌, length, ltb, if◌then◌else◌}
use simplerpc.Queue.{Result, ok, full, empty}

unfoldable pub push : (size : ℕ) → ℕ → List ℕ → Result × List ℕ
push size x xs = if ltb (length xs) size then (ok, xs ++ x ∷ []) else (full, xs)

unfoldable pub pop : List ℕ → Result × Option ℕ × List ℕ
pop [] = (empty, none, [])
pop (x ∷ xs) = (ok, some x, xs)
