-- ===== src/Trash/Tests.antt =====
-- A list of three blocks of the process with the UID 5.
use simplerpc.Common.{ℕ, ◌≤◌, ◌≡◌, refl, some, arith, List, [], ◌∷◌}
use simplerpc.Trash.{Trash, create_node, destroy_node, add_all}
use simplerpc.Trash.Freed.{add_all-destroy_node}

abbrev blocks : List ℕ
blocks = 4096 ∷ 4160 ∷ 8192 ∷ []

add_all-destroy_node_example :
    (t : Trash) × (add_all blocks (create_node (some (λ i. 165)) 1024 5) ≡ some t)
    × (destroy_node t ≡ blocks)
    × (t.cnt ≤ t.num)
    × (t.uid ≡ 5)
add_all-destroy_node_example =
    add_all-destroy_node (λ i. 165) 5 blocks (omega arith, (omega arith, (omega arith, refl)))
      (omega arith)
