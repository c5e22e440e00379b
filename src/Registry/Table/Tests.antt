-- ===== src/Registry/Table/Tests.antt =====
-- A table of two functions that processes 1 to 8 serve, and the theorems at it.
use simplerpc.Common.{ℕ, ◌+◌, ◌<◌, ◌≡◌, refl, true, Option, none, some, pos, arith, []}
use simplerpc.Registry.{Function, insert}
use simplerpc.Registry.Count.{count}
use simplerpc.Registry.Grow.{total, IsRegistry}
use simplerpc.Registry.Remove.{is_proc, Left}
use simplerpc.Registry.Table.{bit_set, reg_func_form_bmp, unreg_func_proc}
use simplerpc.Registry.Table.Register.{registered, reg_func_form_bmp-registered}
use simplerpc.Registry.Table.Unregister.{unreg_func_proc-gone}

abbrev eight : Function
eight = record { num_all = 8; ext_block = none; main_block = λ i. i + 1; retired = [] }

eight-IsRegistry : IsRegistry eight
unfolding count
eight-IsRegistry = record { num = refl; ext = λ eb e. absurd (ground (arith, e)) }

unreg_func_proc-gone_example :
    (after : ℕ → Function) × (unreg_func_proc true 2 3 (λ i. eight) ≡ (pos 0, after))
    × ((i : ℕ)
        → i < 2
        → IsRegistry (after i) × (total (is_proc 3) (after i) ≡ 0) × Left 3 eight (after i))
unreg_func_proc-gone_example =
    unreg_func_proc-gone 2 3 (λ i. eight) (omega arith) (λ i lt. (eight-IsRegistry, omega arith))

-- Only the function 1 is served.
abbrev bmp : ℕ → ℕ
bmp i = 2

bit_one : bit_set bmp 1 ≡ true
unfolding bit_set
bit_one = refl

abbrev memory : ℕ → ℕ → Option (ℕ → ℕ)
memory i j = some (λ k. 0)

reg_func_form_bmp-registered_example :
    ((reg_func_form_bmp true 2 memory bmp 9 (λ i. eight)).0 ≡ (insert (memory 1) 9 eight).0)
    × ((i : ℕ)
        → i < 2
        → (reg_func_form_bmp true 2 memory bmp 9 (λ i. eight)).1 i
          ≡ registered memory bmp 9 (λ i. eight) i)
reg_func_form_bmp-registered_example =
    reg_func_form_bmp-registered 2 memory bmp 9 (λ i. eight) 1 (omega arith) bit_one
      (λ k lo hi. absurd (omega arith))
