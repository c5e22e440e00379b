-- ===== src/Registry/Tests.antt =====
-- A registry with a full main block and no extended block, and the theorems at it.
use simplerpc.Common.{◌+◌, ◌≡◌, refl, subst, inr, if◌then◌else◌, ◌==◌, none, some, pos, arith, []}
use simplerpc.Registry.{ExtBlock, Function, rfmb_sz, regfn_sign, insert}
use simplerpc.Registry.Count.{count, taken}
use simplerpc.Registry.Grow.{IsBlock, IsRegistry, some-inj}
use simplerpc.Registry.Insert.{AddedOne, insert-IsRegistry}

-- Processes 1 to 8 serve the function.
abbrev eight : Function
eight = record { num_all = 8; ext_block = none; main_block = λ i. i + 1; retired = [] }

eight-IsRegistry : IsRegistry eight
unfolding count
eight-IsRegistry = record { num = refl; ext = λ eb e. absurd (ground (arith, e)) }

-- The ninth process is in an extended block.
abbrev block : ExtBlock
block = record { sign = regfn_sign; szfn = 32; size = 272; proc = λ i. if i == 0 then 9 else 0 }

abbrev nine : Function
nine = record { num_all = 9; ext_block = some block; main_block = λ i. i + 1; retired = [] }

nine-IsRegistry : IsRegistry nine
unfolding count
nine-IsRegistry = record {
  num = refl;
  ext = λ eb e. subst IsBlock (some-inj block eb e) (record {
    signed_as = refl;
    room = omega arith;
    tail = λ i le inside. absurd (ground (arith, le, inside));
  });
}

insert-IsRegistry_example :
    (g : Function) × (insert (λ j. some (λ i. 7)) 10 nine ≡ (pos 0, g))
    × IsRegistry g
    × AddedOne 10 nine g
insert-IsRegistry_example =
    insert-IsRegistry (λ j. some (λ i. 7)) 10 nine-IsRegistry (inr (block, refl, omega arith))
      (omega arith) (omega arith)

full : count taken rfmb_sz 0 (λ i. i + 1) ≡ rfmb_sz
unfolding count
full = refl
