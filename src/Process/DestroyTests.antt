-- ===== src/Process/DestroyTests.antt =====
-- A process with two blocks of its own and a request.
use simplerpc.Common.{
  ◌^◌, ◌<◌, ◌≡◌, refl, true, false, none, some, List, [], ◌∷◌, length, pos, arith,
}
use simplerpc.Trash.{Trash, destroy_node}
use simplerpc.Process.{Proc, proc_get, proc_sign}
use simplerpc.Process.Destroy.{Block, Leaving, Setting, proc_destroy}
use simplerpc.Process.Left.{proc_destroy-listed}
use simplerpc.Process.Walked.{Present, users}

abbrev proc : Proc
proc = record { address = 4096; pid = 500; proc_uid = 5; threads_num = 4; sign = proc_sign }

abbrev blocks : List Block
blocks =
    record { ptr = 5120; data_type = pos 0; dc = pos 0 }
    ∷ record { ptr = 6144; data_type = pos 3; dc = pos 0 }
    ∷ record { ptr = 7168; data_type = pos 0; dc = pos 0 }
    ∷ []

abbrev idle : Setting
idle = record {
  list_remove = pos 0;
  locked = false;
  cells = none;
  memory = true;
  add_node = pos 0;
  blocks = blocks;
  requests = λ a. none;
}

abbrev locked : Setting
locked = record idle { locked = true; cells = some (λ i. 9) }

abbrev out_of_memory : Setting
out_of_memory = record idle { locked = true }

registered : proc_get (proc ∷ []) 500 ≡ some proc
unfolding proc_get
registered = refl

present : Present blocks
present = omega arith

two : users blocks ≡ 5120 ∷ 7168 ∷ []
unfolding users
two = refl

few : length (users blocks) < 2 ^ 30
few = rw two (omega arith)

proc_destroy-listed_example :
    (t : Trash) × (l : Leaving) × ((proc_destroy locked 500 (proc ∷ [])).listed ≡ some t)
    × (destroy_node t ≡ users blocks)
    × (t.uid ≡ 5)
    × ((proc_destroy locked 500 (proc ∷ [])).leaving ≡ some l)
    × (l.freed ≡ [])
    × ((proc_destroy locked 500 (proc ∷ [])).given_back ≡ true)
proc_destroy-listed_example =
    proc_destroy-listed locked 500 (proc ∷ []) proc registered present (λ i. 9) refl refl refl refl
      few
