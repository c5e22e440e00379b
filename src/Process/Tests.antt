-- ===== src/Process/Tests.antt =====
-- Two processes with the UIDs 2 and 3, and the registration of a third.
use simplerpc.Common.{ℕ, ◌*◌, ◌≡◌, refl, true, some, pos, arith, [], ◌∷◌}
use simplerpc.Process.{
  Proc, proc_sign, Table, uid_used, find_uid, get_uid, proc_get, make_proc, proc_create,
}
use simplerpc.Process.Fresh.{Distinct, proc_create-Distinct}

abbrev process : ℕ → ℕ → Proc
process pid uid = record {
  address = pid * 4096;
  pid = pid;
  proc_uid = uid;
  threads_num = 4;
  sign = proc_sign;
}

abbrev table : Table
table = record { procs = process 100 3 ∷ process 90 2 ∷ []; uid_next = 3; freed = [] }

table-Distinct : Distinct table.procs
unfolding uid_used proc_get
table-Distinct = (omega arith, refl, refl, (omega arith, refl, refl, refl))

third :
    (proc_create (pos 4) (pos 120) true (some 9) (pos 0) (pos 0) (pos 0) table).1.procs
    ≡ record { address = 9; pid = 120; proc_uid = 4; threads_num = 4; sign = proc_sign }
      ∷ table.procs
unfolding proc_create make_proc get_uid find_uid uid_used proc_get
third = refl

proc_create-Distinct_example :
    Distinct (proc_create (pos 4) (pos 120) true (some 9) (pos 0) (pos 0) (pos 0) table).1.procs
proc_create-Distinct_example =
    proc_create-Distinct (pos 4) (pos 120) true (some 9) (pos 0) (pos 0) (pos 0) table
      table-Distinct
