-- ===== src/Sweep/Tests.antt =====
-- Two processes, of which the second has a request that locks the memory of UID 5.
use simplerpc.Common.{◌≡◌, refl, true, false, ◌==◌, if◌then◌else◌, pos, [], ◌∷◌}
use simplerpc.Request.{Request, is_corrupted}
use simplerpc.Holds.{shmem_check_uid_lock, find_uid}
use simplerpc.Sweep.{Listed, Owner, is_locked_uid}
use simplerpc.Sweep.Found.{is_locked_uid-found}

abbrev request : Request
request = record {
  sign = 1947962583;
  seq_num = 5;
  gc_lock = λ i. if i == 2 then 5 else 0;
  funid = 17;
  bufsz = 200;
  retoff = 16;
  retsz = 32;
  retnum = 1;
  responses = λ i. record { hp_proc = 7; rc = 2147483648; uid = 5; buf = λ j. 0 };
}

abbrev listed : Listed
listed = record { address = 4096; hp_regfn = 0; req = request }

abbrev idle : Owner
idle = record { address = 1; valid = true; requests = []; queued = λ r. false; hp_req = [] }

abbrev holder : Owner
holder = record idle { address = 2; requests = listed ∷ [] }

holds_five : shmem_check_uid_lock 120 request (pos 5) ≡ pos 1
unfolding shmem_check_uid_lock find_uid is_corrupted
holds_five = refl

is_locked_uid-found_example : is_locked_uid 120 5 (idle ∷ holder ∷ []) ≡ true
is_locked_uid-found_example =
    is_locked_uid-found 120 5 (idle ∷ []) [] holder [] [] listed refl refl holds_five
