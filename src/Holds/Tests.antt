-- ===== src/Holds/Tests.antt =====
-- A request with one response of the process at 7, whose slots 1 to 3 are free, and the theorems at it.
use simplerpc.Common.{
  ℕ, ◌<◌, ◌≡◌, refl, true, false, ◌==◌, if◌then◌else◌, some, pos, negsuc, update, arith,
}
use simplerpc.Request.{Request, is_corrupted, get_response_fast}
use simplerpc.Holds.{
  Holder, free_slot, with_lock, take_slot, check_holder, shmem_proc_lock, shmem_proc_unlock,
  shmem_check_uid_lock,
}
use simplerpc.Holds.Held.{shmem_proc_lock-held}

abbrev lock : ℕ → ℕ
lock i = if i == 0 then 3 else 0

abbrev request : Request
request = record {
  sign = 1947962583;
  seq_num = 5;
  gc_lock = lock;
  funid = 17;
  bufsz = 200;
  retoff = 16;
  retsz = 32;
  retnum = 1;
  responses = λ i. record { hp_proc = 7; rc = 2147483648; uid = 5; buf = λ j. 0 };
}

abbrev look : ℕ → Holder
look p = record { proc_uid = 5; valid = true; late_uid = 5; late_valid = true }

abbrev locked : Request
locked = record request { gc_lock = update lock 1 5 }

takes_one : shmem_proc_lock 120 true look true (pos 0) request ≡ (pos 1, locked)
unfolding shmem_proc_lock is_corrupted get_response_fast check_holder take_slot free_slot
takes_one = refl

shmem_proc_lock-held_example :
    (off : ℕ) × (get_response_fast 120 (some request) 0 ≡ some off)
    × ((look (request.responses off).hp_proc).proc_uid ≡ (request.responses off).uid)
    × (1 < 4)
    × (lock 1 ≡ 0)
    × (locked ≡ with_lock request (update lock 1 (request.responses off).uid))
    × (shmem_check_uid_lock 120 locked (pos (request.responses off).uid) ≡ pos 1)
    × (shmem_proc_unlock 120 (pos 1) locked ≡ (pos 0, request))
shmem_proc_lock-held_example =
    shmem_proc_lock-held 120 true look true request locked (λ p. (omega arith, omega arith)) 0 1
      takes_one

foreign :
    shmem_proc_lock 120 true look false (pos 0) request
    ≡ (negsuc 4103, record request { gc_lock = update (update lock 1 5) 1 0 })
unfolding shmem_proc_lock is_corrupted get_response_fast check_holder take_slot free_slot
foreign = refl
