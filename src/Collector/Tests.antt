-- ===== src/Collector/Tests.antt =====
-- A walk past three blocks: a request that nobody uses, a block of the program, and a process.
use simplerpc.Common.{
  ◌≡◌, ◌≢◌, refl, true, false, none, some, List, [], ◌∷◌, length, pos, arith, ◌==◌, if◌then◌else◌,
}
use simplerpc.Request.{Request, req_sign}
use simplerpc.Sweep.{req_is_busy_proc, req_busy_in}
use simplerpc.Threads.{System, pthread_start}
use simplerpc.Collector.{Block, Memory, destructor_fn, gather, empty_pool, gc_pool_destroy, is_used}
use simplerpc.Collector.Gathered.{Present}
use simplerpc.Collector.Freed.{due_blocks, gather-destroy, IsDead, gc_pool_destroy-IsDead}
use simplerpc.Collector.Started.{GcState, gc_flags}

abbrev blocks : List Block
blocks =
    record { ptr = 4096; data_type = pos 3; dc = pos 1; uid = 5 }
    ∷ record { ptr = 5120; data_type = pos 0; dc = pos 1; uid = 5 }
    ∷ record { ptr = 6144; data_type = pos 1; dc = pos 1; uid = 1 }
    ∷ []

present : Present blocks
present = omega arith

abbrev request : Request
request = record {
  sign = req_sign;
  seq_num = 5;
  gc_lock = λ k. 0;
  funid = 17;
  bufsz = 200;
  retoff = 16;
  retsz = 32;
  retnum = 1;
  responses = λ off. record { hp_proc = 7; rc = 0; uid = 5; buf = λ j. 0 };
}

abbrev memory : Memory
memory = record {
  status = λ p. 6;
  requests = λ p. if p == 4096 then some request else none;
  sem_destroyed = [];
}

gather-destroy_example :
    ((gc_pool_destroy 120 (λ i. []) (gather blocks empty_pool) memory).0
      ≡ pos (length (due_blocks 120 (λ i. []) blocks)))
    × ((gc_pool_destroy 120 (λ i. []) (gather blocks empty_pool) memory).1
        ≡ due_blocks 120 (λ i. []) blocks)
gather-destroy_example = gather-destroy 120 (λ i. []) blocks memory present

first : (gather blocks empty_pool).elm 0 ≡ record { ptr = 4096; type = 3; uid = 5; refcount = 0 }
unfolding gather destructor_fn
first = refl

counted : (gather blocks empty_pool).count ≡ 2
unfolding gather destructor_fn
counted = refl

unused : is_used 120 [] (record { ptr = 4096; type = 3; uid = 5; refcount = 0 }) ≡ false
unfolding is_used req_is_busy_proc req_busy_in
unused = refl

gc_pool_destroy-IsDead_example : IsDead (
    (gc_pool_destroy 120 (λ i. []) (gather blocks empty_pool) memory).2.requests
      ((gather blocks empty_pool).elm 0).ptr)
gc_pool_destroy-IsDead_example =
    gc_pool_destroy-IsDead 120 (λ i. []) (gather blocks empty_pool) memory 0
      (omega (arith, counted)) (rw first refl) (rw first unused)

-- The limit on threads is reached: pthread_create answers EAGAIN.
abbrev crowded : System
crowded = record {
  attr_init = 0;
  setdetachstate = 0;
  priority_min = λ p. pos 1;
  priority_max = λ p. pos 99;
  setinheritsched = 0;
  setschedpolicy = 0;
  setschedparam = 0;
  setstack = 0;
  setstacksize = 0;
  setguardsize = 0;
  setaffinity = 0;
  strdup = true;
  malloc = true;
  create = 11;
}

abbrev before : GcState
before = record { gc_init = false; gc_stop = false; posts = 0 }

not_started : (pthread_start crowded 7 8 (gc_flags 64)).0 ≡ pos 11
unfolding pthread_start
not_started = refl

failed : (pthread_start crowded 7 8 (gc_flags 64)).0 ≢ pos 0
failed h = ground (arith, not_started)
