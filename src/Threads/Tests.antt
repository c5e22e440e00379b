-- ===== src/Threads/Tests.antt =====
-- A machine on which everything succeeds, one without memory, and two CPUs.
use simplerpc.Common.{◌≡◌, ◌↔◌, refl, Bool, true, false, some, [], ◌∷◌, pos, e_nomem}
use simplerpc.Threads.{
  ThreadFlag, thread_flag_default, System, pthread_start, pthread_start_all_cpu, flag_joinable,
}
use simplerpc.Threads.Started.{Outcome, pthread_start-Outcome}
use simplerpc.Threads.Everywhere.{All, RunsOn, pthread_start_all_cpu-RunsOn}

abbrev system : (memory : Bool) → System
system memory = record {
  attr_init = 0;
  setdetachstate = 0;
  priority_min = λ p. pos 1;
  priority_max = λ p. pos 99;
  setinheritsched = 0;
  setschedpolicy = 0;
  setschedparam = 0;
  setstack = 0;
  setstacksize = 0;
  setguardsize = 0;
  setaffinity = 0;
  strdup = memory;
  malloc = memory;
  create = 0;
}

abbrev flags : ThreadFlag
flags = record thread_flag_default {
  flags = flag_joinable;
  thread_out = 4096;
  name = some (103 ∷ 99 ∷ []);
}

-- Without memory for the name the answer is ENOMEM, which is positive.
no_memory : (pthread_start (system false) 7 8 flags).0 ≡ pos e_nomem
unfolding pthread_start
no_memory = refl

-- An empty mask is no error.
empty_mask : (pthread_start_all_cpu (pos 0) [] (λ cpu. system true) 7 8).0 ≡ pos 0
unfolding pthread_start_all_cpu
empty_mask = refl

pthread_start-Outcome_example :
    Outcome (system true) flags 7 8 (pthread_start (system true) 7 8 flags)
pthread_start-Outcome_example = pthread_start-Outcome (system true) flags 7 8

pthread_start_all_cpu-RunsOn_example :
    (((pthread_start_all_cpu (pos 0) (0 ∷ 2 ∷ []) (λ cpu. system true) 7 8).0 ≡ pos 0)
      ↔ ((pthread_start_all_cpu (pos 0) (0 ∷ 2 ∷ []) (λ cpu. system true) 7 8).1 ≡ 0 ∷ 2 ∷ []))
    × All
        (RunsOn (λ cpu. system true) 7 8)
        (pthread_start_all_cpu (pos 0) (0 ∷ 2 ∷ []) (λ cpu. system true) 7 8).1
pthread_start_all_cpu-RunsOn_example =
    pthread_start_all_cpu-RunsOn (λ cpu. system true) 7 8 (0 ∷ 2 ∷ [])
