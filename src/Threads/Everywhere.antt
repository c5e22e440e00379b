-- ===== src/Threads/Everywhere.antt =====
-- src/libsrpc_pthread.c: `pthread_start_all_cpu` against the list of the CPUs of the mask.
use simplerpc.Common.{
  ℕ, zero, suc, ◌≡◌, ◌↔◌, refl, List, [], ◌∷◌, ℤ, pos, negsuc, true, false, none, some, arith,
}
use simplerpc.Threads.{
  System, attr_default, is_detached, pthread_start, pthread_start_all_cpu, start_cpus, cpu_flags,
}
use simplerpc.Threads.Started.{asked, pthread_start-Outcome}

abbrev pub All : (ℕ → Type 0) → List ℕ → Type 0
All P [] = Unit
All P (x ∷ xs) = P x × All P xs

module _ (system : ℕ → System) (func arg : ℕ) where
  -- A detached thread was created that runs `func` on `arg`, on this CPU alone.
  abbrev pub RunsOn : ℕ → Type 0
  RunsOn cpu =
      (pthread_start (system cpu) func arg (cpu_flags cpu)).1.thread
      ≡ some (
        record attr_default { detached = true; affinity = some (cpu ∷ []) },
        record { func = func; arg = arg; name = none; set_nice = false; nice_value = pos 0 },
      )

  started-RunsOn :
      (cpu : ℕ) → (pthread_start (system cpu) func arg (cpu_flags cpu)).0 ≡ pos 0 → RunsOn cpu
  unfolding asked is_detached
  started-RunsOn cpu h = ground (arith, pthread_start-Outcome (system cpu) (cpu_flags cpu) func arg)

  abbrev start : ℕ → ℤ
  start cpu = (pthread_start (system cpu) func arg (cpu_flags cpu)).0

  start_cpus-RunsOn : (mask : List ℕ) → All RunsOn (start_cpus start mask).1
  unfolding start_cpus
  start_cpus-RunsOn [] = tt
  start_cpus-RunsOn (cpu ∷ mask) = go (start_cpus-RunsOn mask) (start cpu) refl
    where
      go :
          All RunsOn (start_cpus start mask).1
          → (r : ℤ) → start cpu ≡ r
          → All RunsOn (start_cpus start (cpu ∷ mask)).1
      go rest (pos zero) e = rw (e, All) (started-RunsOn cpu e, rest)
      go rest (pos (suc n)) e = rw (e, All) tt
      go rest (negsuc n) e = rw (e, All) tt

  start_cpus-all :
      (mask : List ℕ) → ((start_cpus start mask).0 ≡ pos 0) ↔ ((start_cpus start mask).1 ≡ mask)
  unfolding start_cpus
  start_cpus-all [] = (λ h. refl, λ h. refl)
  start_cpus-all (cpu ∷ mask) = ground (arith, start_cpus-all mask)

  -- When the affinity mask is read, pthread_start_all_cpu returns 0 exactly when it has started
  -- a thread for every CPU of the mask, and for each CPU for which it has started one there is
  -- a detached thread that runs the function with the argument, without a name, with that CPU
  -- as its only one and every other attribute as the system sets it.
  pub pthread_start_all_cpu-RunsOn :
      (mask : List ℕ)
      → (((pthread_start_all_cpu (pos 0) mask system func arg).0 ≡ pos 0)
          ↔ ((pthread_start_all_cpu (pos 0) mask system func arg).1 ≡ mask))
        × All RunsOn (pthread_start_all_cpu (pos 0) mask system func arg).1
  unfolding pthread_start_all_cpu
  pthread_start_all_cpu-RunsOn mask = (start_cpus-all mask, start_cpus-RunsOn mask)
