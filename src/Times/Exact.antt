-- ===== src/Times/Exact.antt =====
-- src/libsrpc_wrapper.h and src/libsrpc_shm_gc.c: the times are exact and in normal form.
use simplerpc.Common.{ℕ, ◌+◌, ◌*◌, ◌<◌, ◌≡◌, ◌≢◌, some, pos, arith}
use simplerpc.Times.{Timespec, add_us, sem_time_calc, usleep_time, gc_deadline}

-- The time in nanoseconds.
abbrev pub nanoseconds : Timespec → ℕ
nanoseconds t = t.tv_sec * 1000000000 + t.tv_nsec

abbrev pub IsNormal : Timespec → Type 0
IsNormal t = t.tv_nsec < 1000000000

-- libsrpc_sem_time_calc, for a clock in normal form and a timeout that is not 0, gives a time in
-- normal form that is exactly the timeout in microseconds after the clock.
pub sem_time_calc-exact :
    (now : Timespec) (timeout_us : ℕ)
    → IsNormal now
    → timeout_us ≢ 0
    → (t : Timespec) × (sem_time_calc (some now) timeout_us ≡ (pos 0, some t))
      × IsNormal t
      × (nanoseconds t ≡ nanoseconds now + timeout_us * 1000)
unfolding sem_time_calc
sem_time_calc-exact now timeout_us normal some_time =
    (add_us timeout_us now, ground arith, ground arith, ground arith)

pub usleep_time-exact :
    (us : ℕ) → IsNormal (usleep_time us) × (nanoseconds (usleep_time us) ≡ us * 1000)
unfolding usleep_time
usleep_time-exact us = (ground arith, ground arith)

pub gc_deadline-exact :
    (clock : Timespec)
    → IsNormal clock
    → IsNormal (gc_deadline clock)
      × (nanoseconds (gc_deadline clock) ≡ nanoseconds clock + 100000000)
unfolding gc_deadline
gc_deadline-exact clock normal = (ground arith, ground arith)
