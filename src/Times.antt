-- ===== src/Times.antt =====
-- src/libsrpc_wrapper.h and the deadline of src/libsrpc_shm_gc.c: absolute and relative times in
-- seconds and nanoseconds. What the clock says is an argument; the seconds are taken not to reach the
-- end of `time_t`.
pub mod Exact
mod Tests
use simplerpc.Common.{
  ℕ, ◌+◌, ◌-◌, ◌*◌, ◌/◌, ◌%◌, Bool, Option, none, some, leb, ◌==◌, if◌then◌else◌, ℤ, pos, neg,
  e_inval,
}

-- `struct timespec`
pub record Timespec : Type 0 where
  pub tv_sec : ℕ
  pub tv_nsec : ℕ

-- A nanosecond field that has run over is carried into the seconds.
abbrev pub carry : Timespec → Timespec
carry t =
    if leb 1000000000 t.tv_nsec
    then record { tv_sec = t.tv_sec + 1; tv_nsec = t.tv_nsec - 1000000000 }
    else t

-- The addition of so many microseconds.
unfoldable pub add_us : (timeout : ℕ) → Timespec → Timespec
add_us timeout now = carry (record {
  tv_sec = now.tv_sec + timeout / 1000000;
  tv_nsec = now.tv_nsec + timeout % 1000000 * 1000;
})

-- `libsrpc_sem_time_calc`: none is a NULL pointer, else what the clock writes there.
unfoldable pub sem_time_calc : (clock : Option Timespec) → (timeout_us : ℕ) → ℤ × Option Timespec
unfolding add_us
sem_time_calc none timeout_us = (neg e_inval, none)
sem_time_calc (some now) timeout_us =
    if timeout_us == 0 then (neg e_inval, some now) else (pos 0, some (add_us timeout_us now))

-- The deadline that `libsrpc_sem_wait_timeout_us` gives to the semaphore.
abbrev pub wait_deadline : (clock : Timespec) → (timeout : ℕ) → Timespec
wait_deadline clock timeout = add_us timeout clock

-- The time that `libsrpc_usleep` gives to nanosleep.
unfoldable pub usleep_time : (us : ℕ) → Timespec
usleep_time us = carry (record { tv_sec = us / 1000000; tv_nsec = us % 1000000 * 1000 })

-- The deadline of a turn of the collector; SHM_GC_FREQ_CHECK is 10.
unfoldable pub gc_deadline : (clock : Timespec) → Timespec
gc_deadline clock = carry (record clock { tv_nsec = clock.tv_nsec + 1000000000 / 10 })
