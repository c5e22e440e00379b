-- ===== src/Times/Tests.antt =====
-- A timeout of a second and a half, late in a second.
use simplerpc.Common.{◌≡◌, refl, some, pos}
use simplerpc.Times.{Timespec, sem_time_calc}

abbrev now : Timespec
now = record { tv_sec = 10; tv_nsec = 700000000 }

late :
    sem_time_calc (some now) 1500000 ≡ (pos 0, some (record { tv_sec = 12; tv_nsec = 200000000 }))
unfolding sem_time_calc
late = refl
