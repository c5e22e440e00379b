-- ===== src/Collector/Started.antt =====
-- src/libsrpc_shm_gc.c: the start and the stop of the collector's thread.
use simplerpc.Common.{
  ℕ, ◌+◌, ◌≡◌, ◌≢◌, Bool, true, false, not, none, ◌==◌, if◌then◌else◌, ℤ, pos, neg, negative, ◌||◌,
  e_inval, e_shmnoinit, arith,
}
use simplerpc.Threads.{
  System, ThreadFlag, thread_flag_default, flag_joinable, pthread_start, refused,
}
use simplerpc.Threads.Started.{pthread_start-negative, pthread_start-Outcome}

-- `gc_init`, `gc_stop`, and how often the semaphore of the collector was posted
pub record GcState : Type 0 where
  pub gc_init : Bool
  pub gc_stop : Bool
  pub posts : ℕ

-- The flags for the thread, whose identifier goes to `thread`.
abbrev pub gc_flags : (thread : ℕ) → ThreadFlag
gc_flags thread = record thread_flag_default { flags = flag_joinable; thread_out = thread }

-- `libsrpc_shm_gc_init`: `sem_rc` is the result of the semaphore; `func` is the address of the thread's
-- function and `gc` that of its argument.
unfoldable pub shm_gc_init :
    (shm : Bool) (sem_rc : ℤ) → System → (func gc thread : ℕ) → GcState → ℤ × GcState
shm_gc_init shm sem_rc y func gc thread s =
    if not shm
    then (neg e_shmnoinit, s)
    else if s.gc_init
    then (pos 0, s)
    else if negative sem_rc || negative (pthread_start y func gc (gc_flags thread)).0
    then (neg e_inval, s)
    else (pos 0, record s { gc_init = true })

-- `libsrpc_shm_gc_wakeup`
unfoldable pub shm_gc_wakeup : (shm : Bool) (post_rc : ℤ) → GcState → ℤ × GcState
shm_gc_wakeup shm post_rc s =
    if shm then (post_rc, record s { posts = s.posts + 1 }) else (neg e_shmnoinit, s)

-- `libsrpc_shm_gc_destroy`, once the thread has been joined
unfoldable pub shm_gc_destroy : (shm : Bool) (post_rc : ℤ) → GcState → ℤ × GcState
unfolding shm_gc_wakeup
shm_gc_destroy shm post_rc s =
    if not shm
    then (neg e_shmnoinit, s)
    else if not s.gc_init
    then (pos 0, s)
    else (pos 0, (shm_gc_wakeup shm post_rc (record s { gc_init = false; gc_stop = true })).1)

gc_flags-fine : (func thread : ℕ) → func ≢ 0 → thread ≢ 0 → refused func (gc_flags thread) ≡ false
unfolding refused
gc_flags-fine func thread hf ht = ground arith

module _ (y : System) (sem_rc : ℤ) (func gc thread : ℕ) (s : GcState)
    (fine : negative sem_rc ≡ false) (new : s.gc_init ≡ false) (has_func : func ≢ 0)
    (has_thread : thread ≢ 0) where
  pub shm_gc_init-answer :
      shm_gc_init true sem_rc y func gc thread s
      ≡ (if y.attr_init == 0 then (pos 0, record s { gc_init = true }) else (neg e_inval, s))
  unfolding shm_gc_init
  shm_gc_init-answer = ground (
    arith,
    pthread_start-negative y (gc_flags thread) func gc,
    gc_flags-fine func thread has_func has_thread,
  )

  pub shm_gc_init-unnoticed :
      y.attr_init ≡ 0
      → (pthread_start y func gc (gc_flags thread)).0 ≢ pos 0
      → (shm_gc_init true sem_rc y func gc thread s ≡ (pos 0, record s { gc_init = true }))
        × ((pthread_start y func gc (gc_flags thread)).1.thread ≡ none)
  shm_gc_init-unnoticed attr failed = (
    ground (arith, shm_gc_init-answer),
    ground (arith, pthread_start-Outcome y (gc_flags thread) func gc),
  )
