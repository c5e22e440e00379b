-- ===== src/Threads.antt =====
-- src/libsrpc_pthread.c: `pthread_start` with its flags and its error path, the thunk that the new
-- thread runs, and `pthread_start_all_cpu`. What the threads library, `strdup` and `malloc` answer
-- are arguments.
pub mod Started
pub mod Everywhere
mod Tests
pub mod Flags
use simplerpc.Common.{
  ℕ, zero, suc, ◌/◌, ◌%◌, Bool, true, false, not, ◌&&◌, ◌||◌, Option, none, some, List, [], take,
  ◌∷◌, ltb, ◌==◌, if◌then◌else◌, ℤ, pos, negsuc, neg, negative, e_inval, e_nomem,
}
pub use simplerpc.Threads.Flags.{
  lt_int, flag_joinable, flag_detached, flag_explicit_sched, flag_nice, has_flag, ThreadFlag,
  thread_flag_default, System, Attr, attr_default, StartCtx, Start, start_zero,
}

-- A part of the body either goes on or jumps to `out` with its `rc`.
pub data Part : Type 0 where
  on : Start → Part
  out : ℕ → Start → Part

infixl 5 ◌>>=◌
abbrev pub ◌>>=◌ : Part → (Start → Part) → Part
on s >>= f = f s
out rc s >>= f = out rc s

-- One setter: at 0 it has written the attributes.
abbrev pub setter : (rc : ℕ) → Attr → Start → Part
setter rc attr s = if rc == 0 then on (record s { attr = attr }) else out rc s

-- Whether the thread is to be detached.
pub is_detached : ThreadFlag → Bool
is_detached f =
    if has_flag f.flags flag_detached
    then true
    else if has_flag f.flags flag_joinable
    then false
    else f.thread_out == 0

-- The checks of the arguments, before any call.
unfoldable pub refused : (func : ℕ) → ThreadFlag → Bool
refused func f =
    (func == 0)
    || (has_flag f.flags flag_nice
        && (lt_int f.nice_value (neg 20) || lt_int (pos 19) f.nice_value))
    || (has_flag f.flags flag_joinable && has_flag f.flags flag_detached)
    || (has_flag f.flags flag_joinable && (f.thread_out == 0))

pub set_detachstate : System → ThreadFlag → Start → Part
set_detachstate y f s = setter y.setdetachstate (record s.attr { detached = is_detached f }) s

pub bad_priority : System → ThreadFlag → Bool
bad_priority y f =
    negative (y.priority_min f.sched_policy)
    || negative (y.priority_max f.sched_policy)
    || lt_int f.sched_priority (y.priority_min f.sched_policy)
    || lt_int (y.priority_max f.sched_policy) f.sched_priority

abbrev set_policy : System → ThreadFlag → Start → Part
set_policy y f s = setter y.setschedpolicy (record s.attr { policy = f.sched_policy }) s

abbrev set_param : System → ThreadFlag → Start → Part
set_param y f s = setter y.setschedparam (record s.attr { priority = f.sched_priority }) s

pub set_sched : System → ThreadFlag → Start → Part
set_sched y f s =
    if has_flag f.flags flag_explicit_sched
    then if bad_priority y f
      then out e_inval s
      else (setter y.setinheritsched (record s.attr { explicit = true }) s
          >>= set_policy y f
          >>= set_param y f)
    else on s

-- PTHREAD_STACK_MIN is 16384.
pub set_stack : System → ThreadFlag → Start → Part
set_stack y f s =
    if not (f.stack_addr == 0) || not (f.stack_size == 0)
    then if ltb f.stack_size 16384
      then out e_inval s
      else if not (f.stack_addr == 0)
      then setter y.setstack
          (record s.attr { stack_addr = f.stack_addr; stack_size = f.stack_size }) s
      else setter y.setstacksize (record s.attr { stack_size = f.stack_size }) s
    else on s

pub set_guard : System → ThreadFlag → Start → Part
set_guard y f s =
    if not (f.guard_size == 0)
    then setter y.setguardsize (record s.attr { guard_size = f.guard_size }) s
    else on s

pub set_affinity : System → ThreadFlag → Start → Part
set_affinity y f s = elim f.cpuset [
  | none ↦ on s
  | some cpus ↦ setter y.setaffinity (record s.attr { affinity = some cpus }) s
]

pub copy_name : System → ThreadFlag → Start → Part
copy_name y f s = elim f.name [
  | none ↦ on s
  | some bytes ↦ if y.strdup then on (record s { name_copy = true }) else out e_nomem s
]

-- `malloc` for the context; without it the copy of the name is freed.
pub alloc_ctx : System → Start → Part
alloc_ctx y s =
    if y.malloc then on (record s { ctx = true }) else out e_nomem (record s { name_copy = false })

abbrev pub start_ctx : (func arg : ℕ) → ThreadFlag → StartCtx
start_ctx func arg f = record {
  func = func;
  arg = arg;
  name = f.name;
  set_nice = has_flag f.flags flag_nice;
  nice_value = f.nice_value;
}

-- `pthread_create`; a failure frees both blocks, a success stores the identifier.
pub create_thread : System → (func arg : ℕ) → ThreadFlag → Start → Part
create_thread y func arg f s =
    if y.create == 0
    then out 0 (record s { thread = some (s.attr, start_ctx func arg f); stored = f.thread_out })
    else out y.create (record s { name_copy = false; ctx = false })

-- The calls between `pthread_attr_init` and `out`.
pub body : System → (func arg : ℕ) → ThreadFlag → Start → Part
body y func arg f s =
    set_detachstate y f s
    >>= set_sched y f
    >>= set_stack y f
    >>= set_guard y f
    >>= set_affinity y f
    >>= copy_name y f
    >>= alloc_ctx y
    >>= create_thread y func arg f

-- `out`: the attributes are destroyed, and `rc` is returned as it stands.
abbrev pub leave : Part → ℤ × Start
leave (on s) = (pos 0, record s { attr_live = false })
leave (out rc s) = (pos rc, record s { attr_live = false })

-- `pthread_start`
unfoldable pub pthread_start : System → (func arg : ℕ) → ThreadFlag → ℤ × Start
unfolding refused is_detached body set_detachstate set_sched bad_priority set_stack set_guard
    set_affinity copy_name alloc_ctx create_thread
pthread_start y func arg f =
    if refused func f
    then (neg e_inval, start_zero)
    else if not (y.attr_init == 0)
    then (neg y.attr_init, start_zero)
    else leave (body y func arg f (record start_zero { attr_live = true }))

-- What the new thread has done: its name, its nice value, and the function that it has called.
pub record Ran : Type 0 where
  pub comm : Option (List ℕ)
  pub nice : Option ℤ
  pub call : ℕ × ℕ

-- `start_thunk`, which frees the two blocks before it calls the function; `snprintf` to 16 bytes keeps
-- the first 15.
pub start_thunk : StartCtx → Start → Ran × Start
start_thunk c s = (
  record {
    comm = elim c.name [ none ↦ none | some bytes ↦ some (take 15 bytes) ];
    nice = if c.set_nice then some c.nice_value else none;
    call = (c.func, c.arg);
  },
  record s { ctx = false; name_copy = elim c.name [ none ↦ s.name_copy | some bytes ↦ false ] },
)

-- The loop over the CPUs of the mask: `start k` is what `pthread_start` answers for the CPU `k`. It
-- stops at the first failure; the list is that of the CPUs for which a thread was started.
pub start_cpus : (start : ℕ → ℤ) → List ℕ → ℤ × List ℕ
start_cpus start [] = (pos 0, [])
start_cpus start (cpu ∷ cpus) =
    let (rc, started) = start_cpus start cpus in
    elim (start cpu) [
      | pos zero ↦ (rc, cpu ∷ started)
      | pos (suc n) ↦ (pos (suc n), [])
      | negsuc n ↦ (negsuc n, [])
    ]

-- The flags that `pthread_start_all_cpu` gives for one CPU; `sizeof(cpu_set_t)` is 128.
abbrev pub cpu_flags : ℕ → ThreadFlag
cpu_flags cpu = record thread_flag_default {
  flags = flag_detached;
  cpuset = some (cpu ∷ []);
  cpuset_size = 128;
}

-- `pthread_start_all_cpu`, for the answer and the mask of `sched_getaffinity`
unfoldable pub pthread_start_all_cpu :
    (getaffinity : ℤ) (mask : List ℕ) → (system : ℕ → System) → (func arg : ℕ) → ℤ × List ℕ
unfolding start_cpus
pthread_start_all_cpu (pos zero) mask system func arg =
    start_cpus (λ cpu. (pthread_start (system cpu) func arg (cpu_flags cpu)).0) mask
pthread_start_all_cpu (pos (suc n)) mask system func arg = (pos (suc n), [])
pthread_start_all_cpu (negsuc n) mask system func arg = (negsuc n, [])
