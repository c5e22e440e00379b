-- ===== src/Threads/Flags.antt =====
-- src/libsrpc_pthread.h and src/libsrpc_pthread.c: the flags for a thread, what the calls of the system
-- answer, and what a call of `pthread_start` keeps.
use simplerpc.Common.{ℕ, ◌/◌, ◌%◌, Bool, true, false, Option, none, List, ltb, ◌==◌, ℤ, pos, negsuc}

-- `a < b` on `int`
abbrev pub lt_int : ℤ → ℤ → Bool
lt_int (pos a) (pos b) = ltb a b
lt_int (pos a) (negsuc b) = false
lt_int (negsuc a) (pos b) = true
lt_int (negsuc a) (negsuc b) = ltb b a

abbrev pub flag_joinable : ℕ
flag_joinable = 1

abbrev pub flag_detached : ℕ
flag_detached = 2

abbrev pub flag_explicit_sched : ℕ
flag_explicit_sched = 4

abbrev pub flag_nice : ℕ
flag_nice = 8

-- `flags & bit`
abbrev pub has_flag : (flags bit : ℕ) → Bool
has_flag flags bit = (flags / bit) % 2 == 1

-- `thread_flag_t`: `thread_out` and `stack_addr` are addresses, 0 for NULL; a set of CPUs is the
-- list of its numbers, a name the bytes before its NUL.
pub record ThreadFlag : Type 0 where
  pub flags : ℕ
  pub thread_out : ℕ
  pub sched_policy : ℤ
  pub sched_priority : ℤ
  pub nice_value : ℤ
  pub stack_addr : ℕ
  pub stack_size : ℕ
  pub guard_size : ℕ
  pub cpuset : Option (List ℕ)
  pub cpuset_size : ℕ
  pub name : Option (List ℕ)

-- `thread_flag_default`
abbrev pub thread_flag_default : ThreadFlag
thread_flag_default = record {
  flags = 0;
  thread_out = 0;
  sched_policy = pos 0;
  sched_priority = pos 0;
  nice_value = pos 0;
  stack_addr = 0;
  stack_size = 0;
  guard_size = 0;
  cpuset = none;
  cpuset_size = 0;
  name = none;
}

-- What the calls answer: 0 or the number of an error; a priority or -1; memory or none.
pub record System : Type 0 where
  pub attr_init : ℕ
  pub setdetachstate : ℕ
  pub priority_min : ℤ → ℤ
  pub priority_max : ℤ → ℤ
  pub setinheritsched : ℕ
  pub setschedpolicy : ℕ
  pub setschedparam : ℕ
  pub setstack : ℕ
  pub setstacksize : ℕ
  pub setguardsize : ℕ
  pub setaffinity : ℕ
  pub strdup : Bool
  pub malloc : Bool
  pub create : ℕ

-- `pthread_attr_t`, as far as the setters write it
pub record Attr : Type 0 where
  pub detached : Bool
  pub explicit : Bool
  pub policy : ℤ
  pub priority : ℤ
  pub stack_addr : ℕ
  pub stack_size : ℕ
  pub guard_size : ℕ
  pub affinity : Option (List ℕ)

abbrev pub attr_default : Attr
attr_default = record {
  detached = false;
  explicit = false;
  policy = pos 0;
  priority = pos 0;
  stack_addr = 0;
  stack_size = 0;
  guard_size = 0;
  affinity = none;
}

-- `start_ctx_t`
pub record StartCtx : Type 0 where
  pub func : ℕ
  pub arg : ℕ
  pub name : Option (List ℕ)
  pub set_nice : Bool
  pub nice_value : ℤ

-- The call under way: its attributes and whether they are alive, the two blocks of memory that it
-- owns, the thread that it has created, and where it has stored the identifier.
pub record Start : Type 0 where
  pub attr : Attr
  pub attr_live : Bool
  pub name_copy : Bool
  pub ctx : Bool
  pub thread : Option (Attr × StartCtx)
  pub stored : ℕ

abbrev pub start_zero : Start
start_zero = record {
  attr = attr_default;
  attr_live = false;
  name_copy = false;
  ctx = false;
  thread = none;
  stored = 0;
}
