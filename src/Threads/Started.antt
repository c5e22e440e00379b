-- ===== src/Threads/Started.antt =====
-- src/libsrpc_pthread.c: what `pthread_start` leaves behind, on its error path and on success.
use simplerpc.Common.{
  ℕ, ◌≡◌, ◌≢◌, ◌⊎◌, inl, inr, refl, Bool, true, false, not, Option, none, some, List, ◌==◌,
  if◌then◌else◌, ℤ, pos, negative, arith, Bool-cases,
}
use simplerpc.Threads.{
  ThreadFlag, System, Attr, attr_default, StartCtx, start_ctx, Start, start_zero, Part, on, out,
  ◌>>=◌, has_flag, flag_explicit_sched, is_detached, refused, set_detachstate, set_sched, set_stack,
  set_guard, set_affinity, copy_name, alloc_ctx, create_thread, body, leave, pthread_start,
  start_thunk,
}

-- The attributes that the flags ask for.
unfoldable pub asked : ThreadFlag → Attr
asked f = record {
  detached = is_detached f;
  explicit = has_flag f.flags flag_explicit_sched;
  policy = if has_flag f.flags flag_explicit_sched then f.sched_policy else pos 0;
  priority = if has_flag f.flags flag_explicit_sched then f.sched_priority else pos 0;
  stack_addr = f.stack_addr;
  stack_size = f.stack_size;
  guard_size = f.guard_size;
  affinity = f.cpuset;
}

abbrev pub has_name : Option (List ℕ) → Bool
has_name none = false
has_name (some bytes) = true

-- No thread, and no block of memory left.
abbrev pub Nothing : Start → Type 0
Nothing s = (s.thread ≡ none) × (s.ctx ≡ false) × (s.name_copy ≡ false) × (s.stored ≡ 0)

-- A part goes on in the state `s'`, or it jumps to `out` with an error and nothing left.
abbrev Reaches : Start → Part → Type 0
Reaches s' (on s) = s ≡ s'
Reaches s' (out rc s) = (rc ≢ 0) × Nothing s

Reaches-bind :
    (s' s'' : Start) (g : Start → Part) (p : Part)
    → Reaches s' p
    → Reaches s'' (g s')
    → Reaches s'' (p >>= g)
Reaches-bind s' s'' g (on s) h k = rw h k
Reaches-bind s' s'' g (out rc s) h k = h

module _ (y : System) (f : ThreadFlag) where
  abbrev with_attr : Attr → Start
  with_attr a = record start_zero { attr = a; attr_live = true }

  abbrev attr_detach : Attr
  attr_detach = record attr_default { detached = is_detached f }

  abbrev attr_sched : Attr
  attr_sched = record attr_detach {
    explicit = has_flag f.flags flag_explicit_sched;
    policy = if has_flag f.flags flag_explicit_sched then f.sched_policy else pos 0;
    priority = if has_flag f.flags flag_explicit_sched then f.sched_priority else pos 0;
  }

  abbrev attr_stack : Attr
  attr_stack = record attr_sched { stack_addr = f.stack_addr; stack_size = f.stack_size }

  abbrev attr_guard : Attr
  attr_guard = record attr_stack { guard_size = f.guard_size }

  set_detachstate-Reaches :
      Reaches (with_attr attr_detach) (set_detachstate y f (with_attr attr_default))
  unfolding set_detachstate
  set_detachstate-Reaches = ground arith

  set_sched-Reaches : Reaches (with_attr attr_sched) (set_sched y f (with_attr attr_detach))
  unfolding set_sched
  set_sched-Reaches = ground arith

  set_stack-Reaches : Reaches (with_attr attr_stack) (set_stack y f (with_attr attr_sched))
  unfolding set_stack
  set_stack-Reaches = ground arith

  set_guard-Reaches : Reaches (with_attr attr_guard) (set_guard y f (with_attr attr_stack))
  unfolding set_guard
  set_guard-Reaches = ground arith

  set_affinity-Reaches : Reaches (with_attr (asked f)) (set_affinity y f (with_attr attr_guard))
  unfolding set_affinity asked
  set_affinity-Reaches = ground arith

  abbrev named : Start
  named = record (with_attr (asked f)) { name_copy = has_name f.name }

  copy_name-Reaches : Reaches named (copy_name y f (with_attr (asked f)))
  unfolding copy_name
  copy_name-Reaches = ground arith

  alloc_ctx-Reaches : Reaches (record named { ctx = true }) (alloc_ctx y named)
  unfolding alloc_ctx
  alloc_ctx-Reaches = ground arith

  -- The thread that the flags ask for was created, or none and nothing is left.
  abbrev pub Outcome : (func arg : ℕ) → ℤ × Start → Type 0
  Outcome func arg r =
      (r.1.attr_live ≡ false)
      × (((r.0 ≡ pos 0)
            × (r.1.thread ≡ some (asked f, start_ctx func arg f))
            × (r.1.ctx ≡ true)
            × (r.1.name_copy ≡ has_name f.name)
            × (r.1.stored ≡ f.thread_out))
          ⊎ ((r.0 ≢ pos 0) × Nothing r.1))

  create-Outcome :
      (func arg : ℕ) (p : Part)
      → Reaches (record named { ctx = true }) p
      → Outcome func arg (leave (p >>= create_thread y func arg f))
  unfolding create_thread
  create-Outcome func arg (on s) h = rw h (ground arith)
  create-Outcome func arg (out rc s) h = (refl, inr (ground arith, h.1))

  body-Outcome :
      (func arg : ℕ) → Outcome func arg (leave (body y func arg f (with_attr attr_default)))
  unfolding body
  body-Outcome func arg = create-Outcome func arg _ (
      Reaches-bind (named) (record named { ctx = true }) (alloc_ctx y) _
        (Reaches-bind (with_attr (asked f)) (named) (copy_name y f) _
          (Reaches-bind (with_attr attr_guard) (with_attr (asked f)) (set_affinity y f) _
            (Reaches-bind (with_attr attr_stack) (with_attr attr_guard) (set_guard y f) _
              (Reaches-bind (with_attr attr_sched) (with_attr attr_stack) (set_stack y f) _
                (Reaches-bind (with_attr attr_detach) (with_attr attr_sched) (set_sched y f) _
                  set_detachstate-Reaches set_sched-Reaches)
                set_stack-Reaches)
              set_guard-Reaches)
            set_affinity-Reaches)
          copy_name-Reaches)
        alloc_ctx-Reaches)

  -- pthread_start, however the calls of the system end, destroys the attributes that it made
  -- and has one of two outcomes: it returns 0 and one thread runs, with exactly the attributes
  -- that the flags ask for, its context and the copy of its name alive and its identifier
  -- stored; or it returns an error, no thread runs, both blocks of memory are freed and nothing
  -- is stored.
  pub pthread_start-Outcome : (func arg : ℕ) → Outcome func arg (pthread_start y func arg f)
  unfolding pthread_start
  pthread_start-Outcome func arg = elim (Bool-cases (refused func f)) [
    | inl e ↦ rw e (ground arith)
    | inr e ↦ rw e (elim (Bool-cases (y.attr_init == 0)) [
      | inl z ↦ rw z (body-Outcome func arg)
      | inr z ↦ rw z (ground arith)
    ])
  ]

  leave-negative : (p : Part) → negative (leave p).0 ≡ false
  leave-negative (on s) = refl
  leave-negative (out rc s) = refl

  pub pthread_start-negative :
      (func arg : ℕ)
      → negative (pthread_start y func arg f).0
        ≡ (if refused func f then true else not (y.attr_init == 0))
  unfolding pthread_start
  pthread_start-negative func arg = elim (Bool-cases (refused func f)) [
    | inl e ↦ rw e refl
    | inr e ↦ rw e (elim (Bool-cases (y.attr_init == 0)) [
      | inl z ↦ rw z (leave-negative _)
      | inr z ↦ rw z (ground arith)
    ])
  ]

  -- What a thread started with these flags does first.
  pub pthread_start-thunk :
      (func arg : ℕ) (c : StartCtx)
      → (pthread_start y func arg f).1.thread ≡ some (asked f, c)
      → ((start_thunk c (pthread_start y func arg f).1).0.call ≡ (func, arg))
        × ((start_thunk c (pthread_start y func arg f).1).1.ctx ≡ false)
        × ((start_thunk c (pthread_start y func arg f).1).1.name_copy ≡ false)
  unfolding start_thunk
  pthread_start-thunk func arg c h = ground (arith, pthread_start-Outcome func arg)
