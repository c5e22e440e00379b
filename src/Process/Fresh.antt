-- ===== src/Process/Fresh.antt =====
-- The UID of a new process is not in use, and no two processes share a UID or a PID.
use simplerpc.Common.{
  ℕ, zero, suc, ◌+◌, ◌%◌, ◌≡◌, refl, ◌≢◌, ap, ◌∙◌, sym, subst, Bool, true, false, ◌||◌, Option,
  none, some, ltb, ◌==◌, ℤ, pos, negsuc, negative, arith, inl, inr, Bool-cases, ◌⊎◌, List, [], ◌∷◌,
}
use simplerpc.Process.{Proc, Table, uid_used, find_uid, get_uid, proc_get, make_proc, proc_create}

-- No UID, or one that no process has.
abbrev pub Unused : List Proc → ℕ × ℕ → Type 0
Unused ps r = (r.0 ≡ 0) ⊎ (uid_used ps r.0 ≡ false)

find_uid-Unused : (left : ℕ) (ps : List Proc) (next : ℕ) → Unused ps (find_uid left ps next)
unfolding find_uid
find_uid-Unused zero ps next = elim (Bool-cases (uid_used ps next)) [
  | inr unused ↦ rw (find_uid, unused) (inr unused)
  | inl used ↦ elim (Bool-cases ((next + 1) % 65536 == 0)) [
    | inl wrap ↦ rw (find_uid, used, wrap) (inl refl)
    | inr on ↦ rw (find_uid, used, on) (inl refl)
  ]
]
find_uid-Unused (suc left) ps next = elim (Bool-cases (uid_used ps next)) [
  | inr unused ↦ rw (find_uid, unused) (inr unused)
  | inl used ↦ elim (Bool-cases ((next + 1) % 65536 == 0)) [
    | inl wrap ↦ rw (find_uid, used, wrap) (inl refl)
    | inr on ↦ rw (find_uid, used, on) (find_uid-Unused left ps ((next + 1) % 65536))
  ]
]

get_uid-Unused : (ps : List Proc) (next : ℕ) → Unused ps (get_uid ps next)
unfolding get_uid
get_uid-Unused ps next = find_uid-Unused 100 ps next

-- No two processes have one UID or one PID, and every UID is one.
abbrev pub Distinct : List Proc → Type 0
Distinct [] = true ≡ true
Distinct (p ∷ ps) =
    (p.proc_uid ≢ 0) × (uid_used ps p.proc_uid ≡ false) × (proc_get ps p.pid ≡ none) × Distinct ps

-- How a registration ends: with one process more, or with the list as it was and no block kept.
data Ends (pid : ℕ) (t : Table) (memory : Option ℕ) (out : ℤ × Table) : Type 0 where
  made :
      (p : Proc)
      → out.0 ≡ pos 0
      → out.1.procs ≡ p ∷ t.procs
      → p.pid ≡ pid
      → p.proc_uid ≢ 0
      → uid_used t.procs p.proc_uid ≡ false
      → Ends pid t memory out
  refused : negative out.0 ≡ true → out.1.procs ≡ t.procs → Ends pid t memory out

make_proc-Ends :
    (pid threads : ℕ) (memory : Option ℕ) (sem_rc list_rc push_rc : ℤ) (t : Table)
    → Ends pid t memory (make_proc pid threads memory sem_rc list_rc push_rc t)
unfolding make_proc
make_proc-Ends pid threads none sem_rc list_rc push_rc t = refused refl refl
make_proc-Ends pid threads (some block) sem_rc list_rc push_rc t =
    elim (Bool-cases ((get_uid t.procs t.uid_next).0 == 0)) [
      | inl no_uid ↦ rw (make_proc, no_uid) (refused refl refl)
      | inr some_uid ↦ elim (Bool-cases (negative sem_rc)) [
        | inl bad ↦ rw (make_proc, some_uid, bad) (refused bad refl)
        | inr ok_sem ↦ elim (Bool-cases (negative list_rc)) [
          | inl bad ↦ rw (make_proc, some_uid, ok_sem, bad) (refused bad refl)
          | inr ok_list ↦ elim (Bool-cases (negative push_rc)) [
            | inl bad ↦ rw (make_proc, some_uid, ok_sem, ok_list, bad) (refused bad refl)
            | inr ok_push ↦
                rw (make_proc, some_uid, ok_sem, ok_list, ok_push)
                  (made _ refl refl refl (uid_ne some_uid)
                    (unused some_uid (get_uid-Unused t.procs t.uid_next)))
          ]
        ]
      ]
    ]
  where
    uid_ne : ((get_uid t.procs t.uid_next).0 == 0) ≡ false → (get_uid t.procs t.uid_next).0 ≢ 0
    uid_ne e = ground arith

    unused :
        ((get_uid t.procs t.uid_next).0 == 0) ≡ false
        → Unused t.procs (get_uid t.procs t.uid_next)
        → uid_used t.procs (get_uid t.procs t.uid_next).0 ≡ false
    unused e (inl zero_uid) = absurd (uid_ne e zero_uid)
    unused e (inr free) = free

create_step :
    (threads pid : ℕ) (shm : Bool) (memory : Option ℕ) (sem_rc list_rc push_rc : ℤ) (t : Table)
    → (proc_get t.procs pid ≡ none)
        × Ends pid t memory
            (proc_create (pos threads) (pos pid) shm memory sem_rc list_rc push_rc t)
      ⊎ ((negative (proc_create (pos threads) (pos pid) shm memory sem_rc list_rc push_rc t).0
            ≡ true)
          × ((proc_create (pos threads) (pos pid) shm memory sem_rc list_rc push_rc t).1 ≡ t))
unfolding proc_create
create_step threads pid shm memory sem_rc list_rc push_rc t =
    elim (Bool-cases ((threads == 0) || ltb 1024 threads || (pid == 0))) [
      | inl bad ↦ rw (proc_create, bad) (inr (refl, refl))
      | inr fine ↦ elim (Bool-cases shm) [
        | inr off ↦ rw (proc_create, fine, off) (inr (refl, refl))
        | inl on ↦ go fine on (proc_get t.procs pid) refl
      ]
    ]
  where
    go :
        ((threads == 0) || ltb 1024 threads || (pid == 0)) ≡ false
        → shm ≡ true
        → (o : Option Proc) → proc_get t.procs pid ≡ o
        → (proc_get t.procs pid ≡ none)
            × Ends pid t memory
                (proc_create (pos threads) (pos pid) shm memory sem_rc list_rc push_rc t)
          ⊎ ((negative (proc_create (pos threads) (pos pid) shm memory sem_rc list_rc push_rc t).0
                ≡ true)
              × ((proc_create (pos threads) (pos pid) shm memory sem_rc list_rc push_rc t).1 ≡ t))
    go fine on none e = inl (
      e,
      rw (proc_create, fine, on, e) (make_proc-Ends pid threads memory sem_rc list_rc push_rc t),
    )
    go fine on (some p) e =
        inr (rw (proc_create, fine, on, e) refl, rw (proc_create, fine, on, e) refl)

Ends-Distinct :
    (pid : ℕ) (t : Table) (memory : Option ℕ) (out : ℤ × Table)
    → Distinct t.procs
    → proc_get t.procs pid ≡ none
    → Ends pid t memory out
    → Distinct out.1.procs
Ends-Distinct pid t memory out all alone (made p rc at pid_at ne free) =
    subst Distinct (sym at) (ne, free, ap (proc_get t.procs) pid_at ∙ alone, all)
Ends-Distinct pid t memory out all alone (refused rc at) = subst Distinct (sym at) all

-- libsrpc_proc_create, however it ends, keeps the processes distinct: no two have one UID or one
-- PID, and every UID is one (not 0).
pub proc_create-Distinct :
    (threads pid : ℤ) (shm : Bool) (memory : Option ℕ) (sem_rc list_rc push_rc : ℤ) (t : Table)
    → Distinct t.procs
    → Distinct (proc_create threads pid shm memory sem_rc list_rc push_rc t).1.procs
unfolding proc_create
proc_create-Distinct (negsuc n) pid shm memory sem_rc list_rc push_rc t all = all
proc_create-Distinct (pos threads) (negsuc n) shm memory sem_rc list_rc push_rc t all = all
proc_create-Distinct (pos threads) (pos pid) shm memory sem_rc list_rc push_rc t all =
    elim (create_step threads pid shm memory sem_rc list_rc push_rc t) [
      | inl (alone, ends) ↦ Ends-Distinct pid t memory _ all alone ends
      | inr (bad, same) ↦ subst (λ u. Distinct u.procs) (sym same) all
    ]
