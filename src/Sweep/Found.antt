-- ===== src/Sweep/Found.antt =====
-- What the searches find.
use simplerpc.Common.{ℕ, ◌≡◌, refl, ap, ◌∙◌, true, pos, arith, List, [], ◌∷◌, ◌++◌}
use simplerpc.Holds.{shmem_check_uid_lock}
use simplerpc.Sweep.{Listed, Owner, is_locked_uid_proc, is_locked_uid}

locked_proc-found :
    (header uid : ℕ) (before after : List Listed) (l : Listed)
    → shmem_check_uid_lock header l.req (pos uid) ≡ pos 1
    → is_locked_uid_proc header uid (before ++ l ∷ after) ≡ true
unfolding is_locked_uid_proc
locked_proc-found header uid [] after l e = rw (is_locked_uid_proc, e) refl
locked_proc-found header uid (b ∷ before) after l e =
    let rest = locked_proc-found header uid before after l e in ground (arith, rest)

-- libsrpc_shmem_is_locked_uid finds a lock: when a valid process, anywhere in the list of
-- processes, has a request, anywhere in its list, for which libsrpc_shmem_check_uid_lock answers
-- 1, the memory of the UID is locked.
pub is_locked_uid-found :
    (header uid : ℕ) (before after : List Owner) (o : Owner) (earlier later_on : List Listed)
    (l : Listed)
    → o.valid ≡ true
    → o.requests ≡ earlier ++ l ∷ later_on
    → shmem_check_uid_lock header l.req (pos uid) ≡ pos 1
    → is_locked_uid header uid (before ++ o ∷ after) ≡ true
unfolding is_locked_uid
is_locked_uid-found header uid [] after o earlier later_on l valid at e =
    let mine : is_locked_uid_proc header uid o.requests ≡ true =
      ap (is_locked_uid_proc header uid) at ∙ locked_proc-found header uid earlier later_on l e in
    ground (arith, mine, valid)
is_locked_uid-found header uid (b ∷ before) after o earlier later_on l valid at e =
    let rest = is_locked_uid-found header uid before after o earlier later_on l valid at e in
    ground (arith, rest)
