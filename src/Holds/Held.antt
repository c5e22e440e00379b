-- ===== src/Holds/Held.antt =====
-- What a lock on the memory of a process holds, and that a refused one leaves nothing behind.
use simplerpc.Common.{
  ℕ, zero, suc, ◌+◌, ◌≤◌, ◌<◌, ◌^◌, ◌≡◌, ◌⊎◌, refl, ap, ◌∙◌, sym, subst, Bool, true, false, not,
  ◌||◌, Option, none, some, leb, ◌==◌, ℤ, pos, negsuc, arith, update, inl, inr, Bool-cases,
  update_self, fun_ext,
}
use native.Mathlib.Decide.{ℕ_discrete}
use simplerpc.Request.{Request, Response, is_corrupted, get_response_fast}
use simplerpc.Request.Bounds.{is_corrupted-gc_lock}
use simplerpc.Holds.{
  Holder, free_slot, with_lock, take_slot, check_holder, at_response, use_slot, shmem_proc_lock,
  shmem_proc_unlock, find_uid, shmem_check_uid_lock,
}

free_slot-zero :
    (n i k : ℕ) (lock : ℕ → ℕ) → free_slot n i lock ≡ some k → (i ≤ k) × (k < i + n) × (lock k ≡ 0)
unfolding free_slot
free_slot-zero zero i k lock e = absurd (ground arith)
free_slot-zero (suc n) i k lock e =
    let rest = free_slot-zero n (suc i) k lock in ground (arith, rest)

restored :
    (r : Request) (i uid : ℕ)
    → r.gc_lock i ≡ 0
    → with_lock r (update (update r.gc_lock i uid) i 0) ≡ r
restored r i uid e = ap (λ (l : ℕ → ℕ). with_lock r l) (fun_ext (λ j. ground arith))

-- The two ways that the search for a slot and what follows it can end.
data Outcome (uid : ℕ) (r : Request) (out : ℤ × Request) : Type 0 where
  held :
      (i : ℕ)
      → i < 4
      → r.gc_lock i ≡ 0
      → out ≡ (pos i, with_lock r (update r.gc_lock i uid))
      → Outcome uid r out
  refused : (e : ℕ) → out ≡ (negsuc e, r) → Outcome uid r out

use_slot-Outcome :
    (holder : Holder) (owns : Bool) (r : Request) (i : ℕ)
    → i < 4
    → r.gc_lock i ≡ 0
    → Outcome holder.proc_uid r (use_slot holder owns r i)
use_slot-Outcome holder owns r i lt at =
    let back = restored r i holder.proc_uid at in
    elim (Bool-cases (not holder.late_valid || not (holder.late_uid == holder.proc_uid))) [
      | inl gone ↦ refused 4104 (rw gone (ap (λ q. (negsuc 4104, q)) back))
      | inr there ↦ elim (Bool-cases owns) [
        | inl mine ↦ held i lt at (rw (there, mine) refl)
        | inr other ↦ refused 4103 (rw (there, other) (ap (λ q. (negsuc 4103, q)) back))
      ]
    ]

module _ (header : ℕ) (shm : Bool) (look : ℕ → Holder) (owns : Bool) (r : Request) where
  take_slot-Outcome : (holder : Holder) → Outcome holder.proc_uid r (take_slot holder owns r)
  unfolding take_slot
  take_slot-Outcome holder = go (free_slot 4 0 r.gc_lock) refl
    where
      go :
          (o : Option ℕ)
          → free_slot 4 0 r.gc_lock ≡ o
          → Outcome holder.proc_uid r (take_slot holder owns r)
      go none e = refused 11 (rw (take_slot, e) refl)
      go (some i) e =
          let (lo, hi, at) = free_slot-zero 4 0 i r.gc_lock e in
          rw (take_slot, e) (use_slot-Outcome holder owns r i hi at)

  -- How a call for the response at a place can end: with a slot for the process behind it, whose UID is
  -- that of the response, or refused.
  Ends : Option ℕ → ℤ × Request → Type 0
  Ends o out =
      ((off : ℕ) × (o ≡ some off)
        × ((look (r.responses off).hp_proc).proc_uid ≡ (r.responses off).uid)
        × Outcome (look (r.responses off).hp_proc).proc_uid r out)
      ⊎ ((e : ℕ) × (out ≡ (negsuc e, r)))

  check_holder-Ends : (off : ℕ) → Ends (some off) (check_holder look owns (r.responses off) r)
  unfolding check_holder Ends
  check_holder-Ends off =
      let resp : Response = r.responses off in
      elim (Bool-cases (resp.hp_proc == 0)) [
        | inl e ↦ inr (4101, rw (check_holder, e) refl)
        | inr e ↦
            elim (Bool-cases
              (not ((look resp.hp_proc).proc_uid == resp.uid) || not (look resp.hp_proc).valid)) [
                | inl f ↦ inr (4104, rw (check_holder, e, f) refl)
                | inr f ↦ inl (
                  off,
                  refl,
                  (let known : (look resp.hp_proc).proc_uid ≡ resp.uid = ground (arith, f) in
                      known),
                  rw (check_holder, e, f) (take_slot-Outcome (look resp.hp_proc)),
                )
              ]
      ]

  at_response-Ends : (o : Option ℕ) → Ends o (at_response look owns r o)
  unfolding Ends
  at_response-Ends none = inr (4106, refl)
  at_response-Ends (some off) = check_holder-Ends off

  abbrev place : ℤ → Option ℕ
  place (pos idx) = get_response_fast header (some r) idx
  place (negsuc n) = none

  shmem_proc_lock-Ends : (idx : ℤ) → Ends (place idx) (shmem_proc_lock header shm look owns idx r)
  unfolding shmem_proc_lock Ends
  shmem_proc_lock-Ends (negsuc n) = inr (21, refl)
  shmem_proc_lock-Ends (pos idx) = elim (Bool-cases shm) [
    | inr e ↦ inr (4096, rw (shmem_proc_lock, e) refl)
    | inl e ↦ elim (Bool-cases (is_corrupted header (some r) none || leb r.retnum idx)) [
      | inl f ↦ inr (4105, rw (shmem_proc_lock, e, f) refl)
      | inr f ↦
          rw (shmem_proc_lock, e, f) (at_response-Ends (get_response_fast header (some r) idx))
    ]
  ]

  lock-fine :
      (idx : ℤ) (slot : ℕ) (r' : Request)
      → shmem_proc_lock header shm look owns idx r ≡ (pos slot, r')
      → is_corrupted header (some r) none ≡ false
  unfolding shmem_proc_lock
  lock-fine (negsuc n) slot r' e = absurd (ground arith)
  lock-fine (pos idx) slot r' e = elim (Bool-cases (is_corrupted header (some r) none)) [
    | inr fine ↦ fine
    | inl bad ↦ elim (Bool-cases shm) [
      | inl on ↦ absurd (let out = rw (on, bad) at e in ground (arith, out))
      | inr off ↦ absurd (let out = rw off at e in ground (arith, out))
    ]
  ]

find_uid-found :
    (n i k uid : ℕ) (lock : ℕ → ℕ) → i ≤ k → k < i + n → lock k ≡ uid → find_uid n i lock uid ≡ true
unfolding find_uid
find_uid-found zero i k uid lock lo hi e = absurd (omega arith)
find_uid-found (suc n) i k uid lock lo hi e = elim (ℕ_discrete k i) [
  | yes here ↦ ground (arith, here, e)
  | no apart ↦
      let rest = find_uid-found n (suc i) k uid lock (omega arith) (omega arith) e in
      ground (arith, rest)
]

module _ (header : ℕ) (shm : Bool) (look : ℕ → Holder) (owns : Bool) (r r' : Request) where
  unlock-restores :
      (slot uid : ℕ)
      → slot < 4
      → r.gc_lock slot ≡ 0
      → is_corrupted header (some r) none ≡ false
      → shmem_proc_unlock header (pos slot) (with_lock r (update r.gc_lock slot uid)) ≡ (pos 0, r)
  unfolding shmem_proc_unlock
  unlock-restores slot uid lt at fine =
      let in_range : leb 4 slot ≡ false = ground arith in
      let fine' = is_corrupted-gc_lock header r (update r.gc_lock slot uid) ∙ fine in
      rw (shmem_proc_unlock, in_range, fine') (ap (λ q. (pos 0, q)) (restored r slot uid at))

  check_uid-found :
      (slot uid : ℕ)
      → slot < 4
      → 0 < uid
      → uid < 2 ^ 16
      → is_corrupted header (some r) none ≡ false
      → shmem_check_uid_lock header (with_lock r (update r.gc_lock slot uid)) (pos uid) ≡ pos 1
  unfolding shmem_check_uid_lock
  check_uid-found slot uid lt ne small fine =
      let lock = update r.gc_lock slot uid in
      let fits : ((uid == 0) || leb (2 ^ 16) uid) ≡ false = ground arith in
      let fine' = is_corrupted-gc_lock header r lock ∙ fine in
      let found =
        find_uid-found 4 0 slot uid lock (omega arith) (omega arith)
          (update_self r.gc_lock slot uid) in
      rw (shmem_check_uid_lock, fits, fine', found) refl

  -- A lock that libsrpc_shmem_proc_lock grants for an index, when the UIDs of processes are
  -- above 0 and below 2 ^ 16: the response of the index is there, and its UID is that of the
  -- process that it names; the slot returned is one of the four and was free; the request
  -- differs in that slot only, which has this UID; libsrpc_shmem_check_uid_lock answers 1 for
  -- the UID, and libsrpc_shmem_proc_unlock of the slot restores the request.
  pub shmem_proc_lock-held :
      (uids : (p : ℕ) → (0 < (look p).proc_uid) × ((look p).proc_uid < 2 ^ 16))
      → (idx slot : ℕ) → shmem_proc_lock header shm look owns (pos idx) r ≡ (pos slot, r')
      → (off : ℕ) × (get_response_fast header (some r) idx ≡ some off)
        × ((look (r.responses off).hp_proc).proc_uid ≡ (r.responses off).uid)
        × (slot < 4)
        × (r.gc_lock slot ≡ 0)
        × (r' ≡ with_lock r (update r.gc_lock slot (r.responses off).uid))
        × (shmem_check_uid_lock header r' (pos (r.responses off).uid) ≡ pos 1)
        × (shmem_proc_unlock header (pos slot) r' ≡ (pos 0, r))
  unfolding Ends
  shmem_proc_lock-held uids idx slot e =
      elim (shmem_proc_lock-Ends header shm look owns r (pos idx)) [
        | inr (code, out) ↦ absurd (let both = sym e ∙ out in ground (arith, both))
        | inl (off, at, known, outcome) ↦
            let (lt, free, now, found, back) = go off known outcome in
            (off, at, known, lt, free, now, found, back)
      ]
    where
      go :
          (off : ℕ)
          → (look (r.responses off).hp_proc).proc_uid ≡ (r.responses off).uid
          → Outcome
              (look (r.responses off).hp_proc).proc_uid
              r
              (shmem_proc_lock header shm look owns (pos idx) r)
          → (slot < 4)
            × (r.gc_lock slot ≡ 0)
            × (r' ≡ with_lock r (update r.gc_lock slot (r.responses off).uid))
            × (shmem_check_uid_lock header r' (pos (r.responses off).uid) ≡ pos 1)
            × (shmem_proc_unlock header (pos slot) r' ≡ (pos 0, r))
      go off known (refused code out) = absurd (let both = sym e ∙ out in ground (arith, both))
      go off known (held i lt at out) =
          let uid = (r.responses off).uid in
          let both = sym e ∙ out in
          let same : slot ≡ i = ground (arith, both) in
          let lt' : slot < 4 = omega (arith, same, lt) in
          let at' : r.gc_lock slot ≡ 0 = ap r.gc_lock same ∙ at in
          let now : r' ≡ with_lock r (update r.gc_lock slot uid) =
            ap (λ p. p.1) both
            ∙ ap (λ k. with_lock r (update r.gc_lock k (look (r.responses off).hp_proc).proc_uid))
                (sym same)
            ∙ ap (λ u. with_lock r (update r.gc_lock slot u)) known in
          let fine = lock-fine header shm look owns r (pos idx) slot r' e in
          let (some_uid, small) = uids (r.responses off).hp_proc in
          (
            lt',
            at',
            now,
            subst (λ q. shmem_check_uid_lock header q (pos uid) ≡ pos 1) (sym now)
                (check_uid-found slot uid lt' (omega (arith, known, some_uid))
                  (omega (arith, known, small)) fine),
            subst (λ q. shmem_proc_unlock header (pos slot) q ≡ (pos 0, r)) (sym now)
                (unlock-restores slot uid lt' at' fine),
          )

  -- A lock that libsrpc_shmem_proc_lock refuses with an error, also after it has written to a
  -- slot, leaves the request as it was.
  pub shmem_proc_lock-refused :
      (idx : ℤ) (code : ℕ) → shmem_proc_lock header shm look owns idx r ≡ (negsuc code, r') → r' ≡ r
  unfolding Ends
  shmem_proc_lock-refused idx code e = elim (shmem_proc_lock-Ends header shm look owns r idx) [
    | inr (code', out) ↦ ap (λ p. p.1) (sym e ∙ out)
    | inl (off, at, known, refused code' out) ↦ ap (λ p. p.1) (sym e ∙ out)
    | inl (off, at, known, held i lt at' out) ↦
        absurd (let both = sym e ∙ out in ground (arith, both))
  ]
