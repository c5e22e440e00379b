-- ===== src/Executor/Slot.antt =====
-- src/libsrpc.c: the search for the response of a process among those of a request.
use simplerpc.Common.{
  ℕ, zero, suc, ◌+◌, ◌<◌, ◌≡◌, refl, ◌∙◌, ap, sym, subst, true, false, Option, none, some, inl, inr,
  Bool-cases, Option-cases, arith,
}
use simplerpc.Request.{Request}
use simplerpc.Executor.{is_own, keep_own, find_slot, own_slot}

module _ (response : ℕ → Option ℕ) (r : Request) (proc uid : ℕ) where
  -- The search ends at a response of the process if one is among those that are left.
  abbrev pub Found : Option ℕ → Type 0
  Found o = (off : ℕ) × (o ≡ some off) × (is_own proc uid (r.responses off) ≡ true)

  find_slot-none :
      (n i : ℕ) (resp : Option ℕ)
      → response i ≡ none
      → find_slot response (suc n) i r proc uid resp ≡ find_slot response n (suc i) r proc uid none
  unfolding find_slot
  find_slot-none n i resp e = rw (e, find_slot) refl

  find_slot-own :
      (n i off : ℕ) (resp : Option ℕ)
      → response i ≡ some off
      → is_own proc uid (r.responses off) ≡ true
      → find_slot response (suc n) i r proc uid resp ≡ some off
  unfolding find_slot
  find_slot-own n i off resp e own = rw (e, find_slot) (rw own refl)

  find_slot-other :
      (n i off : ℕ) (resp : Option ℕ)
      → response i ≡ some off
      → is_own proc uid (r.responses off) ≡ false
      → find_slot response (suc n) i r proc uid resp
        ≡ find_slot response n (suc i) r proc uid (some off)
  unfolding find_slot
  find_slot-other n i off resp e own = rw (e, find_slot) (rw own refl)

  find_slot-Found :
      (n i d : ℕ) (resp : Option ℕ) (off : ℕ)
      → d < n
      → response (i + d) ≡ some off
      → is_own proc uid (r.responses off) ≡ true
      → Found (find_slot response n i r proc uid resp)
  find_slot-Found zero i d resp off lt at own = absurd (omega arith)
  find_slot-Found (suc n) i zero resp off lt at own =
      (off, find_slot-own n i off resp (ap response (omega arith) ∙ at) own, own)
  find_slot-Found (suc n) i (suc d) resp off lt at own = elim (Option-cases (response i)) [
    | inl e ↦
        rw (find_slot-none n i resp e) (find_slot-Found n (suc i) d none off (omega arith) next own)
    | inr (o, e) ↦ elim (Bool-cases (is_own proc uid (r.responses o))) [
      | inl mine ↦ (o, find_slot-own n i o resp e mine, mine)
      | inr other ↦
          rw (find_slot-other n i o resp e other)
            (find_slot-Found n (suc i) d (some o) off (omega arith) next own)
    ]
  ]
    where
      next : response (suc i + d) ≡ some off
      next = ap response (omega arith) ∙ at

  -- The response that the search gives is one of the process.
  pub own_slot-own :
      (off : ℕ) → own_slot response r proc uid ≡ some off → is_own proc uid (r.responses off) ≡ true
  unfolding own_slot
  own_slot-own off h = kept (find_slot response r.retnum 0 r proc uid none) h
    where
      kept :
          (o : Option ℕ)
          → keep_own r proc uid o ≡ some off
          → is_own proc uid (r.responses off) ≡ true
      kept none h = cc
      kept (some o) h = ground arith

  -- It gives one if there is one.
  pub own_slot-Found :
      (j off : ℕ)
      → j < r.retnum
      → response j ≡ some off
      → is_own proc uid (r.responses off) ≡ true
      → Found (own_slot response r proc uid)
  unfolding own_slot
  own_slot-Found j off lt at own =
      let (o, e, mine) =
        find_slot-Found r.retnum 0 j none off lt (ap response (omega arith) ∙ at) own in
      (o, rw (e, mine) refl, mine)

  -- The first response ends the search at once if it is one of the process.
  pub own_slot_first :
      (n off : ℕ)
      → r.retnum ≡ suc n
      → response 0 ≡ some off
      → is_own proc uid (r.responses off) ≡ true
      → own_slot response r proc uid ≡ some off
  unfolding own_slot
  own_slot_first n off num at own =
      let found : find_slot response r.retnum 0 r proc uid none ≡ some off =
        subst (λ m. find_slot response m 0 r proc uid none ≡ some off) (sym num)
          (find_slot-own n 0 off none at own) in
      rw (found, own) refl
