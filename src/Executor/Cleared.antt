-- ===== src/Executor/Cleared.antt =====
-- src/libsrpc.c: what `libsrpc_thread_rcv_queue_clear` leaves of the queue and of the requests in it.
use simplerpc.Common.{
  ℕ, zero, suc, ◌+◌, ◌<◌, ◌≡◌, ◌≢◌, refl, ap, ◌∙◌, Bool, true, false, Option, none, some, List, [],
  ◌∷◌, length, arith, neg, e_cancelled, ◌==◌, if◌then◌else◌, inl, inr, Bool-cases,
}
use simplerpc.Request.{Request, Response, is_corrupted, get_response, rc_word, st_error, req_sign}
use simplerpc.Queue.{Queue}
use simplerpc.Queue.Inv.{IsCapacity, Holds}
use simplerpc.Queue.Spec.{pop}
use simplerpc.Queue.Refine.{try_dequeue_refines}
use simplerpc.Executor.{
  Served, is_own, own_slot, cancel, cancel_at, cancel_in, cancel_if, queue_clear,
}
use simplerpc.Executor.Slot.{own_slot-Found}

-- Every request of the list, one after the other.
cancel_all : (header proc uid : ℕ) → List ℕ → (ℕ → Option Served) → ℕ → Option Served
cancel_all header proc uid [] mem = mem
cancel_all header proc uid (p ∷ ps) mem =
    cancel_all header proc uid ps (cancel_in header proc uid p mem)

module _ (header proc uid fuel : ℕ) {size : ℕ} (c : IsCapacity size) where
  queue_clear-ends :
      (xs : List ℕ) (start turns : ℕ) (spurious : ℕ → ℕ → Bool) (mem : ℕ → Option Served)
      (q : Queue)
      → Holds size start xs q
      → length xs < turns
      → ((k : ℕ) → (r : ℕ) × (r < fuel) × (spurious k r ≡ false))
      → (q' : Queue) × (start' : ℕ) × (queue_clear header proc uid size fuel turns spurious mem q
          ≡ some (cancel_all header proc uid xs mem, q'))
        × Holds size start' [] q'
  unfolding cancel_all pop queue_clear
  queue_clear-ends xs start zero spurious mem q h lt lucky = absurd (omega arith)
  queue_clear-ends [] start (suc turns) spurious mem q h lt lucky =
      let (r, few, fine) = lucky 0 in
      let (q', start', e, h') = try_dequeue_refines fuel r (spurious 0) c few fine [] h in
      (q', start', rw (e, queue_clear) refl, h')
  queue_clear-ends (x ∷ xs) start (suc turns) spurious mem q h lt lucky =
      let (r, few, fine) = lucky 0 in
      let (q', start', e, h') = try_dequeue_refines fuel r (spurious 0) c few fine (x ∷ xs) h in
      let (q'', start'', e', h'') =
        queue_clear-ends xs start' turns (λ k. spurious (suc k)) (cancel_in header proc uid x mem)
          q' h' (omega arith) (λ k. lucky (suc k)) in
      (q'', start'', rw (e, queue_clear) e', h'')

-- The answer that a cancelled response has.
abbrev pub cancelled_word : ℕ
cancelled_word = rc_word (neg e_cancelled) st_error

cancelled_word-ne : cancelled_word ≢ 0
unfolding rc_word
cancelled_word-ne h = omega arith

is_corrupted-sign :
    (header : ℕ) (r : Request) → is_corrupted header (some r) none ≡ false → r.sign ≡ req_sign
unfolding is_corrupted
is_corrupted-sign header r fine = ground arith

-- The response at `k` of a request whose response at `mine` is settled: an empty one has the error
-- -ECANCELLED.
abbrev pub settled_response : Served → (mine k : ℕ) → Response
settled_response s mine k =
    if k == mine
    then record (s.req.responses k) {
      rc = if (s.req.responses k).rc == 0 then cancelled_word else (s.req.responses k).rc;
    }
    else s.req.responses k

module _ (header proc uid : ℕ) (s : Served) where
  cancel-fine :
      (off : ℕ)
      → is_corrupted header (some s.req) none ≡ false
      → own_slot (get_response header (some s.req)) s.req proc uid ≡ some off
      → cancel header proc uid s ≡ cancel_at s off
  unfolding cancel
  cancel-fine off fine slot = rw (slot, cancel) (rw fine refl)

  cancel-settles :
      (j off : ℕ)
      → is_corrupted header (some s.req) none ≡ false
      → j < s.req.retnum
      → get_response header (some s.req) j ≡ some off
      → is_own proc uid (s.req.responses off) ≡ true
      → (mine : ℕ) × (is_own proc uid (s.req.responses mine) ≡ true)
        × ((k : ℕ) → (cancel header proc uid s).req.responses k ≡ settled_response s mine k)
        × ((cancel header proc uid s).posts ≡ s.posts + 1)
  cancel-settles j off fine lt place own =
      let (mine, slot, yours) =
        own_slot-Found (get_response header (some s.req)) s.req proc uid j off lt place own in
      let e = cancel-fine mine fine slot in
      (mine, yours, λ k. rw e (settles k mine), rw e (ground (arith, signed)))
    where
      settles : (k mine : ℕ) → (cancel_at s mine).req.responses k ≡ settled_response s mine k
      settles k mine = elim (Bool-cases ((s.req.responses mine).rc == 0)) [
        | inl e ↦ rw e (ground arith)
        | inr e ↦ rw e (ground arith)
      ]

      signed : s.req.sign ≡ req_sign
      signed = is_corrupted-sign header s.req fine

-- How often an address is in a list.
unfoldable pub times : ℕ → List ℕ → ℕ
times p [] = 0
times p (x ∷ xs) = (if p == x then 1 else 0) + times p xs

module _ (header proc uid : ℕ) where
  cancel_all-apart :
      (p : ℕ) (xs : List ℕ) (mem : ℕ → Option Served)
      → times p xs ≡ 0
      → cancel_all header proc uid xs mem p ≡ mem p
  unfolding cancel_all times
  cancel_all-apart p [] mem none_of = refl
  cancel_all-apart p (x ∷ xs) mem none_of =
      let step = cancel_all-apart p xs (cancel_in header proc uid x mem) in ground (arith, step)

  cancel_all-once :
      (p : ℕ) (xs : List ℕ) (mem : ℕ → Option Served)
      → times p xs ≡ 1
      → cancel_all header proc uid xs mem p ≡ cancel_if header proc uid (mem p)
  unfolding cancel_all times
  cancel_all-once p [] mem once = absurd (omega (arith, once))
  cancel_all-once p (x ∷ xs) mem once =
      let later = cancel_all-once p xs (cancel_in header proc uid x mem) in
      let gone = cancel_all-apart p xs (cancel_in header proc uid x mem) in
      ground (arith, later, gone)

-- What the call leaves at an address that the queue held: the request with the response of the process
-- settled and every other response as it was, and one wake-up more.
pub record Settled (proc uid : ℕ) (s : Served) (o : Option Served) : Type 0 where
  pub after : Served
  pub at : o ≡ some after
  pub mine : ℕ
  pub own : is_own proc uid (s.req.responses mine) ≡ true
  pub responses : (k : ℕ) → after.req.responses k ≡ settled_response s mine k
  pub woken : after.posts ≡ s.posts + 1

module _ (header proc uid fuel : ℕ) {size : ℕ} (c : IsCapacity size) where
  -- libsrpc_thread_rcv_queue_clear on a ring in order ends within one turn more than the ring
  -- holds pointers, if in each turn one of the attempts at the ring is not spoiled by a
  -- spurious failure: the ring is then in order and empty; a request that was in the ring once,
  -- is not corrupted and has a response of the process has that response with the error
  -- ECANCELLED where it was empty and as it was otherwise, every other response as it was, and
  -- its owner woken once; and what was at an address that the ring did not hold is as it was.
  pub queue_clear-all :
      (xs : List ℕ) (start turns : ℕ) (spurious : ℕ → ℕ → Bool) (mem : ℕ → Option Served)
      (q : Queue)
      → Holds size start xs q
      → length xs < turns
      → ((k : ℕ) → (r : ℕ) × (r < fuel) × (spurious k r ≡ false))
      → (p : ℕ) (s : Served) (j off : ℕ) → times p xs ≡ 1
      → mem p ≡ some s
      → is_corrupted header (some s.req) none ≡ false
      → j < s.req.retnum
      → get_response header (some s.req) j ≡ some off
      → is_own proc uid (s.req.responses off) ≡ true
      → (apart : ℕ) → times apart xs ≡ 0
      → (mem' : ℕ → Option Served) × (q' : Queue) × (start' : ℕ) × (queue_clear header proc uid size
            fuel turns spurious mem q
          ≡ some (mem', q'))
        × Holds size start' [] q'
        × Settled proc uid s (mem' p)
        × (mem' apart ≡ mem apart)
  queue_clear-all xs start turns spurious mem q h lt lucky p s j off once here fine lt_j place own
        apart out =
      let (q', start', e, h') =
        queue_clear-ends header proc uid fuel c xs start turns spurious mem q h lt lucky in
      let (mine, yours, responses, woken) =
        cancel-settles header proc uid s j off fine lt_j place own in
      (
        cancel_all header proc uid xs mem,
        q',
        start',
        e,
        h',
        record {
          after = cancel header proc uid s;
          at =
              cancel_all-once header proc uid p xs mem once
              ∙ ap (λ o. cancel_if header proc uid o) here;
          mine = mine;
          own = yours;
          responses = responses;
          woken = woken;
        },
        cancel_all-apart header proc uid apart xs mem out,
      )
