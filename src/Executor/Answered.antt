-- ===== src/Executor/Answered.antt =====
-- src/libsrpc.c: what `libsrpc_request_processing` does with a request, and under which hazard pointer.
use simplerpc.Common.{
  ℕ, ◌+◌, ◌≤◌, ◌<◌, ◌≡◌, ◌≢◌, refl, true, false, Option, none, some, inl, inr, ◌⊎◌, Bool-cases,
  Option-cases, arith, pos, int32,
}
use simplerpc.Request.{
  Request, Response, control, is_corrupted, get_response_fast, response_set, rc_word, st_ready,
}
use simplerpc.Request.Answers.{set_to}
use simplerpc.Executor.{
  Served, Function, Processed, is_own, own_slot, with_response, request_processing, request_lock,
  callback_func, rc_state,
}
use simplerpc.Executor.Slot.{own_slot-Found}

-- A request that is not corrupted is also not for a caller that saw its control word.
own_control :
    (header : ℕ) (r : Request)
    → is_corrupted header (some r) (some (control r)) ≡ is_corrupted header (some r) none
unfolding is_corrupted
own_control header r = ground arith

response_set-fine :
    (header : ℕ) (r : Request) (p : Response) (val : Option (ℕ → ℕ)) (sz : ℕ)
    → is_corrupted header (some r) none ≡ false
    → p.rc ≡ 0
    → response_set header (some r) p (some (control r)) val sz
      ≡ (int32 (rc_word (pos 0) st_ready), set_to val sz p)
unfolding response_set
response_set-fine header r p val sz fine fresh = ground (arith, own_control header r)

ready_state : rc_state (int32 (rc_word (pos 0) st_ready)) ≡ st_ready
unfolding rc_state rc_word
ready_state = refl

module _ (header fnnum : ℕ) (function : ℕ → Option Function) (address proc uid : ℕ)
    (has_address : address ≢ 0) (has_proc : proc ≢ 0) where
  -- The request that is answered in its response at `off` by the function `f`.
  abbrev pub answered : Served → Function → ℕ → Processed
  answered s f off = record {
    rc = pos 0;
    served = record {
      req = with_response s.req off (set_to (f.value s.req) f.size (s.req.responses off));
      posts = s.posts + 1;
    };
    hp_req = 0;
    ran_under = some address;
  }

  pub processing_at :
      (s : Served) (f : Function) (off hp : ℕ)
      → is_corrupted header (some s.req) none ≡ false
      → 17 ≤ s.req.funid
      → s.req.funid < 17 + fnnum
      → function s.req.funid ≡ some f
      → f.is_wrapper ≡ false
      → own_slot (get_response_fast header (some s.req)) s.req proc uid ≡ some off
      → (s.req.responses off).rc ≡ 0
      → request_processing header fnnum function address proc uid hp s.req s.req s
        ≡ answered s f off
  unfolding request_processing callback_func request_lock
  processing_at s f off hp fine lo hi at own slot fresh =
      rw (slot, request_processing)
        (rw (at, callback_func)
          (ground (
            arith,
            response_set-fine header s.req (s.req.responses off) (f.value s.req) f.size,
            ready_state,
          )))

  -- A request that is not corrupted, for a known function that is not the wrapper itself, with
  -- a response that waits for the process at some index and no such response written yet, is
  -- answered: libsrpc_request_processing returns 0, one response that waits for the process
  -- holds the bytes that the function gave and is ready, the rest of the request is as it was,
  -- the owner is woken once, and the hazard pointer held the request while the function ran and
  -- is NULL afterwards.
  pub request_processing-answers :
      (s : Served) (f : Function) (j off hp : ℕ)
      → is_corrupted header (some s.req) none ≡ false
      → 17 ≤ s.req.funid
      → s.req.funid < 17 + fnnum
      → function s.req.funid ≡ some f
      → f.is_wrapper ≡ false
      → j < s.req.retnum
      → get_response_fast header (some s.req) j ≡ some off
      → is_own proc uid (s.req.responses off) ≡ true
      → ((k : ℕ) → is_own proc uid (s.req.responses k) ≡ true → (s.req.responses k).rc ≡ 0)
      → (mine : ℕ) × (is_own proc uid (s.req.responses mine) ≡ true)
        × (request_processing header fnnum function address proc uid hp s.req s.req s
            ≡ answered s f mine)
  request_processing-answers s f j off hp fine lo hi at own lt place is_mine fresh =
      let (mine, slot, yours) =
        own_slot-Found (get_response_fast header (some s.req)) s.req proc uid j off lt place
          is_mine in
      (mine, yours, processing_at s f mine hp fine lo hi at own slot (fresh mine yours))

  -- A request that is corrupted at one check is corrupted at the later ones.
  abbrev pub StaysCorrupted : (first second last : Request) → Type 0
  StaysCorrupted first second last =
      (is_corrupted header (some first) none ≡ true → is_corrupted header (some last) none ≡ true)
      × (is_corrupted header (some second) none ≡ true
          → is_corrupted header (some last) none ≡ true)

  request_lock-held :
      (hp : ℕ) (first second last : Request)
      → StaysCorrupted first second last
      → is_corrupted header (some last) none ≡ false
      → request_lock header address hp first second ≡ (pos 0, address)
  unfolding request_lock
  request_lock-held hp first second last stays fine =
      elim (Bool-cases (is_corrupted header (some first) none)) [
        | inl bad ↦ absurd (cc (stays.0 bad))
        | inr good ↦ elim (Bool-cases (is_corrupted header (some second) none)) [
          | inl bad ↦ absurd (cc (stays.1 bad))
          | inr fit ↦ rw good (rw fit refl)
        ]
      ]

  -- However the request changes between the two checks of the lock and the third check, if what
  -- one check finds corrupted stays corrupted: libsrpc_request_processing leaves the hazard
  -- pointer NULL, and a function runs only while the hazard pointer holds the request.
  pub request_processing-guarded :
      (s : Served) (hp : ℕ) (first second : Request)
      → StaysCorrupted first second s.req
      → ((request_processing header fnnum function address proc uid hp first second s).hp_req ≡ 0)
        × (((request_processing header fnnum function address proc uid hp first second s).ran_under
              ≡ none)
            ⊎ ((request_processing header fnnum function address proc uid hp first second
                  s).ran_under
                ≡ some address))
  unfolding request_processing
  request_processing-guarded s hp first second stays =
      elim (Option-cases (own_slot (get_response_fast header (some s.req)) s.req proc uid)) [
        | inl e ↦ rw (e, request_processing) (ground arith)
        | inr (off, e) ↦
            rw (e, request_processing)
              (ground (arith, request_lock-held hp first second s.req stays))
      ]
