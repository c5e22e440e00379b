-- ===== src/Request/Answers.antt =====
-- What `libsrpc_req_response_get` answers, and the way of an answer from `libsrpc_req_response_set` to it.
use simplerpc.Common.{
  ℕ, zero, suc, ◌+◌, ◌<◌, ◌≡◌, refl, ◌≢◌, ap, ◌∙◌, sym, subst, fun_ext, Bool, true, false, Option,
  some, ◌==◌, if◌then◌else◌, pos, neg, int32, arith, e_busy, e_badfd, e_timedout, inl, ◌⊎◌,
}
use simplerpc.Request.{
  st_ready, st_error, rc_word, rc_st, rc_code, Response, Request, is_corrupted, copy_bytes,
  response_set, Answer, error_code, poll, response_get,
}

-- A word that the reader passes over: the executor has not answered or is about to.
abbrev pub Waits : ℕ → Type 0
Waits w = (rc_st w ≢ st_ready) × (rc_st w ≢ st_error)

-- The answer to a word that is ready or an error.
abbrev pub settled : ℕ → (ℕ → ℕ) → Bool → ℕ → ℕ → (ℕ → ℕ) → Answer
settled w buf has_val sz errno old =
    if rc_st w == st_ready
    then record {
      rc = rc_code w;
      errno = errno;
      out = if has_val then copy_bytes (some buf) sz old else old;
    }
    else record { rc = error_code e_badfd (rc_code w); errno = errno; out = old }

shift : (i j : ℕ) → suc j + i ≡ j + suc i
shift i j = omega arith

plus_zero : (j : ℕ) → j ≡ j + 0
plus_zero j = omega arith

zero_plus : (i : ℕ) → 0 + i ≡ i
zero_plus i = omega arith

poll-Waits :
    (polls i : ℕ) (rcs buf : ℕ → ℕ) (has_val : Bool) (sz errno : ℕ) (old : ℕ → ℕ)
    → Waits (rcs i)
    → poll (suc polls) i rcs buf has_val sz errno old
      ≡ poll polls (suc i) rcs buf has_val sz errno old
unfolding poll
poll-Waits polls i rcs buf has_val sz errno old (not_ready, not_error) = ground arith

poll-settled :
    (polls i k : ℕ) (rcs buf : ℕ → ℕ) (has_val : Bool) (sz errno : ℕ) (old : ℕ → ℕ)
    → k < polls
    → ((j : ℕ) → j < k → Waits (rcs (j + i)))
    → (rc_st (rcs (k + i)) ≡ st_ready) ⊎ (rc_st (rcs (k + i)) ≡ st_error)
    → poll polls i rcs buf has_val sz errno old ≡ settled (rcs (k + i)) buf has_val sz errno old
unfolding poll
poll-settled zero i k rcs buf has_val sz errno old lt waits done = absurd (omega arith)
poll-settled (suc polls) i zero rcs buf has_val sz errno old lt waits done = ground (arith, done)
poll-settled (suc polls) i (suc k) rcs buf has_val sz errno old lt waits done =
    let later =
      poll-settled polls (suc i) k rcs buf has_val sz errno old (omega arith)
        (λ j jk. subst (λ m. Waits (rcs m)) (shift i j) (waits (suc j) (omega arith)))
        (subst (λ m. (rc_st (rcs m) ≡ st_ready) ⊎ (rc_st (rcs m) ≡ st_error)) (shift i k) done) in
    poll-Waits polls i rcs buf has_val sz errno old
      (subst (λ m. Waits (rcs m)) (zero_plus i) (waits 0 (omega arith)))
    ∙ later
    ∙ ap (λ m. settled (rcs m) buf has_val sz errno old) (sym (shift i k))

poll-timeout :
    (polls i : ℕ) (rcs buf : ℕ → ℕ) (has_val : Bool) (sz errno : ℕ) (old : ℕ → ℕ)
    → ((j : ℕ) → j < polls → Waits (rcs (j + i)))
    → poll polls i rcs buf has_val sz errno old
      ≡ record { rc = neg e_timedout; errno = e_timedout; out = old }
unfolding poll
poll-timeout zero i rcs buf has_val sz errno old waits = refl
poll-timeout (suc polls) i rcs buf has_val sz errno old waits =
    poll-Waits polls i rcs buf has_val sz errno old
      (subst (λ m. Waits (rcs m)) (zero_plus i) (waits 0 (omega arith)))
    ∙ poll-timeout polls (suc i) rcs buf has_val sz errno old
        (λ j jk. subst (λ m. Waits (rcs m)) (shift i j) (waits (suc j) (omega arith)))

module _ (rcs buf : ℕ → ℕ) (has_val : Bool) (sz errno : ℕ) (old : ℕ → ℕ) where
  -- libsrpc_req_response_get answers for the first of its loads that is ready or an error, if
  -- it is among the 1024: the code and the bytes of a ready response, the code of a failed one,
  -- -EBADFD for a code that is not negative.
  pub response_get-settled :
      (k : ℕ)
      → k < 1024
      → ((j : ℕ) → j < k → Waits (rcs j))
      → (rc_st (rcs k) ≡ st_ready) ⊎ (rc_st (rcs k) ≡ st_error)
      → response_get (some (rcs, buf)) has_val sz errno old
        ≡ settled (rcs k) buf has_val sz errno old
  unfolding response_get
  response_get-settled k lt waits done =
      poll-settled 1024 0 k rcs buf has_val sz errno old lt
        (λ j jk. subst (λ m. Waits (rcs m)) (plus_zero j) (waits j jk))
        (subst (λ m. (rc_st (rcs m) ≡ st_ready) ⊎ (rc_st (rcs m) ≡ st_error)) (plus_zero k) done)
      ∙ ap (λ m. settled (rcs m) buf has_val sz errno old) (sym (plus_zero k))

  -- A response that is neither ready nor an error in 1024 loads gives -ETIMEDOUT, also in
  -- errno, and no byte is copied.
  pub response_get-timeout :
      ((j : ℕ) → j < 1024 → Waits (rcs j))
      → response_get (some (rcs, buf)) has_val sz errno old
        ≡ record { rc = neg e_timedout; errno = e_timedout; out = old }
  unfolding response_get
  response_get-timeout waits =
      poll-timeout 1024 0 rcs buf has_val sz errno old
        (λ j jk. subst (λ m. Waits (rcs m)) (plus_zero j) (waits j jk))

-- The response after `libsrpc_req_response_set` has set it.
abbrev pub set_to : Option (ℕ → ℕ) → ℕ → Response → Response
set_to val sz p = record p { buf = copy_bytes val sz p.buf; rc = rc_word (pos 0) st_ready }

copy_copy :
    (val old mid : ℕ → ℕ) (sz : ℕ)
    → copy_bytes (some (copy_bytes (some val) sz mid)) sz old ≡ copy_bytes (some val) sz old
copy_copy val old mid sz = fun_ext (λ i. ground arith)

pub ready_word :
    (rc_word (pos 0) st_ready ≡ 2147483648)
    × (rc_st 2147483648 ≡ st_ready)
    × (rc_code 2147483648 ≡ pos 0)
unfolding rc_st rc_code rc_word
ready_word = (refl, refl, refl)

settled_ready :
    (w : ℕ) (buf : ℕ → ℕ) (sz errno : ℕ) (old : ℕ → ℕ)
    → w ≡ rc_word (pos 0) st_ready
    → settled w buf true sz errno old
      ≡ record { rc = pos 0; errno = errno; out = copy_bytes (some buf) sz old }
settled_ready w buf sz errno old e = ground (arith, ready_word)

module _ (header : ℕ) (req : Option Request) (ctrl : Option ℕ) (p : Response) (val : ℕ → ℕ) (sz : ℕ)
    (fine : is_corrupted header req ctrl ≡ false) (fresh : p.rc ≡ 0) where
  -- An empty response that libsrpc_req_response_set sets for a request that is not corrupted is
  -- ready: libsrpc_req_response_get, when one of its 1024 loads is the first to see it settled,
  -- answers 0 and delivers the bytes that were set, and a second libsrpc_req_response_set is
  -- refused with -EBUSY and changes nothing.
  pub response_set-get :
      (k errno : ℕ) (rcs old : ℕ → ℕ) (val' : Option (ℕ → ℕ)) (sz' : ℕ)
      → k < 1024
      → ((j : ℕ) → j < k → Waits (rcs j))
      → rcs k ≡ (set_to (some val) sz p).rc
      → (response_set header req p ctrl (some val) sz
          ≡ (int32 (rc_word (pos 0) st_ready), set_to (some val) sz p))
        × (response_get (some (rcs, (set_to (some val) sz p).buf)) true sz errno old
            ≡ record { rc = pos 0; errno = errno; out = copy_bytes (some val) sz old })
        × (response_set header req (set_to (some val) sz p) ctrl val' sz'
            ≡ (neg e_busy, set_to (some val) sz p))
  unfolding response_set
  response_set-get k errno rcs old val' sz' lt waits at = (
    ground (arith, fine, fresh),
    response_get-settled rcs _ true sz errno old k lt waits
          (inl (ap rc_st at ∙ ap rc_st ready_word.0 ∙ ready_word.1))
        ∙ settled_ready (rcs k) _ sz errno old at
        ∙ ap (λ out. record { rc = pos 0; errno = errno; out = out }) (copy_copy val old p.buf sz),
    ground (arith, fine, ready_word),
  )
