-- ===== src/Call/Answered.antt =====
-- src/libsrpc.c: a call of a function that one process serves gives its value.
use simplerpc.Common.{
  ℕ, ◌+◌, ◌-◌, ◌*◌, ◌^◌, ◌≤◌, ◌<◌, ◌≡◌, ◌≢◌, refl, ◌∙◌, ap, sym, subst, if◌then◌else◌, true, false,
  Option, none, some, [], ltb, arith, eq→==,
}
use simplerpc.Request.{Request, req_sign, is_corrupted, copy_bytes}
use simplerpc.Queue.Inv.{IsCapacity, Holds}
use simplerpc.Alloc.{align_long, response_size, req_alloc}
use simplerpc.Alloc.Fine.{req_alloc-fine, req_alloc_funid}
use simplerpc.Dispatch.{Round, send_request_one, dispatch, refusal, choose_timeout}
use simplerpc.Dispatch.Alone.{IsAlone, dispatch-alone}
use simplerpc.Waiting.{count_answers, await, finished, ends_wait}
use simplerpc.Waiting.Comes.{await-comes}
use simplerpc.Call.Send.{Sender, Sent, after_wait, after_dispatch, send_request}
use simplerpc.Call.{
  Peer, zero_bytes, target, executed_by, seen_by, send_and_read, read_answer, call,
}
use simplerpc.Call.Ring.{first_place, sent, through_ring, send-sent}
use simplerpc.Call.Executed.{IsExecuted, sent-IsExecuted}

-- None of the first tests refuses such a request.
refusal-none :
    (s : Sender) (r : Request)
    → r.retnum ≡ 1
    → s.shm ≡ true
    → s.recursive ≡ false
    → s.enabled ≡ true
    → 17 ≤ r.funid
    → r.funid < 17 + s.fnnum
    → refusal s.shm s.recursive s.enabled s.fnnum (some r) ≡ none
unfolding refusal
refusal-none s r num shm top enabled lo hi = rw (num, shm, top, enabled) (ground arith)

module _ (header size fuel ptr : ℕ) (w : Peer) (c : IsCapacity size) (start k_in k_out : ℕ)
    (empty_ring : Holds size start [] w.ring) (in_few : k_in < fuel)
    (in_fine : w.spurious_in 0 k_in ≡ false) (out_few : k_out < fuel)
    (out_fine : w.spurious_out k_out ≡ false) where
  module _ (rlen : ℕ) (v : ℕ → ℕ) (r : Request) (fine : is_corrupted header (some r) none ≡ false)
      (runs : w.threads_run ≢ 0) (has_proc : w.proc ≢ 0)
      (x : IsExecuted header size fuel ptr w rlen v r) (s : Sender) (late : ℕ)
      (alone : IsAlone w.proc (s.registry (r.funid - 17))) (num : r.retnum ≡ 1)
      (known : s.look w.proc ≡ target fuel w ptr)
      (allowed : refusal s.shm s.recursive s.enabled s.fnnum (some r) ≡ none)
      (quiet : (timeout t : ℕ) → ends_wait (s.wake timeout t) ≡ false)
      (patient : late < s.turns) where
    abbrev seen : Round → ℕ → Request
    seen = seen_by header size fuel ptr late w

    abbrev timeout : ℕ × ℕ
    timeout = choose_timeout s.timeouts.global s.timeouts.oneshot (s.timeouts.func (r.funid - 17))

    abbrev outcome : Request → Option Sent
    outcome q =
        some (record { errno = 0; req = q; timeouts = record s.timeouts { oneshot = timeout.1 } })

    abbrev Ends : Request → Type 0
    Ends q =
        await header q.retnum s.turns 0 (s.wake timeout.0)
          (λ t. if ltb t late then q else executed_by header size fuel ptr w q)
        ≡ finished (executed_by header size fuel ptr w q)

    awaited : Ends (sent w r)
    awaited =
        let after = x.by_process in
        let missing = subst (λ n. count_answers header n 0 (sent w r) < n) (sym num) x.before in
        let all = subst (λ n. n ≤ count_answers header n 0 x.done) (sym num) x.after in
        await-comes header r.retnum late (s.wake timeout.0) _ (sent w r)
          (executed_by header size fuel ptr w (sent w r)) (quiet timeout.0) (λ t. refl) missing
          (subst (λ q. r.retnum ≤ count_answers header r.retnum 0 q) (sym after) all) s.turns 0
          (omega arith) (omega (arith, patient))

    went :
        (d : Option ℕ × Round)
        → d.0 ≡ none
        → d.1.req ≡ sent w r
        → after_dispatch header s seen 0 (r.funid - 17) d ≡ outcome x.done
    went (some e, round) no_error at = absurd (ground (arith, no_error))
    went (none, round) no_error at =
        ap (after_wait 0 (record s.timeouts { oneshot = timeout.1 })) (subst Ends (sym at) awaited)
        ∙ ap outcome (ap (executed_by header size fuel ptr w) at ∙ x.by_process)

    sent-alone :
        ((dispatch s.policy header s.counter s.look (s.registry (r.funid - 17)) r).0 ≡ none)
        × ((dispatch s.policy header s.counter s.look (s.registry (r.funid - 17)) r).1.req
            ≡ sent w r)
    sent-alone =
        let (rc, req) =
          send-sent header size fuel ptr w c start k_in k_out empty_ring in_few in_fine out_few
            out_fine r fine runs in
        let to_target = ap (λ t. send_request_one header w.proc t r 0) known in
        let (no_error, at) =
          dispatch-alone s.policy header s.counter s.look w.proc (s.registry (r.funid - 17)) r alone
            has_proc num (ap (λ x. x.rc) to_target ∙ rc) in
        (
          no_error,
          at
              ∙ ap (λ (q : Request). record q { retnum = 1 }) (ap (λ x. x.req) to_target ∙ req)
              ∙ ap (λ n. record (sent w r) { retnum = n }) (sym num),
        )

    requested : send_request header s seen 0 r ≡ outcome x.done
    unfolding send_request
    requested = rw (allowed, send_request) (went _ sent-alone.0 sent-alone.1)

    pub returned :
        (len : ℕ)
        → send_and_read header len len rlen (send_request header s seen 0) r
          ≡ some (record { value = copy_bytes (some v) rlen zero_bytes; errno = 0 })
    unfolding send_and_read
    returned len =
        rw (requested, eq→== len len refl, first_place header r fine)
          (ap (λ a. some (read_answer a)) x.reads)

  -- A call of a function that one process serves returns, and gives the caller exactly the
  -- bytes that the function computes there and errno 0, under every policy, whatever timeouts
  -- are set and whatever request the thread used before: when shared memory is there, calls are
  -- enabled and the caller is no executor, the process is valid and the only one in the
  -- registry for the function, in a slot of the main block, has threads that run and is not
  -- NULL, and caller and process know the function, its ring is in order and empty and one
  -- attempt on each side is not spoiled by a spurious failure, the process executes the request
  -- before some turn of the wait and the semaphore never fails with ETIMEDOUT or EINVAL, the
  -- value has at most 32768 bytes and the request fewer than 2 ^ 31, there is memory for a new
  -- request, and the current request, if there is one, has its signature.
  pub call-returns :
      (s : Sender) (late funid seq len rlen : ℕ) (v : ℕ → ℕ) (current : Option Request)
      → w.threads_run ≢ 0
      → ptr ≢ 0
      → w.proc ≢ 0
      → 17 ≤ funid
      → funid < 17 + w.fnnum
      → w.function funid ≡ some (record { value = λ req. some v; size = rlen; is_wrapper = false })
      → rlen ≤ 32768
      → header + align_long len + align_long (response_size + rlen) * 1 < 2 ^ 31
      → ((r : Request) → current ≡ some r → r.sign ≡ req_sign)
      → s.shm ≡ true
      → s.recursive ≡ false
      → s.enabled ≡ true
      → funid < 17 + s.fnnum
      → IsAlone w.proc (s.registry (funid - 17))
      → s.look w.proc ≡ target fuel w ptr
      → ((timeout t : ℕ) → ends_wait (s.wake timeout t) ≡ false)
      → late < s.turns
      → call header len len rlen
          (send_request header s (seen_by header size fuel ptr late w) 0)
          (req_alloc header true 1 funid len rlen true current seq)
        ≡ some (record { value = copy_bytes (some v) rlen zero_bytes; errno = 0 })
  unfolding call
  call-returns s late funid seq len rlen v current runs has_ptr has_proc lo hi at short small
        signed_as shm top enabled within alone known quiet patient =
      let (r, no_error, given, fine, num, retoff, retsz, locks) =
        req_alloc-fine header len rlen 1 (omega arith) (omega arith) (omega arith) small funid seq
          current signed_as in
      let for : r.funid ≡ funid =
        req_alloc_funid header 1 len rlen funid seq current r no_error given in
      let allowed = refusal-none s r num shm top enabled (rw for lo) (rw for within) in
      let through =
        through_ring header size fuel ptr w c start k_in k_out empty_ring in_few in_fine out_few
          out_fine in
      let x =
        sent-IsExecuted header size fuel ptr w through.1 rlen v r fine has_ptr has_proc (rw for lo)
          (rw for hi) (rw for at) in
      rw (no_error, given)
        (returned rlen v r fine runs has_proc x s late (rw for alone) num known allowed quiet
          patient len)
