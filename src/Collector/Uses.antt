-- ===== src/Collector/Uses.antt =====
-- src/libsrpc_shm_gc.c: what it means that a gathered block is in use, against the searches that the
-- collector makes.
use simplerpc.Common.{
  ℕ, zero, suc, ◌≡◌, refl, Bool, false, not, ◌||◌, ◌&&◌, Option, none, some, none, some, List, [],
  ◌∷◌, ◌==◌, arith,
}
use simplerpc.Request.{Request, is_corrupted, get_response_fast}
use simplerpc.Sweep.{
  Listed, Owner, is_locked_regfn_proc, regfn_busy_in, is_busy_regfn, has_hp_req, req_busy_in,
  req_is_busy_proc, aims_in, aims_from, req_list_aims_at, aimed_in, proc_cs_aimed_at,
}
use simplerpc.Collector.{Elm, is_used}

-- Whether some element of a list passes a test.
pub any : {A : Type 0} → (A → Bool) → List A → Bool
any test [] = false
any test (x ∷ xs) = test x || any test xs

-- The numbers from `i` on, `n` of them.
pub numbers : (n i : ℕ) → List ℕ
numbers zero i = []
numbers (suc n) i = i ∷ numbers n (suc i)

-- The place of a response that is empty and addressed to the process.
pub empty_for : (process : ℕ) → Request → Option ℕ → Bool
empty_for process r none = false
empty_for process r (some off) =
    ((r.responses off).hp_proc == process) && ((r.responses off).rc == 0)

aims_in-empty_for :
    (r : Request) (process : ℕ) (o : Option ℕ) → aims_in r process o ≡ empty_for process r o
unfolding empty_for
aims_in-empty_for r process none = refl
aims_in-empty_for r process (some off) = ground arith

-- A response of the request is still empty and addressed to the process.
pub awaits : (header process : ℕ) → Request → Bool
awaits header process r =
    any (λ j. empty_for process r (get_response_fast header (some r) j)) (numbers r.retnum 0)

-- A process is in use while any process in the list, valid or not, has a request with an empty response
-- addressed to it.
pub process_in_use : (header process : ℕ) → List Owner → Bool
process_in_use header process os =
    any (λ (o : Owner). any (λ (l : Listed). awaits header process l.req) o.requests) os

-- A block of the registry is in use while a valid process has an intact request that protects it.
pub registry_in_use : (header block : ℕ) → List Owner → Bool
registry_in_use header block os =
    any
      (λ (o : Owner).
        o.valid
        && any
            (λ (l : Listed). not (is_corrupted header (some l.req) none) && (l.hp_regfn == block))
            o.requests)
      os

-- A request is in use while it is in the queue of a valid process or one of its threads works on it.
pub request_in_use : (request : ℕ) → List Owner → Bool
request_in_use request os =
    any (λ (o : Owner). o.valid && (o.queued request || any (λ hp. hp == request) o.hp_req)) os

-- By the type of the block: PROC, REGFN or REQUEST.
pub in_use : (header : ℕ) → List Owner → Elm → Bool
in_use header os e =
    ((e.type == 1) && process_in_use header e.ptr os)
    || ((e.type == 2) && registry_in_use header e.ptr os)
    || ((e.type == 3) && request_in_use e.ptr os)

aims_from-any :
    (header n i : ℕ) (r : Request) (target : ℕ)
    → aims_from header n i r target
      ≡ any (λ j. empty_for target r (get_response_fast header (some r) j)) (numbers n i)
unfolding aims_from any numbers
aims_from-any header zero i r target = refl
aims_from-any header (suc n) i r target =
    let here = aims_in-empty_for r target (get_response_fast header (some r) i) in
    let rest = aims_from-any header n (suc i) r target in ground (arith, here, rest)

list_aims-any :
    (header target : ℕ) (ls : List Listed)
    → req_list_aims_at header ls target ≡ any (λ (l : Listed). awaits header target l.req) ls
unfolding req_list_aims_at any awaits
list_aims-any header target [] = refl
list_aims-any header target (l ∷ ls) =
    let here = aims_from-any header l.req.retnum 0 l.req target in
    let rest = list_aims-any header target ls in ground (arith, here, rest)

aimed_in-any :
    (header target : ℕ) (os : List Owner)
    → aimed_in header os target ≡ process_in_use header target os
unfolding aimed_in any process_in_use
aimed_in-any header target [] = refl
aimed_in-any header target (o ∷ os) =
    let here = list_aims-any header target o.requests in
    let rest = aimed_in-any header target os in ground (arith, here, rest)

locked_regfn-any :
    (header eb : ℕ) (ls : List Listed)
    → is_locked_regfn_proc header eb ls
      ≡ any (λ (l : Listed). not (is_corrupted header (some l.req) none) && (l.hp_regfn == eb)) ls
unfolding is_locked_regfn_proc any
locked_regfn-any header eb [] = refl
locked_regfn-any header eb (l ∷ ls) =
    let rest = locked_regfn-any header eb ls in ground (arith, rest)

regfn_busy-any :
    (header eb : ℕ) (os : List Owner) → regfn_busy_in header eb os ≡ registry_in_use header eb os
unfolding regfn_busy_in any registry_in_use
regfn_busy-any header eb [] = refl
regfn_busy-any header eb (o ∷ os) =
    let here = locked_regfn-any header eb o.requests in
    let rest = regfn_busy-any header eb os in ground (arith, here, rest)

hp_req-any : (req : ℕ) (hps : List ℕ) → has_hp_req req hps ≡ any (λ hp. hp == req) hps
unfolding has_hp_req any
hp_req-any req [] = refl
hp_req-any req (hp ∷ hps) = let rest = hp_req-any req hps in ground (arith, rest)

req_busy-any : (req : ℕ) (os : List Owner) → req_busy_in req os ≡ request_in_use req os
unfolding req_busy_in any request_in_use
req_busy-any req [] = refl
req_busy-any req (o ∷ os) =
    let here = hp_req-any req o.hp_req in
    let rest = req_busy-any req os in ground (arith, here, rest)

-- The searches of the collector find exactly the blocks in use.
pub is_used-in_use :
    (header : ℕ) (os : List Owner) (e : Elm)
    → (not (e.ptr == 0) && not (is_used header os e))
      ≡ (not (e.ptr == 0) && not (in_use header os e))
unfolding is_used in_use proc_cs_aimed_at is_busy_regfn req_is_busy_proc
is_used-in_use header os e =
    let process = aimed_in-any header e.ptr os in
    let registry = regfn_busy-any header e.ptr os in
    let request = req_busy-any e.ptr os in ground (arith, process, registry, request)
