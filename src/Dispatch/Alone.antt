-- ===== src/Dispatch/Alone.antt =====
-- src/libsrpc.c: what `libsrpc_send_request` sends when one process serves the function.
use simplerpc.Common.{
  ℕ, zero, suc, ◌+◌, ◌≤◌, ◌<◌, ◌≡◌, ◌≢◌, refl, ◌∙◌, ap, sym, none, ◌==◌, if◌then◌else◌, pos, arith,
  leb, false,
}
use native.Mathlib.Decide.{ℕ_discrete}
use simplerpc.Registry.{Function, rfmb_sz}
use simplerpc.Request.{Request}
use simplerpc.Dispatch.{
  Target, Policy, send_all, send_first, send_last, send_rr, Round, send_request_one, send_to, offer,
  walk_slots, walk_ext, wanted, turn_of, finish_last, dispatch,
}
use simplerpc.Dispatch.ToAll.{begin}

-- The process is the only entry, in one slot of the main block.
pub record IsAlone (proc : ℕ) (f : Function) : Type 0 where
  pub slot : ℕ
  pub within : slot < rfmb_sz
  pub slots : (j : ℕ) → f.main_block j ≡ (if j == slot then proc else 0)
  pub no_block : f.ext_block ≡ none

module _ (policy : Policy) (rr_pos header retnum : ℕ) (look : ℕ → Target) (proc slot : ℕ)
    (slots : ℕ → ℕ) (at : (j : ℕ) → slots j ≡ (if j == slot then proc else 0)) where
  walk_slots-empty :
      (n i : ℕ) (r : Round) → slot < i → walk_slots policy rr_pos header retnum look n i slots r ≡ r
  unfolding walk_slots
  walk_slots-empty zero i r lt = refl
  walk_slots-empty (suc n) i r lt =
      let nothing : slots i ≡ 0 = at i ∙ ground arith in
      let rest = walk_slots-empty n (suc i) r (omega arith) in
      rw (nothing, walk_slots) (rw rest (ground arith))

  walk_slots-alone :
      (n i : ℕ) (r : Round)
      → i ≤ slot
      → slot < i + n
      → proc ≢ 0
      → r.it < retnum
      → walk_slots policy rr_pos header retnum look n i slots r
        ≡ offer policy rr_pos header look proc r
  unfolding walk_slots
  walk_slots-alone zero i r lo hi ne lt = absurd (omega arith)
  walk_slots-alone (suc n) i r lo hi ne lt = elim (ℕ_discrete i slot) [
    | yes here ↦
        let it_is : slots i ≡ proc = at i ∙ ground (arith, here) in
        let rest =
          walk_slots-empty n (suc i) (offer policy rr_pos header look proc r)
            (omega (arith, here)) in
        let open_loop : leb retnum r.it ≡ false = ground arith in
        let has_proc : (proc == 0) ≡ false = ground arith in
        rw (it_is, has_proc, open_loop, walk_slots) rest
    | no apart ↦
        let nothing : slots i ≡ 0 = at i ∙ ground (arith, apart) in
        let rest = walk_slots-alone n (suc i) r (omega arith) (omega arith) ne lt in
        let open_loop : leb retnum r.it ≡ false = ground arith in
        rw (nothing, open_loop, walk_slots) rest
  ]

module _ (policy : Policy) (header counter : ℕ) (look : ℕ → Target) (proc : ℕ) (f : Function)
    (req : Request) (is : IsAlone proc f) (ne : proc ≢ 0) (num : req.retnum ≡ 1)
    (sends : (send_request_one header proc (look proc) req 0).rc ≡ pos 0) where
  send_to-one :
      (b : Round)
      → b.req ≡ req
      → b.it ≡ 0
      → ((send_to header look proc b).it ≡ 1)
        × ((send_to header look proc b).req ≡ (send_request_one header proc (look proc) req 0).req)
  unfolding send_to
  send_to-one b e at = rw (e, at, sends) (refl, refl)

  abbrev IsOne : Round → Type 0
  IsOne done = (done.it ≡ 1) × (done.req ≡ (send_request_one header proc (look proc) req 0).req)

  abbrev last_of : Policy → Round → Round
  last_of p b = finish_last p header look (offer p 0 header look proc b)

  offered-IsOne :
      (p : Policy) (b : Round) → b.req ≡ req → b.it ≡ 0 → b.rr_cnt ≡ 0 → IsOne (last_of p b)
  unfolding offer
  offered-IsOne send_all b e at cnt = send_to-one b e at
  offered-IsOne send_first b e at cnt = send_to-one b e at
  offered-IsOne send_last b e at cnt =
      let has_proc : (proc == 0) ≡ false = ground arith in
      rw has_proc (send_to-one (record b { proc_last = proc }) e at)
  offered-IsOne send_rr b e at cnt = rw cnt (send_to-one (record b { rr_cnt = 1 }) e at)

  one_wanted : (p : Policy) → wanted p req.retnum ≡ 1
  unfolding wanted
  one_wanted send_all = num
  one_wanted send_first = refl
  one_wanted send_last = num
  one_wanted send_rr = refl

  first_turn : turn_of counter req.retnum ≡ 0
  unfolding turn_of
  first_turn = rw num (omega arith)

  abbrev k : ℕ
  k = wanted policy req.retnum

  abbrev rr_pos : ℕ
  rr_pos = turn_of counter req.retnum

  abbrev main : Round
  main = walk_slots policy rr_pos header k look rfmb_sz 0 f.main_block (begin req k)

  done-last :
      finish_last policy header look (walk_ext policy rr_pos header k look f.ext_block main)
      ≡ last_of policy (begin req k)
  done-last =
      ap (λ r. finish_last policy header look r)
        (ap (λ o. walk_ext policy rr_pos header k look o main) is.no_block
          ∙ walk_slots-alone policy rr_pos header k look proc is.slot f.main_block is.slots rfmb_sz
              0 (begin req k) (omega arith) is.within ne (omega (arith, one_wanted policy))
          ∙ ap (λ q. offer policy q header look proc (begin req k)) first_turn)

  begin-req : (begin req k).req ≡ req
  begin-req = ap (λ n. record req { retnum = n }) (one_wanted policy ∙ sym num)

  -- Under every policy the request is sent to the process, and one answer is expected.
  pub dispatch-alone :
      ((dispatch policy header counter look f req).0 ≡ none)
      × ((dispatch policy header counter look f req).1.req
          ≡ record (send_request_one header proc (look proc) req 0).req { retnum = 1 })
  unfolding dispatch
  dispatch-alone =
      let (once, req_is) = offered-IsOne policy (begin req k) begin-req refl refl in
      rw (done-last, once, req_is, dispatch) (refl, refl)
