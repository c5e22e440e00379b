-- ===== src/Dispatch/ToAll.antt =====
-- What `libsrpc_send_request` has sent under the policies that try every process.
use simplerpc.Common.{
  ℕ, ◌-◌, ◌≤◌, ◌≡◌, refl, ◌≢◌, ap, ◌∙◌, sym, true, false, Option, none, some, ◌==◌, arith, inl, inr,
  ◌⊎◌, List, [], ◌∷◌, ◌++◌, append-nil, length, e_notavailable,
}
use native.Mathlib.Decide.{ℕ_discrete}
use simplerpc.Registry.{ExtBlock, Function, rfmb_sz}
use simplerpc.Request.{Request, response_offset, needed}
use simplerpc.Request.Bounds.{get_response_fast-some}
use simplerpc.Dispatch.{
  Target, Policy, send_all, send_first, send_last, send_rr, Round, walk_slots, wanted, turn_of,
  walk_ext, finish_last, dispatch,
}
use simplerpc.Dispatch.Sent.{members, gather, IsRound, everyone}
use simplerpc.Dispatch.Everyone.{ext_members, registered_for, gather-nil, Walked, walk_slots-Walked}

abbrev pub begin : Request → ℕ → Round
begin req k = record {
  req = record req { retnum = k };
  it = 0;
  proc_last = 0;
  rr_cnt = 0;
  sent = [];
  woken = [];
}

length-zero : (xs : List ℕ) → length xs ≡ 0 → xs ≡ []
length-zero [] e = refl
length-zero (x ∷ xs) e = absurd (omega arith)

is_zero_ne : (n : ℕ) → n ≢ 0 → (n == 0) ≡ false
is_zero_ne n ne = ground arith

is_zero_eq : (n : ℕ) → n ≡ 0 → (n == 0) ≡ true
is_zero_eq n e = ground arith

minus_zero : (k : ℕ) → k - 0 ≡ k
minus_zero k = omega arith

finish_last-everyone :
    (policy : Policy) (header : ℕ) (look : ℕ → Target) (r : Round)
    → everyone policy ≡ true
    → finish_last policy header look r ≡ r
finish_last-everyone send_all header look r every = refl
finish_last-everyone send_first header look r every = refl
finish_last-everyone send_last header look r every = absurd (ground arith)
finish_last-everyone send_rr header look r every = absurd (ground arith)

begin-IsRound :
    (header k : ℕ) (req : Request)
    → needed header (record req { retnum = k }) ≤ req.bufsz
    → IsRound header k (begin req k)
begin-IsRound header k req room = record {
  count_at = refl;
  places = λ i lt. (
    response_offset (record req { retnum = k }) i,
    get_response_fast-some header (record req { retnum = k }) i room lt,
  );
}

Walked-ext :
    (policy : Policy) (rr_pos header k : ℕ) (look : ℕ → Target) (o : Option ExtBlock) (r : Round)
    → everyone policy ≡ true
    → IsRound header k r
    → Walked header k look (ext_members o) r (walk_ext policy rr_pos header k look o r)
Walked-ext policy rr_pos header k look none r every is = (is, λ rest. refl)
Walked-ext policy rr_pos header k look (some eb) r every is =
    walk_slots-Walked policy rr_pos header k look every eb.szfn 0 eb.proc r is

module _ (policy : Policy) (header counter : ℕ) (look : ℕ → Target) (f : Function) (req : Request)
    (every : everyone policy ≡ true)
    (room : needed header (record req { retnum = wanted policy req.retnum }) ≤ req.bufsz) where
  abbrev k : ℕ
  k = wanted policy req.retnum

  abbrev rr_pos : ℕ
  rr_pos = turn_of counter req.retnum

  abbrev main : Round
  main = walk_slots policy rr_pos header k look rfmb_sz 0 f.main_block (begin req k)

  abbrev ext : Round
  ext = walk_ext policy rr_pos header k look f.ext_block main

  main-Walked : Walked header k look (members rfmb_sz 0 f.main_block) (begin req k) main
  main-Walked =
      walk_slots-Walked policy rr_pos header k look every rfmb_sz 0 f.main_block (begin req k)
        (begin-IsRound header k req room)

  ext-Walked : Walked header k look (ext_members f.ext_block) main ext
  ext-Walked = Walked-ext policy rr_pos header k look f.ext_block main every main-Walked.0

  ext_sent : ext.sent ≡ gather look k (registered_for f)
  ext_sent =
      let extra : List ℕ = ext_members f.ext_block in
      sym (append-nil ext.sent)
      ∙ ap (λ xs. ext.sent ++ xs) (sym (gather-nil look (k - ext.it)))
      ∙ ext-Walked.1 []
      ∙ main-Walked.1 (extra ++ [])
      ∙ ap (λ m. gather look m (members rfmb_sz 0 f.main_block ++ (extra ++ []))) (minus_zero k)
      ∙ ap (λ ys. gather look k (members rfmb_sz 0 f.main_block ++ ys)) (append-nil extra)

  ext_it : ext.it ≡ length (gather look k (registered_for f))
  ext_it = ext-Walked.0.count_at ∙ ap length ext_sent

  dispatch_none :
      ext.it ≡ 0 → dispatch policy header counter look f req ≡ (some e_notavailable, ext)
  unfolding dispatch
  dispatch_none e =
      let empty = is_zero_eq ext.it e in
      rw (dispatch, finish_last-everyone policy header look ext every, empty) refl

  dispatch_some :
      ext.it ≢ 0
      → dispatch policy header counter look f req
        ≡ (none, record ext { req = record ext.req { retnum = ext.it } })
  unfolding dispatch
  dispatch_some ne =
      let held = is_zero_ne ext.it ne in
      rw (dispatch, finish_last-everyone policy header look ext every, held) refl

  -- Under the policies ALL and FIRST, for a request with room for the responses wanted,
  -- libsrpc_send_request puts the request into the queues of exactly the first processes in the
  -- order of the registry that take it (valid, with threads that run, with room in the queue
  -- within 512 attempts), as many as wanted or as there are; with none it sets ENOTAVAILABLE,
  -- and otherwise the request waits for as many responses as it has receivers.
  pub dispatch-gather :
      ((dispatch policy header counter look f req).1.sent ≡ gather look k (registered_for f))
      × (((dispatch policy header counter look f req).0 ≡ some e_notavailable)
            × (gather look k (registered_for f) ≡ [])
          ⊎ ((dispatch policy header counter look f req).0 ≡ none)
            × ((dispatch policy header counter look f req).1.req.retnum
                ≡ length (gather look k (registered_for f)))
            × (gather look k (registered_for f) ≢ []))
  dispatch-gather = elim (ℕ_discrete ext.it 0) [
    | yes e ↦
        let done = dispatch_none e in
        let nothing = length-zero (gather look k (registered_for f)) (sym ext_it ∙ e) in
        (ap (λ p. p.1.sent) done ∙ ext_sent, inl (ap (λ p. p.0) done, nothing))
    | no ne ↦
        let done = dispatch_some ne in
        (
          ap (λ p. p.1.sent) done ∙ ext_sent,
          inr (
            ap (λ p. p.0) done,
            ap (λ p. p.1.req.retnum) done ∙ ext_it,
            λ e. ne (ext_it ∙ ap length e),
          ),
        )
  ]
