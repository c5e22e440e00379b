-- ===== src/Dispatch/Sent.antt =====
-- Which processes get a request that is sent to all.
use simplerpc.Common.{
  ℕ, zero, suc, ◌+◌, ◌-◌, ◌<◌, ◌≡◌, refl, ap, ◌∙◌, sym, subst, Bool, true, false, not, ◌&&◌, some,
  ◌==◌, if◌then◌else◌, arith, update, inl, inr, Bool-cases, List, [], ◌∷◌, ◌++◌, append_assoc,
  length, length-append,
}
use simplerpc.Request.{Request, Response, get_response_fast}
use simplerpc.Request.Bounds.{get_response_fast-responses}
use simplerpc.Dispatch.{
  Target, try_all, is_zero, address, send_request_one, Policy, send_all, send_first, send_last,
  send_rr, Round, send_to, offer,
}

-- The processes in the slots, in order.
unfoldable pub members : (n i : ℕ) → (ℕ → ℕ) → List ℕ
members zero i slots = []
members (suc n) i slots =
    let rest = members n (suc i) slots in if slots i == 0 then rest else slots i ∷ rest

-- A process that takes a request: valid, with threads that run, and with room in its queue in time.
pub willing : Target → Bool
willing t = t.valid && not (t.threads_run == 0) && try_all 512 0 t.accepts

-- The first `k` of the processes that take a request.
unfoldable pub gather : (ℕ → Target) → ℕ → List ℕ → List ℕ
gather look zero ps = []
gather look (suc k) [] = []
gather look (suc k) (p ∷ ps) =
    let taken = p ∷ gather look k ps in
    let rest = gather look (suc k) ps in if willing (look p) then taken else rest

-- The request has a place for each of `k` responses.
abbrev pub Places : (header : ℕ) → Request → ℕ → Type 0
Places header req k =
    (i : ℕ) → i < k → (off : ℕ) × (get_response_fast header (some req) i ≡ some off)

address-willing :
    (proc : ℕ) (t : Target) (resp : Response) → is_zero (address proc t resp).0 ≡ willing t
unfolding address willing
address-willing proc t resp = ground arith

-- One more process, for a round with a place left.
module _ (header : ℕ) (look : ℕ → Target) (proc : ℕ) (r : Round) (off : ℕ)
    (place : get_response_fast header (some r.req) r.it ≡ some off) where
  send_request_one-placed :
      (is_zero (send_request_one header proc (look proc) r.req r.it).rc ≡ willing (look proc))
      × (rs : ℕ → Response) × ((send_request_one header proc (look proc) r.req r.it).req
          ≡ record r.req { responses = rs })
  unfolding send_request_one
  send_request_one-placed =
      let resp = r.req.responses off in
      rw (send_request_one, place)
        (
          address-willing proc (look proc) resp,
          update r.req.responses off (address proc (look proc) resp).1,
          refl,
        )

  send_to-placed :
      ((send_to header look proc r).it ≡ r.it + (if willing (look proc) then 1 else 0))
      × ((send_to header look proc r).sent
          ≡ (if willing (look proc) then r.sent ++ proc ∷ [] else r.sent))
      × (rs : ℕ → Response) × ((send_to header look proc r).req ≡ record r.req { responses = rs })
  unfolding send_to
  send_to-placed =
      let (ok, rs, req_at) = send_request_one-placed in
      elim (Bool-cases (willing (look proc))) [
        | inl yes_it ↦
            let zero_rc = ok ∙ yes_it in rw (send_to, zero_rc, yes_it) (refl, refl, rs, req_at)
        | inr no_it ↦
            let bad_rc = ok ∙ no_it in rw (send_to, bad_rc, no_it) (omega arith, refl, rs, req_at)
      ]

Places-responses :
    (header : ℕ) (req : Request) (k : ℕ) (rs : ℕ → Response)
    → Places header req k
    → Places header (record req { responses = rs }) k
Places-responses header req k rs places i lt =
    let (off, e) = places i lt in (off, get_response_fast-responses header req rs i ∙ e)

-- A round in order: as many requests sent as processes listed, and a place for each.
pub record IsRound (header k : ℕ) (r : Round) : Type 0 where
  pub count_at : r.it ≡ length r.sent
  pub places : Places header r.req k

-- The policies that try every process.
abbrev pub everyone : Policy → Bool
everyone send_all = true
everyone send_first = true
everyone send_last = false
everyone send_rr = false

pub offer-send_to :
    (policy : Policy) (rr_pos header : ℕ) (look : ℕ → Target) (proc : ℕ) (r : Round)
    → everyone policy ≡ true
    → offer policy rr_pos header look proc r ≡ send_to header look proc r
unfolding offer
offer-send_to send_all rr_pos header look proc r every = refl
offer-send_to send_first rr_pos header look proc r every = refl
offer-send_to send_last rr_pos header look proc r every = absurd (ground arith)
offer-send_to send_rr rr_pos header look proc r every = absurd (ground arith)

pub gather-suc :
    (look : ℕ → Target) (k it p : ℕ) (ps : List ℕ)
    → it < k
    → gather look (k - it) (p ∷ ps)
      ≡ (if willing (look p) then p ∷ gather look (k - (it + 1)) ps else gather look (k - it) ps)
unfolding gather
gather-suc look k it p ps lt = go (k - (it + 1)) (omega arith)
  where
    go :
        (m : ℕ)
        → k - it ≡ suc m
        → gather look (k - it) (p ∷ ps) ≡ (
            if willing (look p) then p ∷ gather look (k - (it + 1)) ps else gather look (k - it) ps)
    go m e = let less : k - (it + 1) ≡ m = omega (arith, e) in rw (e, less) refl

module _ (header k : ℕ) (look : ℕ → Target) (proc : ℕ) (r : Round) (is : IsRound header k r)
    (lt : r.it < k) where
  off : ℕ
  off = (is.places r.it lt).0

  place : get_response_fast header (some r.req) r.it ≡ some off
  unfolding off
  place = (is.places r.it lt).1

  send_to-Places : Places header (send_to header look proc r).req k
  send_to-Places =
      let (it_at, sent_at, rs, req_at) = send_to-placed header look proc r off place in
      subst (λ q. Places header q k) (sym req_at) (Places-responses header r.req k rs is.places)

  pub send_to-IsRound : IsRound header k (send_to header look proc r)
  send_to-IsRound =
      let (it_at, sent_at, rs, req_at) = send_to-placed header look proc r off place in
      record {
        count_at = elim (Bool-cases (willing (look proc))) [
          | inl w ↦
              let it' : (send_to header look proc r).it ≡ r.it + 1 = ground (arith, it_at, w) in
              let sent' : (send_to header look proc r).sent ≡ r.sent ++ proc ∷ [] =
                rw w at sent_at in
              it' ∙ omega (arith, is.count_at, ap length sent', length-append r.sent (proc ∷ []))
          | inr w ↦
              let it' : (send_to header look proc r).it ≡ r.it = ground (arith, it_at, w) in
              let sent' : (send_to header look proc r).sent ≡ r.sent = rw w at sent_at in
              it' ∙ is.count_at ∙ ap length (sym sent')
        ];
        places = send_to-Places;
      }

  pub send_to-gather :
      (ps : List ℕ)
      → (send_to header look proc r).sent ++ gather look (k - (send_to header look proc r).it) ps
        ≡ r.sent ++ gather look (k - r.it) (proc ∷ ps)
  send_to-gather ps =
      let (it_at, sent_at, rs, req_at) = send_to-placed header look proc r off place in
      elim (Bool-cases (willing (look proc))) [
        | inl w ↦
            let it' : (send_to header look proc r).it ≡ r.it + 1 = ground (arith, it_at, w) in
            let sent' : (send_to header look proc r).sent ≡ r.sent ++ proc ∷ [] = rw w at sent_at in
            let step : gather look (k - r.it) (proc ∷ ps) ≡ proc ∷ gather look (k - (r.it + 1)) ps =
              rw w at (gather-suc look k r.it proc ps lt) in
            ap (λ xs. xs ++ gather look (k - (send_to header look proc r).it) ps) sent'
            ∙ ap (λ m. (r.sent ++ proc ∷ []) ++ gather look (k - m) ps) it'
            ∙ append_assoc r.sent (proc ∷ []) (gather look (k - (r.it + 1)) ps)
            ∙ ap (λ xs. r.sent ++ xs) (sym step)
        | inr w ↦
            let it' : (send_to header look proc r).it ≡ r.it = ground (arith, it_at, w) in
            let sent' : (send_to header look proc r).sent ≡ r.sent = rw w at sent_at in
            let step : gather look (k - r.it) (proc ∷ ps) ≡ gather look (k - r.it) ps =
              rw w at (gather-suc look k r.it proc ps lt) in
            ap (λ xs. xs ++ gather look (k - (send_to header look proc r).it) ps) sent'
            ∙ ap (λ m. r.sent ++ gather look (k - m) ps) it'
            ∙ ap (λ xs. r.sent ++ xs) (sym step)
      ]
