-- ===== src/Waiting/Ended.antt =====
-- What is true when the wait is over.
use simplerpc.Common.{
  ℕ, zero, suc, ◌+◌, ◌≤◌, ◌<◌, ◌≡◌, ◌≢◌, ◌⊎◌, refl, sym, subst, true, Option, none, some, ltb,
  arith, inl, inr, Bool-cases,
}
use native.Mathlib.Decide.{ℕ_discrete}
use simplerpc.Request.{Request, get_response_fast, rc_st, st_lock}
use simplerpc.Waiting.{answered_in, count_answers, finished, ends_wait, await}

count_answers-le : (header n i : ℕ) (r : Request) → count_answers header n i r ≤ n
unfolding count_answers
count_answers-le header zero i r = omega arith
count_answers-le header (suc n) i r =
    let rest = count_answers-le header n (suc i) r in ground (arith, rest)

count_answers-all :
    (header n i j : ℕ) (r : Request)
    → n ≤ count_answers header n i r
    → i ≤ j
    → j < i + n
    → answered_in r (get_response_fast header (some r) j) ≡ true
unfolding count_answers
count_answers-all header zero i j r all lo hi = absurd (omega arith)
count_answers-all header (suc n) i j r all lo hi =
    let le = count_answers-le header n (suc i) r in
    elim (Bool-cases (answered_in r (get_response_fast header (some r) i))) [
      | inl here ↦ elim (ℕ_discrete j i) [
        | yes same ↦
            subst (λ k. answered_in r (get_response_fast header (some r) k) ≡ true) (sym same) here
        | no apart ↦
            let fewer : n ≤ count_answers header n (suc i) r =
              let one = rw here at all in omega (arith, one) in
            count_answers-all header n (suc i) j r fewer (omega arith) (omega arith)
      ]
      | inr missing ↦ absurd (let none_here = rw missing at all in omega (arith, none_here, le))
    ]

settled :
    (r : Request) (o : Option ℕ)
    → answered_in r o ≡ true
    → (off : ℕ) × (o ≡ some off)
      × (((r.responses off).hp_proc ≡ 0)
          ⊎ (((r.responses off).rc ≢ 0) × (rc_st (r.responses off).rc ≢ st_lock)))
settled r none h = absurd (ground (arith, h))
settled r (some off) h = (off, refl, ground (arith, h))

-- When the wait of libsrpc_send_request ends with all answers counted, after any number of turns,
-- every response of the request was answered at the last turn: it has its place, and either no
-- process is expected to answer it, or its word is not 0 and its state is not LOCK.
pub await-finished :
    (header retnum turns i : ℕ) (wake : ℕ → Option ℕ) (seen : ℕ → Request) (r : Request) (j : ℕ)
    → await header retnum turns i wake seen ≡ finished r
    → j < retnum
    → (off : ℕ) × (get_response_fast header (some r) j ≡ some off)
      × (((r.responses off).hp_proc ≡ 0)
          ⊎ (((r.responses off).rc ≢ 0) × (rc_st (r.responses off).rc ≢ st_lock)))
unfolding await
await-finished header retnum zero i wake seen r j e lt = absurd (ground arith)
await-finished header retnum (suc turns) i wake seen r j e lt =
    elim (Bool-cases (ends_wait (wake i))) [
      | inl over ↦ absurd (let out = rw over at e in ground (arith, out))
      | inr on ↦ elim (Bool-cases (ltb (count_answers header retnum 0 (seen i)) retnum)) [
        | inl few ↦ await-finished header retnum turns (suc i) wake seen r j (rw (on, few) at e) lt
        | inr all ↦
            let out = rw (on, all) at e in
            let same : seen i ≡ r = ground (arith, out) in
            settled r (get_response_fast header (some r) j) (
              subst (λ q. answered_in q (get_response_fast header (some q) j) ≡ true) same
                (count_answers-all header retnum 0 j (seen i) (ground (arith, all)) (omega arith)
                  (omega arith)))
      ]
    ]
