-- ===== src/Dispatch/Everyone.antt =====
-- The loops of `libsrpc_send_request` under the policies that try every process.
use simplerpc.Common.{
  ℕ, zero, suc, ◌-◌, ◌≤◌, ◌<◌, ◌≡◌, refl, ◌≢◌, ap, ◌∙◌, sym, subst, true, false, Option, none, some,
  leb, ◌==◌, arith, List, [], ◌∷◌, ◌++◌,
}
use native.Mathlib.Decide.{ℕ_discrete, dec_lt}
use simplerpc.Registry.{ExtBlock, Function, rfmb_sz}
use simplerpc.Dispatch.{Target, Policy, Round, send_to, walk_slots}
use simplerpc.Dispatch.Sent.{
  members, gather, IsRound, everyone, offer-send_to, send_to-IsRound, send_to-gather,
}

abbrev pub ext_members : Option ExtBlock → List ℕ
ext_members none = []
ext_members (some eb) = members eb.szfn 0 eb.proc

-- The processes of a function in the order of its registry.
abbrev pub registered_for : Function → List ℕ
registered_for f = members rfmb_sz 0 f.main_block ++ ext_members f.ext_block

pub gather-zero : (look : ℕ → Target) (m : ℕ) (ps : List ℕ) → m ≡ 0 → gather look m ps ≡ []
unfolding gather
gather-zero look m ps e = rw e refl

pub gather-nil : (look : ℕ → Target) (m : ℕ) → gather look m [] ≡ []
unfolding gather
gather-nil look zero = refl
gather-nil look (suc m) = refl

-- What a walk over `ps` makes of a round.
abbrev pub Walked : (header k : ℕ) → (ℕ → Target) → List ℕ → Round → Round → Type 0
Walked header k look ps r r' =
    IsRound header k r'
    × ((rest : List ℕ)
        → r'.sent ++ gather look (k - r'.it) rest ≡ r.sent ++ gather look (k - r.it) (ps ++ rest))

module _ (policy : Policy) (rr_pos header k : ℕ) (look : ℕ → Target)
    (every : everyone policy ≡ true) where
  walk_full :
      (n i : ℕ) (slots : ℕ → ℕ) (r : Round)
      → k ≤ r.it
      → walk_slots policy rr_pos header k look n i slots r ≡ r
  unfolding walk_slots
  walk_full zero i slots r full = refl
  walk_full (suc n) i slots r full =
      let stop : leb k r.it ≡ true = ground arith in rw (walk_slots, stop) refl

  walk_free :
      (n i : ℕ) (slots : ℕ → ℕ) (r : Round)
      → r.it < k
      → slots i ≡ 0
      → walk_slots policy rr_pos header k look (suc n) i slots r
        ≡ walk_slots policy rr_pos header k look n (suc i) slots r
  unfolding walk_slots
  walk_free n i slots r lt free =
      let go_on : leb k r.it ≡ false = ground arith in
      let empty : (slots i == 0) ≡ true = ground arith in rw (walk_slots, go_on, empty) refl

  walk_taken :
      (n i : ℕ) (slots : ℕ → ℕ) (r : Round)
      → r.it < k
      → slots i ≢ 0
      → walk_slots policy rr_pos header k look (suc n) i slots r
        ≡ walk_slots policy rr_pos header k look n (suc i) slots (send_to header look (slots i) r)
  unfolding walk_slots
  walk_taken n i slots r lt used =
      let go_on : leb k r.it ≡ false = ground arith in
      let held : (slots i == 0) ≡ false = ground arith in
      rw (walk_slots, go_on, held, offer-send_to policy rr_pos header look (slots i) r every) refl

  pub walk_slots-Walked :
      (n i : ℕ) (slots : ℕ → ℕ) (r : Round)
      → IsRound header k r
      → Walked header k look
          (members n i slots)
          r
          (walk_slots policy rr_pos header k look n i slots r)
  unfolding members walk_slots
  walk_slots-Walked zero i slots r is = (is, λ rest. refl)
  walk_slots-Walked (suc n) i slots r is = elim (dec_lt r.it k) [
    | no full ↦
        let none_left : k - r.it ≡ 0 = omega arith in
        subst (Walked header k look (members (suc n) i slots) r)
          (sym (walk_full (suc n) i slots r (omega arith)))
          (
            is,
            λ rest.
                ap (λ xs. r.sent ++ xs)
                  (gather-zero look (k - r.it) rest none_left
                    ∙ sym
                        (gather-zero look (k - r.it) (members (suc n) i slots ++ rest) none_left)),
          )
    | yes lt ↦ elim (ℕ_discrete (slots i) 0) [
      | yes free ↦
          let same : members (suc n) i slots ≡ members n (suc i) slots =
            let empty : (slots i == 0) ≡ true = ground arith in rw (members, empty) refl in
          subst
            (λ ps.
              Walked header k look ps r (walk_slots policy rr_pos header k look (suc n) i slots r))
            (sym same)
            (subst (Walked header k look (members n (suc i) slots) r)
              (sym (walk_free n i slots r lt free)) (walk_slots-Walked n (suc i) slots r is))
      | no used ↦
          let more : members (suc n) i slots ≡ slots i ∷ members n (suc i) slots =
            let held : (slots i == 0) ≡ false = ground arith in rw (members, held) refl in
          let next = send_to header look (slots i) r in
          let (is', walked) =
            walk_slots-Walked n (suc i) slots next
              (send_to-IsRound header k look (slots i) r is lt) in
          subst
            (λ ps.
              Walked header k look ps r (walk_slots policy rr_pos header k look (suc n) i slots r))
            (sym more)
            (subst (Walked header k look (slots i ∷ members n (suc i) slots) r)
              (sym (walk_taken n i slots r lt used))
              (
                is',
                λ rest.
                    walked rest
                    ∙ send_to-gather header k look (slots i) r is lt
                        (members n (suc i) slots ++ rest),
              ))
    ]
  ]
