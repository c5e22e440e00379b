-- ===== src/Request/Race/States.antt =====
-- The states that a response goes through, and that a step of an executor stays among them.
use simplerpc.Common.{
  ℕ, suc, ◌≤◌, ◌<◌, ◌≡◌, refl, ◌≢◌, ap, ◌∙◌, sym, subst, Bool, true, false, arith, update,
  update_self, update_ne, inl, inr, ◌⊎◌,
}
use simplerpc.Request.{rc_word, rc_st, st_lock, st_ready, st_error, st_empty}
use native.Mathlib.Decide.{dec_lt, ℕ_discrete}
use simplerpc.Request.Race.{
  Stage, idle, answered, refused, copying, Shared, lock_word, ready_word, advance, System, execute,
}

-- The first `n` bytes of a buffer are those of a value.
abbrev pub Begins : (ℕ → ℕ) → (ℕ → ℕ) → ℕ → Type 0
Begins buf val n = (j : ℕ) → j < n → buf j ≡ val j

-- Neither in the copy nor after it.
abbrev pub quiet : Stage → Bool
quiet idle = true
quiet (copying k) = false
quiet answered = false
quiet refused = true

-- The four states of a response: empty, being written, ready with the bytes of one executor, failed.
pub data Inv (val : ℕ → ℕ → ℕ) (sz : ℕ → ℕ) (s : System) : Type 0 where
  unanswered : s.shared.rc ≡ 0 → ((j : ℕ) → quiet (s.stage j) ≡ true) → Inv val sz s
  written :
      (i k : ℕ)
      → s.shared.rc ≡ lock_word
      → s.stage i ≡ copying k
      → k ≤ sz i
      → Begins s.shared.buf (val i) k
      → ((j : ℕ) → j ≢ i → quiet (s.stage j) ≡ true)
      → Inv val sz s
  complete :
      (i : ℕ)
      → s.shared.rc ≡ ready_word
      → s.stage i ≡ answered
      → Begins s.shared.buf (val i) (sz i)
      → ((j : ℕ) → j ≢ i → quiet (s.stage j) ≡ true)
      → Inv val sz s
  failed : rc_st s.shared.rc ≡ st_error → ((j : ℕ) → quiet (s.stage j) ≡ true) → Inv val sz s

pub words :
    (lock_word ≢ 0)
    × (ready_word ≢ 0)
    × (rc_st lock_word ≡ st_lock)
    × (rc_st ready_word ≡ st_ready)
    × (rc_st 0 ≡ st_empty)
unfolding rc_st rc_word
words = (omega arith, omega arith, refl, refl, refl)

pub advance-quiet :
    (val : ℕ → ℕ) (sz : ℕ) (st : Stage) (m : Shared)
    → quiet st ≡ true
    → m.rc ≢ 0
    → (st' : Stage) × (quiet st' ≡ true) × (advance val sz st m ≡ (st', m))
unfolding advance
advance-quiet val sz idle m q ne = (refused, refl, ground arith)
advance-quiet val sz refused m q ne = (refused, refl, refl)
advance-quiet val sz (copying k) m q ne = absurd (ground arith)
advance-quiet val sz answered m q ne = absurd (ground arith)

advance-empty :
    (val : ℕ → ℕ) (sz : ℕ) (st : Stage) (m : Shared)
    → quiet st ≡ true
    → m.rc ≡ 0
    → (advance val sz st m ≡ (copying 0, record m { rc = lock_word }))
      ⊎ (advance val sz st m ≡ (refused, m))
unfolding advance
advance-empty val sz idle m q e = inl (ground arith)
advance-empty val sz refused m q e = inr refl
advance-empty val sz (copying k) m q e = absurd (ground arith)
advance-empty val sz answered m q e = absurd (ground arith)

advance-copying :
    (val : ℕ → ℕ) (sz k : ℕ) (m : Shared)
    → k ≤ sz
    → ((k < sz)
        × (advance val sz (copying k) m
            ≡ (copying (suc k), record m { buf = update m.buf k (val k) })))
      ⊎ ((k ≡ sz) × (advance val sz (copying k) m ≡ (answered, record m { rc = ready_word })))
unfolding advance
advance-copying val sz k m le = elim (dec_lt k sz) [
  | yes lt ↦ inl (lt, ground arith)
  | no nlt ↦ inr (omega arith, ground arith)
]

pub advance-answered :
    (val : ℕ → ℕ) (sz : ℕ) (m : Shared) → advance val sz answered m ≡ (answered, m)
unfolding advance
advance-answered val sz m = refl

module _ (s : System) (i : ℕ) where
  still_quiet :
      (st : Stage) (but : ℕ)
      → quiet st ≡ true
      → ((j : ℕ) → j ≢ but → quiet (s.stage j) ≡ true)
      → (j : ℕ) → j ≢ but
      → quiet (update s.stage i st j) ≡ true
  still_quiet st but q all j ne = let old = all j ne in ground (arith, old)

  all_quiet :
      (st : Stage)
      → quiet st ≡ true
      → ((j : ℕ) → quiet (s.stage j) ≡ true)
      → (j : ℕ) → quiet (update s.stage i st j) ≡ true
  all_quiet st q all j = let old = all j in ground (arith, old)

  same_mover :
      (st : Stage)
      → ((j : ℕ) → j ≢ i → quiet (s.stage j) ≡ true)
      → (j : ℕ) → j ≢ i
      → quiet (update s.stage i st j) ≡ true
  same_mover st all j ne = let old = all j ne in ground (arith, old)

module _ {val : ℕ → ℕ → ℕ} {sz : ℕ → ℕ} (s : System) (i : ℕ) where
  moved :
      (st : Stage) (m : Shared)
      → advance (val i) (sz i) (s.stage i) s.shared ≡ (st, m)
      → Inv val sz (record { shared = m; stage = update s.stage i st })
      → Inv val sz (execute val sz i s)
  unfolding execute
  moved st m e inv =
      subst (λ p. Inv val sz (record { shared = p.1; stage = update s.stage i p.0 })) (sym e) inv

  pub execute_unanswered :
      s.shared.rc ≡ 0 → ((j : ℕ) → quiet (s.stage j) ≡ true) → Inv val sz (execute val sz i s)
  execute_unanswered empty all =
      elim (advance-empty (val i) (sz i) (s.stage i) s.shared (all i) empty) [
        | inl e ↦ moved _ _ e (
            written i 0 refl (update_self s.stage i (copying 0)) (omega arith)
              (λ j lt. absurd (omega arith)) (λ j ne. let old = all j in ground (arith, old)))
        | inr e ↦ moved _ _ e (unanswered empty (all_quiet s i refused refl all))
      ]

  pub execute_written :
      (o k : ℕ)
      → s.shared.rc ≡ lock_word
      → s.stage o ≡ copying k
      → k ≤ sz o
      → Begins s.shared.buf (val o) k
      → ((j : ℕ) → j ≢ o → quiet (s.stage j) ≡ true)
      → Inv val sz (execute val sz i s)
  execute_written o k locked at le begins all = elim (ℕ_discrete o i) [
    | yes same ↦
        let at_i : s.stage i ≡ copying k = subst (λ j. s.stage j ≡ copying k) same at in
        let le_i : k ≤ sz i = subst (λ j. k ≤ sz j) same le in
        let begins_i : Begins s.shared.buf (val i) k =
          subst (λ j. Begins s.shared.buf (val j) k) same begins in
        let others : (j : ℕ) → j ≢ i → quiet (s.stage j) ≡ true =
          subst (λ o'. (j : ℕ) → j ≢ o' → quiet (s.stage j) ≡ true) same all in
        let turn = ap (λ st. advance (val i) (sz i) st s.shared) at_i in
        elim (advance-copying (val i) (sz i) k s.shared le_i) [
          | inl (lt, e) ↦ moved _ _ (turn ∙ e) (
              written i (suc k) locked (update_self s.stage i (copying (suc k))) (omega arith)
                (λ j below. let old = begins_i j in ground (arith, old))
                (same_mover s i (copying (suc k)) others))
          | inr (full, e) ↦ moved _ _ (turn ∙ e) (
              complete i refl (update_self s.stage i answered) (λ j below. begins_i j (omega arith))
                (same_mover s i answered others))
        ]
    | no apart ↦
        let (st, q, e) =
          advance-quiet (val i) (sz i) (s.stage i) s.shared (all i (λ e. apart (sym e)))
            (λ e. words.0 (sym locked ∙ e)) in
        moved _ _ e (
          written o k locked (update_ne s.stage i o st apart ∙ at) le begins
            (still_quiet s i st o q all))
  ]

  pub execute_complete :
      (o : ℕ)
      → s.shared.rc ≡ ready_word
      → s.stage o ≡ answered
      → Begins s.shared.buf (val o) (sz o)
      → ((j : ℕ) → j ≢ o → quiet (s.stage j) ≡ true)
      → Inv val sz (execute val sz i s)
  execute_complete o ready at begins all = elim (ℕ_discrete o i) [
    | yes same ↦
        let at_i : s.stage i ≡ answered = subst (λ j. s.stage j ≡ answered) same at in
        let others : (j : ℕ) → j ≢ i → quiet (s.stage j) ≡ true =
          subst (λ o'. (j : ℕ) → j ≢ o' → quiet (s.stage j) ≡ true) same all in
        moved _ _
          (ap (λ st. advance (val i) (sz i) st s.shared) at_i
            ∙ advance-answered (val i) (sz i) s.shared)
          (complete i ready (update_self s.stage i answered)
            (subst (λ j. Begins s.shared.buf (val j) (sz j)) same begins)
            (same_mover s i answered others))
    | no apart ↦
        let (st, q, e) =
          advance-quiet (val i) (sz i) (s.stage i) s.shared (all i (λ e. apart (sym e)))
            (λ e. words.1 (sym ready ∙ e)) in
        moved _ _ e (
          complete o ready (update_ne s.stage i o st apart ∙ at) begins
            (still_quiet s i st o q all))
  ]

  pub execute_failed :
      rc_st s.shared.rc ≡ st_error
      → ((j : ℕ) → quiet (s.stage j) ≡ true)
      → Inv val sz (execute val sz i s)
  execute_failed bad all =
      let (st, q, e) =
        advance-quiet (val i) (sz i) (s.stage i) s.shared (all i)
          (λ e. let st0 = ap rc_st e in omega (arith, st0, bad, words)) in
      moved _ _ e (failed bad (all_quiet s i st q all))
