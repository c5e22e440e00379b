-- ===== src/Request/Race/Whole.antt =====
-- One executor answers a response, and its bytes are there when the response is ready.
use simplerpc.Common.{ℕ, ◌≡◌, refl, ◌≢◌, ap, ◌∙◌, sym, subst, true, ℤ, arith}
use simplerpc.Request.{rc_st, st_ready, st_error}
use simplerpc.Request.Word.{IsCode, rc_word-fields}
use simplerpc.Request.Race.{
  answered, Shared, ready_word, advance, mark_error, System, fresh, execute, Step, executor, mark,
  Reach, start, later,
}
use simplerpc.Request.Race.States.{
  Begins, quiet, Inv, unanswered, written, complete, failed, words, execute_unanswered,
  execute_written, execute_complete, execute_failed, advance-quiet, advance-answered,
}
use native.Mathlib.Decide.{ℕ_discrete}

mark_error-set : (code : ℤ) (m : Shared) → m.rc ≢ 0 → mark_error code m ≡ m
unfolding mark_error
mark_error-set code m ne = ground arith

mark_error-empty :
    (code : ℤ) (m : Shared) → IsCode code → m.rc ≡ 0 → rc_st (mark_error code m).rc ≡ st_error
unfolding mark_error
mark_error-empty code m small e =
    let field = (rc_word-fields code st_error small).0 in ground (arith, field)

module _ {val : ℕ → ℕ → ℕ} {sz : ℕ → ℕ} where
  same_shared :
      (s : System) (m : Shared) → m ≡ s.shared → Inv val sz s → Inv val sz (record s { shared = m })
  same_shared s m e inv = subst (λ m'. Inv val sz (record s { shared = m' })) (sym e) inv

  mark-Inv :
      (s : System) (code : ℤ)
      → IsCode code
      → Inv val sz s
      → Inv val sz (record s { shared = mark_error code s.shared })
  mark-Inv s code small (unanswered empty all) =
      failed (mark_error-empty code s.shared small empty) all
  mark-Inv s code small (written i k locked at le begins all) =
      same_shared s _ (mark_error-set code s.shared (λ e. words.0 (sym locked ∙ e)))
        (written i k locked at le begins all)
  mark-Inv s code small (complete i ready at begins all) =
      same_shared s _ (mark_error-set code s.shared (λ e. words.1 (sym ready ∙ e)))
        (complete i ready at begins all)
  mark-Inv s code small (failed bad all) =
      same_shared s _
        (mark_error-set code s.shared (λ e. let st0 = ap rc_st e in omega (arith, st0, bad, words)))
        (failed bad all)

  Step-Inv : (s t : System) → Inv val sz s → Step val sz s t → Inv val sz t
  Step-Inv s _ (unanswered empty all) (executor i) = execute_unanswered s i empty all
  Step-Inv s _ (written o k locked at le begins all) (executor i) =
      execute_written s i o k locked at le begins all
  Step-Inv s _ (complete o ready at begins all) (executor i) =
      execute_complete s i o ready at begins all
  Step-Inv s _ (failed bad all) (executor i) = execute_failed s i bad all
  Step-Inv s _ inv (mark code small) = mark-Inv s code small inv

  Reach-Inv : (s t : System) → Inv val sz s → Reach val sz s t → Inv val sz t
  Reach-Inv s _ inv start = inv
  Reach-Inv s _ inv (later r step) = Step-Inv _ _ (Reach-Inv s _ inv r) step

  fresh-Inv : (buf : ℕ → ℕ) → Inv val sz (fresh buf)
  fresh-Inv buf = unanswered refl (λ j. refl)

  ready-owner :
      (t : System)
      → Inv val sz t
      → rc_st t.shared.rc ≡ st_ready
      → (i : ℕ) × (t.stage i ≡ answered)
        × Begins t.shared.buf (val i) (sz i)
        × ((j : ℕ) → j ≢ i → quiet (t.stage j) ≡ true)
        × (t.shared.rc ≡ ready_word)
  ready-owner t (unanswered empty all) ready =
      absurd (let st0 = ap rc_st empty in omega (arith, st0, ready, words))
  ready-owner t (written i k locked at le begins all) ready =
      absurd (let st1 = ap rc_st locked in omega (arith, st1, ready, words))
  ready-owner t (complete i rc at begins all) ready = (i, at, begins, all, rc)
  ready-owner t (failed bad all) ready = absurd (omega (arith, bad, ready))

  -- Whatever the interleaving of the executors and of the marks for a timeout or a cancelled
  -- request, access by access and byte by byte: when the response is ready, an executor has
  -- answered, all its bytes are in the buffer, and every other executor is neither in its copy
  -- nor after it.
  pub ready-whole :
      {buf : ℕ → ℕ} {t : System}
      → Reach val sz (fresh buf) t
      → rc_st t.shared.rc ≡ st_ready
      → (i : ℕ) × (t.stage i ≡ answered)
        × Begins t.shared.buf (val i) (sz i)
        × ((j : ℕ) → j ≢ i → quiet (t.stage j) ≡ true)
  ready-whole {buf} {t} r ready =
      let (i, at, begins, all, rc) =
        ready-owner t (Reach-Inv (fresh buf) t (fresh-Inv buf) r) ready in
      (i, at, begins, all)

  shared_kept :
      (t u : System)
      → Inv val sz t
      → rc_st t.shared.rc ≡ st_ready
      → Step val sz t u
      → u.shared ≡ t.shared
  unfolding execute
  shared_kept t _ inv ready (executor i) =
      let (o, at, begins, all, rc) = ready-owner t inv ready in
      elim (ℕ_discrete o i) [
        | yes same ↦
            let at_i : t.stage i ≡ answered = subst (λ j. t.stage j ≡ answered) same at in
            ap (λ st. (advance (val i) (sz i) st t.shared).1) at_i
            ∙ ap (λ p. p.1) (advance-answered (val i) (sz i) t.shared)
        | no apart ↦
            let (st, q, e) =
              advance-quiet (val i) (sz i) (t.stage i) t.shared (all i (λ e. apart (sym e)))
                (λ e. words.1 (sym rc ∙ e)) in
            ap (λ p. p.1) e
      ]
  shared_kept t _ inv ready (mark code small) =
      let (o, at, begins, all, rc) = ready-owner t inv ready in
      mark_error-set code t.shared (λ e. words.1 (sym rc ∙ e))

  -- A response that is ready keeps its word and every byte whatever the executors and the marks
  -- for a timeout or a cancelled request do afterwards.
  pub ready-stays :
      {buf : ℕ → ℕ} {t u : System}
      → Reach val sz (fresh buf) t
      → rc_st t.shared.rc ≡ st_ready
      → Reach val sz t u
      → u.shared ≡ t.shared
  ready-stays {buf} {t} r ready rest = go t r ready rest
    where
      go :
          (t : System)
          → Reach val sz (fresh buf) t
          → rc_st t.shared.rc ≡ st_ready
          → {u : System} → Reach val sz t u
          → u.shared ≡ t.shared
      go t r ready start = refl
      go t r ready (later {t = v} more step) =
          let same = go t r ready more in
          let inv = Reach-Inv t v (Reach-Inv (fresh buf) t (fresh-Inv buf) r) more in
          shared_kept v _ inv (ap (λ m. rc_st m.rc) same ∙ ready) step ∙ same
