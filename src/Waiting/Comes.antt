-- ===== src/Waiting/Comes.antt =====
-- src/libsrpc.c: the wait of `libsrpc_send_request` for answers that come.
use simplerpc.Common.{
  ℕ, zero, suc, ◌+◌, ◌≤◌, ◌<◌, ◌≡◌, ◌∙◌, refl, true, false, Option, ltb, arith, if◌then◌else◌,
}
use native.Mathlib.Decide.{dec_lt}
use simplerpc.Request.{Request}
use simplerpc.Waiting.{count_answers, finished, ends_wait, await}

module _ (header retnum late : ℕ) (wake : ℕ → Option ℕ) (seen : ℕ → Request)
    (before after : Request) (quiet : (t : ℕ) → ends_wait (wake t) ≡ false)
    (sees : (t : ℕ) → seen t ≡ (if ltb t late then before else after))
    (some_missing : count_answers header retnum 0 before < retnum)
    (all_there : retnum ≤ count_answers header retnum 0 after) where
  pub await-comes :
      (turns i : ℕ)
      → i ≤ late
      → late < i + turns
      → await header retnum turns i wake seen ≡ finished after
  unfolding await
  await-comes zero i lo hi = absurd (omega arith)
  await-comes (suc turns) i lo hi = elim (dec_lt i late) [
    | yes early ↦
        let now : seen i ≡ before = sees i ∙ ground (arith, early) in
        let few : ltb (count_answers header retnum 0 before) retnum ≡ true = ground arith in
        rw (quiet i, now, few, await) (await-comes turns (suc i) (omega arith) (omega arith))
    | no there ↦
        let now : seen i ≡ after = sees i ∙ ground (arith, there) in
        let all : ltb (count_answers header retnum 0 after) retnum ≡ false = ground arith in
        rw (quiet i, now, all, await) refl
  ]
