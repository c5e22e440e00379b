-- ===== src/Queue/Enqueue.antt =====
-- `lf_mpmc_queue_try_enqueue` on a ring in order: it appends, or says that the ring is full.
use simplerpc.Common.{
  ℕ, zero, suc, ◌+◌, ◌-◌, ◌%◌, ◌≤◌, ◌<◌, ◌≡◌, ap, ◌∙◌, List, [], ◌∷◌, ◌++◌, length, length-append,
  get_or, get_or-append_lt, get_or-append_last, word64, arith, mod-word64, Bool, true, false, some,
  sub64, mod-ne,
}
use native.Mathlib.Decide.{dec_lt}
use native.Mathlib.Nat.{add-mod_right}
use simplerpc.Queue.{Queue, ok, full, index, seq_at, negative, publish, enqueue_loop, try_enqueue}
use simplerpc.Queue.Inv.{IsCapacity, Holds}

module _ {size start : ℕ} {xs : List ℕ} {q : Queue} (c : IsCapacity size)
    (h : Holds size start xs q) where
  pub head_index : index q.head q ≡ (start + length xs) % size
  head_index = rw (h.head_at, h.masked) (mod-word64 size c.laps (start + length xs) c.divides)

  diff_of_room : length xs < size → sub64 (seq_at q.head q) q.head ≡ 0
  diff_of_room lt =
      let n = start + length xs in
      let seq : seq_at q.head q ≡ n % word64 =
        ap (λ i. (q.buffer i).seq) head_index ∙ h.vacant n (omega arith) (omega arith) in
      omega (arith, h.head_at)

  diff_of_full : length xs ≡ size → negative (sub64 (seq_at q.head q) q.head) ≡ true
  diff_of_full e =
      let wrap : index q.head q ≡ start % size =
        head_index ∙ ap (λ k. (start + k) % size) e ∙ add-mod_right start size in
      let seq : seq_at q.head q ≡ (start + 1) % word64 =
        ap (λ i. (q.buffer i).seq) wrap
        ∙ ap (λ c. c.seq) (h.published start (omega arith) (omega (arith, c.two_le))) in
      ground (arith, h.head_at, c.two_le, c.le_half)

  pub enqueue_loop-room :
      (x fuel r : ℕ) (spurious : ℕ → Bool)
      → length xs < size
      → r < fuel
      → spurious r ≡ false
      → enqueue_loop fuel spurious q.head x q ≡ some (ok, publish q.head x q)
  unfolding enqueue_loop
  enqueue_loop-room x zero r spurious lt few fine = absurd (omega arith)
  enqueue_loop-room x (suc fuel) zero spurious lt few fine = ground (arith, diff_of_room lt)
  enqueue_loop-room x (suc fuel) (suc r) spurious lt few fine =
      ground (arith, diff_of_room lt, enqueue_loop-room x fuel r (λ n. spurious (suc n)))

  published_cell :
      (x p : ℕ)
      → start ≤ p
      → p < suc (start + length xs)
      → length xs < size
      → (publish q.head x q).buffer (p % size)
        ≡ record { seq = (p + 1) % word64; item = get_or (xs ++ x ∷ []) (p - start) 0 }
  unfolding publish
  published_cell x p lo hi lt = elim (dec_lt p (start + length xs)) [
    | yes old ↦ ground (
      arith,
      head_index,
      mod-ne size p (start + length xs) old (omega arith),
      h.published p lo old,
      get_or-append_lt xs (x ∷ []) (p - start) 0 (omega arith),
    )
    | no new ↦
        let last : p ≡ start + length xs = omega arith in
        let at : p - start ≡ length xs = omega arith in
        rw (at, get_or-append_last xs x 0, head_index, last) (ground (arith, h.head_at))
  ]

  vacant_seq :
      (x p : ℕ)
      → start + length xs < p
      → p < start + size
      → ((publish q.head x q).buffer (p % size)).seq ≡ p % word64
  unfolding publish
  vacant_seq x p lo hi = ground (
    arith,
    head_index,
    mod-ne size (start + length xs) p lo (omega arith),
    h.vacant p (omega arith) hi,
  )

  pub publish-Holds :
      (x : ℕ) → length xs < size → Holds size start (xs ++ x ∷ []) (publish q.head x q)
  unfolding publish
  publish-Holds x lt = record {
    head_at = omega (arith, h.head_at, length-append xs (x ∷ []));
    tail_at = h.tail_at;
    masked = h.masked;
    room = omega (arith, length-append xs (x ∷ []));
    published = λ p lo hi. published_cell x p lo (omega (arith, length-append xs (x ∷ []))) lt;
    vacant = λ p lo hi. vacant_seq x p (omega (arith, length-append xs (x ∷ []))) hi;
  }

  pub try_enqueue-full :
      (x fuel : ℕ) (spurious : ℕ → Bool)
      → length xs ≡ size
      → 0 < fuel
      → try_enqueue fuel spurious x q ≡ some (full, q)
  unfolding try_enqueue enqueue_loop
  try_enqueue-full x zero spurious e few = absurd (omega arith)
  try_enqueue-full x (suc fuel) spurious e few = ground (arith, diff_of_full e)
