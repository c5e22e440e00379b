-- ===== src/Queue/Dequeue.antt =====
-- `lf_mpmc_queue_try_dequeue` on a ring in order: it takes the oldest pointer, or says that there
-- is none.
use simplerpc.Common.{
  ℕ, zero, suc, ◌+◌, ◌-◌, ◌%◌, ◌≤◌, ◌<◌, ◌≡◌, ap, ◌∙◌, List, ◌∷◌, length, get_or, word64, arith,
  mod-word64, Bool, true, false, none, some, sub64, add64, mod-ne,
}
use native.Mathlib.Decide.{dec_lt}
use native.Mathlib.Nat.{add-mod_right}
use simplerpc.Queue.{Queue, ok, empty, index, seq_at, negative, release, dequeue_loop, try_dequeue}
use simplerpc.Queue.Inv.{IsCapacity, Holds}

module _ {size start : ℕ} {xs : List ℕ} {q : Queue} (c : IsCapacity size)
    (h : Holds size start xs q) where
  tail_index : index q.tail q ≡ start % size
  tail_index = rw (h.tail_at, h.masked) (mod-word64 size c.laps start c.divides)

  -- An empty ring shows the sequence number of a vacant cell.
  diff_of_empty : length xs ≡ 0 → negative (sub64 (seq_at q.tail q) (add64 q.tail 1)) ≡ true
  diff_of_empty e =
      let seq : seq_at q.tail q ≡ start % word64 =
        ap (λ i. (q.buffer i).seq) tail_index
        ∙ h.vacant start (omega arith) (omega (arith, c.two_le)) in
      ground (arith, h.tail_at)

  oldest :
      0 < length xs
      → q.buffer (index q.tail q) ≡ record { seq = (start + 1) % word64; item = get_or xs 0 0 }
  oldest some_held =
      let at : start - start ≡ 0 = omega arith in
      ap q.buffer tail_index ∙ rw at at (h.published start (omega arith) (omega arith))

  diff_of_held : 0 < length xs → sub64 (seq_at q.tail q) (add64 q.tail 1) ≡ 0
  diff_of_held some_held =
      let seq : seq_at q.tail q ≡ (start + 1) % word64 = ap (λ c. c.seq) (oldest some_held) in
      omega (arith, h.tail_at)

  pub dequeue_loop-held :
      (fuel r : ℕ) (spurious : ℕ → Bool)
      → 0 < length xs
      → r < fuel
      → spurious r ≡ false
      → dequeue_loop size spurious fuel q.tail q
        ≡ some (ok, some (get_or xs 0 0), release size q.tail q)
  unfolding dequeue_loop
  dequeue_loop-held zero r spurious held few fine = absurd (omega arith)
  dequeue_loop-held (suc fuel) zero spurious held few fine =
      ground (arith, diff_of_held held, oldest held)
  dequeue_loop-held (suc fuel) (suc r) spurious held few fine =
      ground
        (arith, diff_of_held held, oldest held, dequeue_loop-held fuel r (λ n. spurious (suc n)))

  pub try_dequeue-empty :
      (fuel : ℕ) (spurious : ℕ → Bool)
      → length xs ≡ 0
      → 0 < fuel
      → try_dequeue size fuel spurious q ≡ some (empty, none, q)
  unfolding try_dequeue dequeue_loop
  try_dequeue-empty zero spurious e few = absurd (omega arith)
  try_dequeue-empty (suc fuel) spurious e few = ground (arith, diff_of_empty e)

module _ {size start y : ℕ} {ys : List ℕ} {q : Queue} (c : IsCapacity size)
    (h : Holds size start (y ∷ ys) q) where
  kept_cell :
      (p : ℕ)
      → suc start ≤ p
      → p < suc start + length ys
      → (release size q.tail q).buffer (p % size)
        ≡ record { seq = (p + 1) % word64; item = get_or ys (p - suc start) 0 }
  unfolding release
  kept_cell p lo hi =
      let at : p - start ≡ suc (p - suc start) = omega arith in
      let old = rw at at (h.published p (omega arith) (omega arith)) in
      ground
        (arith, h.room, tail_index c h, mod-ne size start p (omega arith) (omega (arith, h.room)))

  freed_seq :
      (p : ℕ)
      → suc start + length ys ≤ p
      → p < suc start + size
      → ((release size q.tail q).buffer (p % size)).seq ≡ p % word64
  unfolding release
  freed_seq p lo hi = elim (dec_lt p (start + size)) [
    | yes old ↦
        ground (
          arith,
          tail_index c h,
          mod-ne size start p (omega arith) old,
          h.vacant p (omega arith) old,
        )
    | no new ↦
        let last : p ≡ start + size = omega arith in
        rw (last, add-mod_right start size, tail_index c h) (ground (arith, h.tail_at))
  ]

  pub release-Holds : Holds size (suc start) ys (release size q.tail q)
  unfolding release
  release-Holds = record {
    head_at = ground (arith, h.head_at);
    tail_at = ground (arith, h.tail_at);
    masked = h.masked;
    room = omega (arith, h.room);
    published = kept_cell;
    vacant = freed_seq;
  }
