-- ===== src/Queue/Threads/Tail.antt =====
-- src/lf_mpmc_queue.c: the accesses of a dequeue keep the ring in order.
use simplerpc.Common.{
  ℕ, ◌+◌, ◌%◌, ◌^◌, ◌<◌, ◌≡◌, ◌≢◌, refl, subst, none, some, update, add64, arith,
}
use simplerpc.Queue.Inv.{IsCapacity}
use simplerpc.Queue.Threads.{
  Stage, outside, enq_at, enq_saw, enq_won, enq_wrote, deq_at, deq_saw, deq_won, deq_read,
  delivered, write_seq, System,
}
use simplerpc.Queue.Threads.Order.{seq_of, Knows, filling, taking, Inv, apart, lap_apart}

module _ (size : ℕ) (c : IsCapacity size) (s : System) (i x p : ℕ) (inv : Inv size s)
    (bound : s.wins + size < 2 ^ 63) where
  -- The swap of the tail.
  abbrev taken : System
  taken = record s {
    ring = record s.ring { tail = add64 p 1 };
    stage = update s.stage i (deq_won p);
  }

  taken-Knows :
      (st : Stage)
      → p ≡ s.ring.tail
      → seq_of size s p ≡ p + 1
      → Knows size s st
      → Knows size taken st
  taken-Knows outside e full h = tt
  taken-Knows (enq_at y q) e full h = h
  taken-Knows (enq_saw y q v) e full h = h
  taken-Knows (enq_won y q) e full h = ground (arith, inv.ring.tail_le)
  taken-Knows (enq_wrote y q) e full h = ground (arith, inv.ring.tail_le)
  taken-Knows (deq_at q) e full h = ground (arith, inv.ring.tail_le)
  taken-Knows (deq_saw q v) e full h = ground (arith, inv.ring.tail_le)
  taken-Knows (deq_won q) e full h = ground (arith, inv.ring.tail_le)
  taken-Knows (deq_read q y) e full h = ground (arith, inv.ring.tail_le)
  taken-Knows (delivered q y) e full h = ground (arith, inv.ring.tail_le)

  taken_below : (st : Stage) (q : ℕ) → Knows size s st → taking st ≡ some q → q < s.ring.tail
  taken_below outside q h f = cc
  taken_below (enq_at y r) q h f = cc
  taken_below (enq_saw y r v) q h f = cc
  taken_below (enq_won y r) q h f = cc
  taken_below (enq_wrote y r) q h f = cc
  taken_below (deq_at r) q h f = cc
  taken_below (deq_saw r v) q h f = cc
  taken_below (deq_won r) q h f = ground arith
  taken_below (deq_read r y) q h f = ground arith
  taken_below (delivered r y) q h f = ground arith

  pub taken-Inv :
      p ≡ s.ring.tail → seq_of size s p ≡ p + 1 → filling (s.stage i) ≡ none → Inv size taken
  taken-Inv e full idle = record {
    ring = record {
      masked = inv.ring.masked;
      head_at = inv.ring.head_at;
      tail_le = ground (arith, inv.ring.tail_le, inv.ring.published p);
      words = inv.ring.words;
      published = inv.ring.published;
    };
    knows = λ j. ground (arith, inv.ring.tail_le, taken-Knows (s.stage j) e full, inv.knows j);
    one_fills = λ a b q ne fa fb. ground (arith, inv.one_fills a b q ne);
    one_takes = λ a b q ne fa fb. ground (
      arith,
      inv.one_takes a b q ne,
      taken_below (s.stage a) q (inv.knows a),
      taken_below (s.stage b) q (inv.knows b),
    );
  }

  -- The cell is free for the next lap.
  abbrev freed : System
  freed = record s {
    ring = write_seq (p % size) (add64 p size) s.ring;
    stage = update s.stage i (delivered p x);
  }

  freed-Knows :
      (st : Stage)
      → seq_of size s p ≡ p + 1
      → p < s.ring.tail
      → taking st ≢ some p
      → Knows size s st
      → Knows size freed st
  freed-Knows outside own won other h = tt
  freed-Knows (enq_at y q) own won other h = h
  freed-Knows (enq_saw y q v) own won other h = ground (arith, h, apart size c p q)
  freed-Knows (enq_won y q) own won other h = ground (arith, apart size c p q)
  freed-Knows (enq_wrote y q) own won other h = ground (arith, apart size c p q)
  freed-Knows (deq_at q) own won other h = h
  freed-Knows (deq_saw q v) own won other h = ground (arith, h)
  freed-Knows (deq_won q) own won other h = ground arith
  freed-Knows (deq_read q y) own won other h = ground arith
  freed-Knows (delivered q y) own won other h = h

  pub freed-Inv : s.stage i ≡ deq_read p x → Inv size freed
  freed-Inv e =
      let mine : Knows size s (deq_read p x) = subst (Knows size s) e (inv.knows i) in
      let small : p + size < 2 ^ 63 = omega (arith, mine, inv.ring.tail_le) in
      record {
        ring = record {
          masked = inv.ring.masked;
          head_at = inv.ring.head_at;
          tail_le = inv.ring.tail_le;
          words = λ q. ground (arith, inv.ring.words q);
          published = λ q at.
              ground
                (arith, mine, small, inv.ring.published q, lap_apart size c p (p + size) refl q);
        };
        knows =
            λ j. ground (arith, mine, inv.knows j, freed-Knows (s.stage j), inv.one_takes i j p);
        one_fills = λ a b q ne fa fb. ground (arith, e, inv.one_fills a b q ne);
        one_takes = λ a b q ne fa fb. ground (arith, e, inv.one_takes a b q ne);
      }
