-- ===== src/Queue/Threads/Head.antt =====
-- src/lf_mpmc_queue.c: the accesses of an enqueue keep the ring in order.
use simplerpc.Common.{ℕ, ◌+◌, ◌%◌, ◌^◌, ◌<◌, ◌≡◌, ◌≢◌, subst, none, some, update, add64, arith}
use simplerpc.Queue.Inv.{IsCapacity}
use simplerpc.Queue.Threads.{
  Stage, outside, enq_at, enq_saw, enq_won, enq_wrote, deq_at, deq_saw, deq_won, deq_read,
  delivered, write_item, write_seq, System,
}
use simplerpc.Queue.Threads.Order.{seq_of, Knows, filling, taking, Inv, apart}

module _ (size : ℕ) (c : IsCapacity size) (s : System) (i x p : ℕ) (inv : Inv size s)
    (bound : s.wins + size < 2 ^ 63) where
  -- The swap of the head.
  abbrev won : System
  won = record {
    ring = record s.ring { head = add64 p 1 };
    stage = update s.stage i (enq_won x p);
    wins = s.wins + 1;
    given = update s.given p x;
  }

  won-Knows : (st : Stage) → p ≡ s.wins → Knows size s st → Knows size won st
  won-Knows outside e h = tt
  won-Knows (enq_at y q) e h = ground arith
  won-Knows (enq_saw y q v) e h = ground arith
  won-Knows (enq_won y q) e h = ground arith
  won-Knows (enq_wrote y q) e h = ground arith
  won-Knows (deq_at q) e h = h
  won-Knows (deq_saw q v) e h = h
  won-Knows (deq_won q) e h = h
  won-Knows (deq_read q y) e h = ground (arith, inv.ring.tail_le)
  won-Knows (delivered q y) e h = ground (arith, inv.ring.tail_le)

  filled_below : (st : Stage) (q : ℕ) → Knows size s st → filling st ≡ some q → q < s.wins
  filled_below outside q h f = cc
  filled_below (enq_at y r) q h f = cc
  filled_below (enq_saw y r v) q h f = cc
  filled_below (enq_won y r) q h f = ground arith
  filled_below (enq_wrote y r) q h f = ground arith
  filled_below (deq_at r) q h f = cc
  filled_below (deq_saw r v) q h f = cc
  filled_below (deq_won r) q h f = cc
  filled_below (deq_read r y) q h f = cc
  filled_below (delivered r y) q h f = cc

  pub won-Inv : p ≡ s.wins → seq_of size s p ≡ p → taking (s.stage i) ≡ none → Inv size won
  won-Inv e free idle = record {
    ring = record {
      masked = inv.ring.masked;
      head_at = omega arith;
      tail_le = omega (arith, inv.ring.tail_le);
      words = inv.ring.words;
      published = λ q at. ground (arith, inv.ring.published q);
    };
    knows = λ j. ground (arith, inv.ring.tail_le, won-Knows (s.stage j) e, inv.knows j);
    one_fills = λ a b q ne fa fb. ground (
      arith,
      inv.one_fills a b q ne,
      filled_below (s.stage a) q (inv.knows a),
      filled_below (s.stage b) q (inv.knows b),
    );
    one_takes = λ a b q ne fa fb. ground (arith, inv.one_takes a b q ne);
  }

  -- The pointer is written to the cell.
  abbrev wrote : System
  wrote = record s {
    ring = write_item (p % size) x s.ring;
    stage = update s.stage i (enq_wrote x p);
  }

  wrote-Knows :
      (st : Stage)
      → seq_of size s p ≡ p
      → filling st ≢ some p
      → Knows size s st
      → Knows size wrote st
  wrote-Knows outside own other h = tt
  wrote-Knows (enq_at y q) own other h = h
  wrote-Knows (enq_saw y q v) own other h = ground (arith, h)
  wrote-Knows (enq_won y q) own other h = ground arith
  wrote-Knows (enq_wrote y q) own other h = ground arith
  wrote-Knows (deq_at q) own other h = h
  wrote-Knows (deq_saw q v) own other h = ground (arith, h)
  wrote-Knows (deq_won q) own other h = ground arith
  wrote-Knows (deq_read q y) own other h = ground arith
  wrote-Knows (delivered q y) own other h = h

  pub wrote-Inv : s.stage i ≡ enq_won x p → Inv size wrote
  wrote-Inv e =
      let mine : Knows size s (enq_won x p) = subst (Knows size s) e (inv.knows i) in
      record {
        ring = record {
          masked = inv.ring.masked;
          head_at = inv.ring.head_at;
          tail_le = inv.ring.tail_le;
          words = λ q. ground (arith, inv.ring.words q, inv.ring.words p);
          published = λ q at. ground (arith, mine, inv.ring.published q, apart size c q p);
        };
        knows =
            λ j. ground (arith, mine, inv.knows j, wrote-Knows (s.stage j), inv.one_fills i j p);
        one_fills = λ a b q ne fa fb. ground (arith, e, inv.one_fills a b q ne);
        one_takes = λ a b q ne fa fb. ground (arith, e, inv.one_takes a b q ne);
      }

  -- The cell is published.
  abbrev shown : System
  shown = record s {
    ring = write_seq (p % size) (add64 p 1) s.ring;
    stage = update s.stage i outside;
  }

  shown-Knows :
      (st : Stage)
      → seq_of size s p ≡ p
      → p < s.wins
      → filling st ≢ some p
      → Knows size s st
      → Knows size shown st
  shown-Knows outside own won other h = tt
  shown-Knows (enq_at y q) own won other h = h
  shown-Knows (enq_saw y q v) own won other h = ground (arith, h)
  shown-Knows (enq_won y q) own won other h = ground arith
  shown-Knows (enq_wrote y q) own won other h = ground arith
  shown-Knows (deq_at q) own won other h = h
  shown-Knows (deq_saw q v) own won other h = ground (arith, h, apart size c q p)
  shown-Knows (deq_won q) own won other h = ground (arith, apart size c q p)
  shown-Knows (deq_read q y) own won other h = ground (arith, apart size c q p)
  shown-Knows (delivered q y) own won other h = h

  pub shown-Inv : s.stage i ≡ enq_wrote x p → Inv size shown
  shown-Inv e =
      let mine : Knows size s (enq_wrote x p) = subst (Knows size s) e (inv.knows i) in
      record {
        ring = record {
          masked = inv.ring.masked;
          head_at = inv.ring.head_at;
          tail_le = inv.ring.tail_le;
          words = λ q. ground (arith, inv.ring.words q);
          published = λ q at. ground (arith, mine, inv.ring.published q);
        };
        knows =
            λ j. ground (arith, mine, inv.knows j, shown-Knows (s.stage j), inv.one_fills i j p);
        one_fills = λ a b q ne fa fb. ground (arith, e, inv.one_fills a b q ne);
        one_takes = λ a b q ne fa fb. ground (arith, e, inv.one_takes a b q ne);
      }
