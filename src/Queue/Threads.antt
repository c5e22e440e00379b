-- ===== src/Queue/Threads.antt =====
-- src/lf_mpmc_queue.c: several threads at one ring. Each atomic access, and each access to the pointer
-- of a cell, is a step of its own; a weak compare-and-swap may fail at any time.
pub mod Order
pub mod Head
pub mod Tail
pub mod Kept
pub mod Safe
mod Tests
use simplerpc.Common.{
  ℕ, ◌+◌, ◌%◌, Bool, true, false, not, ◌&&◌, ◌==◌, ◌≡◌, if◌then◌else◌, update, add64, sub64,
}
use simplerpc.Queue.{Queue, Cell, index, seq_at, negative}

-- Where a thread stands: outside a call; in an enqueue of a pointer with the position loaded, the sequence
-- number loaded too, the swap won, the pointer written; in a dequeue likewise, at the end with the pointer
-- read; or back from a dequeue of a position with its pointer.
pub data Stage : Type 0 where
  outside : Stage
  enq_at : (x pos : ℕ) → Stage
  enq_saw : (x pos seq : ℕ) → Stage
  enq_won enq_wrote : (x pos : ℕ) → Stage
  deq_at : (pos : ℕ) → Stage
  deq_saw : (pos seq : ℕ) → Stage
  deq_won : (pos : ℕ) → Stage
  deq_read delivered : (pos x : ℕ) → Stage

-- A cell with another pointer, and one with another sequence number.
abbrev pub write_item : ℕ → ℕ → Queue → Queue
write_item i x q = record q { buffer = update q.buffer i (record (q.buffer i) { item = x }) }

abbrev pub write_seq : ℕ → ℕ → Queue → Queue
write_seq i n q = record q { buffer = update q.buffer i (record (q.buffer i) { seq = n }) }

-- The swap of the head from `pos`, and that of the tail.
abbrev pub swap_head : (spurious : Bool) → (x pos : ℕ) → Queue → Stage × Queue
swap_head spurious x pos q =
    if (q.head == pos) && not spurious
    then (enq_won x pos, record q { head = add64 pos 1 })
    else (enq_at x q.head, q)

abbrev pub swap_tail : (spurious : Bool) → (pos : ℕ) → Queue → Stage × Queue
swap_tail spurious pos q =
    if (q.tail == pos) && not spurious
    then (deq_won pos, record q { tail = add64 pos 1 })
    else (deq_at q.tail, q)

-- The next access of a thread. FULL and EMPTY lead out of the call.
unfoldable pub advance : (capacity : ℕ) → (spurious : Bool) → Stage → Queue → Stage × Queue
advance capacity spurious outside q = (outside, q)
advance capacity spurious (enq_at x pos) q = (enq_saw x pos (seq_at pos q), q)
advance capacity spurious (enq_saw x pos seq) q =
    let diff = sub64 seq pos in
    if diff == 0
    then swap_head spurious x pos q
    else if negative diff
    then (outside, q)
    else (enq_at x q.head, q)
advance capacity spurious (enq_won x pos) q = (enq_wrote x pos, write_item (index pos q) x q)
advance capacity spurious (enq_wrote x pos) q = (outside, write_seq (index pos q) (add64 pos 1) q)
advance capacity spurious (deq_at pos) q = (deq_saw pos (seq_at pos q), q)
advance capacity spurious (deq_saw pos seq) q =
    let diff = sub64 seq (add64 pos 1) in
    if diff == 0
    then swap_tail spurious pos q
    else if negative diff
    then (outside, q)
    else (deq_at q.tail, q)
advance capacity spurious (deq_won pos) q = (deq_read pos (q.buffer (index pos q)).item, q)
advance capacity spurious (deq_read pos x) q =
    (delivered pos x, write_seq (index pos q) (add64 pos capacity) q)
advance capacity spurious (delivered pos x) q = (delivered pos x, q)

-- The ring, the threads, and a record of the enqueues: how many swaps of the head were won, and with which
-- pointer each position was.
pub record System : Type 0 where
  pub ring : Queue
  pub stage : ℕ → Stage
  pub wins : ℕ
  pub given : ℕ → ℕ

-- The record after a step that ends in the stage.
abbrev pub note : Stage → (wins : ℕ) → (given : ℕ → ℕ) → ℕ × (ℕ → ℕ)
note (enq_won x pos) wins given = (wins + 1, update given pos x)
note outside wins given = (wins, given)
note (enq_at x pos) wins given = (wins, given)
note (enq_saw x pos seq) wins given = (wins, given)
note (enq_wrote x pos) wins given = (wins, given)
note (deq_at pos) wins given = (wins, given)
note (deq_saw pos seq) wins given = (wins, given)
note (deq_won pos) wins given = (wins, given)
note (deq_read pos x) wins given = (wins, given)
note (delivered pos x) wins given = (wins, given)

-- The system after an access of the thread.
abbrev pub after : (i : ℕ) → System → Stage × Queue → System
after i s next =
    let noted = note next.0 s.wins s.given in
    record { ring = next.1; stage = update s.stage i next.0; wins = noted.0; given = noted.1 }

unfoldable pub execute : (capacity : ℕ) → (i : ℕ) (spurious : Bool) → System → System
unfolding advance
execute capacity i spurious s = after i s (advance capacity spurious (s.stage i) s.ring)

-- A thread that is not in a call begins one with the load of a position.
abbrev pub is_over : Stage → Bool
is_over outside = true
is_over (delivered pos x) = true
is_over (enq_at x pos) = false
is_over (enq_saw x pos seq) = false
is_over (enq_won x pos) = false
is_over (enq_wrote x pos) = false
is_over (deq_at pos) = false
is_over (deq_saw pos seq) = false
is_over (deq_won pos) = false
is_over (deq_read pos x) = false

abbrev pub begin : ℕ → Stage → System → System
begin i st s = record s { stage = update s.stage i st }

pub data Step (capacity : ℕ) (s : System) : System → Type 0 where
  enqueue :
      (i x : ℕ) → is_over (s.stage i) ≡ true → Step capacity s (begin i (enq_at x s.ring.head) s)
  dequeue : (i : ℕ) → is_over (s.stage i) ≡ true → Step capacity s (begin i (deq_at s.ring.tail) s)
  access : (i : ℕ) (spurious : Bool) → Step capacity s (execute capacity i spurious s)

pub data Reach (capacity : ℕ) (s : System) : System → Type 0 where
  start : Reach capacity s s
  later : {t u : System} → Reach capacity s t → Step capacity t u → Reach capacity s u
