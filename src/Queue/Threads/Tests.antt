-- ===== src/Queue/Threads/Tests.antt =====
-- src/lf_mpmc_queue.c: two threads at one ring, at a concrete interleaving.
use simplerpc.Common.{ℕ, ◌^◌, ◌≤◌, ◌<◌, ◌≡◌, ◌≢◌, refl, subst, ◌%◌, false, true, some, arith}
use simplerpc.Queue.{Queue, init, init_cell}
use simplerpc.Queue.Inv.{IsCapacity}
use simplerpc.Queue.Threads.{
  delivered, enq_at, deq_at, System, advance, execute, begin, is_over, enqueue, dequeue, access,
  Reach, start, later,
}
use simplerpc.Queue.Threads.Safe.{fresh, owned, owned_apart, delivered-given}

abbrev size : ℕ
size = 4

is_capacity : IsCapacity size
is_capacity = record {
  laps = 2 ^ 62;
  divides = omega arith;
  two_le = omega arith;
  le_half = omega arith;
}

abbrev garbage : Queue
garbage = record { head = 1; tail = 1; buffer = λ i. record { seq = 9; item = 9 }; mask = 7 }

abbrev go : ℕ → System → System
go i s = execute size i false s

-- Thread 0 enqueues 77 and thread 1 enqueues 88; 0 wins first, 1 publishes first.
abbrev begun : System
begun = begin 1 (enq_at 88 0) (begin 0 (enq_at 77 0) (fresh size garbage))

-- Both have loaded the position 0 and its sequence number; 0 wins, 1 fails and wins the position 1.
abbrev both : System
both = go 1 (go 1 (go 1 (go 0 (go 1 (go 0 begun)))))

begun-reached : Reach size (fresh size garbage) begun
unfolding init
begun-reached = later (later start (enqueue 0 77 refl)) (enqueue 1 88 refl)

both-reached : Reach size (fresh size garbage) both
both-reached =
    later
      (later
        (later
          (later (later (later begun-reached (access 0 false)) (access 1 false)) (access 0 false))
          (access 1 false))
        (access 1 false))
      (access 1 false)

both-stage : (owned (both.stage 0) ≡ some 0) × (owned (both.stage 1) ≡ some 1) × (both.wins ≡ 2)
unfolding execute advance init init_cell
both-stage = (refl, refl, refl)

owned_apart_example : 0 % size ≢ 1 % size
owned_apart_example =
    owned_apart size is_capacity garbage both both-reached (omega (arith, both-stage.2)) 0 1 0 1
      (omega arith) both-stage.0 both-stage.1

-- Both publish, and thread 1 takes the first pointer.
abbrev published : System
published = go 0 (go 0 (go 1 (go 1 both)))

abbrev ended : System
ended = go 1 (go 1 (go 1 (go 1 (begin 1 (deq_at 0) published))))

published-reached : Reach size (fresh size garbage) published
published-reached =
    later (later (later (later both-reached (access 1 false)) (access 1 false)) (access 0 false))
      (access 0 false)

published_over : (is_over (published.stage 1) ≡ true) × (published.ring.tail ≡ 0)
unfolding execute advance init init_cell
published_over = (refl, refl)

ended-reached : Reach size (fresh size garbage) ended
ended-reached =
    later (later (later (later taking_begun (access 1 false)) (access 1 false)) (access 1 false))
      (access 1 false)
  where
    taking_begun : Reach size (fresh size garbage) (begin 1 (deq_at 0) published)
    taking_begun =
        subst (λ n. Reach size (fresh size garbage) (begin 1 (deq_at n) published)) published_over.1
          (later published-reached (dequeue 1 published_over.0))

ended-stage : (ended.stage 1 ≡ delivered 0 77) × (ended.wins ≡ 2)
unfolding execute advance init init_cell
ended-stage = (refl, refl)

delivered-given_example :
    (77 ≡ ended.given 0) × (0 < ended.ring.tail) × (ended.ring.tail ≤ ended.ring.head)
delivered-given_example =
    delivered-given size is_capacity garbage ended ended-reached (omega (arith, ended-stage.1)) 1 0
      77 ended-stage.0
