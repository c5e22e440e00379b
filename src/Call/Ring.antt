-- ===== src/Call/Ring.antt =====
-- src/libsrpc.c: a request that is sent to one process, and what the receiver takes from its ring.
use simplerpc.Common.{
  ℕ, ◌*◌, ◌<◌, ◌≡◌, ◌≢◌, refl, ap, true, false, none, some, [], ◌∷◌, ltb, pos, arith, update,
}
use simplerpc.Request.{Request, Response, is_corrupted, get_response_fast, response_offset}
use simplerpc.Queue.{Queue, ok, try_enqueue}
use simplerpc.Queue.Inv.{IsCapacity, Holds}
use simplerpc.Queue.Spec.{push, pop}
use simplerpc.Queue.Refine.{try_enqueue_refines, try_dequeue_refines}
use simplerpc.Dispatch.{send_request_one, address, try_all}
use simplerpc.Call.{Peer, target, taken, is_ok}

-- The first response lies within a request that is not corrupted.
pub first_place :
    (header : ℕ) (r : Request)
    → is_corrupted header (some r) none ≡ false
    → get_response_fast header (some r) 0 ≡ some (response_offset r 0)
unfolding is_corrupted get_response_fast
first_place header r fine = ground arith

-- The request as the sender has put it into the ring of the process.
abbrev pub sent : Peer → Request → Request
sent w r =
    let off = response_offset r 0 in
    record r {
      responses =
          update r.responses off
            (record (r.responses off) { rc = 0; uid = w.uid; hp_proc = w.proc });
    }

pub sent-fine :
    (header : ℕ) (w : Peer) (r : Request)
    → is_corrupted header (some r) none ≡ false
    → is_corrupted header (some (sent w r)) none ≡ false
unfolding is_corrupted
sent-fine header w r fine = fine

module _ (header size fuel ptr : ℕ) (w : Peer) (c : IsCapacity size) (start k_in k_out : ℕ)
    (empty_ring : Holds size start [] w.ring) (in_few : k_in < fuel)
    (in_fine : w.spurious_in 0 k_in ≡ false) (out_few : k_out < fuel)
    (out_fine : w.spurious_out k_out ≡ false) where
  pushed : push size ptr [] ≡ (ok, ptr ∷ [])
  unfolding push
  pushed = let room : ltb 0 size ≡ true = ground (arith, c.two_le) in rw room refl

  through_at :
      (q : Queue)
      → try_enqueue fuel (w.spurious_in 0) ptr w.ring ≡ some (ok, q)
      → Holds size start (ptr ∷ []) q
      → (is_ok (try_enqueue fuel (w.spurious_in 0) ptr w.ring) ≡ true)
        × (taken size fuel w ptr ≡ some ptr)
  unfolding taken pop
  through_at q e h =
      let (q', start', e', h') =
        try_dequeue_refines fuel k_out w.spurious_out c out_few out_fine (ptr ∷ []) h in
      (rw e refl, rw (e, taken) (rw e' refl))

  -- An empty ring takes the pointer and gives it to the receiver.
  pub through_ring :
      (is_ok (try_enqueue fuel (w.spurious_in 0) ptr w.ring) ≡ true)
      × (taken size fuel w ptr ≡ some ptr)
  through_ring =
      let (q, e, h) =
        try_enqueue_refines fuel k_in (w.spurious_in 0) c in_few in_fine ptr [] empty_ring in
      through_at q (rw pushed at e) (rw pushed at h)

  sends : try_all (16 * 32) 0 (target fuel w ptr).accepts ≡ true
  unfolding try_all
  sends = rw (through_ring.0, try_all) refl

  address-sent :
      (p : Response)
      → w.threads_run ≢ 0
      → address w.proc (target fuel w ptr) p
        ≡ (pos 0, record p { rc = 0; uid = w.uid; hp_proc = w.proc })
  unfolding address
  address-sent p runs = ground (arith, sends)

  pub send-sent :
      (r : Request)
      → is_corrupted header (some r) none ≡ false
      → w.threads_run ≢ 0
      → ((send_request_one header w.proc (target fuel w ptr) r 0).rc ≡ pos 0)
        × ((send_request_one header w.proc (target fuel w ptr) r 0).req ≡ sent w r)
  unfolding send_request_one
  send-sent r fine runs =
      let off = response_offset r 0 in
      rw (first_place header r fine, send_request_one)
        (
          ap (λ x. x.0) (address-sent (r.responses off) runs),
          rw (address-sent (r.responses off) runs) refl,
        )
