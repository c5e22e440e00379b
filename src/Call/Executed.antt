-- ===== src/Call/Executed.antt =====
-- src/libsrpc.c: a request that its process takes from the ring and executes.
use simplerpc.Common.{
  ℕ, zero, suc, ◌+◌, ◌≤◌, ◌<◌, ◌≡◌, ◌≢◌, refl, ◌∙◌, ap, if◌then◌else◌, true, false, none, some, pos,
  arith, eq→==,
}
use simplerpc.Request.{
  Request, is_corrupted, get_response_fast, response_offset, response_get, copy_bytes, rc_word,
  st_ready,
}
use simplerpc.Request.Answers.{set_to, ready_word, response_set-get}
use simplerpc.Waiting.{is_answered, count_answers}
use simplerpc.Executor.{Served, Function, is_own, own_slot, request_processing}
use simplerpc.Executor.Slot.{own_slot_first}
use simplerpc.Executor.Answered.{answered, processing_at}
use simplerpc.Call.{Peer, zero_bytes, taken, executed_by, view}
use simplerpc.Call.Ring.{first_place, sent, sent-fine}

-- Of a request sent to the process and executed there: before, it has no answer, and then it has one,
-- which the caller reads.
pub record IsExecuted (header size fuel ptr : ℕ) (w : Peer) (rlen : ℕ) (v : ℕ → ℕ) (r : Request)
    : Type 0 where
  pub done : Request
  pub by_process : executed_by header size fuel ptr w (sent w r) ≡ done
  pub before : count_answers header 1 0 (sent w r) < 1
  pub after : 1 ≤ count_answers header 1 0 done
  pub reads :
      response_get (view done (some (response_offset r 0))) true rlen 0 zero_bytes
      ≡ record { rc = pos 0; errno = 0; out = copy_bytes (some v) rlen zero_bytes }

count_answers-one :
    (header : ℕ) (r : Request) (off : ℕ)
    → get_response_fast header (some r) 0 ≡ some off
    → count_answers header 1 0 r ≡ (if is_answered (r.responses off) then 1 else 0)
unfolding count_answers
count_answers-one header r off place = rw place (ground arith)

module _ (header size fuel ptr : ℕ) (w : Peer) (through : taken size fuel w ptr ≡ some ptr)
    (rlen : ℕ) (v : ℕ → ℕ) (r : Request) (fine : is_corrupted header (some r) none ≡ false)
    (has_ptr : ptr ≢ 0) (has_proc : w.proc ≢ 0) (lo : 17 ≤ r.funid) (hi : r.funid < 17 + w.fnnum)
    (at : w.function r.funid
      ≡ some (record { value = λ req. some v; size = rlen; is_wrapper = false })) where
  abbrev off : ℕ
  off = response_offset r 0

  abbrev f : Function
  f = record { value = λ req. some v; size = rlen; is_wrapper = false }

  abbrev sent_served : Served
  sent_served = record { req = sent w r; posts = 0 }

  retnum_pos : (k : ℕ) → r.retnum ≡ k → (n : ℕ) × (r.retnum ≡ suc n)
  unfolding is_corrupted
  retnum_pos zero e = absurd (ground arith)
  retnum_pos (suc n) e = (n, e)

  own : is_own w.proc w.uid ((sent w r).responses off) ≡ true
  own = ground arith

  sent_slot :
      own_slot (get_response_fast header (some (sent w r))) (sent w r) w.proc w.uid ≡ some off
  unfolding response_offset
  sent_slot =
      let (n, num) = retnum_pos r.retnum refl in
      own_slot_first (get_response_fast header (some (sent w r))) (sent w r) w.proc w.uid n off num
        (first_place header (sent w r) (sent-fine header w r fine)) own

  new : ((sent w r).responses off).rc ≡ 0
  new = ground arith

  executed :
      request_processing header w.fnnum w.function ptr w.proc w.uid 0
        (sent w r)
        (sent w r)
        sent_served
      ≡ answered header w.fnnum w.function ptr w.proc w.uid has_ptr has_proc sent_served f off
  executed =
      processing_at header w.fnnum w.function ptr w.proc w.uid has_ptr has_proc sent_served f off 0
        (sent-fine header w r fine) lo hi at refl sent_slot new

  -- The request as the receiver leaves it.
  abbrev done : Request
  done =
      (answered header w.fnnum w.function ptr w.proc w.uid has_ptr has_proc sent_served f
        off).served.req

  executed_by-done : executed_by header size fuel ptr w (sent w r) ≡ done
  unfolding executed_by
  executed_by-done = rw (through, executed, eq→== ptr ptr refl, executed_by) refl

  done_at : done.responses off ≡ set_to (some v) rlen ((sent w r).responses off)
  done_at = rw (eq→== off off refl) refl

  read :
      response_get (view done (some off)) true rlen 0 zero_bytes
      ≡ record { rc = pos 0; errno = 0; out = copy_bytes (some v) rlen zero_bytes }
  read =
      let (is_set, got, again) =
        response_set-get header (some (sent w r)) none ((sent w r).responses off) v rlen
          (sent-fine header w r fine) new 0 0 (λ k. rc_word (pos 0) st_ready) zero_bytes none 0
          (omega arith) (λ j lt. absurd (omega arith)) refl in
      ap (λ p. response_get (some ((λ k. p.rc), p.buf)) true rlen 0 zero_bytes) done_at ∙ got

  -- Before the process has executed the request no answer is there, and afterwards one is.
  no_answer : count_answers header 1 0 (sent w r) < 1
  unfolding response_offset
  no_answer =
      let place = first_place header (sent w r) (sent-fine header w r fine) in
      let open_still : is_answered ((sent w r).responses off) ≡ false = ground arith in
      rw (count_answers-one header (sent w r) off place, open_still) (omega arith)

  done-fine : is_corrupted header (some done) none ≡ false
  unfolding is_corrupted
  done-fine = fine

  done-answered : is_answered (done.responses off) ≡ true
  done-answered = ap is_answered done_at ∙ rw (ready_word.0, ready_word.1) (ground arith)

  one_answer : 1 ≤ count_answers header 1 0 done
  unfolding response_offset
  one_answer =
      rw (count_answers-one header done off (first_place header done done-fine), done-answered)
        (omega arith)

  pub sent-IsExecuted : IsExecuted header size fuel ptr w rlen v r
  sent-IsExecuted = record {
    done = done;
    by_process = executed_by-done;
    before = no_answer;
    after = one_answer;
    reads = read;
  }
