-- ===== src/Request/Race.antt =====
-- Several executors and the waiting side at one response: the interleavings of
-- `libsrpc_req_response_set`, of the mark for a timeout in `libsrpc_send_request` and of that for a
-- cancelled request in `libsrpc_thread_rcv_queue_clear`. Each atomic access, and each byte of the
-- memcpy, is a step of its own.
pub mod States
pub mod Whole
use simplerpc.Common.{
  ℕ, zero, suc, ◌+◌, ◌-◌, ◌*◌, ◌/◌, ◌%◌, ◌^◌, ◌≤◌, ◌<◌, ◌≡◌, refl, ◌≢◌, ap, ◌∙◌, sym, subst, Bool,
  true, false, not, ◌||◌, ◌&&◌, Option, none, some, ltb, leb, ◌==◌, if◌then◌else◌, word32, word64,
  ℤ, pos, negsuc, neg, negative, signed, unsigned, int32, arith, e_inval, e_already, e_busy,
  e_badfd, e_timedout, update, inl, inr, Bool-cases, ◌↔◌, ◌⊎◌,
}
use simplerpc.Request.{rc_word, st_lock, st_ready, st_error}
use simplerpc.Request.Word.{IsCode}

-- Where an executor stands in `libsrpc_req_response_set`: before the swap, in the copy with a number
-- of bytes written, after the store, or after a swap that failed.
pub data Stage : Type 0 where
  idle answered refused : Stage
  copying : ℕ → Stage

-- The words of the response that the threads share.
pub record Shared : Type 0 where
  pub rc : ℕ
  pub buf : ℕ → ℕ

abbrev pub lock_word : ℕ
lock_word = rc_word (pos 0) st_lock

abbrev pub ready_word : ℕ
ready_word = rc_word (pos 0) st_ready

-- The next access of an executor that answers with the `sz` bytes `val`.
unfoldable pub advance : (val : ℕ → ℕ) (sz : ℕ) → Stage → Shared → Stage × Shared
advance val sz idle m = if m.rc == 0 then (copying 0, record m { rc = lock_word }) else (refused, m)
advance val sz (copying k) m =
    if ltb k sz
    then (copying (suc k), record m { buf = update m.buf k (val k) })
    else (answered, record m { rc = ready_word })
advance val sz answered m = (answered, m)
advance val sz refused m = (refused, m)

-- The swap that marks a response as failed if it is still empty.
pub mark_error : ℤ → Shared → Shared
unfolding rc_word
mark_error code m = if m.rc == 0 then record m { rc = rc_word code st_error } else m

pub record System : Type 0 where
  pub shared : Shared
  pub stage : ℕ → Stage

-- The response as `libsrpc_send_request_one` leaves it, and no executor at it yet.
abbrev pub fresh : (ℕ → ℕ) → System
fresh buf = record { shared = record { rc = 0; buf = buf }; stage = λ i. idle }

unfoldable pub execute : (val : ℕ → ℕ → ℕ) (sz : ℕ → ℕ) → ℕ → System → System
unfolding advance
execute val sz i s =
    let next = advance (val i) (sz i) (s.stage i) s.shared in
    record { shared = next.1; stage = update s.stage i next.0 }

pub data Step (val : ℕ → ℕ → ℕ) (sz : ℕ → ℕ) (s : System) : System → Type 0 where
  executor : (i : ℕ) → Step val sz s (execute val sz i s)
  mark : (code : ℤ) → IsCode code → Step val sz s (record s { shared = mark_error code s.shared })

pub data Reach (val : ℕ → ℕ → ℕ) (sz : ℕ → ℕ) (s : System) : System → Type 0 where
  start : Reach val sz s s
  later : {t u : System} → Reach val sz s t → Step val sz t u → Reach val sz s u
