-- ===== src/Call/Send.antt =====
-- src/libsrpc.c: the whole of `libsrpc_send_request`, from its first tests to the end of its wait.
use simplerpc.Common.{ℕ, ◌-◌, Bool, Option, none, some}
use simplerpc.Request.{Request}
use simplerpc.Registry.{Function}
use simplerpc.Dispatch.{Target, Policy, Round, dispatch, refusal, choose_timeout}
use simplerpc.Waiting.{Timeouts, Wait, finished, timed_out, waits, await}

-- What the call reads: whether shared memory is there, whether the thread is an executor, whether calls
-- are enabled, the number of functions, the policy, `req_send_rr`, the processes, the registry by the
-- index of a function and the timeouts; and what the semaphore says in a wait of so many microseconds,
-- by the number of the turn, for at most `turns` turns.
pub record Sender : Type 0 where
  pub shm : Bool
  pub recursive : Bool
  pub enabled : Bool
  pub fnnum : ℕ
  pub policy : Policy
  pub counter : ℕ
  pub look : ℕ → Target
  pub registry : ℕ → Function
  pub timeouts : Timeouts
  pub turns : ℕ
  pub wake : (timeout i : ℕ) → Option ℕ

-- What it leaves: errno, the request and the timeouts.
pub record Sent : Type 0 where
  pub errno : ℕ
  pub req : Request
  pub timeouts : Timeouts

abbrev pub after_wait : (errno : ℕ) → Timeouts → Wait → Option Sent
after_wait errno t (finished r) = some (record { errno = errno; req = r; timeouts = t })
after_wait errno t (timed_out r) = some (record { errno = errno; req = r; timeouts = t })
after_wait errno t waits = none

-- From the check of the number sent on; `seen` is the request at each turn of the wait.
abbrev pub after_dispatch :
    (header : ℕ)
    → Sender
    → (seen : Round → ℕ → Request) → (errno fidx : ℕ) → Option ℕ × Round
    → Option Sent
after_dispatch header s seen errno fidx (some e, round) =
    some (record { errno = e; req = round.req; timeouts = s.timeouts })
after_dispatch header s seen errno fidx (none, round) =
    let (timeout, left) =
      choose_timeout s.timeouts.global s.timeouts.oneshot (s.timeouts.func fidx) in
    after_wait errno (record s.timeouts { oneshot = left })
      (await header round.req.retnum s.turns 0 (s.wake timeout) (seen round))

-- `libsrpc_send_request`, none while it waits.
unfoldable pub send_request :
    (header : ℕ) → Sender → (seen : Round → ℕ → Request) → (errno : ℕ) → Request → Option Sent
send_request header s seen errno req =
    elim (refusal s.shm s.recursive s.enabled s.fnnum (some req)) [
      | some e ↦ some (record { errno = e; req = req; timeouts = s.timeouts })
      | none ↦
          after_dispatch header s seen errno (req.funid - 17)
            (dispatch s.policy header s.counter s.look (s.registry (req.funid - 17)) req)
    ]
