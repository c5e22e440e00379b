-- ===== src/Sockets/Init.antt =====
-- src/libsrpc_unix_socket.c: the start and the end of the client. The thread that starts it waits
-- until the client's thread tells it how it went.
use simplerpc.Common.{
  ℕ, ◌≡◌, ◌≢◌, Bool, true, false, not, ◌&&◌, Option, none, some, List, ◌==◌, if◌then◌else◌, ℤ, pos,
  negsuc, neg, negative, arith,
}
use simplerpc.Threads.{
  System, ThreadFlag, thread_flag_default, flag_detached, pthread_start, refused, Start,
}
use simplerpc.Threads.Started.{pthread_start-negative, pthread_start-Outcome}
use simplerpc.Sockets.Client.{Answers, Wake, Outcome, ended, waiting, fault, unix_client}
use simplerpc.Sockets.Told.{Told, has_connection, is_mapped, unix_client-Told}

-- `libsrpc_unix_client_init` returns, it waits for ever, or the other thread uses a NULL pointer after its
-- post, so that the call returns unless the process has ended before.
pub data Init : Type 0 where
  returns races : ℤ → Init
  waits : Init

-- `sem_wait`, which returns -1 when a signal interrupts it before a post, waits for ever when nobody posts,
-- and returns 0 otherwise.
unfoldable pub wait_status : (interrupted : Bool) → (posts : ℕ) → Option ℤ
wait_status interrupted posts =
    if interrupted then some (neg 1) else if posts == 0 then none else some (pos 0)

abbrev pub as_returns : Option ℤ → Init
as_returns none = waits
as_returns (some rc) = returns rc

abbrev pub as_races : Option ℤ → Init
as_races none = waits
as_races (some rc) = races rc

-- The wait for `sem_status`, for what the other thread does.
unfoldable pub await_status : (interrupted : Bool) → Outcome → Init
unfolding wait_status
await_status interrupted (ended d) = as_returns (wait_status interrupted d.posts)
await_status interrupted (waiting d) = as_returns (wait_status interrupted d.posts)
await_status interrupted (fault d) = as_races (wait_status interrupted d.posts)

-- The flags for the client's thread.
abbrev pub client_flags : (name : List ℕ) → ThreadFlag
client_flags name = record thread_flag_default { flags = flag_detached; name = some name }

abbrev pub is_zero : ℤ → Bool
is_zero (pos n) = n == 0
is_zero (negsuc n) = false

abbrev pub has_thread : Start → Bool
has_thread s = elim s.thread [ none ↦ false | some t ↦ true ]

-- `libsrpc_unix_client_init`; a thread that was not started posts nothing.
unfoldable pub client_init :
    (sem_init : ℤ) (interrupted : Bool)
    → System
    → (func cli : ℕ) (name : List ℕ) → Answers
    → List Wake
    → Init
unfolding await_status
client_init sem_init interrupted y func cli name a ws =
    let (rc, s) = pthread_start y func cli (client_flags name) in
    if negative sem_init
    then returns sem_init
    else if negative rc
    then returns rc
    else if has_thread s
    then await_status interrupted (unix_client a ws)
    else as_returns (wait_status interrupted 0)

-- `libsrpc_unix_client_exit`: what `write` to the alarm returns, and its errno.
unfoldable pub client_exit : (written : ℤ) (errno : ℕ) → ℤ
client_exit written errno = if negative written then neg errno else pos 0

client_flags-fine : (func : ℕ) (name : List ℕ) → func ≢ 0 → refused func (client_flags name) ≡ false
unfolding refused
client_flags-fine func name h = ground arith

await_status-Told :
    (interrupted : Bool) (a : Answers) (o : Outcome)
    → Told a o
    → await_status interrupted o ≡ (
        if not (has_connection a)
        then (if interrupted then returns (neg 1) else waits)
        else if is_mapped a
        then returns (if interrupted then neg 1 else pos 0)
        else races (if interrupted then neg 1 else pos 0))
unfolding await_status wait_status
await_status-Told interrupted a (ended d) h = ground arith
await_status-Told interrupted a (waiting d) h = ground arith
await_status-Told interrupted a (fault d) h = ground arith

module _ (sem_init : ℤ) (interrupted : Bool) (y : System) (func cli : ℕ) (name : List ℕ)
    (a : Answers) (ws : List Wake) (fine : negative sem_init ≡ false) (has_func : func ≢ 0)
    (attr : y.attr_init ≡ 0) where
  thread_started :
      has_thread (pthread_start y func cli (client_flags name)).1
      ≡ is_zero (pthread_start y func cli (client_flags name)).0
  thread_started = ground (arith, pthread_start-Outcome y (client_flags name) func cli)

  not_negative : negative (pthread_start y func cli (client_flags name)).0 ≡ false
  not_negative = ground (
    arith,
    pthread_start-negative y (client_flags name) func cli,
    client_flags-fine func name has_func,
  )

  -- libsrpc_unix_client_init, with its semaphore made and the first call of pthread_start
  -- successful: when the thread does not start, or gets no connection and descriptor, the call
  -- waits for ever unless a signal interrupts it, and then returns -1; when the client finds
  -- its process in the memory, the call returns, 0 or -1 after a signal; otherwise it returns
  -- the same only if it does so before the other thread has used a NULL pointer.
  pub client_init-waits : client_init sem_init interrupted y func cli name a ws ≡ (
      if is_zero (pthread_start y func cli (client_flags name)).0 && has_connection a
      then (if is_mapped a
          then returns (if interrupted then neg 1 else pos 0)
          else races (if interrupted then neg 1 else pos 0))
      else if interrupted
      then returns (neg 1)
      else waits)
  unfolding client_init wait_status
  client_init-waits =
      rw (fine, not_negative, thread_started)
        (ground (arith, await_status-Told interrupted a (unix_client a ws) (unix_client-Told a ws)))
