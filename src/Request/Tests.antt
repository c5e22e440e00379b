-- ===== src/Request/Tests.antt =====
-- A request with two responses of 32 bytes behind 16 bytes of arguments, and the theorems at it.
use simplerpc.Common.{
  ℕ, zero, suc, ◌+◌, ◌*◌, ◌<◌, ◌≡◌, refl, ◌≢◌, sym, true, false, none, some, word32, pos, neg,
  int32, arith, e_busy,
}
use simplerpc.Request.{
  st_ready, rc_word, rc_st, Response, Request, is_corrupted, get_response_fast, copy_bytes,
  response_set, response_get,
}
use simplerpc.Request.Bounds.{Fits}
use simplerpc.Request.Answers.{Waits, set_to, response_set-get}
use simplerpc.Request.Race.{answered, System, fresh, execute, executor, Reach, start, later}
use simplerpc.Request.Race.States.{Begins, quiet}
use simplerpc.Request.Race.Whole.{ready-whole, ready-stays}

abbrev empty_response : Response
empty_response = record { hp_proc = 7; rc = 0; uid = 3; buf = λ i. 0 }

abbrev request : Request
request = record {
  sign = 1947962583;
  seq_num = 5;
  gc_lock = λ i. 0;
  funid = 1;
  bufsz = 200;
  retoff = 16;
  retsz = 32;
  retnum = 2;
  responses = λ i. empty_response;
}

request-Fits : Fits request
request-Fits = record {
  bufsz_fits = omega arith;
  retoff_fits = omega arith;
  retsz_fits = omega arith;
  retnum_fits = omega arith;
}

second : get_response_fast 120 (some request) 1 ≡ some 48
unfolding get_response_fast
second = refl

first : get_response_fast 120 (some request) 0 ≡ some 16
unfolding get_response_fast
first = refl

fine : is_corrupted 120 (some request) none ≡ false
unfolding is_corrupted
fine = refl

fine_ctrl : is_corrupted 120 (some request) (some (1947962583 + 5 * word32)) ≡ false
unfolding is_corrupted
fine_ctrl = refl

-- Empty at the first load, being written at the second, ready at the third.
abbrev loads : ℕ → ℕ
loads zero = 0
loads (suc zero) = 1073741824
loads (suc (suc i)) = 2147483648

states :
    (rc_st 0 ≡ 0)
    × (rc_st 1073741824 ≡ 1)
    × (rc_st 2147483648 ≡ 2)
    × (rc_word (pos 0) st_ready ≡ 2147483648)
unfolding rc_st rc_word
states = (refl, refl, refl, refl)

loads-Waits : (j : ℕ) → j < 2 → Waits (loads j)
loads-Waits zero lt = (λ e. omega (arith, e, states), λ e. omega (arith, e, states))
loads-Waits (suc zero) lt = (λ e. omega (arith, e, states), λ e. omega (arith, e, states))
loads-Waits (suc (suc j)) lt = absurd (omega arith)

abbrev bytes : ℕ → ℕ
bytes i = i + 40

response_set-get_example :
    (response_set 120 (some request) empty_response (some (1947962583 + 5 * word32)) (some bytes) 4
      ≡ (int32 (rc_word (pos 0) st_ready), set_to (some bytes) 4 empty_response))
    × (response_get (some (loads, (set_to (some bytes) 4 empty_response).buf)) true 4 0 (λ i. 0)
        ≡ record { rc = pos 0; errno = 0; out = copy_bytes (some bytes) 4 (λ i. 0) })
    × (response_set 120
          (some request)
          (set_to (some bytes) 4 empty_response)
          (some (1947962583 + 5 * word32))
          none
          0
        ≡ (neg e_busy, set_to (some bytes) 4 empty_response))
response_set-get_example =
    response_set-get 120 (some request) (some (1947962583 + 5 * word32)) empty_response bytes 4
      fine_ctrl refl 2 0 loads (λ i. 0) none 0 (omega arith) loads-Waits (sym states.3)

-- Executors 0 and 1 at one response of 1 byte: 0 takes it, 1 is refused, 0 copies and answers.
abbrev value : ℕ → ℕ → ℕ
value i j = i + 7

abbrev one : ℕ → ℕ
one i = 1

abbrev end : System
end =
    execute value one 0
      (execute value one 0 (execute value one 1 (execute value one 0 (fresh (λ i. 0)))))

race : Reach value one (fresh (λ i. 0)) end
race = later (later (later (later start (executor 0)) (executor 1)) (executor 0)) (executor 0)

end-rc : rc_st end.shared.rc ≡ st_ready
unfolding execute rc_st rc_word
end-rc = refl

ready-whole_example :
    (i : ℕ) × (end.stage i ≡ answered)
    × Begins end.shared.buf (value i) (one i)
    × ((j : ℕ) → j ≢ i → quiet (end.stage j) ≡ true)
ready-whole_example = ready-whole race end-rc

ready-stays_example : (execute value one 1 end).shared ≡ end.shared
ready-stays_example = ready-stays race end-rc (later start (executor 1))
