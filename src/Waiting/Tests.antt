-- ===== src/Waiting/Tests.antt =====
-- A request with one response that is ready at the second turn.
use simplerpc.Common.{ℕ, ◌*◌, ◌≡◌, ◌≢◌, ◌⊎◌, refl, none, some, arith}
use simplerpc.Request.{Request, get_response_fast, rc_st, st_lock}
use simplerpc.Waiting.{await, finished, count_answers}
use simplerpc.Waiting.Ended.{await-finished}

abbrev request : ℕ → Request
request i = record {
  sign = 1947962583;
  seq_num = 5;
  gc_lock = λ k. 0;
  funid = 17;
  bufsz = 200;
  retoff = 16;
  retsz = 32;
  retnum = 1;
  responses = λ off. record { hp_proc = 7; rc = i * 2147483648; uid = 5; buf = λ j. 0 };
}

ends : await 120 1 2 0 (λ i. none) request ≡ finished (request 1)
unfolding await count_answers get_response_fast rc_st
ends = refl

await-finished_example :
    (off : ℕ) × (get_response_fast 120 (some (request 1)) 0 ≡ some off)
    × ((((request 1).responses off).hp_proc ≡ 0)
        ⊎ ((((request 1).responses off).rc ≢ 0) × (rc_st ((request 1).responses off).rc ≢ st_lock)))
await-finished_example =
    await-finished 120 1 2 0 (λ i. none) request (request 1) 0 ends (omega arith)
