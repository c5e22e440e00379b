-- ===== src/Dispatch/Tests.antt =====
-- A function that processes 1 to 8 serve, of which the odd ones run threads, and the theorems at it.
use simplerpc.Common.{
  ℕ, ◌+◌, ◌%◌, ◌≤◌, ◌≡◌, refl, ◌≢◌, true, none, some, arith, ◌⊎◌, [], length, e_notavailable,
}
use simplerpc.Registry.{Function}
use simplerpc.Request.{Request, needed}
use simplerpc.Dispatch.{Target, send_all, wanted, dispatch}
use simplerpc.Dispatch.Sent.{gather}
use simplerpc.Dispatch.Everyone.{registered_for}
use simplerpc.Dispatch.ToAll.{dispatch-gather}

abbrev eight : Function
eight = record { num_all = 8; ext_block = none; main_block = λ i. i + 1; retired = [] }

abbrev look : ℕ → Target
look p = record {
  proc_uid = p;
  valid = true;
  valid_late = true;
  threads_run = p % 2;
  threads_wait = 0;
  accepts = λ i. true;
}

abbrev request : Request
request = record {
  sign = 1947962583;
  seq_num = 5;
  gc_lock = λ i. 0;
  funid = 17;
  bufsz = 400;
  retoff = 16;
  retsz = 32;
  retnum = 8;
  responses = λ i. record { hp_proc = 0; rc = 0; uid = 0; buf = λ j. 0 };
}

fits : needed 120 request ≤ 400
unfolding needed
fits = omega arith

dispatch-gather_example :
    ((dispatch send_all 120 0 look eight request).1.sent ≡ gather look 8 (registered_for eight))
    × (((dispatch send_all 120 0 look eight request).0 ≡ some e_notavailable)
          × (gather look 8 (registered_for eight) ≡ [])
        ⊎ ((dispatch send_all 120 0 look eight request).0 ≡ none)
          × ((dispatch send_all 120 0 look eight request).1.req.retnum
              ≡ length (gather look 8 (registered_for eight)))
          × (gather look 8 (registered_for eight) ≢ []))
unfolding wanted
dispatch-gather_example = dispatch-gather send_all 120 0 look eight request refl fits
