-- ===== src/Breaker/Tests.antt =====
-- Concrete runs of the breaker of src/infra/circuitBreaker.cpp.
use hc_tcp_im_server.Common.{◌+◌, ◌≡◌, true, not, ◌&&◌, List, [], ◌∷◌, arith, ltb, leb, false}
use hc_tcp_im_server.Breaker.{new, allow_request}
use hc_tcp_im_server.Breaker.Behaviour.{
  Call, ask, succeed, fail, run, streak, is_closed, is_probed, last_failure, run_refuses,
}

abbrev two_failures : List Call
two_failures = succeed ∷ fail 100 ∷ ask 150 ∷ fail 200 ∷ []

run_refuses_example :
    let b = run (new true 2 5000) two_failures in
    (((allow_request b 900).0
        ≡ not (
            leb 2 (streak 0 two_failures)
            && (not (is_probed 5000 0 false two_failures)
                && ltb 900 (last_failure 0 two_failures + 5000))))
      × (is_closed b ≡ ltb (streak 0 two_failures) 2))
run_refuses_example = run_refuses 2 5000 900 two_failures (omega arith) (omega arith)
