-- ===== src/Breaker/Behaviour.antt =====
-- What the breaker of src/infra/circuitBreaker.cpp does over sequences of calls.
use hc_tcp_im_server.Common.{
  ℕ, suc, ◌+◌, ◌≤◌, ◌<◌, ◌≡◌, refl, ap, ◌∙◌, Bool, true, false, not, ◌&&◌, ◌||◌, leb, List, [], ◌∷◌,
  arith, length, u32, ltb,
}
use hc_tcp_im_server.Breaker.{
  CircuitBreaker, new, closed, allow_request, record_success, record_failure, is_open,
}

-- A call that the message path makes, with the clock's reading.
pub data Call : Type 0 where
  ask : ℕ → Call
  succeed : Call
  fail : ℕ → Call

abbrev pub call : CircuitBreaker → Call → CircuitBreaker
call b (ask now) = (allow_request b now).1
call b succeed = record_success b
call b (fail now) = record_failure b now

pub run : CircuitBreaker → List Call → CircuitBreaker
run b [] = b
run b (c ∷ cs) = run (call b c) cs

abbrev pub is_closed : CircuitBreaker → Bool
is_closed b = elim b.state [ closed ↦ true | _ ↦ false ]

-- The state is closed exactly while there are fewer failures than the threshold.
pub record IsConsistent (t w n : ℕ) (b : CircuitBreaker) : Type 0 where
  pub enabled : b.enabled ≡ true
  pub threshold : b.failure_threshold ≡ t
  pub wait : b.half_open_after_ms ≡ w
  pub counted : b.consecutive_failures ≤ n
  pub closed_iff : is_closed b ≡ ltb b.consecutive_failures t

new-IsConsistent : (t w : ℕ) → 0 < t → IsConsistent t w 0 (new true t w)
unfolding new
new-IsConsistent t w p = record {
  enabled = refl;
  threshold = refl;
  wait = refl;
  counted = omega arith;
  closed_iff = ground arith;
}

call-IsConsistent :
    {t w n : ℕ} {b : CircuitBreaker} (c : Call)
    → 0 < t
    → suc n < u32
    → IsConsistent t w n b
    → IsConsistent t w (suc n) (call b c)
unfolding allow_request record_success record_failure
call-IsConsistent {t} {w} {n} {b} (ask now) p f v = record {
  enabled = ground (arith, v.enabled);
  threshold = ground (arith, v.threshold);
  wait = ground (arith, v.wait);
  counted = ground (arith, v.counted);
  closed_iff = ground (arith, v.closed_iff);
}
call-IsConsistent {t} {w} {n} {b} succeed p f v = record {
  enabled = v.enabled;
  threshold = v.threshold;
  wait = v.wait;
  counted = omega arith;
  closed_iff = ground arith;
}
call-IsConsistent {t} {w} {n} {b} (fail now) p f v = record {
  enabled = ground (arith, v.enabled);
  threshold = ground (arith, v.threshold);
  wait = ground (arith, v.wait);
  counted = ground (arith, v.enabled, v.counted);
  closed_iff = ground (arith, v.enabled, v.threshold, v.counted, v.closed_iff);
}

-- The failures since the last success.
abbrev pub streak : ℕ → List Call → ℕ
streak k [] = k
streak k (ask now ∷ cs) = streak k cs
streak k (succeed ∷ cs) = streak 0 cs
streak k (fail now ∷ cs) = streak (suc k) cs

call_failures :
    {n : ℕ} (b : CircuitBreaker) (c : Call)
    → suc n < u32
    → b.enabled ≡ true
    → b.consecutive_failures ≤ n
    → (cs : List Call)
    → streak (call b c).consecutive_failures cs ≡ streak b.consecutive_failures (c ∷ cs)
unfolding allow_request record_success record_failure
call_failures {n} b (ask now) f e le cs = ap (λ (k : ℕ). streak k cs) (ground (arith, e))
call_failures b succeed f e le cs = refl
call_failures {n} b (fail now) f e le cs = ap (λ (k : ℕ). streak k cs) (ground (arith, e))

run_lem :
    {t w n : ℕ} (cs : List Call) {b : CircuitBreaker}
    → 0 < t
    → n + length cs < u32
    → IsConsistent t w n b
    → (((m : ℕ) × IsConsistent t w m (run b cs))
        × ((run b cs).consecutive_failures ≡ streak b.consecutive_failures cs))
unfolding run
run_lem {n = n} [] p f v = ((n, v), refl)
run_lem {n = n} (c ∷ cs) {b} p f v =
    let (seen, e) =
      run_lem {n = suc n} cs p (omega arith) (call-IsConsistent c p (omega arith) v) in
    (seen, e ∙ call_failures {n = n} b c (omega arith) v.enabled v.counted cs)

-- The time of the last failure, before which there was one at `last`.
abbrev pub last_failure : ℕ → List Call → ℕ
last_failure last [] = last
last_failure last (ask now ∷ cs) = last_failure last cs
last_failure last (succeed ∷ cs) = last_failure last cs
last_failure last (fail now ∷ cs) = last_failure now cs

-- Whether a request was asked for when the wait since the last failure had passed. `before` says so of
-- the calls before these.
abbrev pub is_probed : ℕ → ℕ → Bool → List Call → Bool
is_probed w last before [] = before
is_probed w last before (ask now ∷ cs) = is_probed w last (before || leb (last + w) now) cs
is_probed w last before (succeed ∷ cs) = is_probed w last before cs
is_probed w last before (fail now ∷ cs) = is_probed w now false cs

-- The state is open after as many failures as the threshold, until a request is let through to probe;
-- and it was opened by the last failure.
record IsHistory (t w last : ℕ) (probed : Bool) (b : CircuitBreaker) : Type 0 where
  open_iff : is_open b ≡ (leb t b.consecutive_failures && not probed)
  opened_at : is_open b ≡ true → b.opened_at_ms ≡ last

ask-IsHistory :
    {t w n last : ℕ} {p : Bool} {b : CircuitBreaker} (now : ℕ)
    → IsConsistent t w n b
    → IsHistory t w last p b
    → IsHistory t w last (p || leb (last + w) now) (allow_request b now).1
unfolding allow_request is_open
ask-IsHistory now v i = record {
  open_iff = ground (arith, v.enabled, v.wait, v.closed_iff, i.open_iff, i.opened_at);
  opened_at = ground (arith, v.enabled, v.wait, v.closed_iff, i.open_iff, i.opened_at);
}

succeed-IsHistory :
    {t w last : ℕ} {p : Bool} (b : CircuitBreaker) → 0 < t → IsHistory t w last p (record_success b)
unfolding record_success is_open
succeed-IsHistory b f = record { open_iff = ground arith; opened_at = ground arith }

fail-IsHistory :
    {t w n last : ℕ} {p : Bool} {b : CircuitBreaker} (now : ℕ)
    → suc n < u32
    → IsConsistent t w n b
    → IsHistory t w last p b
    → IsHistory t w now false (record_failure b now)
unfolding record_failure is_open
fail-IsHistory now f v i = record {
  open_iff = ground (arith, v.enabled, v.threshold, v.counted, v.closed_iff, i.open_iff);
  opened_at = ground (arith, v.enabled, v.threshold, v.counted, v.closed_iff, i.open_iff);
}

new-IsHistory : (t w : ℕ) → 0 < t → IsHistory t w 0 false (new true t w)
unfolding new is_open
new-IsHistory t w f = record { open_iff = ground arith; opened_at = ground arith }

run-IsHistory :
    {t w n last : ℕ} {p : Bool} (cs : List Call) {b : CircuitBreaker}
    → 0 < t
    → n + length cs < u32
    → IsConsistent t w n b
    → IsHistory t w last p b
    → IsHistory t w (last_failure last cs) (is_probed w last p cs) (run b cs)
unfolding run
run-IsHistory [] p f v i = i
run-IsHistory {n = n} (ask now ∷ cs) p f v i =
    run-IsHistory {n = suc n} cs p (omega arith) (call-IsConsistent (ask now) p (omega arith) v)
      (ask-IsHistory now v i)
run-IsHistory {n = n} (succeed ∷ cs) p f v i =
    run-IsHistory {n = suc n} cs p (omega arith) (call-IsConsistent succeed p (omega arith) v)
      (succeed-IsHistory _ p)
run-IsHistory {n = n} (fail now ∷ cs) p f v i =
    run-IsHistory {n = suc n} cs p (omega arith) (call-IsConsistent (fail now) p (omega arith) v)
      (fail-IsHistory now (omega arith) v i)

allow_lem :
    {t w last : ℕ} {p : Bool} (b : CircuitBreaker) (now : ℕ)
    → b.enabled ≡ true
    → b.half_open_after_ms ≡ w
    → IsHistory t w last p b
    → (allow_request b now).0 ≡ not (leb t b.consecutive_failures && (not p && ltb now (last + w)))
unfolding allow_request is_open
allow_lem b now e f i = ground (arith, e, f, i.open_iff, i.opened_at)

-- An enabled breaker with a positive threshold, after any fewer than 2^32 calls in any order and at
-- any times: it refuses a request exactly when the failures since the last success are as many as the
-- threshold, and neither this request nor one asked for since the last failure comes when the wait
-- since that failure has passed. It is closed exactly while these failures are fewer than the
-- threshold.
pub run_refuses :
    (t w now : ℕ) (cs : List Call)
    → 0 < t
    → length cs < u32
    → let b = run (new true t w) cs in
      (((allow_request b now).0
          ≡ not (
              leb t (streak 0 cs)
              && (not (is_probed w 0 false cs) && ltb now (last_failure 0 cs + w))))
        × (is_closed b ≡ ltb (streak 0 cs) t))
unfolding new
run_refuses t w now cs p f =
    let b = new true t w in
    let ((m, v), e) = run_lem {n = 0} cs p (omega arith) (new-IsConsistent t w p) in
    let i =
      run-IsHistory {n = 0} cs p (omega arith) (new-IsConsistent t w p) (new-IsHistory t w p) in
    (
      rw (← e) (allow_lem (run b cs) now v.enabled v.wait i),
      v.closed_iff ∙ ap (λ (k : ℕ). ltb k t) e,
    )
