-- ===== src/Tests/Resilience.antt =====
-- The theorems on the circuit breaker and on retries at concrete inputs.
use turbovault.Common.{ℕ, ◌+◌, ◌≡◌, refl, true, false, some, [], ◌∷◌, arith, if◌then◌else◌, eqb}
use turbovault.Resilience.Breaker.{
  CircuitBreaker, closed, opened, new, record_failure, is_request_allowed,
}
use turbovault.Resilience.Breaker.Laws.{
  request, success, failure, step, run, moves, IsSound, step-moves, run-new-IsSound,
}
use turbovault.Resilience.Breaker.Counting.{
  at_times, opens_at_threshold, rejects_until_timeout, recovers,
}
use turbovault.Resilience.Retry.{
  RetryConfig, Outcome, Trace, ok, err, IsFinished, retry_with_backoff, retry_with_backoff_total,
}

-- Three failures open, two successes close, ten ticks of timeout.
abbrev fresh : CircuitBreaker
fresh = record {
  state = closed;
  failure_count = 0;
  success_count = 0;
  failure_threshold = 3;
  success_threshold = 2;
  timeout = 10;
  last_state_change = 0;
}

abbrev tripped : CircuitBreaker
tripped = record fresh { state = opened; failure_count = 3; last_state_change = 7 }

fresh-IsSound : IsSound fresh
fresh-IsSound = omega arith

tripped-IsSound : IsSound tripped
tripped-IsSound = ground arith

trips : run fresh ((failure, 5) ∷ (failure, 6) ∷ (failure, 7) ∷ []) ≡ tripped
unfolding run step record_failure
trips = refl

step-moves_example : moves opened request (step tripped (request, 20)).state ≡ true
step-moves_example = step-moves tripped request 20

run-new-IsSound_example : IsSound (run (new 3 2 10 0) ((failure, 1) ∷ (success, 2) ∷ []))
run-new-IsSound_example =
    run-new-IsSound 3 2 10 0 ((failure, 1) ∷ (success, 2) ∷ []) (omega arith) (omega arith)
      (omega arith) (omega arith)

opens_at_threshold_example : (run fresh (at_times failure (5 ∷ 6 ∷ 7 ∷ []))).state ≡ opened
opens_at_threshold_example = opens_at_threshold fresh (5 ∷ 6 ∷ 7 ∷ []) fresh-IsSound (λ e. cc)

-- Two failures have been counted.
abbrev shaky : CircuitBreaker
shaky = record fresh { failure_count = 2 }

shaky-IsSound : IsSound shaky
shaky-IsSound = omega arith

rejects_until_timeout_example :
    ((run shaky ((failure, 7) ∷ (success, 8) ∷ (request, 9) ∷ (failure, 9) ∷ [])).state ≡ opened)
    × ((is_request_allowed
          (run shaky ((failure, 7) ∷ (success, 8) ∷ (request, 9) ∷ (failure, 9) ∷ []))
          16).0
        ≡ false)
rejects_until_timeout_example =
    rejects_until_timeout shaky 7 ((success, 8) ∷ (request, 9) ∷ (failure, 9) ∷ []) 16 shaky-IsSound
      (λ e. cc) (omega arith) (omega arith)

recovers_example : (run tripped ((request, 17) ∷ at_times success (18 ∷ 19 ∷ []))).state ≡ closed
recovers_example = (recovers tripped 17 (18 ∷ 19 ∷ []) tripped-IsSound refl (omega arith)).4

abbrev config : RetryConfig ℕ
config = record { max_attempts = 3; initial_backoff = 100; next_backoff = λ d. d + d }

-- The second call succeeds.
abbrev flaky : ℕ → Outcome ℕ ℕ
flaky k = if eqb k 2 then ok 7 else err k

retry_with_backoff_total_example :
    (t : Trace ℕ ℕ ℕ) × (retry_with_backoff config flaky ≡ some t) × IsFinished config flaky 0 t
retry_with_backoff_total_example = retry_with_backoff_total config flaky
