-- ===== src/Resilience/Breaker/Laws.antt =====
-- How the circuit breaker of crates/turbovault-core/src/resilience.rs moves between its states.
use turbovault.Common.{ℕ, ◌<◌, ◌≡◌, Bool, true, false, List, [], ◌∷◌, arith}
use turbovault.Resilience.Breaker.{
  CircuitState, closed, opened, half_open, CircuitBreaker, u32_mod, new, is_request_allowed,
  record_success, record_failure,
}

pub data Event : Type 0 where
  request success failure : Event

-- One method call at a time `now`.
unfoldable pub step : CircuitBreaker → Event × ℕ → CircuitBreaker
step b (request, now) = (is_request_allowed b now).1
step b (success, now) = record_success b now
step b (failure, now) = record_failure b now

unfoldable pub run : CircuitBreaker → List (Event × ℕ) → CircuitBreaker
run b [] = b
run b (e ∷ es) = run (step b e) es

-- The moves of the state machine: staying, and the four changes of state.
abbrev pub moves : CircuitState → Event → CircuitState → Bool
moves closed e closed = true
moves opened e opened = true
moves half_open e half_open = true
moves closed failure opened = true
moves half_open failure opened = true
moves opened request half_open = true
moves half_open success closed = true
moves _ _ _ = false

-- Every call moves the breaker along an edge of the state machine: it opens on a failure only,
-- leaves `Open` only for `HalfOpen` and on a request only, and closes only from `HalfOpen` and on
-- a success.
pub step-moves :
    (b : CircuitBreaker) (e : Event) (now : ℕ) → moves b.state e (step b (e, now)).state ≡ true
unfolding step is_request_allowed record_success record_failure
step-moves b request now = ground arith
step-moves b success now = ground arith
step-moves b failure now = ground arith

-- The invariant of a breaker whose thresholds are positive 32-bit numbers: outside `Open` the
-- failures counted are below the threshold, and in `HalfOpen` so are the successes.
pub record IsSound (b : CircuitBreaker) : Type 0 where
  pub failures_pos : 0 < b.failure_threshold
  pub successes_pos : 0 < b.success_threshold
  pub failures_fit : b.failure_threshold < u32_mod
  pub successes_fit : b.success_threshold < u32_mod
  pub closed_below : b.state ≡ closed → b.failure_count < b.failure_threshold
  pub half_below : b.state ≡ half_open → b.failure_count < b.failure_threshold
  pub half_recovering : b.state ≡ half_open → b.success_count < b.success_threshold

new-IsSound :
    (failures successes timeout now : ℕ)
    → 0 < failures
    → 0 < successes
    → failures < u32_mod
    → successes < u32_mod
    → IsSound (new failures successes timeout now)
unfolding new
new-IsSound failures successes timeout now p q r s = ground arith

request-IsSound : (b : CircuitBreaker) (now : ℕ) → IsSound b → IsSound (is_request_allowed b now).1
unfolding is_request_allowed
request-IsSound b now h = ground arith

success-IsSound : (b : CircuitBreaker) (now : ℕ) → IsSound b → IsSound (record_success b now)
unfolding record_success
success-IsSound b now h = ground arith

failure-IsSound : (b : CircuitBreaker) (now : ℕ) → IsSound b → IsSound (record_failure b now)
unfolding record_failure
failure-IsSound b now h = ground arith

step-IsSound : (b : CircuitBreaker) (e : Event × ℕ) → IsSound b → IsSound (step b e)
unfolding step
step-IsSound b (request, now) h = request-IsSound b now h
step-IsSound b (success, now) h = success-IsSound b now h
step-IsSound b (failure, now) h = failure-IsSound b now h

run-IsSound : (b : CircuitBreaker) (es : List (Event × ℕ)) → IsSound b → IsSound (run b es)
unfolding run
run-IsSound b [] h = h
run-IsSound b (e ∷ es) h = run-IsSound (step b e) es (step-IsSound b e h)

-- From a new breaker with positive 32-bit thresholds, whatever is called and whenever: while the
-- breaker is closed or half-open the counted failures are below their threshold, and while it is
-- half-open the counted successes are below theirs, so neither counter wraps before it acts.
pub run-new-IsSound :
    (failures successes timeout now : ℕ) (es : List (Event × ℕ))
    → 0 < failures
    → 0 < successes
    → failures < u32_mod
    → successes < u32_mod
    → IsSound (run (new failures successes timeout now) es)
run-new-IsSound failures successes timeout now es p q r s =
    run-IsSound (new failures successes timeout now) es
      (new-IsSound failures successes timeout now p q r s)
