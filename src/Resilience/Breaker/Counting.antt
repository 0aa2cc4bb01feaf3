-- ===== src/Resilience/Breaker/Counting.antt =====
-- How many calls the circuit breaker of crates/turbovault-core/src/resilience.rs needs to open and to
-- close again.
use turbovault.Common.{
  ℕ, ◌+◌, ◌-◌, ◌≤◌, ◌<◌, ◌≡◌, ◌≢◌, refl, inl, inr, true, false, List, [], ◌∷◌, arith, leb,
  if◌then◌else◌, length, All, Bool-cases,
}
use turbovault.Resilience.Breaker.{
  CircuitState, closed, opened, half_open, CircuitBreaker, u32_mod, is_request_allowed,
  record_success, record_failure,
}
use turbovault.Resilience.Breaker.Laws.{Event, request, success, failure, step, run, IsSound}

-- One failure, success or request at each of the times.
abbrev pub at_times : Event → List ℕ → List (Event × ℕ)
at_times e [] = []
at_times e (t ∷ ts) = (e, t) ∷ at_times e ts

opened-failures :
    (b : CircuitBreaker) (ts : List ℕ)
    → b.state ≡ opened
    → (run b (at_times failure ts)).state ≡ opened
unfolding run step record_failure
opened-failures b [] h = h
opened-failures b (t ∷ ts) h = opened-failures (record_failure b t) ts (ground arith)

closed-successes :
    (b : CircuitBreaker) (ts : List ℕ)
    → b.state ≡ closed
    → (run b (at_times success ts)).state ≡ closed
unfolding run step record_success
closed-successes b [] h = h
closed-successes b (t ∷ ts) h = closed-successes (record_success b t) ts (ground arith)

failures_open :
    (b : CircuitBreaker) (ts : List ℕ)
    → b.state ≢ opened
    → b.failure_count < b.failure_threshold
    → b.failure_threshold < u32_mod
    → (run b (at_times failure ts)).state
      ≡ (if leb b.failure_threshold (b.failure_count + length ts) then opened else b.state)
unfolding run step record_failure
failures_open b [] o h m = ground arith
failures_open b (t ∷ ts) o h m = elim (Bool-cases (leb b.failure_threshold (b.failure_count + 1))) [
  | inl e ↦ ground (arith, opened-failures (record_failure b t) ts)
  | inr e ↦ ground (arith, failures_open (record_failure b t) ts)
]

failure_count-lt :
    (b : CircuitBreaker) → IsSound b → b.state ≢ opened → b.failure_count < b.failure_threshold
failure_count-lt b h o = below b.state refl
  where
    below : (s : CircuitState) → b.state ≡ s → b.failure_count < b.failure_threshold
    below closed e = h.closed_below e
    below opened e = absurd (o e)
    below half_open e = h.half_below e

-- A run of failures alone opens a closed or half-open breaker exactly when the failures counted
-- before it and those of the run reach the threshold; until then its state does not change. So a
-- half-open breaker stays half-open after a failure that does not reach it.
pub opens_at_threshold :
    (b : CircuitBreaker) (ts : List ℕ)
    → IsSound b
    → b.state ≢ opened
    → (run b (at_times failure ts)).state
      ≡ (if leb b.failure_threshold (b.failure_count + length ts) then opened else b.state)
opens_at_threshold b ts h o = failures_open b ts o (failure_count-lt b h o) h.failures_fit

successes_close :
    (b : CircuitBreaker) (ts : List ℕ)
    → b.state ≡ half_open
    → b.success_count < b.success_threshold
    → b.success_threshold < u32_mod
    → (run b (at_times success ts)).state
      ≡ (if leb b.success_threshold (b.success_count + length ts) then closed else half_open)
unfolding run step record_success
successes_close b [] o h m = ground arith
successes_close b (t ∷ ts) o h m =
    elim (Bool-cases (leb b.success_threshold (b.success_count + 1))) [
      | inl e ↦ ground (arith, closed-successes (record_success b t) ts)
      | inr e ↦ ground (arith, successes_close (record_success b t) ts)
    ]

-- What stays true from a failure at `t0` that opened the breaker until the timeout after it.
record IsShut (t0 timeout : ℕ) (b : CircuitBreaker) : Type 0 where
  is_opened : b.state ≡ opened
  since : t0 ≤ b.last_state_change
  same_timeout : b.timeout ≡ timeout

abbrev pub Within : ℕ → ℕ → Event × ℕ → Type 0
Within t0 timeout (e, u) = (t0 ≤ u) × (u < t0 + timeout)

step-IsShut :
    (t0 timeout : ℕ) (b : CircuitBreaker) (e : Event) (u : ℕ)
    → Within t0 timeout (e, u)
    → IsShut t0 timeout b
    → IsShut t0 timeout (step b (e, u))
unfolding step is_request_allowed record_success record_failure
step-IsShut t0 timeout b request u w h = ground arith
step-IsShut t0 timeout b success u w h = ground arith
step-IsShut t0 timeout b failure u w h = ground arith

run-IsShut :
    (t0 timeout : ℕ) (b : CircuitBreaker) (es : List (Event × ℕ))
    → All (Within t0 timeout) es
    → IsShut t0 timeout b
    → IsShut t0 timeout (run b es)
unfolding run
run-IsShut t0 timeout b [] w h = h
run-IsShut t0 timeout b ((e, u) ∷ es) w h =
    run-IsShut t0 timeout (step b (e, u)) es w.1 (step-IsShut t0 timeout b e u w.0 h)

-- Take a breaker that is not open, within its 32-bit thresholds and with its counters below them,
-- and a failure at `t0` that reaches the failure threshold. Whatever is called after it at times
-- from `t0` on and before the timeout after `t0` has passed (requests, and the successes and
-- failures of calls let through earlier), the breaker stays open, and a request in that time is
-- refused.
pub rejects_until_timeout :
    (b : CircuitBreaker) (t0 : ℕ) (es : List (Event × ℕ)) (t : ℕ)
    → IsSound b
    → b.state ≢ opened
    → b.failure_threshold ≤ b.failure_count + 1
    → All (Within t0 b.timeout) ((request, t) ∷ es)
    → ((run b ((failure, t0) ∷ es)).state ≡ opened)
      × ((is_request_allowed (run b ((failure, t0) ∷ es)) t).0 ≡ false)
unfolding run is_request_allowed
rejects_until_timeout b t0 es t sound shut reached w =
    let fits = failure_count-lt b sound shut in
    let first : IsShut t0 b.timeout (step b (failure, t0)) =
      unfold step in unfold record_failure in ground (arith, sound.failures_fit) in
    let last = run-IsShut t0 b.timeout (step b (failure, t0)) es w.1 first in
    (last.is_opened, ground (arith, last.is_opened, last.since, last.same_timeout, w.0))

-- Take an open breaker with positive 32-bit thresholds. Once the timeout has passed since its last
-- change of state, the next request is let through, and leaves the breaker half-open with both
-- counters at 0. From there a run of successes closes it exactly when there are at least as many
-- as the success threshold says, and leaves it half-open otherwise.
pub recovers :
    (b : CircuitBreaker) (t : ℕ) (ts : List ℕ)
    → IsSound b
    → b.state ≡ opened
    → b.timeout ≤ t - b.last_state_change
    → ((is_request_allowed b t).0 ≡ true)
      × ((is_request_allowed b t).1.state ≡ half_open)
      × ((is_request_allowed b t).1.failure_count ≡ 0)
      × ((is_request_allowed b t).1.success_count ≡ 0)
      × ((run b ((request, t) ∷ at_times success ts)).state
          ≡ (if leb b.success_threshold (length ts) then closed else half_open))
unfolding run step is_request_allowed
recovers b t ts h o late = (
  ground arith,
  ground arith,
  ground arith,
  ground arith,
  ground (arith, successes_close (is_request_allowed b t).1 ts),
)
