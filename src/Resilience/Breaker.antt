-- ===== src/Resilience/Breaker.antt =====
-- `CircuitBreaker` of crates/turbovault-core/src/resilience.rs. Each method runs under the lock on
-- `state`, so a method is one step. The counters are `AtomicU32`, which wrap; the time of
-- `Instant::now()` is an argument, in any unit, and `elapsed` stops at 0.
pub mod Laws
pub mod Counting
use turbovault.Common.{ℕ, ◌+◌, ◌-◌, ◌%◌, ◌^◌, Bool, true, false, ◌&&◌, leb, if◌then◌else◌}

pub data CircuitState : Type 0 where
  closed opened half_open : CircuitState

pub record CircuitBreaker : Type 0 where
  pub state : CircuitState
  pub failure_count : ℕ
  pub success_count : ℕ
  pub failure_threshold : ℕ
  pub success_threshold : ℕ
  pub timeout : ℕ
  pub last_state_change : ℕ

abbrev pub u32_mod : ℕ
u32_mod = 4294967296

-- CircuitBreaker::new
unfoldable pub new : ℕ → ℕ → ℕ → ℕ → CircuitBreaker
new failures successes timeout now = record {
  state = closed;
  failure_count = 0;
  success_count = 0;
  failure_threshold = failures;
  success_threshold = successes;
  timeout = timeout;
  last_state_change = now;
}

abbrev pub is_half_open : CircuitState → Bool
is_half_open half_open = true
is_half_open closed = false
is_half_open opened = false

-- CircuitBreaker::is_request_allowed
unfoldable pub is_request_allowed : CircuitBreaker → ℕ → Bool × CircuitBreaker
is_request_allowed b now = elim b.state [
  | closed ↦ (true, b)
  | opened ↦
      if leb b.timeout (now - b.last_state_change)
      then (true, record b { state = half_open; failure_count = 0; success_count = 0 })
      else (false, b)
  | half_open ↦ (true, b)
]

-- CircuitBreaker::record_success
unfoldable pub record_success : CircuitBreaker → ℕ → CircuitBreaker
record_success b now =
    let successes = (b.success_count + 1) % u32_mod in
    if is_half_open b.state && leb b.success_threshold successes
    then record b { state = closed; failure_count = 0; success_count = 0; last_state_change = now }
    else record b { failure_count = 0; success_count = successes }

-- CircuitBreaker::record_failure
unfoldable pub record_failure : CircuitBreaker → ℕ → CircuitBreaker
record_failure b now =
    let failures = (b.failure_count + 1) % u32_mod in
    if leb b.failure_threshold failures
    then record b {
      state = opened;
      failure_count = failures;
      success_count = 0;
      last_state_change = now;
    }
    else record b { failure_count = failures; success_count = 0 }
