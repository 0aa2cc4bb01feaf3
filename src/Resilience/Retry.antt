-- ===== src/Resilience/Retry.antt =====
-- `retry_with_backoff` of crates/turbovault-core/src/resilience.rs. The backoff is computed with
-- `f64`, which antt has not, so the durations and the step to the next one are parameters; the
-- outcome of the k-th call of `f`, counted from 1, is a function.
use turbovault.Common.{
  ℕ, zero, suc, ◌+◌, ◌≤◌, ◌<◌, ◌≡◌, refl, ap, ◌∙◌, ◌⊎◌, inl, inr, List, [], ◌∷◌, arith, leb,
  if◌then◌else◌, Option, none, some, length, Bool-cases, eqb, leb→le, eqb→eq,
}

pub data Outcome {ℓ} (T : Type ℓ) (E : Type ℓ) : Type ℓ where
  ok : T → Outcome T E
  err : E → Outcome T E

pub record RetryConfig (Duration : Type 0) : Type 0 where
  pub max_attempts : ℕ
  pub initial_backoff : Duration
  -- `min(backoff * backoff_multiplier, max_backoff)`
  pub next_backoff : Duration → Duration

-- What a run leaves: the result, the calls made and the sleeps between them.
pub record Trace (T E Duration : Type 0) : Type 0 where
  pub result : Outcome T E
  pub calls : ℕ
  pub sleeps : List Duration

Outcome-cases {ℓ} :
    {T E : Type ℓ} (o : Outcome T E) → ((r : T) × (o ≡ ok r)) ⊎ ((e : E) × (o ≡ err e))
Outcome-cases (ok r) = inl (r, refl)
Outcome-cases (err e) = inr (e, refl)

module _ {T E Duration : Type 0} (config : RetryConfig Duration) (f : ℕ → Outcome T E) where
  abbrev slept : Duration → Option (Trace T E Duration) → Option (Trace T E Duration)
  slept d none = none
  slept d (some t) = some (record t { sleeps = d ∷ t.sleeps })

  -- The `loop`, on fuel; `none` means that the fuel ran out.
  unfoldable pub retry_loop : ℕ → ℕ → Duration → Option (Trace T E Duration)
  retry_loop zero attempt backoff = none
  retry_loop (suc fuel) attempt backoff = elim (f (attempt + 1)) [
    | ok r ↦ some (record { result = ok r; calls = attempt + 1; sleeps = [] })
    | err e ↦
        let rest = slept backoff (retry_loop fuel (attempt + 1) (config.next_backoff backoff)) in
        if leb config.max_attempts (attempt + 1)
        then some (record { result = err e; calls = attempt + 1; sleeps = [] })
        else rest
  ]

  -- retry_with_backoff
  unfoldable pub retry_with_backoff : Option (Trace T E Duration)
  unfolding retry_loop
  retry_with_backoff = retry_loop (suc config.max_attempts) 0 config.initial_backoff

  -- What a finished run says: the result is that of the last call, every call before it failed,
  -- and a failure is returned only when the attempts are used up.
  pub record IsFinished (attempt : ℕ) (t : Trace T E Duration) : Type 0 where
    pub last : t.result ≡ f t.calls
    pub made : attempt < t.calls
    pub failed_before : (k : ℕ) → attempt < k → k < t.calls → (e : E) × (f k ≡ err e)
    pub gave_up : (e : E) → t.result ≡ err e → config.max_attempts ≤ t.calls
    pub within : (t.calls ≤ config.max_attempts) ⊎ (t.calls ≡ attempt + 1)
    pub sleeps_between : length t.sleeps + attempt + 1 ≡ t.calls

  retry_loop-finishes :
      (fuel attempt : ℕ) (backoff : Duration)
      → config.max_attempts < attempt + fuel
      → 0 < fuel
      → (t : Trace T E Duration) × (retry_loop fuel attempt backoff ≡ some t) × IsFinished attempt t
  unfolding retry_loop
  retry_loop-finishes zero attempt backoff h p = absurd (omega arith)
  retry_loop-finishes (suc fuel) attempt backoff h p = elim (Outcome-cases (f (attempt + 1))) [
    | inl (r, e) ↦ (
      done (ok r),
      rw (e, retry_loop),
      record {
        last = ground (arith, e);
        made = omega arith;
        failed_before = λ k a b. absurd (omega arith);
        gave_up = λ x q. cc;
        within = omega arith;
        sleeps_between = omega arith;
      },
    )
    | inr (x, e) ↦ elim (Bool-cases (leb config.max_attempts (attempt + 1))) [
      | inl stop ↦ (
        done (err x),
        rw (e, stop, retry_loop),
        record {
          last = ground (arith, e);
          made = omega arith;
          failed_before = λ k a b. absurd (omega arith);
          gave_up = λ y q. leb→le _ _ stop;
          within = omega arith;
          sleeps_between = omega arith;
        },
      )
      | inr more ↦
          let (t, q, g) =
            retry_loop-finishes fuel (attempt + 1) (config.next_backoff backoff) (ground arith)
              (ground arith) in
          (
            record t { sleeps = backoff ∷ t.sleeps },
            rw (e, more, retry_loop) (rw q),
            record {
              last = g.last;
              made = omega (arith, g.made);
              failed_before = λ k a b. elim (Bool-cases (eqb k (attempt + 1))) [
                | inl here ↦ (x, ap f (eqb→eq _ _ here) ∙ e)
                | inr later ↦ g.failed_before k (ground arith) b
              ];
              gave_up = g.gave_up;
              within = elim g.within [ inl w ↦ inl w | inr w ↦ inl (ground arith) ];
              sleeps_between = omega (arith, g.sleeps_between);
            },
          )
    ]
  ]
    where
      done : Outcome T E → Trace T E Duration
      done r = record { result = r; calls = attempt + 1; sleeps = [] }

  -- The retry loop always ends. Its result is that of the last call it made; all earlier calls
  -- failed, so a success is the first one; it returns a failure only after `max_attempts` calls;
  -- it never makes more than `max_attempts` calls, or one call if that is 0; and it sleeps once
  -- between two calls.
  pub retry_with_backoff_total :
      (t : Trace T E Duration) × (retry_with_backoff ≡ some t) × IsFinished 0 t
  unfolding retry_with_backoff
  retry_with_backoff_total =
      retry_loop-finishes (suc config.max_attempts) 0 config.initial_backoff (omega arith)
        (omega arith)
