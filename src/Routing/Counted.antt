-- ===== src/Routing/Counted.antt =====
-- The rows that `recordSuccess` and `recordFailure` save, described field by field.
use payment_orchestration_la.Common.{
  ℕ, ◌+◌, ◌≤◌, ◌<◌, ◌≡◌, ◌≢◌, refl, none, some, arith, not, ◌&&◌, leb, ap,
}
use payment_orchestration_la.Enums.{closed, open_circuit}
use payment_orchestration_la.Entities.{GatewayStats}
use payment_orchestration_la.Double.{Double}
use payment_orchestration_la.Routing.Score.{
  after_success, after_failure, counted_failure, smoothed, trips, is_open,
}

-- The moving average: the first sample as it is, then nine tenths of the old one and one of the new.
pub record Averaged (R : Double) (old sample new : ℕ) : Type 0 where
  pub first : old ≡ 0 → new ≡ sample
  pub later :
      old ≢ 0
      → new ≡ R.round (R.add (R.mul (R.of_ℕ old) (R.tenths 9)) (R.mul (R.of_ℕ sample) (R.tenths 1)))

pub record SuccessCounted (R : Double) (latency : ℕ) (row row' : GatewayStats) : Type 0 where
  pub success_count : row'.success_count ≡ row.success_count + 1
  pub failure_count : row'.failure_count ≡ row.failure_count
  pub consecutive_failures : row'.consecutive_failures ≡ 0
  pub circuit_state : row'.circuit_state ≡ closed
  pub cost_bps : row'.cost_bps ≡ row.cost_bps
  pub avg_latency_ms : Averaged R row.avg_latency_ms latency row'.avg_latency_ms

pub record FailureCounted (R : Double) (latency : ℕ) (row row' : GatewayStats) : Type 0 where
  pub success_count : row'.success_count ≡ row.success_count
  pub failure_count : row'.failure_count ≡ row.failure_count + 1
  pub consecutive_failures : row'.consecutive_failures ≡ row.consecutive_failures + 1
  -- the third failure in a row opens the circuit
  pub opens : 2 ≤ row.consecutive_failures → row'.circuit_state ≡ open_circuit
  pub stays : row.consecutive_failures < 2 → row'.circuit_state ≡ row.circuit_state
  pub cost_bps : row'.cost_bps ≡ row.cost_bps
  pub unmeasured : latency ≡ 0 → row'.avg_latency_ms ≡ row.avg_latency_ms
  pub measured : latency ≢ 0 → Averaged R row.avg_latency_ms latency row'.avg_latency_ms

smoothed-Averaged : (R : Double) (old sample : ℕ) → Averaged R old sample (smoothed R old sample)
unfolding smoothed
smoothed-Averaged R old sample = record {
  first = λ h. ground (arith, h);
  later = λ h. ground (arith, h);
}

pub success-Counted :
    (R : Double) (latency : ℕ) (row : GatewayStats)
    → SuccessCounted R latency row (after_success R latency row)
unfolding after_success
success-Counted R latency row = record {
  success_count = refl;
  failure_count = refl;
  consecutive_failures = refl;
  circuit_state = refl;
  cost_bps = refl;
  avg_latency_ms = smoothed-Averaged R row.avg_latency_ms latency;
}

-- when the failure opens the circuit
pub trips_counted :
    (R : Double) (latency : ℕ) (row : GatewayStats)
    → trips (counted_failure R latency row)
      ≡ (leb 2 row.consecutive_failures && not (is_open row.circuit_state))
unfolding trips counted_failure
trips_counted R latency row = ground arith

pub failed_gateway :
    (R : Double) (latency : ℕ) (row : GatewayStats)
    → (after_failure R latency row).gateway ≡ row.gateway
unfolding after_failure
failed_gateway R latency row = ground arith

pub some-injective : {A : Type 0} {a b : A} → some a ≡ some b → a ≡ b
some-injective {a = a} e = ap (λ o. elim o [ some x ↦ x | none ↦ a ]) e

pub failure-Counted :
    (R : Double) (latency : ℕ) (row : GatewayStats)
    → FailureCounted R latency row (after_failure R latency row)
unfolding after_failure counted_failure trips smoothed
failure-Counted R latency row = record {
  success_count = ground arith;
  failure_count = ground arith;
  consecutive_failures = ground arith;
  opens = λ h. ground (arith, h);
  stays = λ h. ground (arith, h);
  cost_bps = ground arith;
  unmeasured = λ h. ground (arith, h);
  measured = λ h. record { first = λ e. ground (arith, h, e); later = λ e. ground (arith, h, e) };
}
