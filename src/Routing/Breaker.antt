-- ===== src/Routing/Breaker.antt =====
-- The circuit breaker of one gateway: its row over any outcomes of charges.
use payment_orchestration_la.Common.{
  ◌⊎◌, ℕ, ◌+◌, ◌<◌, ◌≡◌, refl, true, List, [], ◌∷◌, ◌++◌, arith, length,
}
use payment_orchestration_la.Enums.{closed, open_circuit, half_open}
use payment_orchestration_la.Entities.{GatewayStats}
use payment_orchestration_la.Double.{Double}
use payment_orchestration_la.Routing.Score.{is_open, after_success, after_failure, after_cooldown}

-- What befalls the row of a gateway: a charge, with its latency, or the end of a cooldown.
pub data Outcome : Type 0 where
  succeeded : ℕ → Outcome
  declined : ℕ → Outcome

module _ (R : Double) where
  pub record_outcome : Outcome → GatewayStats → GatewayStats
  record_outcome (succeeded latency) row = after_success R latency row
  record_outcome (declined latency) row = after_failure R latency row

  pub record_all : List Outcome → GatewayStats → GatewayStats
  unfolding record_outcome
  record_all [] row = row
  record_all (o ∷ os) row = record_all os (record_outcome o row)

  -- The circuit is OPEN, or there are fewer than three failures in a row.
  abbrev pub IsGuarded : GatewayStats → Type 0
  IsGuarded row = (is_open row.circuit_state ≡ true) ⊎ (row.consecutive_failures < 3)

  record_outcome-IsGuarded :
      (o : Outcome) (row : GatewayStats) → IsGuarded row → IsGuarded (record_outcome o row)
  unfolding record_outcome after_success after_failure
  record_outcome-IsGuarded (succeeded l) row h = ground arith
  record_outcome-IsGuarded (declined l) row h = ground arith

  -- From a row with fewer than three failures in a row, or an OPEN circuit, every sequence of
  -- outcomes leads to such a row: three failures in a row never leave the circuit untripped.
  pub record_all-IsGuarded :
      (os : List Outcome) (row : GatewayStats) → IsGuarded row → IsGuarded (record_all os row)
  unfolding record_all
  record_all-IsGuarded [] row h = h
  record_all-IsGuarded (o ∷ os) row h =
      record_all-IsGuarded os (record_outcome o row) (record_outcome-IsGuarded o row h)

  counts-record_outcome :
      (o : Outcome) (row : GatewayStats)
      → (record_outcome o row).success_count + (record_outcome o row).failure_count
        ≡ row.success_count + row.failure_count + 1
  unfolding record_outcome after_success after_failure
  counts-record_outcome (succeeded l) row = ground arith
  counts-record_outcome (declined l) row = ground arith

  -- Every outcome is counted once, as a success or as a failure.
  pub counts-record_all :
      (os : List Outcome) (row : GatewayStats)
      → (record_all os row).success_count + (record_all os row).failure_count
        ≡ row.success_count + row.failure_count + length os
  unfolding record_all
  counts-record_all [] row = omega arith
  counts-record_all (o ∷ os) row =
      omega (arith, counts-record_all os (record_outcome o row), counts-record_outcome o row)

  record_all-append :
      (os ps : List Outcome) (row : GatewayStats)
      → record_all (os ++ ps) row ≡ record_all ps (record_all os row)
  unfolding record_all
  record_all-append [] ps row = refl
  record_all-append (o ∷ os) ps row = record_all-append os ps (record_outcome o row)

  three_open :
      (k l m : ℕ) (row : GatewayStats)
      → is_open (after_failure R m (after_failure R l (after_failure R k row))).circuit_state ≡ true
  unfolding after_failure
  three_open k l m row = ground arith

  -- Whatever came before, after three failures in a row the circuit is OPEN.
  pub three_failures_trip :
      (os : List Outcome) (k l m : ℕ) (row : GatewayStats)
      → is_open (record_all (os ++ declined k ∷ declined l ∷ declined m ∷ []) row).circuit_state
        ≡ true
  three_failures_trip os k l m row =
      rw record_all-append (unfold record_all in three_open k l m (record_all os row))

  -- Whatever came before, after a success the circuit is CLOSED with no failures in a row, also
  -- from OPEN.
  pub success_closes :
      (os : List Outcome) (k : ℕ) (row : GatewayStats)
      → let row' = record_all (os ++ succeeded k ∷ []) row in
        (row'.circuit_state ≡ closed) × (row'.consecutive_failures ≡ 0)
  success_closes os k row = rw record_all-append (unfold record_all after_success in (refl, refl))

  -- A gateway on trial keeps its trial after one failure and after two: the end of a cooldown
  -- resets the count, so only the third failure in a row opens the circuit again.
  pub trial_survives_two_failures :
      (k l m : ℕ) (row : GatewayStats)
      → let once = after_failure R k (after_cooldown row) in
        let twice = after_failure R l once in
        (once.circuit_state ≡ half_open)
        × (twice.circuit_state ≡ half_open)
        × ((after_failure R m twice).circuit_state ≡ open_circuit)
  unfolding after_failure after_cooldown
  trial_survives_two_failures k l m row = ground arith
