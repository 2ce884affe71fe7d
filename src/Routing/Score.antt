-- ===== src/Routing/Score.antt =====
-- The scores and the ranking of gateways/routing-engine.service.ts, and the rows that it saves.
use payment_orchestration_la.Common.{
  ℕ, ◌+◌, Bool, true, false, not, ◌&&◌, List, [], ◌∷◌, map, keep, ltb, leb, ◌==◌, if◌then◌else◌,
}
use payment_orchestration_la.Enums.{GatewayProvider, CircuitState, closed, open_circuit, half_open}
use payment_orchestration_la.Entities.{GatewayStats}
use payment_orchestration_la.Double.{Double}

abbrev pub is_open : CircuitState → Bool
is_open open_circuit = true
is_open _ = false

abbrev pub is_closed : CircuitState → Bool
is_closed closed = true
is_closed _ = false

abbrev is_half_open : CircuitState → Bool
is_half_open half_open = true
is_half_open _ = false

-- `xs.length === 0`
abbrev pub is_empty {ℓ} : {A : Type ℓ} → List A → Bool
is_empty [] = true
is_empty (_ ∷ _) = false

-- `Array.prototype.sort`, which is stable, for a comparator that says which pairs to exchange
module _ {A : Type 0} (after : A → A → Bool) where
  unfoldable pub insert : A → List A → List A
  insert x [] = x ∷ []
  insert x (y ∷ ys) = let rest = insert x ys in if after x y then y ∷ rest else x ∷ y ∷ ys

  unfoldable pub sort : List A → List A
  unfolding insert
  sort [] = []
  sort (x ∷ xs) = insert x (sort xs)

-- the three weights, in tenths
unfoldable pub weights : ℕ → ℕ × ℕ × ℕ
weights amount = if ltb 5000 amount then (7, 1, 2) else (3, 5, 2)

-- `consecutiveFailures >= 3 && circuitState !== OPEN`, on the row that has been counted up
unfoldable pub trips : GatewayStats → Bool
trips stats = leb 3 stats.consecutive_failures && not (is_open stats.circuit_state)

module _ (R : Double) where
  open R use {F, of_ℕ, tenths, add, sub, mul, div, gt, ge}

  pub record Candidate : Type 0 where
    pub provider : GatewayProvider
    pub score : F
    pub stats : GatewayStats

  unfoldable pub success_rate : GatewayStats → F
  success_rate stats =
      let total = stats.success_count + stats.failure_count in
      if total == 0 then tenths 10 else div (of_ℕ stats.success_count) (of_ℕ total)

  unfoldable pub cost_score : GatewayStats → F
  cost_score stats = R.max (of_ℕ 0) (div (sub (of_ℕ 300) (of_ℕ stats.cost_bps)) (of_ℕ 300))

  unfoldable pub latency_score : GatewayStats → F
  latency_score stats =
      let effective = if stats.avg_latency_ms == 0 then 200 else stats.avg_latency_ms in
      div (of_ℕ 1000) (of_ℕ (if leb effective 50 then 50 else effective))

  unfoldable pub score_of : ℕ → CircuitState → GatewayStats → F
  unfolding success_rate cost_score latency_score weights
  score_of amount circuit_state stats =
      let w = weights amount in
      mul (tenths (if is_half_open circuit_state then 3 else 10)) (
        add (add (mul (tenths w.0) (success_rate stats)) (mul (tenths w.1) (cost_score stats)))
          (mul (tenths w.2) (div (latency_score stats) (of_ℕ 20))))

  -- the candidate of a row whose circuit has been looked at
  unfoldable pub candidate : ℕ → GatewayStats → Candidate
  unfolding score_of
  candidate amount stats = record {
    provider = stats.gateway;
    score =
        if is_open stats.circuit_state
        then R.minus_one
        else score_of amount stats.circuit_state stats;
    stats = stats;
  }

  -- the comparators `b.score - a.score` and `a.stats.costBps - b.stats.costBps`
  abbrev pub scores_less : Candidate → Candidate → Bool
  scores_less a b = gt (sub b.score a.score) (of_ℕ 0)

  abbrev pub costs_more : Candidate → Candidate → Bool
  costs_more a b = ltb b.stats.cost_bps a.stats.cost_bps

  -- What follows the `Promise.all`.
  unfoldable pub rank : List Candidate → List GatewayProvider
  unfolding sort
  rank candidates =
      let filtered = sort scores_less (keep (λ c. ge c.score (of_ℕ 0)) candidates) in
      if is_empty filtered
      then map (λ c. c.provider) (sort costs_more candidates)
      else map (λ c. c.provider) filtered

  -- `Math.round(avg * 0.9 + latency * 0.1)`, and the first sample as it is
  unfoldable pub smoothed : ℕ → ℕ → ℕ
  smoothed avg latency =
      if avg == 0
      then latency
      else R.round (add (mul (of_ℕ avg) (tenths 9)) (mul (of_ℕ latency) (tenths 1)))

  -- The row that `recordSuccess` saves.
  unfoldable pub after_success : ℕ → GatewayStats → GatewayStats
  unfolding smoothed
  after_success latency stats = record stats {
    success_count = stats.success_count + 1;
    consecutive_failures = 0;
    avg_latency_ms = smoothed stats.avg_latency_ms latency;
    circuit_state = closed;
  }

  unfoldable pub counted_failure : ℕ → GatewayStats → GatewayStats
  unfolding smoothed
  counted_failure latency stats = record stats {
    failure_count = stats.failure_count + 1;
    consecutive_failures = stats.consecutive_failures + 1;
    avg_latency_ms =
        if ltb 0 latency then smoothed stats.avg_latency_ms latency else stats.avg_latency_ms;
  }

  -- The row that `recordFailure` saves.
  unfoldable pub after_failure : ℕ → GatewayStats → GatewayStats
  unfolding counted_failure trips
  after_failure latency stats =
      let counted = counted_failure latency stats in
      if trips counted then record counted { circuit_state = open_circuit } else counted

-- The row that `getRankedGateways` saves when the cooldown of an OPEN circuit is over.
unfoldable pub after_cooldown : GatewayStats → GatewayStats
after_cooldown stats = record stats { circuit_state = half_open; consecutive_failures = 0 }
