-- ===== src/Routing/Endpoint.antt =====
-- gateways/gateways.controller.ts, but for `updatedAt`, which the rows of the model do not have.
use payment_orchestration_la.Common.{
  ℕ, ◌+◌, ◌≤◌, ◌<◌, ◌≡◌, refl, List, [], ◌∷◌, map, All, ◌==◌, if◌then◌else◌, Bool-cases, inl, inr,
  ◌⊎◌, arith, ap,
}
use payment_orchestration_la.Enums.{GatewayProvider, CircuitState}
use payment_orchestration_la.Entities.{GatewayStats}
use payment_orchestration_la.Double.{Double, IsDouble, exact_bound}
use payment_orchestration_la.Routing.Stats.{StatsRepo}

pub record StatsView : Type 0 where
  pub gateway : GatewayProvider
  pub success_rate_percent : ℕ
  pub average_latency_ms : ℕ
  pub cost_basis_points : ℕ
  pub circuit_state : CircuitState
  pub consecutive_failures : ℕ
  pub total_attempts : ℕ
  pub success_count : ℕ
  pub failure_count : ℕ

module _ (R : Double) where
  open R use {of_ℕ, mul, div, round}

  unfoldable pub stats_view : GatewayStats → StatsView
  stats_view stats =
      let total = stats.success_count + stats.failure_count in
      record {
        gateway = stats.gateway;
        success_rate_percent =
            if total == 0
            then 100
            else round (mul (div (of_ℕ stats.success_count) (of_ℕ total)) (of_ℕ 100));
        average_latency_ms = stats.avg_latency_ms;
        cost_basis_points = stats.cost_bps;
        circuit_state = stats.circuit_state;
        consecutive_failures = stats.consecutive_failures;
        total_attempts = total;
        success_count = stats.success_count;
        failure_count = stats.failure_count;
      }

  unfoldable pub get_stats : (S : StatsRepo) → S.State → List StatsView
  unfolding stats_view
  get_stats S s = map stats_view (S.find s)

  -- A percentage, which is 100 without attempts, and attempts that are the sum of the two counts.
  abbrev pub IsConsistent : StatsView → Type 0
  IsConsistent v =
      (v.success_rate_percent ≤ 100)
      × (v.success_count + v.failure_count ≡ v.total_attempts)
      × ((0 < v.total_attempts) ⊎ (v.success_rate_percent ≡ 100))

  module _ (law : IsDouble R) where
    view-IsConsistent :
        (row : GatewayStats)
        → row.success_count + row.failure_count ≤ exact_bound
        → IsConsistent (stats_view row)
    unfolding stats_view
    view-IsConsistent row small = elim (Bool-cases (total == 0)) [
      | inl none_yet ↦ (ground (arith, none_yet), refl, inr (ground (arith, none_yet)))
      | inr some_made ↦
          let ratio =
            law.InRange-mul 1 100 _ _ (omega arith)
              (law.InRange-ratio row.success_count total (omega arith) (ground (arith, some_made))
                small)
              (law.InRange-of_ℕ 100 (omega arith)) in
          (rw some_made (law.round-le 100 _ ratio), refl, inl (ground (arith, some_made)))
    ]
      where
        total : ℕ
        total = row.success_count + row.failure_count

    -- The endpoint answers with a row for each gateway of the table, in its order, each with a
    -- success rate from 0 to 100, which is 100 without attempts, and with the attempts as the sum of
    -- its counts, where that sum is a double.
    pub get_stats-IsConsistent :
        (S : StatsRepo) (s : S.State)
        → All (λ row. row.success_count + row.failure_count ≤ exact_bound) (S.find s)
        → (map (λ v. v.gateway) (get_stats S s) ≡ map (λ row. row.gateway) (S.find s))
          × All IsConsistent (get_stats S s)
    unfolding get_stats
    get_stats-IsConsistent S s small = all_views (S.find s) small
      where
        all_views :
            (rows : List GatewayStats)
            → All (λ row. row.success_count + row.failure_count ≤ exact_bound) rows
            → (map (λ v. v.gateway) (map stats_view rows) ≡ map (λ row. row.gateway) rows)
              × All IsConsistent (map stats_view rows)
        all_views [] h = (refl, tt)
        all_views (row ∷ rows) h =
            let rest = all_views rows h.1 in
            (ap (λ gs. row.gateway ∷ gs) rest.0, (view-IsConsistent row h.0, rest.1))
