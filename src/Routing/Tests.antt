-- ===== src/Routing/Tests.antt =====
-- Runs of the routing engine, with decimal fractions for the doubles.
use payment_orchestration_la.Common.{
  none, some, str_eq, if◌then◌else◌, inr, ◌≡◌, refl, List, [], ◌∷◌, map, arith, All,
}
use payment_orchestration_la.Enums.{
  GatewayProvider, stripe, razorpay, payu, upi, CircuitState, closed, open_circuit,
}
use payment_orchestration_la.Entities.{GatewayStats}
use payment_orchestration_la.Double.Fixed.{fixed, fixed-IsDouble}
use payment_orchestration_la.Routing.Score.{candidate, rank}
use payment_orchestration_la.Routing.Config.{Env}
use payment_orchestration_la.Routing.Table.{table}
use payment_orchestration_la.Routing.Endpoint.{IsConsistent, get_stats, get_stats-IsConsistent}
use payment_orchestration_la.Routing.Breaker.{
  Outcome, succeeded, declined, record_all, IsGuarded, record_all-IsGuarded,
}

abbrev seeded : GatewayProvider → CircuitState → GatewayStats
seeded g c = record {
  gateway = g;
  success_count = 0;
  failure_count = 0;
  avg_latency_ms = 0;
  cost_bps = elim g [ stripe ↦ 290 | razorpay ↦ 200 | payu ↦ 190 | upi ↦ 50 ];
  circuit_state = c;
  consecutive_failures = 0;
}

abbrev rows : List GatewayStats
rows = seeded stripe closed ∷ seeded upi open_circuit ∷ seeded payu closed ∷ []

abbrev all_open : List GatewayStats
all_open = seeded stripe open_circuit ∷ seeded upi open_circuit ∷ []

-- The cheaper gateway is first for a small amount, and the tripped one is left out.
rank_rows : rank fixed (map (candidate fixed 1000) rows) ≡ payu ∷ stripe ∷ []
unfolding rank candidate
rank_rows = refl

abbrev outcomes : List Outcome
outcomes = succeeded 120 ∷ declined 300 ∷ declined 200 ∷ []

record_all-IsGuarded_example : IsGuarded fixed (record_all fixed outcomes (seeded stripe closed))
record_all-IsGuarded_example =
    record_all-IsGuarded fixed outcomes (seeded stripe closed) (inr (omega arith))

get_stats-IsConsistent_example :
    (map (λ v. v.gateway) (get_stats fixed table rows) ≡ map (λ row. row.gateway) rows)
    × All (IsConsistent fixed) (get_stats fixed table rows)
get_stats-IsConsistent_example =
    get_stats-IsConsistent fixed fixed-IsDouble table rows
      (omega arith, (omega arith, (omega arith, tt)))

abbrev no_env : Env
no_env name = if str_eq name "NODE_ENV" then some "test" else none
