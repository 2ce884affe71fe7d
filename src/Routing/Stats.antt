-- ===== src/Routing/Stats.antt =====
-- The table `gateway_stats` behind TypeORM, and the state that the routing engine shares.
use payment_orchestration_la.Common.{◌≡◌, ◌≢◌, Option, some, List}
use payment_orchestration_la.Common.Effect.{Action}
use payment_orchestration_la.Common.Effect.Rules.{Ends, Unchanged}
use payment_orchestration_la.Enums.{GatewayProvider}
use payment_orchestration_la.Entities.{GatewayStats}
use payment_orchestration_la.Database.{Exception}
use payment_orchestration_la.Redis.{RedisClient, RedisService}

pub record StatsRepo : Type 1 where
  pub State : Type 0
  pub find : State → List GatewayStats
  pub find_one : GatewayProvider → State → Option GatewayStats
  pub save : GatewayStats → Action State Exception (Unit {0})

pub record StatsSaved (S : StatsRepo) (row : GatewayStats) (s s' : S.State) : Type 0 where
  pub stored : S.find_one row.gateway s' ≡ some row
  pub others : (g : GatewayProvider) → g ≢ row.gateway → S.find_one g s' ≡ S.find_one g s

-- A row is found under its gateway, and a save stores the row, or is refused and does nothing.
pub record IsStatsRepo (S : StatsRepo) : Type 0 where
  pub gateway-find_one :
      (g : GatewayProvider) (row : GatewayStats) (s : S.State)
      → S.find_one g s ≡ some row
      → row.gateway ≡ g
  pub save_lem :
      (row : GatewayStats) (s : S.State)
      → Ends (λ u s'. StatsSaved S row s s') (Unchanged s) (S.save row s)

pub record Shared (S : StatsRepo) (C : RedisClient) : Type 0 where
  pub stats : S.State
  pub redis : RedisService C
