-- ===== src/Routing/Ranked.antt =====
-- `getRankedGateways` as a whole, against a plain description: which rows have cooled down, what is
-- saved of them, and the ranking of what comes out.
use payment_orchestration_la.Common.{
  ◌≡◌, true, false, Bool, Option, none, some, List, [], ◌∷◌, if◌then◌else◌, ◌&&◌,
}
use payment_orchestration_la.Enums.{GatewayProvider, provider_eq}
use payment_orchestration_la.Entities.{GatewayStats}
use payment_orchestration_la.Double.{Double}
use payment_orchestration_la.Redis.{RedisClient, RedisService, redis_get}
use payment_orchestration_la.Redis.Store.{circuit}
use payment_orchestration_la.Routing.Score.{is_open, after_cooldown}
use payment_orchestration_la.Routing.Stats.{StatsRepo, Shared}
use payment_orchestration_la.Routing.Effects.{SavesAll}
use payment_orchestration_la.Routing.Engine.{redis}

module _ (C : RedisClient) (r : RedisService C) where
  -- The circuit is open, and its mark is gone.
  abbrev pub is_expired : GatewayStats → Bool
  is_expired row =
      is_open row.circuit_state
      && (elim (redis_get C (circuit row.gateway) r).0 [ some _ ↦ false | none ↦ true ])

  abbrev pub cooled : GatewayStats → GatewayStats
  cooled row = if is_expired row then after_cooldown row else row

  -- The row of a gateway, when the rows that have cooled down are saved in their order.
  abbrev pub refreshed :
      List GatewayStats → GatewayProvider → Option GatewayStats → Option GatewayStats
  refreshed [] g o = o
  refreshed (row ∷ rows) g o =
      refreshed rows g
        (if is_expired row && provider_eq row.gateway g then some (after_cooldown row) else o)

module _ (S : StatsRepo) (C : RedisClient) (all : SavesAll S) where
  -- Redis is as it was, and these rows have been refreshed.
  pub record Refreshed (rows : List GatewayStats) (s s' : Shared S C) : Type 0 where
    pub same_redis : s'.redis ≡ s.redis
    pub row_of :
        (g : GatewayProvider)
        → S.find_one g s'.stats ≡ refreshed C s.redis rows g (S.find_one g s.stats)
