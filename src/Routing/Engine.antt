-- ===== src/Routing/Engine.antt =====
-- The methods of gateways/routing-engine.service.ts. The callbacks of `Promise.all` run one after
-- the other here; each works on the row and the Redis key of its own gateway.
use payment_orchestration_la.Common.{ℕ, none, some, List, [], ◌∷◌, map, keep, if◌then◌else◌}
use payment_orchestration_la.Common.Effect.{ok, Action, pure, gets, ◌>>=◌, ◌>>◌}
use payment_orchestration_la.Enums.{GatewayProvider}
use payment_orchestration_la.Entities.{GatewayStats}
use payment_orchestration_la.Database.{Exception}
use payment_orchestration_la.Double.{Double}
use payment_orchestration_la.Redis.{RedisClient, RedisService, ex, redis_get, redis_set, redis_del}
use payment_orchestration_la.Redis.Store.{circuit, text}
use payment_orchestration_la.Routing.Config.{Env, routable}
use payment_orchestration_la.Routing.Score.{
  is_open, is_closed, candidate, rank, after_success, counted_failure, trips, after_failure,
  after_cooldown,
}
use payment_orchestration_la.Routing.Stats.{StatsRepo, Shared}

module _ (S : StatsRepo) (C : RedisClient) where
  -- Redis never throws at its callers
  unfoldable pub redis :
      {A : Type 0} → (RedisService C → A × RedisService C) → Action (Shared S C) Exception A
  redis call s = let (a, r) = call s.redis in (ok a, record s { redis = r })

  unfoldable pub stats_write :
      Action S.State Exception (Unit {0}) → Action (Shared S C) Exception (Unit {0})
  stats_write m s = let (r, st) = m s.stats in (r, record s { stats = st })

  -- The branch of an OPEN circuit: the mark in Redis lasts as long as the cooldown.
  unfoldable pub cool_down : GatewayStats → Action (Shared S C) Exception GatewayStats
  unfolding redis stats_write
  cool_down stats = do
    is_tripped ← redis (redis_get C (circuit stats.gateway))
    elim is_tripped [
      | some v ↦ pure stats
      | none ↦ stats_write (S.save (after_cooldown stats)) >> pure (after_cooldown stats)
    ]

  -- One step of the `map` in `getRankedGateways`, up to the score.
  unfoldable pub look_at : GatewayStats → Action (Shared S C) Exception GatewayStats
  unfolding cool_down
  look_at stats = if is_open stats.circuit_state then cool_down stats else pure stats

  unfoldable pub look_at_all : List GatewayStats → Action (Shared S C) Exception (List GatewayStats)
  unfolding look_at
  look_at_all [] = pure []
  look_at_all (stats ∷ rest) = do
    looked ← look_at stats
    others ← look_at_all rest
    pure (looked ∷ others)

module _ (S : StatsRepo) (C : RedisClient) (R : Double) where
  unfoldable pub get_ranked_gateways :
      Env → ℕ → Action (Shared S C) Exception (List GatewayProvider)
  unfolding look_at_all
  get_ranked_gateways env amount = do
    rows ← gets (λ s. S.find s.stats)
    looked ← look_at_all S C (keep (routable env) rows)
    pure (rank R (map (candidate R amount) looked))

  unfoldable pub record_success : GatewayProvider → ℕ → Action (Shared S C) Exception (Unit {0})
  unfolding redis stats_write
  record_success gateway latency = do
    found ← gets (λ s. S.find_one gateway s.stats)
    elim found [
      | none ↦ pure tt
      | some stats ↦ do
        (if is_closed stats.circuit_state
            then pure tt
            else (redis S C (redis_del C (circuit gateway)) >> pure tt))
        stats_write S C (S.save (after_success R latency stats))
    ]

  unfoldable pub record_failure : GatewayProvider → ℕ → Action (Shared S C) Exception (Unit {0})
  unfolding redis stats_write
  record_failure gateway latency = do
    found ← gets (λ s. S.find_one gateway s.stats)
    elim found [
      | none ↦ pure tt
      | some stats ↦ do
        (if trips (counted_failure R latency stats)
            then (redis S C (redis_set C (circuit gateway) (text "open") none (some ex) (some 30))
                >> pure tt)
            else pure tt)
        stats_write S C (S.save (after_failure R latency stats))
    ]
