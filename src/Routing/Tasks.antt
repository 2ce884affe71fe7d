-- ===== src/Routing/Tasks.antt =====
-- The methods of gateways/routing-engine.service.ts, await by await. As in Routing/Engine, the
-- callbacks of the `Promise.all` follow one another, where the source starts them all.
use payment_orchestration_la.Common.{ℕ, none, some, List, [], ◌∷◌, map, keep, if◌then◌else◌}
use payment_orchestration_la.Common.Effect.{gets}
use payment_orchestration_la.Enums.{GatewayProvider}
use payment_orchestration_la.Entities.{GatewayStats}
use payment_orchestration_la.Database.{Exception}
use payment_orchestration_la.Double.{Double}
use payment_orchestration_la.Redis.{RedisClient, ex, redis_get, redis_set, redis_del}
use payment_orchestration_la.Redis.Store.{circuit, text}
use payment_orchestration_la.Routing.Config.{Env, routable}
use payment_orchestration_la.Routing.Score.{
  is_open, is_closed, candidate, rank, after_success, counted_failure, trips, after_failure,
  after_cooldown,
}
use payment_orchestration_la.Routing.Stats.{StatsRepo, Shared}
use payment_orchestration_la.Routing.Engine.{
  redis, stats_write, cool_down, look_at, look_at_all, get_ranked_gateways, record_success,
  record_failure,
}
use payment_orchestration_la.Async.{Task, await, give, ◌>>=◌, ◌>>◌}
use payment_orchestration_la.Async.Alone.{
  Does, Does-await, Does-give, Does-bind, Does-if, Does-elim,
}

module _ (S : StatsRepo) (C : RedisClient) where
  abbrev Do : Type 0 → Type 0
  Do A = Task (Shared S C) Exception A

  unfoldable pub cool_down_task : GatewayStats → Do GatewayStats
  cool_down_task stats = do
    is_tripped ← await (redis S C (redis_get C (circuit stats.gateway)))
    elim is_tripped [
      | none ↦
          await (stats_write S C (S.save (after_cooldown stats))) >> give (after_cooldown stats)
      | some v ↦ give stats
    ]

  unfoldable pub look_at_task : GatewayStats → Do GatewayStats
  unfolding cool_down_task
  look_at_task stats = if is_open stats.circuit_state then cool_down_task stats else give stats

  unfoldable pub look_at_all_task : List GatewayStats → Do (List GatewayStats)
  unfolding look_at_task
  look_at_all_task [] = give []
  look_at_all_task (stats ∷ rest) = do
    looked ← look_at_task stats
    others ← look_at_all_task rest
    give (looked ∷ others)

  look_at-Does : (stats : GatewayStats) → Does (look_at_task stats) (look_at S C stats)
  unfolding look_at_task look_at cool_down_task cool_down
  look_at-Does stats =
      Does-if _
        (Does-bind (Does-await _)
          λ o. Does-elim o (Does-bind (Does-await _) λ u. Does-give _) (λ v. Does-give _))
        (Does-give _)

  look_at_all-Does :
      (rows : List GatewayStats) → Does (look_at_all_task rows) (look_at_all S C rows)
  unfolding look_at_all_task look_at_all
  look_at_all-Does [] = Does-give _
  look_at_all-Does (row ∷ rows) =
      Does-bind (look_at-Does row) λ looked. Does-bind (look_at_all-Does rows) λ others. Does-give _

module _ (S : StatsRepo) (C : RedisClient) (R : Double) where
  unfoldable pub ranked_task : Env → ℕ → Task (Shared S C) Exception (List GatewayProvider)
  unfolding look_at_all_task
  ranked_task env amount = do
    rows ← await (gets (λ s. S.find s.stats))
    looked ← look_at_all_task S C (keep (routable env) rows)
    give (rank R (map (candidate R amount) looked))

  unfoldable pub success_task : GatewayProvider → ℕ → Task (Shared S C) Exception (Unit {0})
  success_task gateway latency = do
    found ← await (gets (λ s. S.find_one gateway s.stats))
    elim found [
      | none ↦ give tt
      | some stats ↦ do
        (if is_closed stats.circuit_state
            then give tt
            else (await (redis S C (redis_del C (circuit gateway))) >> give tt))
        await (stats_write S C (S.save (after_success R latency stats)))
    ]

  unfoldable pub failure_task : GatewayProvider → ℕ → Task (Shared S C) Exception (Unit {0})
  failure_task gateway latency = do
    found ← await (gets (λ s. S.find_one gateway s.stats))
    elim found [
      | none ↦ give tt
      | some stats ↦ do
        (if trips (counted_failure R latency stats)
            then (await
                  (redis S C (redis_set C (circuit gateway) (text "open") none (some ex) (some 30)))
                >> give tt)
            else give tt)
        await (stats_write S C (S.save (after_failure R latency stats)))
    ]

  pub ranked-Does :
      (env : Env) (amount : ℕ)
      → Does (ranked_task env amount) (get_ranked_gateways S C R env amount)
  unfolding ranked_task get_ranked_gateways
  ranked-Does env amount =
      Does-bind (Does-await _) λ rows. Does-bind (look_at_all-Does S C _) λ looked. Does-give _

  pub success-Does :
      (g : GatewayProvider) (latency : ℕ)
      → Does (success_task g latency) (record_success S C R g latency)
  unfolding success_task record_success
  success-Does g latency = Does-bind (Does-await _) λ o. Does-elim o (Does-give _) λ stats.
      Does-bind (Does-if _ (Does-give _) (Does-bind (Does-await _) λ n. Does-give _))
        λ u. Does-await _

  pub failure-Does :
      (g : GatewayProvider) (latency : ℕ)
      → Does (failure_task g latency) (record_failure S C R g latency)
  unfolding failure_task record_failure
  failure-Does g latency = Does-bind (Does-await _) λ o. Does-elim o (Does-give _) λ stats.
      Does-bind (Does-if _ (Does-bind (Does-await _) λ n. Does-give _) (Does-give _))
        λ u. Does-await _
