-- ===== src/Payments/Tasks/Locking.antt =====
-- The lock of an idempotency key while requests interleave, with Redis in fallback mode.
use payment_orchestration_la.Common.{ℕ, String, ◌≡◌, refl, none, some, List, [], ◌∷◌}
use payment_orchestration_la.Common.Effect.{Action, gets, pure, ◌>>=◌}
use payment_orchestration_la.Enums.{GatewayProvider}
use payment_orchestration_la.Entities.{Transaction, GatewayStats}
use payment_orchestration_la.Database.{Exception}
use payment_orchestration_la.Redis.{RedisClient, RedisService, ex}
use payment_orchestration_la.Redis.Lock.{read, write, remove, step}
use payment_orchestration_la.Redis.Quiet.{Fallen, Taken, call-Quiet, same-Quiet}
use payment_orchestration_la.Redis.Store.{idempotency, circuit, completed, text}
use payment_orchestration_la.Routing.Engine.{redis, stats_write}
use payment_orchestration_la.Double.{Double}
use payment_orchestration_la.Routing.Config.{Env}
use payment_orchestration_la.Routing.Stats.{StatsRepo, Shared}
use payment_orchestration_la.Routing.Tasks.{
  cool_down_task, look_at_task, look_at_all_task, ranked_task, success_task, failure_task,
}
use payment_orchestration_la.Payments.World.{System, World, on_db, on_shared, call_adapter}
use payment_orchestration_la.Payments.Service.{on_redis, cache_completed, move}
use payment_orchestration_la.Payments.Tasks.{shared_part}
use payment_orchestration_la.Payments.Tasks.Each.{Each}
use payment_orchestration_la.Async.{Task, await}
use payment_orchestration_la.Async.Rules.{
  Guarantee, Steps, Steps-await, Steps-give, Steps-bind, Steps-if, Steps-elim,
}
use payment_orchestration_la.Async.Lens.{zoom, Steps-zoom}
use payment_orchestration_la.Async.Locks.{Quiet}

module _ (S : StatsRepo) (C : RedisClient) where
  abbrev shared_redis : Shared S C → RedisService C
  shared_redis s = s.redis

  abbrev Q : Guarantee (Shared S C)
  Q = Quiet (Fallen C shared_redis) (Taken C shared_redis)

  reading-Quiet : {A : Type 0} (f : Shared S C → A) → Steps {X = Exception} Q (await (gets f))
  unfolding gets
  reading-Quiet f = Steps-await _ λ s. same-Quiet C shared_redis s s refl

  saving-Quiet : (m : Action S.State Exception (Unit {0})) → Steps Q (await (stats_write S C m))
  unfolding stats_write
  saving-Quiet m = Steps-await _ λ s. same-Quiet C shared_redis s _ refl

  look_at-Quiet : (row : GatewayStats) → Steps Q (look_at_task S C row)
  unfolding look_at_task cool_down_task redis step
  look_at-Quiet row =
      Steps-if _
        (Steps-bind
          (Steps-await _
            λ s. call-Quiet C shared_redis (read (circuit row.gateway)) s _ (λ k. tt) refl)
          λ o. Steps-elim o (Steps-bind (saving-Quiet _) λ u. Steps-give _) λ v. Steps-give _)
        (Steps-give _)

  look_at_all-Quiet : (rows : List GatewayStats) → Steps Q (look_at_all_task S C rows)
  unfolding look_at_all_task
  look_at_all-Quiet [] = Steps-give _
  look_at_all-Quiet (row ∷ rows) =
      Steps-bind (look_at-Quiet row) λ r. Steps-bind (look_at_all-Quiet rows) λ rs. Steps-give _

  module _ (R : Double) where
    ranked-Quiet : (env : Env) (amount : ℕ) → Steps Q (ranked_task S C R env amount)
    unfolding ranked_task
    ranked-Quiet env amount =
        Steps-bind (reading-Quiet _) λ rows. Steps-bind (look_at_all-Quiet _) λ r. Steps-give _

    success-Quiet : (g : GatewayProvider) (n : ℕ) → Steps Q (success_task S C R g n)
    unfolding success_task redis step
    success-Quiet g n = Steps-bind (reading-Quiet _) λ o. Steps-elim o (Steps-give _) λ row.
        Steps-bind
          (Steps-if _ (Steps-give _) (
            Steps-bind
              (Steps-await _
                λ s. call-Quiet C shared_redis (remove (circuit g)) s _ (λ k. refl) refl)
              λ d. Steps-give _))
          λ u. saving-Quiet _

    failure-Quiet : (g : GatewayProvider) (n : ℕ) → Steps Q (failure_task S C R g n)
    unfolding failure_task redis step
    failure-Quiet g n = Steps-bind (reading-Quiet _) λ o. Steps-elim o (Steps-give _) λ row.
        Steps-bind
          (Steps-if _
            (Steps-bind
              (Steps-await _ λ s.
                call-Quiet C shared_redis (write (circuit g) (text "open") none (some ex) (some 30))
                  s _ (λ k. tt) refl)
              λ d. Steps-give _)
            (Steps-give _))
          λ u. saving-Quiet _

module _ (Y : System) where
  abbrev pub world_redis : World Y → RedisService Y.client
  world_redis w = w.shared.redis

  abbrev pub M : World Y → Type 0
  M = Fallen Y.client world_redis

  abbrev pub L : String → World Y → Type 0
  L = Taken Y.client world_redis

  untouched :
      {A : Type 0} (m : Action (World Y) Exception A)
      → ((w : World Y) → (m w).1.shared.redis ≡ w.shared.redis)
      → Steps (Quiet M L) (await m)
  untouched m e = Steps-await _ λ w. same-Quiet Y.client world_redis w _ (e w)

  -- the part that works on the statistics and on Redis
  zoomed-Quiet :
      {A : Type 0} {t : Task (Shared Y.stats Y.client) Exception A}
      → Steps (Q Y.stats Y.client) t
      → Steps (Quiet M L) (zoom (shared_part Y) t)
  zoomed-Quiet h =
      Steps-zoom _ (λ l w s q. record { free = q.free; mode = q.mode; locks = q.locks }) h

  caching-Quiet :
      (key : String) (t : Transaction) → Steps (Quiet M L) (await (cache_completed Y key t))
  unfolding cache_completed on_redis on_shared redis step ◌>>=◌ pure
  caching-Quiet key t = Steps-await _ λ w.
      call-Quiet Y.client world_redis
        (write (idempotency key) (completed t) none (some ex) (some 86400)) w _ (λ k. tt) refl

  pub Each-Quiet : Each Y (Quiet M L)
  unfolding on_db move call_adapter gets
  Each-Quiet = record {
    reads = λ f. untouched _ λ w. refl;
    moves = λ id to md. untouched _ λ w. refl;
    inserts = λ t. untouched _ λ w. refl;
    logs = λ e. untouched _ λ w. refl;
    charges = λ c. untouched _ λ w. refl;
    ranks = λ amount. zoomed-Quiet (ranked-Quiet _ _ _ _ _);
    successes = λ g n. zoomed-Quiet (success-Quiet _ _ _ g n);
    failures = λ g n. zoomed-Quiet (failure-Quiet _ _ _ g n);
    caches = caching-Quiet;
  }
