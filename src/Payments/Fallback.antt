-- ===== src/Payments/Fallback.antt =====
-- The calls of the payment service leave Redis in fallback mode.
use payment_orchestration_la.Common.{List, [], ◌∷◌, arith}
use payment_orchestration_la.Common.Effect.Keeps.{
  Keeps, Ends-any, Keeps-bind, Keeps-pure, Keeps-gets, Keeps-if, Keeps-elim,
}
use payment_orchestration_la.Enums.{GatewayProvider}
use payment_orchestration_la.Entities.{GatewayStats}
use payment_orchestration_la.Database.{Exception}
use payment_orchestration_la.Double.{Double}
use payment_orchestration_la.Redis.{
  RedisClient, RedisService, redis_get, redis_set, redis_del, mock_get, mock_set, mock_del,
}
use payment_orchestration_la.Redis.Store.{RedisKey, Stored}
use payment_orchestration_la.Redis.Mock.{IsMock}
use payment_orchestration_la.Routing.Config.{Env}
use payment_orchestration_la.Routing.Stats.{StatsRepo, Shared}
use payment_orchestration_la.Routing.Engine.{
  redis, stats_write, cool_down, look_at, look_at_all, get_ranked_gateways, record_success,
  record_failure,
}

module _ (S : StatsRepo) (C : RedisClient) where
  abbrev pub SharedMock : Shared S C → Type 0
  SharedMock s = IsMock C s.redis

  -- calls that stay in fallback mode
  abbrev pub Stays : {A : Type 0} → (RedisService C → A × RedisService C) → Type 0
  Stays call = (s : RedisService C) → IsMock C s → IsMock C (call s).1

  pub get-Stays : (k : RedisKey) → Stays (redis_get C k)
  unfolding redis_get mock_get
  get-Stays k s mock = ground arith

  pub set-Stays :
      (k : RedisKey) (v : Stored) (m : _) (d : _) (n : _) → Stays (redis_set C k v m d n)
  unfolding redis_set mock_set
  set-Stays k v m d n s mock = ground arith

  pub del-Stays : (k : RedisKey) → Stays (redis_del C k)
  unfolding redis_del mock_del
  del-Stays k s mock = ground arith

  redis-Keeps :
      {A : Type 0} (call : RedisService C → A × RedisService C)
      → Stays call
      → Keeps {X = Exception} SharedMock (redis S C call)
  unfolding redis
  redis-Keeps call h = record { kept = λ s mock. record { holds = h s.redis mock } }

  write-Keeps : (m : _) → Keeps {X = Exception} SharedMock (stats_write S C m)
  unfolding stats_write
  write-Keeps m = record { kept = λ s mock. Ends-any (m s.stats).0 _ mock }

  look-Keeps : (rows : List GatewayStats) → Keeps {X = Exception} SharedMock (look_at_all S C rows)
  unfolding look_at_all look_at cool_down
  look-Keeps [] = Keeps-pure _
  look-Keeps (row ∷ rest) =
      Keeps-bind _ _
        (Keeps-if _ _ _
          (Keeps-bind _ _ (redis-Keeps _ (get-Stays _)) λ o.
            Keeps-elim o _ _ (Keeps-bind _ _ (write-Keeps _) λ u. Keeps-pure _) (λ v. Keeps-pure _))
          (Keeps-pure _))
        λ looked. Keeps-bind _ _ (look-Keeps rest) λ others. Keeps-pure _

  pub ranked-Keeps :
      (R : Double) (env : Env) (amount : _)
      → Keeps {X = Exception} SharedMock (get_ranked_gateways S C R env amount)
  unfolding get_ranked_gateways
  ranked-Keeps R env amount =
      Keeps-bind _ _ (Keeps-gets _) λ rows. Keeps-bind _ _ (look-Keeps _) λ looked. Keeps-pure _

  pub success-Keeps :
      (R : Double) (g : GatewayProvider) (latency : _)
      → Keeps {X = Exception} SharedMock (record_success S C R g latency)
  unfolding record_success
  success-Keeps R g latency = Keeps-bind _ _ (Keeps-gets _) λ found.
      Keeps-elim found _ _ (Keeps-pure _) λ row.
        Keeps-bind _ _
          (Keeps-if _ _ _ (Keeps-pure _)
            (Keeps-bind _ _ (redis-Keeps _ (del-Stays _)) λ n. Keeps-pure _))
          λ u. write-Keeps _

  pub failure-Keeps :
      (R : Double) (g : GatewayProvider) (latency : _)
      → Keeps {X = Exception} SharedMock (record_failure S C R g latency)
  unfolding record_failure
  failure-Keeps R g latency = Keeps-bind _ _ (Keeps-gets _) λ found.
      Keeps-elim found _ _ (Keeps-pure _) λ row.
        Keeps-bind _ _
          (Keeps-if _ _ _ (Keeps-bind _ _ (redis-Keeps _ (set-Stays _ _ _ _ _)) λ n. Keeps-pure _)
            (Keeps-pure _))
          λ u. write-Keeps _
