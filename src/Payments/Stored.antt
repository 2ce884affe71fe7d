-- ===== src/Payments/Stored.antt =====
-- A request whose key Redis has lost, while the database still has the row.
use payment_orchestration_la.Common.{◌≡◌, refl, true, none, some, arith, ap, ◌∙◌}
use payment_orchestration_la.Common.Effect.{ok, pure, ◌>>=◌}
use payment_orchestration_la.Common.Effect.Rules.{
  Ends, Never, Ends-bind_known, Ends-catch, Ends-mono, gets_lem,
}
use payment_orchestration_la.Entities.{Transaction}
use payment_orchestration_la.Redis.{nx, ex, redis_set, mock_set}
use payment_orchestration_la.Redis.Store.{
  idempotency, processing_mark, completed, get-set, key_eq_refl,
}
use payment_orchestration_la.Redis.Mock.{IsMock, held}
use payment_orchestration_la.Routing.Engine.{redis}
use payment_orchestration_la.Payments.World.{System, World, on_shared}
use payment_orchestration_la.Payments.Requests.{CreateTransactionDto}
use payment_orchestration_la.Payments.Service.{
  on_redis, cache_completed, cache_existing, execute, create,
}
use payment_orchestration_la.Payments.Lock.{take_free}

module _ (Y : System) (dto : CreateTransactionDto) where
  open Y use {database, client}

  -- The answer is this transaction, the database and the adapters have not been touched, and the
  -- answer is cached.
  pub record Replayed (t t' : Transaction) (w w' : World Y) : Type 0 where
    pub same : t' ≡ t
    pub same_db : w'.db ≡ w.db
    pub same_stats : w'.shared.stats ≡ w.shared.stats
    pub uncharged : w'.charged ≡ w.charged
    pub cached : held client (idempotency dto.idempotency_key) w'.shared.redis ≡ some (completed t)

  existing_end :
      (t : Transaction) (w : World Y)
      → IsMock client w.shared.redis
      → Ends (λ t' w'. Replayed t t' w w') Never (cache_existing Y dto t w)
  unfolding cache_existing cache_completed on_redis on_shared redis redis_set mock_set pure ◌>>=◌
  existing_end t w mock = record {
    holds = record {
      same = refl;
      same_db = refl;
      same_stats = refl;
      uncharged = refl;
      cached = ground (
        arith,
        get-set (idempotency dto.idempotency_key) (idempotency dto.idempotency_key) (completed t)
            w.shared.redis.mock_store,
        key_eq_refl (idempotency dto.idempotency_key),
      );
    };
  }

  -- A request, with Redis in fallback mode and without its key, for whose key the database has a
  -- row in any state: the answer is that row as it is, it is cached, no gateway is charged, and the
  -- database and the statistics are as they were.
  pub create_stored :
      (t : Transaction) (w : World Y)
      → IsMock client w.shared.redis
      → held client (idempotency dto.idempotency_key) w.shared.redis ≡ none
      → database.find_txn_by_key dto.idempotency_key w.db ≡ some t
      → Ends (λ t' w'. Replayed t t' w w') Never (create Y dto w)
  unfolding create execute on_redis on_shared redis
  create_stored t w mock free found =
      let taken = take_free Y dto w mock free in
      let w₁ =
        (on_redis Y
          (redis_set client (idempotency dto.idempotency_key) processing_mark (some nx) (some ex)
            (some 10))
          w).1 in
      Ends-bind_known _ _ w w₁ true (ap (λ r. (r, w₁)) taken.0) (
        Ends-catch Never _ _ w₁
          (Ends-bind_known _ _ w₁ w₁ (some t) (gets_lem _ w₁ ∙ ap (λ o. (ok o, w₁)) found) (
            Ends-mono _ (existing_end t w₁ taken.1)
              (λ t' w' e r. record {
                same = r.same;
                same_db = r.same_db;
                same_stats = r.same_stats;
                uncharged = r.uncharged;
                cached = r.cached;
              })
              (λ x s e never. never)))
          (λ x s never. absurd never))
