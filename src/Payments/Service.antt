-- ===== src/Payments/Service.antt =====
-- transactions/transactions.service.ts and transactions/transactions.controller.ts.
use payment_orchestration_la.Common.{
  ℕ, String, true, false, Option, none, some, List, [], ◌∷◌, if◌then◌else◌,
}
use payment_orchestration_la.Common.Effect.{Action, pure, throw, gets, catch, ◌>>=◌, ◌>>◌}
use payment_orchestration_la.Enums.{
  TransactionState, routed, processing, retry_pending, success, failed, GatewayProvider,
}
use payment_orchestration_la.Entities.{Transaction}
use payment_orchestration_la.Database.{Exception, conflict, service_unavailable, other}
use payment_orchestration_la.Redis.{RedisService, nx, ex, redis_get, redis_set, redis_del}
use payment_orchestration_la.Redis.Store.{idempotency, Stored, processing_mark, completed, text}
use payment_orchestration_la.Routing.Engine.{
  redis, get_ranked_gateways, record_success, record_failure,
}
use payment_orchestration_la.StateMachine.{Metadata, transition}
use payment_orchestration_la.Payments.Charge.{GatewayChargeResponse, race, latency_of}
use payment_orchestration_la.Payments.World.{System, World, on_db, on_shared, call_adapter}
use payment_orchestration_la.Payments.Requests.{
  CreateTransactionDto, new_transaction, creation_entry, routed_metadata, processing_metadata,
  success_metadata, retry_metadata, failure_metadata, charge_request,
}

module _ (Y : System) where
  open Y use {database, stats, client, double, env, outside}

  abbrev Do : Type 0 → Type 0
  Do A = Action (World Y) Exception A

  unfoldable pub on_redis : {A : Type 0} → (RedisService client → A × RedisService client) → Do A
  on_redis call = on_shared Y (redis stats client call)

  -- `redisService.set(redisKey, { status: 'completed', transaction }, undefined, 'EX', 86400)`
  unfoldable pub cache_completed : String → Transaction → Do (Unit {0})
  unfolding on_redis
  cache_completed key t =
      on_redis (redis_set client (idempotency key) (completed t) none (some ex) (some 86400))
      >>= λ done. pure tt

  unfoldable pub move : String → TransactionState → Metadata → Do Transaction
  move id to metadata = on_db Y (transition database outside.now id to metadata)

  -- The start of an attempt: to ROUTED, to PROCESSING, and the charge.
  unfoldable pub attempt :
      CreateTransactionDto → String → GatewayProvider → Do (GatewayChargeResponse × ℕ)
  unfolding move
  attempt dto id gateway = do
    move id routed (routed_metadata gateway)
    move id processing (processing_metadata gateway)
    call_adapter Y (gateway, charge_request dto id gateway)
    pure (race outside gateway (charge_request dto id gateway))

  unfoldable pub finish_success :
      CreateTransactionDto → String → GatewayProvider → GatewayChargeResponse × ℕ → Do Transaction
  unfolding move cache_completed
  finish_success dto id gateway answer = do
    updated ← move id success (success_metadata gateway answer.0)
    on_shared Y (record_success stats client double gateway (latency_of answer))
    cache_completed dto.idempotency_key updated
    pure updated

  unfoldable pub finish_failed :
      CreateTransactionDto → String → GatewayProvider → GatewayChargeResponse × ℕ → Do Transaction
  unfolding move cache_completed
  finish_failed dto id gateway answer = do
    updated ← move id failed (failure_metadata gateway answer.0)
    cache_completed dto.idempotency_key updated
    pure updated

  -- What a loop round does with the answer; `on_failure` is the branch of a failed charge, after
  -- the failure is recorded.
  unfoldable pub settle :
      CreateTransactionDto
      → String
      → GatewayProvider
      → (GatewayChargeResponse × ℕ → Do Transaction)
      → GatewayChargeResponse × ℕ
      → Do Transaction
  unfolding finish_success
  settle dto id gateway on_failure answer =
      if answer.0.success
      then finish_success dto id gateway answer
      else (on_shared Y (record_failure stats client double gateway (latency_of answer))
          >> on_failure answer)

  -- The loop of step 4, from one gateway on, with the fallbacks that are left.
  unfoldable pub run_attempts :
      CreateTransactionDto → String → GatewayProvider → List GatewayProvider → Do Transaction
  unfolding attempt settle finish_failed move
  run_attempts dto id gateway [] =
      attempt dto id gateway >>= settle dto id gateway (finish_failed dto id gateway)
  run_attempts dto id gateway (next ∷ rest) =
      let others = run_attempts dto id next rest in
      attempt dto id gateway
      >>= settle dto id gateway
          λ answer. move id retry_pending (retry_metadata gateway answer.0) >> others

  -- Steps 3 and 4, on the ranking.
  unfoldable pub create_with : CreateTransactionDto → List GatewayProvider → Do Transaction
  unfolding run_attempts
  create_with dto [] =
      throw (service_unavailable "No payment gateways are currently configured in the environment.")
  create_with dto (primary ∷ fallbacks) = do
    saved ← on_db Y (database.insert_txn (new_transaction dto primary fallbacks))
    on_db Y (database.insert_audit (creation_entry saved.id primary))
    run_attempts dto saved.id primary fallbacks

  unfoldable pub cache_existing : CreateTransactionDto → Transaction → Do Transaction
  unfolding cache_completed
  cache_existing dto existing = cache_completed dto.idempotency_key existing >> pure existing

  -- The body of the `try`.
  unfoldable pub execute : CreateTransactionDto → Do Transaction
  unfolding cache_existing create_with
  execute dto = do
    existing ← gets (λ w. database.find_txn_by_key dto.idempotency_key w.db)
    elim existing [
      | some t ↦ cache_existing dto t
      | none ↦ do
        ranked ← on_shared Y (get_ranked_gateways stats client double env dto.amount)
        create_with dto ranked
    ]

  -- The end of the branch in which the lock was not acquired and the cache has no answer.
  unfoldable pub replay_stored : CreateTransactionDto → Do Transaction
  unfolding cache_existing
  replay_stored dto = do
    existing ← gets (λ w. database.find_txn_by_key dto.idempotency_key w.db)
    elim existing [
      | some t ↦ cache_existing dto t
      | none ↦ throw (conflict "Payment request is already processing.")
    ]

  -- The branch in which the lock was not acquired, on what the key holds. No text is stored under
  -- an idempotency key; `JSON.parse` would refuse it.
  unfoldable pub replay : CreateTransactionDto → Option Stored → Do Transaction
  unfolding replay_stored
  replay dto (some processing_mark) =
      throw (conflict "Payment request is already processing. Please try again shortly.")
  replay dto (some (completed t)) = pure t
  replay dto (some (text s)) = throw (other "SyntaxError")
  replay dto none = replay_stored dto

  -- The `catch`: the lock is given back, and the error thrown again.
  unfoldable pub release : CreateTransactionDto → Exception → Do Transaction
  unfolding on_redis
  release dto error =
      on_redis (redis_del client (idempotency dto.idempotency_key)) >>= λ n. throw error

  unfoldable pub create : CreateTransactionDto → Do Transaction
  unfolding on_redis replay execute release
  create dto = do
    is_lock_acquired ← on_redis (
        redis_set client (idempotency dto.idempotency_key) processing_mark (some nx) (some ex)
          (some 10))
    elim is_lock_acquired [
      | true ↦ catch (execute dto) (release dto)
      | false ↦ on_redis (redis_get client (idempotency dto.idempotency_key)) >>= replay dto
    ]
