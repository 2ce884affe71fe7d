-- ===== src/Payments/Tasks.antt =====
-- `create` of transactions/transactions.service.ts, await by await. What follows the acquisition of
-- the lock, up to the last statement of the `catch`, is done while the lock is held.
pub mod Alone
pub mod Keeping
pub mod Each
pub mod Locking
pub mod Exclusion
use payment_orchestration_la.Common.{
  ℕ, String, Bool, true, false, Option, none, some, List, [], ◌∷◌, refl, if◌then◌else◌, str_eq,
}
use payment_orchestration_la.Common.Effect.{gets, or_throw}
use payment_orchestration_la.Enums.{
  TransactionState, routed, processing, retry_pending, success, failed, GatewayProvider,
}
use payment_orchestration_la.Entities.{Transaction}
use payment_orchestration_la.Database.{Exception, bad_request, conflict, service_unavailable, other}
use payment_orchestration_la.Redis.{nx, ex, redis_get, redis_set, redis_del}
use payment_orchestration_la.Redis.Store.{idempotency, Stored, processing_mark, completed, text}
use payment_orchestration_la.Routing.Stats.{Shared}
use payment_orchestration_la.Routing.Tasks.{ranked_task, success_task, failure_task}
use payment_orchestration_la.StateMachine.{Metadata}
use payment_orchestration_la.Payments.Charge.{GatewayChargeResponse, race, latency_of}
use payment_orchestration_la.Payments.World.{System, World, on_db, call_adapter}
use payment_orchestration_la.Payments.Requests.{
  CreateTransactionDto, new_transaction, creation_entry, routed_metadata, processing_metadata,
  success_metadata, retry_metadata, failure_metadata, charge_request,
}
use payment_orchestration_la.Payments.Service.{on_redis, cache_completed, move}
use payment_orchestration_la.Payments.Controller.{with_header}
use payment_orchestration_la.Async.{Task, await, give, fail, ◌>>=◌, ◌>>◌, rescue, within}
use payment_orchestration_la.Async.Lens.{Part, zoom}

module _ (Y : System) where
  open Y use {database, stats, client, double, env, outside}

  abbrev Do : Type 0 → Type 0
  Do A = Task (World Y) Exception A

  -- what the routing engine works on
  abbrev pub shared_part : Part (World Y) (Shared stats client)
  shared_part = record {
    get = λ w. w.shared;
    put = λ s w. record w { shared = s };
    get-put = λ s w. refl;
    put-get = λ w. refl;
    put-put = λ s s' w. refl;
  }

  unfoldable pub attempt_task :
      CreateTransactionDto → String → GatewayProvider → Do (GatewayChargeResponse × ℕ)
  attempt_task dto id gateway = do
    await (move Y id routed (routed_metadata gateway))
    await (move Y id processing (processing_metadata gateway))
    await (call_adapter Y (gateway, charge_request dto id gateway))
    give (race outside gateway (charge_request dto id gateway))

  unfoldable pub finish_success_task :
      CreateTransactionDto → String → GatewayProvider → GatewayChargeResponse × ℕ → Do Transaction
  finish_success_task dto id gateway answer = do
    updated ← await (move Y id success (success_metadata gateway answer.0))
    zoom shared_part (success_task stats client double gateway (latency_of answer))
    await (cache_completed Y dto.idempotency_key updated)
    give updated

  unfoldable pub finish_failed_task :
      CreateTransactionDto → String → GatewayProvider → GatewayChargeResponse × ℕ → Do Transaction
  finish_failed_task dto id gateway answer = do
    updated ← await (move Y id failed (failure_metadata gateway answer.0))
    await (cache_completed Y dto.idempotency_key updated)
    give updated

  unfoldable pub settle_task :
      CreateTransactionDto
      → String
      → GatewayProvider
      → (GatewayChargeResponse × ℕ → Do Transaction)
      → GatewayChargeResponse × ℕ
      → Do Transaction
  unfolding finish_success_task
  settle_task dto id gateway on_failure answer =
      if answer.0.success
      then finish_success_task dto id gateway answer
      else (zoom shared_part (failure_task stats client double gateway (latency_of answer))
          >> on_failure answer)

  unfoldable pub attempts_task :
      CreateTransactionDto → String → GatewayProvider → List GatewayProvider → Do Transaction
  unfolding attempt_task settle_task finish_failed_task
  attempts_task dto id gateway [] =
      attempt_task dto id gateway >>= settle_task dto id gateway (finish_failed_task dto id gateway)
  attempts_task dto id gateway (next ∷ rest) =
      let others = attempts_task dto id next rest in
      attempt_task dto id gateway
      >>= settle_task dto id gateway
          λ answer. await (move Y id retry_pending (retry_metadata gateway answer.0)) >> others

  unfoldable pub create_with_task : CreateTransactionDto → List GatewayProvider → Do Transaction
  unfolding attempts_task
  create_with_task dto [] =
      fail (service_unavailable "No payment gateways are currently configured in the environment.")
  create_with_task dto (primary ∷ fallbacks) = do
    saved ← await (on_db Y (database.insert_txn (new_transaction dto primary fallbacks)))
    await (on_db Y (database.insert_audit (creation_entry saved.id primary)))
    attempts_task dto saved.id primary fallbacks

  unfoldable pub existing_task : CreateTransactionDto → Transaction → Do Transaction
  existing_task dto existing =
      await (cache_completed Y dto.idempotency_key existing) >> give existing

  -- The body of the `try`.
  unfoldable pub execute_task : CreateTransactionDto → Do Transaction
  unfolding existing_task create_with_task
  execute_task dto = do
    existing ← await (gets (λ w. database.find_txn_by_key dto.idempotency_key w.db))
    elim existing [
      | none ↦
          zoom shared_part (ranked_task stats client double env dto.amount) >>= create_with_task dto
      | some t ↦ existing_task dto t
    ]

  unfoldable pub replay_task : CreateTransactionDto → Option Stored → Do Transaction
  unfolding existing_task
  replay_task dto (some processing_mark) =
      fail (conflict "Payment request is already processing. Please try again shortly.")
  replay_task dto (some (completed t)) = give t
  replay_task dto (some (text s)) = fail (other "SyntaxError")
  replay_task dto none = do
    existing ← await (gets (λ w. database.find_txn_by_key dto.idempotency_key w.db))
    elim existing [
      | none ↦ fail (conflict "Payment request is already processing.")
      | some t ↦ existing_task dto t
    ]

  -- The `catch`.
  unfoldable pub release_task : CreateTransactionDto → Exception → Do Transaction
  release_task dto error =
      await (on_redis Y (redis_del client (idempotency dto.idempotency_key))) >>= λ n. fail error

  -- What follows the attempt to take the lock.
  unfoldable pub locked_task : CreateTransactionDto → Bool → Do Transaction
  unfolding execute_task release_task replay_task
  locked_task dto true = within dto.idempotency_key (rescue (execute_task dto) (release_task dto))
  locked_task dto false =
      await (on_redis Y (redis_get client (idempotency dto.idempotency_key))) >>= replay_task dto

  unfoldable pub create_task : CreateTransactionDto → Do Transaction
  unfolding locked_task
  create_task dto =
      await (
        on_redis Y (
          redis_set client (idempotency dto.idempotency_key) processing_mark (some nx) (some ex)
            (some 10)))
      >>= locked_task dto

  unfoldable pub post_payment_task : CreateTransactionDto → Option String → Do Transaction
  unfolding create_task with_header
  post_payment_task dto header =
      let keyed = with_header header dto in
      if str_eq keyed.idempotency_key ""
      then fail (bad_request "Idempotency-Key header or idempotencyKey body field is required")
      else create_task keyed
