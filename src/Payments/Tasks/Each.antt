-- ===== src/Payments/Tasks/Each.antt =====
-- The awaits of a payment request: what each of its calls does, each await of it does.
use payment_orchestration_la.Common.{ℕ, String, Option, none, some, List, [], ◌∷◌}
use payment_orchestration_la.Common.Effect.{gets}
use payment_orchestration_la.Enums.{GatewayProvider, TransactionState}
use payment_orchestration_la.Entities.{Transaction, AuditLog}
use payment_orchestration_la.Database.{Exception}
use payment_orchestration_la.Redis.Store.{Stored, processing_mark, completed, text}
use payment_orchestration_la.Routing.Tasks.{ranked_task, success_task, failure_task}
use payment_orchestration_la.StateMachine.{Metadata}
use payment_orchestration_la.Payments.Charge.{GatewayChargeResponse, GatewayChargeRequest}
use payment_orchestration_la.Payments.World.{on_db, System, World, call_adapter}
use payment_orchestration_la.Payments.Requests.{CreateTransactionDto}
use payment_orchestration_la.Payments.Service.{cache_completed, move}
use payment_orchestration_la.Payments.Tasks.{
  shared_part, attempt_task, finish_success_task, finish_failed_task, settle_task, attempts_task,
  create_with_task, existing_task, execute_task, replay_task,
}
use payment_orchestration_la.Async.{Task, await}
use payment_orchestration_la.Async.Rules.{
  Guarantee, Steps, Steps-give, Steps-fail, Steps-bind, Steps-if, Steps-elim,
}
use payment_orchestration_la.Async.Lens.{zoom}

-- Every call that a request makes, but for taking and freeing the lock, is as `R` says.
pub record Each (Y : System) (R : Guarantee (World Y)) : Type 1 where
  pub reads : {A : Type 0} (f : World Y → A) → Steps {X = Exception} R (await (gets f))
  pub moves :
      (id : String) (to : TransactionState) (md : Metadata) → Steps R (await (move Y id to md))
  pub inserts : (t : Transaction) → Steps R (await (on_db Y (Y.database.insert_txn t)))
  pub logs : (e : AuditLog) → Steps R (await (on_db Y (Y.database.insert_audit e)))
  pub charges : (c : GatewayProvider × GatewayChargeRequest) → Steps R (await (call_adapter Y c))
  pub ranks :
      (amount : ℕ)
      → Steps R (zoom (shared_part Y) (ranked_task Y.stats Y.client Y.double Y.env amount))
  pub successes :
      (g : GatewayProvider) (latency : ℕ)
      → Steps R (zoom (shared_part Y) (success_task Y.stats Y.client Y.double g latency))
  pub failures :
      (g : GatewayProvider) (latency : ℕ)
      → Steps R (zoom (shared_part Y) (failure_task Y.stats Y.client Y.double g latency))
  pub caches : (key : String) (t : Transaction) → Steps R (await (cache_completed Y key t))

module _ (Y : System) (R : Guarantee (World Y)) (each : Each Y R) (dto : CreateTransactionDto) where
  attempt-Each : (id : String) (g : GatewayProvider) → Steps R (attempt_task Y dto id g)
  unfolding attempt_task
  attempt-Each id g =
      Steps-bind (each.moves _ _ _)
        λ t. Steps-bind (each.moves _ _ _) λ u. Steps-bind (each.charges _) λ v. Steps-give _

  failed-Each :
      (id : String) (g : GatewayProvider) (a : GatewayChargeResponse × ℕ)
      → Steps R (finish_failed_task Y dto id g a)
  unfolding finish_failed_task
  failed-Each id g a =
      Steps-bind (each.moves _ _ _) λ t. Steps-bind (each.caches _ _) λ v. Steps-give _

  settle-Each :
      (id : String) (g : GatewayProvider)
      {f : GatewayChargeResponse × ℕ → Task (World Y) Exception Transaction}
      → ((a : GatewayChargeResponse × ℕ) → Steps R (f a))
      → (a : GatewayChargeResponse × ℕ) → Steps R (settle_task Y dto id g f a)
  unfolding settle_task finish_success_task
  settle-Each id g h a =
      Steps-if _
        (Steps-bind (each.moves _ _ _)
          λ t. Steps-bind (each.successes _ _) λ u. Steps-bind (each.caches _ _) λ v. Steps-give _)
        (Steps-bind (each.failures _ _) λ u. h a)

  attempts-Each :
      (id : String) (g : GatewayProvider) (rest : List GatewayProvider)
      → Steps R (attempts_task Y dto id g rest)
  unfolding attempts_task
  attempts-Each id g [] = Steps-bind (attempt-Each id g) (settle-Each id g (failed-Each id g))
  attempts-Each id g (next ∷ rest) =
      Steps-bind (attempt-Each id g)
        (settle-Each id g λ a. Steps-bind (each.moves _ _ _) λ t. attempts-Each id next rest)

  create_with-Each : (gs : List GatewayProvider) → Steps R (create_with_task Y dto gs)
  unfolding create_with_task
  create_with-Each [] = Steps-fail _
  create_with-Each (g ∷ gs) =
      Steps-bind (each.inserts _) λ t. Steps-bind (each.logs _) λ u. attempts-Each t.id g gs

  existing-Each : (t : Transaction) → Steps R (existing_task Y dto t)
  unfolding existing_task
  existing-Each t = Steps-bind (each.caches _ _) λ u. Steps-give _

  pub execute-Each : Steps R (execute_task Y dto)
  unfolding execute_task
  execute-Each =
      Steps-bind (each.reads _)
        λ o. Steps-elim o (Steps-bind (each.ranks _) create_with-Each) existing-Each

  pub replay-Each : (o : Option Stored) → Steps R (replay_task Y dto o)
  unfolding replay_task
  replay-Each (some processing_mark) = Steps-fail _
  replay-Each (some (completed t)) = Steps-give _
  replay-Each (some (text s)) = Steps-fail _
  replay-Each none = Steps-bind (each.reads _) λ o. Steps-elim o (Steps-fail _) existing-Each
