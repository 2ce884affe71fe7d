-- ===== src/Webhooks/Tasks/Each.antt =====
-- The awaits of a webhook and of a round of the worker: what each of their calls does, each await
-- of them does.
use payment_orchestration_la.Async.Lens.{zoom}
use payment_orchestration_la.Async.{await}
use payment_orchestration_la.Common.Effect.{gets}
use payment_orchestration_la.Common.{ℕ, String, Option, none, some}
use payment_orchestration_la.Enums.{GatewayProvider}
use payment_orchestration_la.Json.{Json}
use payment_orchestration_la.Entities.{Transaction, WebhookEvent}
use payment_orchestration_la.Database.{Exception, Database}
use payment_orchestration_la.Redis.{RedisClient}
use payment_orchestration_la.Redis.Store.{Stored, text, processing_mark, completed}
use payment_orchestration_la.Routing.Config.{Env}
use payment_orchestration_la.Webhooks.Events.{EventRepo, Inbox}
use payment_orchestration_la.Webhooks.Intake.{insert, push_event}
use payment_orchestration_la.Webhooks.Signature.{Crypto}
use payment_orchestration_la.Webhooks.Endpoints.{HookRequest}
use payment_orchestration_la.Webhooks.Worker.{mark, next_item}
use payment_orchestration_la.Webhooks.Tasks.{
  drive_to_reconciled_task, txns_part, store_and_queue_task, ingest_task, hook_task, reconcile_task,
  process_event_task, item_task, round_task,
}
use payment_orchestration_la.Async.Rules.{
  Guarantee, Steps, Steps-give, Steps-fail, Steps-bind, Steps-rescue, Steps-if, Steps-elim,
}

-- Every call that a webhook makes is as `R` says.
pub record EachHook (D : Database) (E : EventRepo) (C : RedisClient) (R : Guarantee (Inbox D E C))
    : Type 0 where
  pub inserts : (e : WebhookEvent) → Steps R (await (insert D E C e))
  pub pushes : (id : String) → Steps R (await (push_event D E C id))

-- Every call that a round of the worker makes is as `R` says.
pub record EachRound (D : Database) (E : EventRepo) (C : RedisClient) (now : ℕ)
    (as_text : Json → String) (R : Guarantee (Inbox D E C)) : Type 1 where
  pub reads : {A : Type 0} (f : Inbox D E C → A) → Steps {X = Exception} R (await (gets f))
  pub takes : Steps R (await (next_item D E C now as_text))
  pub marks : (e : WebhookEvent) → Steps R (await (mark D E C now as_text e))
  pub drives :
      (t : Transaction) (g : GatewayProvider) (gid : String) (raw : Json)
      → Steps R (zoom (txns_part D E C) (drive_to_reconciled_task D now t g gid raw))

module _ (D : Database) (E : EventRepo) (C : RedisClient) (R : Guarantee (Inbox D E C)) where
  pub hook-Each :
      EachHook D E C R
      → (as_text : Json → String) (X : Crypto) (env : Env) (g : GatewayProvider) (r : HookRequest)
      → Steps R (hook_task D E C as_text X env g r)
  unfolding hook_task ingest_task store_and_queue_task
  hook-Each each as_text X env g r = Steps-if _ (Steps-give _) (
      Steps-bind
        (Steps-rescue
          (Steps-bind (each.inserts _) λ d. Steps-bind (each.pushes _) λ u. Steps-give _)
          λ x. Steps-if _ (Steps-give _) (Steps-fail _))
        λ d. Steps-give _)

  module _ (now : ℕ) (as_text : Json → String) (each : EachRound D E C now as_text R) where
    reconcile-Each :
        (e : WebhookEvent) (o : Option Json) → Steps R (reconcile_task D E C now as_text e o)
    unfolding reconcile_task
    reconcile-Each e none = each.marks _
    reconcile-Each e (some g) =
        Steps-if _
          (Steps-bind (each.reads _) λ o.
            Steps-elim o (each.marks _) λ t. Steps-bind (each.drives t _ _ _) λ u. each.marks _)
          (each.marks _)

    item-Each : (o : Option Stored) → Steps R (item_task D E C now as_text o)
    unfolding item_task process_event_task
    item-Each none = Steps-give _
    item-Each (some (text id)) =
        Steps-bind (each.reads _)
          λ o. Steps-elim o (Steps-give _) λ e. Steps-if _ (Steps-give _) (reconcile-Each e _)
    item-Each (some processing_mark) = Steps-give _
    item-Each (some (completed t)) = Steps-give _

    pub round-Each : Steps R (round_task D E C now as_text)
    unfolding round_task
    round-Each = Steps-bind each.takes item-Each
