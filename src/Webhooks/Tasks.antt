-- ===== src/Webhooks/Tasks.antt =====
-- `ingest` of webhooks/webhooks.service.ts, the handlers of webhooks/webhooks.controller.ts and the
-- methods of webhooks/reconciliation-worker.service.ts, await by await.
pub mod Alone
pub mod Keeping
pub mod Each
pub mod Locking
use payment_orchestration_la.Common.{
  ℕ, String, true, false, Option, none, some, refl, if◌then◌else◌, not,
}
use payment_orchestration_la.Common.Effect.{gets}
use payment_orchestration_la.Enums.{
  TransactionState, initiated, routed, processing, retry_pending, success, reconciled,
  GatewayProvider, state_eq,
}
use payment_orchestration_la.Json.{Json, truthy}
use payment_orchestration_la.Entities.{Transaction, WebhookEvent}
use payment_orchestration_la.Database.{Database, Exception}
use payment_orchestration_la.Redis.{RedisClient}
use payment_orchestration_la.Redis.Store.{Stored, text, processing_mark, completed}
use payment_orchestration_la.StateMachine.{Metadata, transition}
use payment_orchestration_la.Routing.Config.{Env}
use payment_orchestration_la.Webhooks.Events.{EventRepo, Inbox}
use payment_orchestration_la.Webhooks.Payload.{extract_gateway_txn_id}
use payment_orchestration_la.Webhooks.Intake.{
  IncomingWebhook, Ingested, new_event, is_unique_violation, insert, push_event,
}
use payment_orchestration_la.Webhooks.Signature.{Crypto}
use payment_orchestration_la.Webhooks.Endpoints.{
  HookRequest, Reply, rejected, accepted, event_of, verified_by,
}
use payment_orchestration_la.Webhooks.Worker.{
  reroute, auto_attempt, auto_success, completion, mark, find_for, next_item,
}
use payment_orchestration_la.Async.{Task, await, give, fail, ◌>>=◌, ◌>>◌, rescue}
use payment_orchestration_la.Async.Lens.{Part, zoom}

module _ (D : Database) (now : ℕ) where
  -- Each call of the state machine is one transaction of the database, with the row locked.
  unfoldable pub when_in_task :
      TransactionState
      → String
      → TransactionState
      → Metadata
      → TransactionState
      → Task D.Db Exception TransactionState
  when_in_task from id to metadata state =
      if state_eq state from
      then (await (transition D now id to metadata) >>= λ updated. give updated.current_state)
      else give state

  unfoldable pub drive_from_task :
      String
      → GatewayProvider
      → String
      → Json
      → TransactionState
      → Task D.Db Exception TransactionState
  unfolding when_in_task
  drive_from_task id gateway gateway_txn_id raw state = do
    s₁ ←
        when_in_task initiated id routed (reroute gateway "Webhook reconciliation auto-routing")
          state
    s₂ ←
        when_in_task retry_pending id routed
          (reroute gateway "Webhook reconciliation auto-routing after retry") s₁
    s₃ ← when_in_task routed id processing (auto_attempt gateway) s₂
    s₄ ← when_in_task processing id success (auto_success gateway gateway_txn_id raw) s₃
    when_in_task success id reconciled (completion gateway raw) s₄

  unfoldable pub drive_to_reconciled_task :
      Transaction → GatewayProvider → String → Json → Task D.Db Exception (Unit {0})
  unfolding drive_from_task
  drive_to_reconciled_task txn gateway gateway_txn_id raw =
      if state_eq txn.current_state reconciled
      then give tt
      else (drive_from_task txn.id gateway gateway_txn_id raw txn.current_state >> give tt)

module _ (D : Database) (E : EventRepo) (C : RedisClient) where
  abbrev Do : Type 0 → Type 0
  Do A = Task (Inbox D E C) Exception A

  -- what the state machine works on
  abbrev pub txns_part : Part (Inbox D E C) D.Db
  txns_part = record {
    get = λ w. w.db;
    put = λ s w. record w { db = s };
    get-put = λ s w. refl;
    put-get = λ w. refl;
    put-put = λ s s' w. refl;
  }

  -- The body of the `try` of `ingest`.
  unfoldable pub store_and_queue_task : IncomingWebhook → Do Ingested
  store_and_queue_task event = do
    stored ← await (insert D E C (new_event event))
    await (push_event D E C stored.id)
    give (record { duplicate = false; stored = some stored })

  unfoldable pub ingest_task : IncomingWebhook → Do Ingested
  unfolding store_and_queue_task
  ingest_task event = rescue (store_and_queue_task event) λ x.
      if is_unique_violation x then give (record { duplicate = true; stored = none }) else fail x

  module _ (as_text : Json → String) (X : Crypto) (env : Env) where
    unfoldable pub hook_task : GatewayProvider → HookRequest → Do Reply
    unfolding ingest_task
    hook_task gateway r =
        if not (verified_by X env gateway r)
        then give rejected
        else (ingest_task (event_of as_text gateway r.body (verified_by X env gateway r))
            >>= λ result. give (accepted result.duplicate))

  module _ (now : ℕ) (as_text : Json → String) where
    unfoldable pub reconcile_task : WebhookEvent → Option Json → Do (Unit {0})
    unfolding drive_to_reconciled_task
    reconcile_task event none = await (mark D E C now as_text event)
    reconcile_task event (some gateway_txn_id) =
        if truthy (some gateway_txn_id)
        then (await (gets (λ w. find_for D E C now as_text gateway_txn_id event.payload w.db))
            >>= λ txn. elim txn [
              | none ↦ await (mark D E C now as_text event)
              | some t ↦
                  zoom txns_part (
                    drive_to_reconciled_task D now t event.gateway (as_text gateway_txn_id)
                      event.payload)
                  >> await (mark D E C now as_text event)
            ])
        else await (mark D E C now as_text event)

    unfoldable pub process_event_task : String → Do (Unit {0})
    unfolding reconcile_task
    process_event_task record_id = do
      event ← await (gets (λ w. E.find_event record_id w.events))
      elim event [
        | none ↦ give tt
        | some e ↦
            if e.processed
            then give tt
            else reconcile_task e (extract_gateway_txn_id e.gateway e.payload)
      ]

    -- What the worker does with what it takes from the queue.
    unfoldable pub item_task : Option Stored → Do (Unit {0})
    unfolding process_event_task
    item_task none = give tt
    item_task (some (text record_id)) = process_event_task record_id
    item_task (some processing_mark) = give tt
    item_task (some (completed t)) = give tt

    -- The body of the `try` of `pollQueue`.
    unfoldable pub round_task : Do (Unit {0})
    unfolding item_task
    round_task = await (next_item D E C now as_text) >>= item_task
