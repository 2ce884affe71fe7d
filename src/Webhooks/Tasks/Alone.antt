-- ===== src/Webhooks/Tasks/Alone.antt =====
-- A webhook, or a round of the worker, that runs alone does what `hook` and `poll` do.
use payment_orchestration_la.Common.{ℕ, String, Option, none, some}
use payment_orchestration_la.Common.Effect.{Action, pure}
use payment_orchestration_la.Enums.{TransactionState, GatewayProvider}
use payment_orchestration_la.Json.{Json}
use payment_orchestration_la.Entities.{Transaction, WebhookEvent}
use payment_orchestration_la.Database.{Database, Exception}
use payment_orchestration_la.Redis.{RedisClient}
use payment_orchestration_la.Redis.Store.{Stored, text, processing_mark, completed}
use payment_orchestration_la.StateMachine.{Metadata}
use payment_orchestration_la.Routing.Config.{Env}
use payment_orchestration_la.Webhooks.Events.{EventRepo, Inbox}
use payment_orchestration_la.Webhooks.Intake.{IncomingWebhook, store_and_queue, ingest}
use payment_orchestration_la.Webhooks.Signature.{Crypto}
use payment_orchestration_la.Webhooks.Endpoints.{HookRequest, receive, hook}
use payment_orchestration_la.Webhooks.Worker.{
  when_in, drive_from, drive_to_reconciled, on_txns, reconcile, process_event, poll,
}
use payment_orchestration_la.Webhooks.Tasks.{
  txns_part, when_in_task, drive_from_task, drive_to_reconciled_task, store_and_queue_task,
  ingest_task, hook_task, reconcile_task, process_event_task, item_task, round_task,
}
use payment_orchestration_la.Async.{Task, give, rescue}
use payment_orchestration_la.Async.Lens.{zoom, zoomed, Does-zoom}
use payment_orchestration_la.Async.Alone.{
  Does, Does-await, Does-give, Does-fail, Does-bind, Does-rescue, Does-if, Does-elim,
}

module _ (D : Database) (now : ℕ) where
  when_in-Does :
      (from : TransactionState) (id : String) (to : TransactionState) (md : Metadata)
      (s : TransactionState)
      → Does (when_in_task D now from id to md s) (when_in D now from id to md s)
  unfolding when_in_task when_in
  when_in-Does from id to md s = Does-if _ (Does-bind (Does-await _) λ t. Does-give _) (Does-give _)

  drive-Does :
      (t : Transaction) (g : GatewayProvider) (gid : String) (raw : Json)
      → Does (drive_to_reconciled_task D now t g gid raw) (drive_to_reconciled D now t g gid raw)
  unfolding drive_to_reconciled_task drive_from_task drive_to_reconciled drive_from
  drive-Does t g gid raw = Does-if _ (Does-give _) (
      Does-bind
        (Does-bind (when_in-Does _ _ _ _ _) λ s₁. Does-bind (when_in-Does _ _ _ _ _) λ s₂.
          Does-bind (when_in-Does _ _ _ _ _)
            λ s₃. Does-bind (when_in-Does _ _ _ _ _) λ s₄. when_in-Does _ _ _ _ _)
        λ s. Does-give _)

module _ (D : Database) (E : EventRepo) (C : RedisClient) where
  ingest-Does : (e : IncomingWebhook) → Does (ingest_task D E C e) (ingest D E C e)
  unfolding ingest_task store_and_queue_task ingest store_and_queue
  ingest-Does e =
      Does-rescue (Does-bind (Does-await _) λ d. Does-bind (Does-await _) λ u. Does-give _)
        λ x. Does-if _ (Does-give _) (Does-fail _)

  -- A webhook that runs alone.
  pub hook-Does :
      (as_text : Json → String) (X : Crypto) (env : Env) (g : GatewayProvider) (r : HookRequest)
      → Does (hook_task D E C as_text X env g r) (hook as_text D E C X env g r)
  unfolding hook_task hook receive
  hook-Does as_text X env g r = Does-if _ (Does-give _) (Does-bind (ingest-Does _) λ d. Does-give _)

  module _ (now : ℕ) (as_text : Json → String) where
    txns-Does :
        {A : Type 0} {t : Task D.Db Exception A} {m : Action D.Db Exception A}
        → Does t m
        → Does (zoom (txns_part D E C) t) (on_txns D E C now as_text m)
    unfolding on_txns zoomed
    txns-Does h = Does-zoom (txns_part D E C) h

    reconcile-Does :
        (e : WebhookEvent) (o : Option Json)
        → Does (reconcile_task D E C now as_text e o) (reconcile D E C now as_text e o)
    unfolding reconcile_task reconcile
    reconcile-Does e none = Does-await _
    reconcile-Does e (some g) =
        Does-if _
          (Does-bind (Does-await _) λ o.
            Does-elim o (Does-await _)
              λ t. Does-bind (txns-Does (drive-Does D now t _ _ _)) λ u. Does-await _)
          (Does-await _)

    process-Does :
        (id : String)
        → Does (process_event_task D E C now as_text id) (process_event D E C now as_text id)
    unfolding process_event_task process_event
    process-Does id =
        Does-bind (Does-await _)
          λ o. Does-elim o (Does-give _) λ e. Does-if _ (Does-give _) (reconcile-Does e _)

    item-Does :
        (o : Option Stored)
        → Does
            (item_task D E C now as_text o)
            (elim o as (λ x. Action (Inbox D E C) Exception (Unit {0})) [
              | none ↦ pure tt
              | some stored ↦ elim stored [
                | text record_id ↦ process_event D E C now as_text record_id
                | processing_mark ↦ pure tt
                | completed t ↦ pure tt
              ]
            ])
    unfolding item_task
    item-Does none = Does-give _
    item-Does (some (text id)) = process-Does id
    item-Does (some processing_mark) = Does-give _
    item-Does (some (completed t)) = Does-give _

    -- A round of the worker that runs alone, with its `catch`.
    pub poll-Does :
        Does (rescue (round_task D E C now as_text) λ x. give tt) (poll D E C now as_text)
    unfolding round_task poll
    poll-Does = Does-rescue (Does-bind (Does-await _) item-Does) λ x. Does-give _
