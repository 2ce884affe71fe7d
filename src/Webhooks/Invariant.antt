-- ===== src/Webhooks/Invariant.antt =====
-- What the webhook services keep of the transactions: whatever the calls of the state machine keep.
use payment_orchestration_la.Common.{ℕ, String, Option, none, some}
use payment_orchestration_la.Common.Effect.{Result, ok, err, Action, pure}
use payment_orchestration_la.Common.Effect.Rules.{Ends}
use payment_orchestration_la.Common.Effect.Keeps.{
  Keeps, Ends-any, Keeps-bind, Keeps-pure, Keeps-throw, Keeps-gets, Keeps-if, Keeps-elim,
  Keeps-catch,
}
use payment_orchestration_la.Enums.{GatewayProvider, TransactionState}
use payment_orchestration_la.Json.{Json}
use payment_orchestration_la.Entities.{Transaction, WebhookEvent}
use payment_orchestration_la.Database.{Database, Exception}
use payment_orchestration_la.Redis.{RedisClient}
use payment_orchestration_la.Redis.Store.{Stored, processing_mark, completed, text}
use payment_orchestration_la.StateMachine.{Metadata, transition}
use payment_orchestration_la.Routing.Config.{Env}
use payment_orchestration_la.Webhooks.Events.{EventRepo, Inbox}
use payment_orchestration_la.Webhooks.Worker.{
  when_in, drive_from, drive_to_reconciled, on_txns, on_events, mark, reconcile, process_event,
  next_item, poll,
}
use payment_orchestration_la.Webhooks.Intake.{
  insert, push_event, store_and_queue, ingest, IncomingWebhook,
}
use payment_orchestration_la.Webhooks.Signature.{Crypto}
use payment_orchestration_la.Webhooks.Endpoints.{HookRequest, receive, hook}

module _ (D : Database) (now : ℕ) (I : D.Db → Type 0)
    (moves : (id : String) (to : TransactionState) (md : Metadata)
      → Keeps I (transition D now id to md)) where
  when-Keeps :
      (from : TransactionState) (id : String) (to : TransactionState) (md : Metadata)
      (s : TransactionState)
      → Keeps I (when_in D now from id to md s)
  unfolding when_in
  when-Keeps from id to md s =
      Keeps-if _ _ _ (Keeps-bind _ _ (moves id to md) λ t. Keeps-pure _) (Keeps-pure _)

  pub drive-Keeps :
      (t : Transaction) (g : GatewayProvider) (gid : String) (raw : Json)
      → Keeps I (drive_to_reconciled D now t g gid raw)
  unfolding drive_to_reconciled drive_from
  drive-Keeps t g gid raw = Keeps-if _ _ _ (Keeps-pure _) (
      Keeps-bind _ _
        (Keeps-bind _ _ (when-Keeps _ _ _ _ _) λ s₁. Keeps-bind _ _ (when-Keeps _ _ _ _ _) λ s₂.
          Keeps-bind _ _ (when-Keeps _ _ _ _ _)
            λ s₃. Keeps-bind _ _ (when-Keeps _ _ _ _ _) λ s₄. when-Keeps _ _ _ _ _)
        λ s. Keeps-pure _)

module _ (D : Database) (E : EventRepo) (C : RedisClient) (I : D.Db → Type 0) where
  abbrev pub OnTxns : Inbox D E C → Type 0
  OnTxns w = I w.db

  module _ (now : ℕ) (as_text : Json → String)
      (moves : (id : String) (to : TransactionState) (md : Metadata)
        → Keeps I (transition D now id to md)) where
    txns-Keeps :
        {A : Type 0} (m : Action D.Db Exception A)
        → Keeps I m
        → Keeps OnTxns (on_txns D E C now as_text m)
    unfolding on_txns
    txns-Keeps m h = record { kept = λ w i. ended w (m w.db) (h.kept w.db i) }
      where
        ended :
            {A : Type 0} (w : Inbox D E C) (o : Result Exception A × D.Db)
            → Ends (λ a db'. I db') (λ x db'. I db') o
            → Ends {X = Exception}
                (λ a w'. OnTxns w')
                (λ x w'. OnTxns w')
                (let (r, db') = o in (r, record w { db = db' }))
        ended w (ok a, db') e = record { holds = e.holds }
        ended w (err x, db') e = record { holds = e.holds }

    mark-Keeps : (e : WebhookEvent) → Keeps OnTxns (mark D E C now as_text e)
    unfolding mark on_events
    mark-Keeps e = record { kept = λ w i. Ends-any (E.save_event _ w.events).0 _ i }

    reconcile-Keeps :
        (e : WebhookEvent) (o : Option Json) → Keeps OnTxns (reconcile D E C now as_text e o)
    unfolding reconcile
    reconcile-Keeps e none = mark-Keeps e
    reconcile-Keeps e (some g) =
        Keeps-if _ _ _
          (Keeps-bind _ _ (Keeps-gets _) λ o. Keeps-elim o _ _ (mark-Keeps e) λ t.
            Keeps-bind _ _ (txns-Keeps _ (drive-Keeps D now I moves t _ _ _)) λ u. mark-Keeps e)
          (mark-Keeps e)

    process-Keeps : (id : String) → Keeps OnTxns (process_event D E C now as_text id)
    unfolding process_event
    process-Keeps id = Keeps-bind _ _ (Keeps-gets _) λ o.
        Keeps-elim o _ _ (Keeps-pure _) λ e. Keeps-if _ _ _ (Keeps-pure _) (reconcile-Keeps e _)

    next-Keeps : Keeps OnTxns (next_item D E C now as_text)
    unfolding next_item
    next-Keeps = record { kept = λ w i. Ends-any _ _ i }

    item-Keeps :
        (o : Option Stored)
        → Keeps OnTxns (elim o as (λ x. Action (Inbox D E C) Exception (Unit {0})) [
          | none ↦ pure tt
          | some stored ↦ elim stored [
            | text record_id ↦ process_event D E C now as_text record_id
            | processing_mark ↦ pure tt
            | completed t ↦ pure tt
          ]
        ])
    item-Keeps none = Keeps-pure _
    item-Keeps (some (text id)) = process-Keeps id
    item-Keeps (some processing_mark) = Keeps-pure _
    item-Keeps (some (completed t)) = Keeps-pure _

    -- A round of the worker keeps whatever the calls of the state machine keep.
    pub poll-Keeps : Keeps OnTxns (poll D E C now as_text)
    unfolding poll
    poll-Keeps = Keeps-catch _ _ (Keeps-bind _ _ next-Keeps item-Keeps) λ x. Keeps-pure _

  module _ (as_text : Json → String) (X : Crypto) (env : Env) where
    ingest-Keeps : (e : IncomingWebhook) → Keeps OnTxns (ingest D E C e)
    unfolding ingest store_and_queue insert push_event
    ingest-Keeps e =
        Keeps-catch _ _
          (Keeps-bind _ _ (record { kept = λ w i. Ends-any (E.insert_event _ w.events).0 _ i })
            λ d. Keeps-bind _ _ (record { kept = λ w i. Ends-any _ _ i }) λ u. Keeps-pure _)
          λ x. Keeps-if _ _ _ (Keeps-pure _) (Keeps-throw _)

    -- A webhook changes no transaction.
    pub hook-Keeps :
        (g : GatewayProvider) (r : HookRequest) → Keeps OnTxns (hook as_text D E C X env g r)
    unfolding hook receive
    hook-Keeps g r =
        Keeps-if _ _ _ (Keeps-pure _) (Keeps-bind _ _ (ingest-Keeps _) λ d. Keeps-pure _)
