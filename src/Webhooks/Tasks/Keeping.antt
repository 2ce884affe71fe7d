-- ===== src/Webhooks/Tasks/Keeping.antt =====
-- No await of a webhook or of a round of the worker breaks what the calls of the state machine keep.
use payment_orchestration_la.Webhooks.Tasks.Each.{hook-Each, round-Each}
use payment_orchestration_la.Common.{ℕ, String}
use payment_orchestration_la.Common.Effect.Keeps.{Keeps}
use payment_orchestration_la.Enums.{TransactionState, GatewayProvider}
use payment_orchestration_la.Json.{Json}
use payment_orchestration_la.Entities.{Transaction}
use payment_orchestration_la.Database.{Database}
use payment_orchestration_la.Redis.{RedisClient}
use payment_orchestration_la.StateMachine.{Metadata, transition}
use payment_orchestration_la.Routing.Config.{Env}
use payment_orchestration_la.Webhooks.Events.{EventRepo, Inbox}
use payment_orchestration_la.Webhooks.Intake.{insert, push_event}
use payment_orchestration_la.Webhooks.Invariant.{OnTxns}
use payment_orchestration_la.Webhooks.Signature.{Crypto}
use payment_orchestration_la.Webhooks.Endpoints.{HookRequest}
use payment_orchestration_la.Webhooks.Worker.{on_events, mark, next_item}
use payment_orchestration_la.Webhooks.Tasks.{
  when_in_task, drive_from_task, drive_to_reconciled_task, hook_task, round_task,
}
use payment_orchestration_la.Async.Rules.{Steps, Steps-await, Steps-give, Steps-bind, Steps-if}
use payment_orchestration_la.Async.Keeping.{Keeping, Keeping-await, Keeping-gets}
use payment_orchestration_la.Async.Lens.{Steps-zoom}

module _ (D : Database) (E : EventRepo) (C : RedisClient) (I : D.Db → Type 0) where
  abbrev J : Inbox D E C → Type 0
  J = OnTxns D E C I

  -- No await of a webhook changes a transaction.
  pub hook-Keeping :
      (as_text : Json → String) (X : Crypto) (env : Env) (g : GatewayProvider) (r : HookRequest)
      → Steps (Keeping J) (hook_task D E C as_text X env g r)
  unfolding insert push_event
  hook-Keeping =
      hook-Each D E C _
        (record { inserts = λ e. Steps-await _ λ s i. i; pushes = λ id. Steps-await _ λ s i. i })

  module _ (now : ℕ) (as_text : Json → String)
      (moves : (id : String) (to : TransactionState) (md : Metadata)
        → Keeps I (transition D now id to md)) where
    when_in-Keeping :
        (from : TransactionState) (id : String) (to : TransactionState) (md : Metadata)
        (s : TransactionState)
        → Steps (Keeping I) (when_in_task D now from id to md s)
    unfolding when_in_task
    when_in-Keeping from id to md s =
        Steps-if _ (Steps-bind (Keeping-await (moves id to md)) λ t. Steps-give _) (Steps-give _)

    drive-Keeping :
        (t : Transaction) (g : GatewayProvider) (gid : String) (raw : Json)
        → Steps (Keeping I) (drive_to_reconciled_task D now t g gid raw)
    unfolding drive_to_reconciled_task drive_from_task
    drive-Keeping t g gid raw = Steps-if _ (Steps-give _) (
        Steps-bind
          (Steps-bind (when_in-Keeping _ _ _ _ _) λ s₁. Steps-bind (when_in-Keeping _ _ _ _ _) λ s₂.
            Steps-bind (when_in-Keeping _ _ _ _ _)
              λ s₃. Steps-bind (when_in-Keeping _ _ _ _ _) λ s₄. when_in-Keeping _ _ _ _ _)
          λ s. Steps-give _)

    -- No await of a round breaks what the calls of the state machine keep.
    pub round-Keeping : Steps (Keeping J) (round_task D E C now as_text)
    unfolding next_item mark on_events
    round-Keeping = round-Each D E C _ now as_text (record {
      reads = Keeping-gets;
      takes = Steps-await _ λ s i. i;
      marks = λ e. Steps-await _ λ s i. i;
      drives = λ t g gid raw. Steps-zoom _ (λ l a s h. h) (drive-Keeping t g gid raw);
    })
