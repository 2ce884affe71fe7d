-- ===== src/Webhooks/Tasks/Locking.antt =====
-- Webhooks and the worker free no lock of an idempotency key, with Redis in fallback mode.
use payment_orchestration_la.Common.{ℕ, String, refl, ◌≡◌, none}
use payment_orchestration_la.Common.Effect.{gets}
use payment_orchestration_la.Json.{Json}
use payment_orchestration_la.Database.{Database}
use payment_orchestration_la.Redis.{RedisClient, RedisService}
use payment_orchestration_la.Redis.Lock.{push, pop, step}
use payment_orchestration_la.Redis.Quiet.{Fallen, Taken, call-Quiet, same-Quiet}
use payment_orchestration_la.Routing.Config.{Env}
use payment_orchestration_la.Webhooks.Events.{EventRepo, Inbox}
use payment_orchestration_la.Webhooks.Intake.{insert, push_event}
use payment_orchestration_la.Webhooks.Signature.{Crypto}
use payment_orchestration_la.Webhooks.Endpoints.{HookRequest}
use payment_orchestration_la.Webhooks.Worker.{on_events, mark, next_item}
use payment_orchestration_la.Webhooks.Tasks.{
  when_in_task, drive_from_task, drive_to_reconciled_task, hook_task, round_task,
}
use payment_orchestration_la.Webhooks.Tasks.Each.{hook-Each, round-Each}
use payment_orchestration_la.Enums.{GatewayProvider, TransactionState}
use payment_orchestration_la.Entities.{Transaction}
use payment_orchestration_la.StateMachine.{Metadata}
use payment_orchestration_la.Async.Rules.{
  Guarantee, Steps, Steps-await, Steps-give, Steps-bind, Steps-if,
}
use payment_orchestration_la.Async.Lens.{Steps-zoom}
use payment_orchestration_la.Async.Locks.{Quiet}

-- a step that is in no critical section
abbrev Outside : {S : Type 0} → Guarantee S
Outside l s s' = l ≡ none

module _ (D : Database) (now : ℕ) where
  when_in-Outside :
      (from : TransactionState) (id : String) (to : TransactionState) (md : Metadata)
      (s : TransactionState)
      → Steps Outside (when_in_task D now from id to md s)
  unfolding when_in_task
  when_in-Outside from id to md s =
      Steps-if _ (Steps-bind (Steps-await _ λ w. refl) λ t. Steps-give _) (Steps-give _)

  drive-Outside :
      (t : Transaction) (g : GatewayProvider) (gid : String) (raw : Json)
      → Steps Outside (drive_to_reconciled_task D now t g gid raw)
  unfolding drive_to_reconciled_task drive_from_task
  drive-Outside t g gid raw = Steps-if _ (Steps-give _) (
      Steps-bind
        (Steps-bind (when_in-Outside _ _ _ _ _) λ s₁. Steps-bind (when_in-Outside _ _ _ _ _) λ s₂.
          Steps-bind (when_in-Outside _ _ _ _ _)
            λ s₃. Steps-bind (when_in-Outside _ _ _ _ _) λ s₄. when_in-Outside _ _ _ _ _)
        λ s. Steps-give _)

module _ (D : Database) (E : EventRepo) (C : RedisClient) where
  abbrev pub inbox_redis : Inbox D E C → RedisService C
  inbox_redis w = w.redis

  abbrev pub InboxQuiet : Guarantee (Inbox D E C)
  InboxQuiet = Quiet (Fallen C inbox_redis) (Taken C inbox_redis)

  pub hook-Quiet :
      (as_text : Json → String) (X : Crypto) (env : Env) (g : GatewayProvider) (r : HookRequest)
      → Steps InboxQuiet (hook_task D E C as_text X env g r)
  unfolding insert push_event step
  hook-Quiet = hook-Each D E C _ (record {
    inserts = λ e. Steps-await _ λ w. same-Quiet C inbox_redis w _ refl;
    pushes = λ id. Steps-await _ λ w. call-Quiet C inbox_redis (push id) w _ (λ k. tt) refl;
  })

  pub round-Quiet :
      (now : ℕ) (as_text : Json → String) → Steps InboxQuiet (round_task D E C now as_text)
  unfolding next_item mark on_events step gets
  round-Quiet now as_text = round-Each D E C _ now as_text (record {
    reads = λ f. Steps-await _ λ w. same-Quiet C inbox_redis w _ refl;
    takes = Steps-await _ λ w. call-Quiet C inbox_redis (pop 2) w _ (λ k. tt) refl;
    marks = λ e. Steps-await _ λ w. same-Quiet C inbox_redis w _ refl;
    drives = λ t g gid raw.
        Steps-zoom _ (λ l w s e. record { free = e; mode = λ m. m; locks = λ key q. q })
          (drive-Outside D now t g gid raw);
  })
