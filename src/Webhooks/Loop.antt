-- ===== src/Webhooks/Loop.antt =====
-- `onModuleInit`, `pollQueue` and `onModuleDestroy` of webhooks/reconciliation-worker.service.ts:
-- the worker as a loop whose rounds end at any of their awaits.
pub mod Stops
use payment_orchestration_la.Common.{ℕ, String, Bool, true, false, if◌then◌else◌}
use payment_orchestration_la.Common.Effect.{ok, err}
use payment_orchestration_la.Json.{Json}
use payment_orchestration_la.Database.{Database, Exception}
use payment_orchestration_la.Redis.{RedisClient}
use payment_orchestration_la.Webhooks.Events.{EventRepo, Inbox}
use payment_orchestration_la.Webhooks.Tasks.{round_task}
use payment_orchestration_la.Async.{Task, done, step}

module _ (D : Database) (E : EventRepo) (C : RedisClient) where
  -- Where `workerPromise` is: not there, in the `try` of a round, in the wait of the `catch`, done.
  pub data Phase : Type 0 where
    unstarted : Phase
    in_round : Task (Inbox D E C) Exception (Unit {0}) → Phase
    pausing : Phase
    stopped : Phase

  pub record Worker : Type 0 where
    pub is_active : Bool
    pub phase : Phase

  unfoldable pub fresh_worker : Worker
  fresh_worker = record { is_active = false; phase = unstarted }

module _ (D : Database) (E : EventRepo) (C : RedisClient) (as_text : Json → String) where
  -- `while (this.isActive)`
  unfoldable pub loop_head : ℕ → Bool → Phase D E C
  loop_head now is_active = if is_active then in_round (round_task D E C now as_text) else stopped

  -- `this.isActive = true; this.workerPromise = this.pollQueue()`, which runs to its first await
  unfoldable pub on_module_init : ℕ → Worker D E C → Worker D E C
  unfolding loop_head
  on_module_init now w = record { is_active = true; phase = loop_head now true }

  -- The first line of `onModuleDestroy`, which then waits for `workerPromise`.
  unfoldable pub on_module_destroy : Worker D E C → Worker D E C
  on_module_destroy w = record w { is_active = false }

  -- The worker goes on: to the next await of the round, out of the round, or out of the wait.
  unfoldable pub tick : ℕ → Worker D E C → Inbox D E C → Worker D E C × Inbox D E C
  unfolding loop_head
  tick now w s = elim w.phase [
    | unstarted ↦ (w, s)
    | in_round t ↦ elim t [
      | done r ↦
          (record w { phase = elim r [ ok u ↦ loop_head now w.is_active | err x ↦ pausing ] }, s)
      | step l u k ↦ (record w { phase = in_round (k s) }, u s)
    ]
    | pausing ↦ (record w { phase = loop_head now w.is_active }, s)
    | stopped ↦ (w, s)
  ]
