-- ===== src/Webhooks/Worker.antt =====
-- webhooks/reconciliation-worker.service.ts. `now` is the time of `new Date()`, and `as_text` what
-- the database driver makes of a JSON value in a text column.
use payment_orchestration_la.Common.{ℕ, String, true, false, Option, none, some, if◌then◌else◌}
use payment_orchestration_la.Common.Effect.{ok, err, Action, pure, gets, catch, ◌>>=◌, ◌>>◌}
use payment_orchestration_la.Enums.{
  TransactionState, initiated, routed, processing, retry_pending, success, reconciled,
  GatewayProvider, state_eq,
}
use payment_orchestration_la.Json.{Json, str, get_field, truthy, or_else}
use payment_orchestration_la.Entities.{Transaction, WebhookEvent}
use payment_orchestration_la.Database.{Database, Exception, other}
use payment_orchestration_la.Redis.{RedisClient, brpop}
use payment_orchestration_la.Redis.Store.{
  Stored, text, processing_mark, completed, reconciliation_queue,
}
use payment_orchestration_la.StateMachine.{Metadata, transition}
use payment_orchestration_la.Webhooks.Events.{EventRepo, Inbox}
use payment_orchestration_la.Webhooks.Payload.{extract_gateway_txn_id}

-- The metadata of the transitions that `driveToReconciled` makes.
unfoldable pub reroute : GatewayProvider → String → Metadata
reroute gateway reason = record {
  gateway = some (some gateway);
  gateway_txn_id = none;
  reason = some reason;
  raw_gateway_response = none;
  increment_attempt = false;
}

unfoldable pub auto_attempt : GatewayProvider → Metadata
auto_attempt gateway = record {
  gateway = some (some gateway);
  gateway_txn_id = none;
  reason = some "Webhook reconciliation processing attempt";
  raw_gateway_response = none;
  increment_attempt = true;
}

unfoldable pub auto_success : GatewayProvider → String → Json → Metadata
auto_success gateway gateway_txn_id raw = record {
  gateway = some (some gateway);
  gateway_txn_id = some (some gateway_txn_id);
  reason = some "Webhook reconciliation success transition";
  raw_gateway_response = some raw;
  increment_attempt = false;
}

unfoldable pub completion : GatewayProvider → Json → Metadata
completion gateway raw = record {
  gateway = some (some gateway);
  gateway_txn_id = none;
  reason = some "Webhook reconciliation completed";
  raw_gateway_response = some raw;
  increment_attempt = false;
}

module _ (D : Database) (now : ℕ) where
  -- `if (state === from) { updated = await transition(…); state = updated.currentState; }`
  unfoldable pub when_in :
      TransactionState
      → String
      → TransactionState
      → Metadata
      → TransactionState
      → Action D.Db Exception TransactionState
  when_in from id to metadata state =
      if state_eq state from
      then (transition D now id to metadata >>= λ updated. pure updated.current_state)
      else pure state

  -- The `if`s of `driveToReconciled` that follow the first, from `state` on.
  unfoldable pub drive_from :
      String
      → GatewayProvider
      → String
      → Json
      → TransactionState
      → Action D.Db Exception TransactionState
  unfolding when_in
  drive_from id gateway gateway_txn_id raw state = do
    s₁ ← when_in initiated id routed (reroute gateway "Webhook reconciliation auto-routing") state
    s₂ ←
        when_in retry_pending id routed
          (reroute gateway "Webhook reconciliation auto-routing after retry") s₁
    s₃ ← when_in routed id processing (auto_attempt gateway) s₂
    s₄ ← when_in processing id success (auto_success gateway gateway_txn_id raw) s₃
    when_in success id reconciled (completion gateway raw) s₄

  unfoldable pub drive_to_reconciled :
      Transaction → GatewayProvider → String → Json → Action D.Db Exception (Unit {0})
  unfolding drive_from
  drive_to_reconciled txn gateway gateway_txn_id raw =
      if state_eq txn.current_state reconciled
      then pure tt
      else (drive_from txn.id gateway gateway_txn_id raw txn.current_state >> pure tt)

module _ (D : Database) (E : EventRepo) (C : RedisClient) (now : ℕ) (as_text : Json → String) where
  abbrev Do : Type 0 → Type 0
  Do A = Action (Inbox D E C) Exception A

  unfoldable pub on_txns : {A : Type 0} → Action D.Db Exception A → Do A
  on_txns m w = let (r, db') = m w.db in (r, record w { db = db' })

  unfoldable pub on_events : {A : Type 0} → Action E.State Exception A → Do A
  on_events m w = let (r, s') = m w.events in (r, record w { events = s' })

  -- `event.processed = true; event.processedAt = new Date()`
  unfoldable pub marked : WebhookEvent → WebhookEvent
  marked event = record event { processed = true; processed_at = some now }

  unfoldable pub mark : WebhookEvent → Do (Unit {0})
  unfolding on_events marked
  mark event = on_events (E.save_event (marked event))

  -- The query for the transaction: by the gateway's id, or by the key in the payload.
  unfoldable pub find_for : Json → Json → D.Db → Option Transaction
  find_for gateway_txn_id payload =
      D.find_txn_by_gateway_or_key (as_text gateway_txn_id)
        (elim (or_else (get_field (some payload) "idempotencyKey") (some (str "___none___"))) [
          | some key ↦ as_text key
          | none ↦ "___none___"
        ])

  -- The part of `processEvent` in the `try`, whose `catch` logs the error and throws it again.
  unfoldable pub reconcile : WebhookEvent → Option Json → Do (Unit {0})
  unfolding on_txns mark find_for
  reconcile event none = mark event
  reconcile event (some gateway_txn_id) =
      if truthy (some gateway_txn_id)
      then (gets (λ w. find_for gateway_txn_id event.payload w.db) >>= λ txn. elim txn [
        | none ↦ mark event
        | some t ↦
            on_txns
              (drive_to_reconciled D now t event.gateway (as_text gateway_txn_id) event.payload)
            >> mark event
      ])
      else mark event

  unfoldable pub process_event : String → Do (Unit {0})
  unfolding reconcile
  process_event record_id = do
    event ← gets (λ w. E.find_event record_id w.events)
    elim event [
      | none ↦ pure tt
      | some e ↦
          if e.processed then pure tt else reconcile e (extract_gateway_txn_id e.gateway e.payload)
    ]

  -- `client.brpop(queueName, 2)`
  unfoldable pub next_item : Do (Option Stored)
  next_item w =
      let (r, redis') = brpop C reconciliation_queue 2 w.redis in
      (elim r [ ok item ↦ ok item | err x ↦ err (other "redis") ], record w { redis = redis' })

  -- One round of the loop of `pollQueue`; the `catch` logs the error and waits.
  -- Nothing but ids is pushed onto the queue, so an item is a text.
  unfoldable pub poll : Do (Unit {0})
  unfolding next_item process_event
  poll =
      catch
        (next_item >>= λ item. elim item [
          | none ↦ pure tt
          | some stored ↦ elim stored [
            | text record_id ↦ process_event record_id
            | processing_mark ↦ pure tt
            | completed t ↦ pure tt
          ]
        ])
        λ error. pure tt
