-- ===== src/Webhooks/Intake.antt =====
-- webhooks/webhooks.service.ts and webhooks/reconciliation-queue.service.ts.
use payment_orchestration_la.Common.{String, Bool, true, false, Option, none, some, if◌then◌else◌}
use payment_orchestration_la.Common.Effect.{ok, err, Action, pure, throw, catch, ◌>>=◌, ◌>>◌}
use payment_orchestration_la.Enums.{GatewayProvider}
use payment_orchestration_la.Json.{Json}
use payment_orchestration_la.Entities.{WebhookEvent}
use payment_orchestration_la.Database.{Database, Exception, refused, unique_violation, other}
use payment_orchestration_la.Redis.{RedisClient, lpush}
use payment_orchestration_la.Redis.Store.{text, reconciliation_queue}
use payment_orchestration_la.Webhooks.Events.{EventRepo, Inbox}

pub record IncomingWebhook : Type 0 where
  pub gateway : GatewayProvider
  pub event_id : String
  pub event_type : String
  pub payload : Json
  pub signature_verified : Bool

pub record Ingested : Type 0 where
  pub duplicate : Bool
  pub stored : Option WebhookEvent

-- The row of an event; the database replaces the empty id.
unfoldable pub new_event : IncomingWebhook → WebhookEvent
new_event event = record {
  id = "";
  gateway = event.gateway;
  event_id = event.event_id;
  event_type = event.event_type;
  payload = event.payload;
  signature_verified = event.signature_verified;
  processed = false;
  processed_at = none;
}

unfoldable pub is_unique_violation : Exception → Bool
is_unique_violation (refused unique_violation) = true
is_unique_violation _ = false

module _ (D : Database) (E : EventRepo) (C : RedisClient) where
  abbrev Do : Type 0 → Type 0
  Do A = Action (Inbox D E C) Exception A

  -- `pushEvent`, whose `catch` logs the error and throws it again
  unfoldable pub push_event : String → Do (Unit {0})
  push_event event_id w =
      let (r, redis') = lpush C reconciliation_queue (text event_id) w.redis in
      (elim r [ ok n ↦ ok tt | err x ↦ err (other "redis") ], record w { redis = redis' })

  unfoldable pub insert : WebhookEvent → Do WebhookEvent
  insert e w = let (r, s') = E.insert_event e w.events in (r, record w { events = s' })

  -- The body of the `try`.
  unfoldable pub store_and_queue : IncomingWebhook → Do Ingested
  unfolding push_event insert
  store_and_queue event = do
    stored ← insert (new_event event)
    push_event stored.id
    pure (record { duplicate = false; stored = some stored })

  unfoldable pub ingest : IncomingWebhook → Do Ingested
  unfolding store_and_queue
  ingest event = catch (store_and_queue event) λ x.
      if is_unique_violation x then pure (record { duplicate = true; stored = none }) else throw x
