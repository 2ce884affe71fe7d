-- ===== src/Webhooks/Events.antt =====
-- The table `webhook_events` behind TypeORM, and the state that the webhook services share.
use payment_orchestration_la.Common.{String, ◌≡◌, ◌≢◌, Option, some}
use payment_orchestration_la.Common.Effect.{Action, err}
use payment_orchestration_la.Common.Effect.Rules.{Ends, Unchanged}
use payment_orchestration_la.Enums.{GatewayProvider}
use payment_orchestration_la.Entities.{WebhookEvent}
use payment_orchestration_la.Database.{Database, Exception, refused, unique_violation}
use payment_orchestration_la.Redis.{RedisClient, RedisService}

pub record EventRepo : Type 1 where
  pub State : Type 0
  pub find_event : String → State → Option WebhookEvent
  pub save_event : WebhookEvent → Action State Exception (Unit {0})
  -- `save` of an event that was created: the database chooses the id
  pub insert_event : WebhookEvent → Action State Exception WebhookEvent
  -- the event that the unique index has under a gateway and an event id
  pub find_seen : GatewayProvider → String → State → Option WebhookEvent

pub record EventSaved (E : EventRepo) (e : WebhookEvent) (s s' : E.State) : Type 0 where
  pub stored : E.find_event e.id s' ≡ some e
  pub others : (id : String) → id ≢ e.id → E.find_event id s' ≡ E.find_event id s

pub record EventInserted (E : EventRepo) (e e' : WebhookEvent) (s s' : E.State) : Type 0 where
  pub returned : e' ≡ record e { id = e'.id }
  pub stored : E.find_event e'.id s' ≡ some e'
  pub indexed : E.find_seen e.gateway e.event_id s' ≡ some e'

-- A row is found under its id, an insert stores a row or does nothing, and it is refused as a
-- unique violation if the index has the event already. A save stores the row, or is refused and does nothing.
pub record IsEventRepo (E : EventRepo) : Type 0 where
  pub id-find_event :
      (id : String) (e : WebhookEvent) (s : E.State) → E.find_event id s ≡ some e → e.id ≡ id
  pub save_event_lem :
      (e : WebhookEvent) (s : E.State)
      → Ends (λ u s'. EventSaved E e s s') (Unchanged s) (E.save_event e s)
  pub insert_event_lem :
      (e : WebhookEvent) (s : E.State)
      → Ends (λ e' s'. EventInserted E e e' s s') (Unchanged s) (E.insert_event e s)
  pub unique_index :
      (e d : WebhookEvent) (s : E.State)
      → E.find_seen e.gateway e.event_id s ≡ some d
      → E.insert_event e s ≡ (err (refused unique_violation), s)

pub record Inbox (D : Database) (E : EventRepo) (C : RedisClient) : Type 0 where
  pub db : D.Db
  pub events : E.State
  pub redis : RedisService C
