-- ===== src/Webhooks/Delivery.antt =====
-- What becomes of a webhook that is delivered once, and of one that is delivered again.
use payment_orchestration_la.Common.{
  ℕ, String, ◌≡◌, refl, true, false, none, some, arith, ap, ◌∙◌, if◌then◌else◌,
}
use payment_orchestration_la.Common.Effect.{Result, ok, err, pure, throw, catch}
use payment_orchestration_la.Common.Effect.Rules.{bind_ok, bind_err}
use payment_orchestration_la.Entities.{WebhookEvent}
use payment_orchestration_la.Database.{Database, Exception, refused, unique_violation, other}
use payment_orchestration_la.Redis.Store.{text, reconciliation_queue, truthy_value}
use payment_orchestration_la.Webhooks.Events.{EventRepo, IsEventRepo, EventInserted, Inbox}
use payment_orchestration_la.Redis.Mock.{IsMock, lpush_mock, brpop-lpush}
use payment_orchestration_la.Redis.{RedisClient, lpush, brpop}
use payment_orchestration_la.Webhooks.Intake.{
  IncomingWebhook, Ingested, new_event, is_unique_violation, push_event, insert, store_and_queue,
  ingest,
}

abbrev pub seen_before : Ingested
seen_before = record { duplicate = true; stored = none }

abbrev pub first_time : WebhookEvent → Ingested
first_time e = record { duplicate = false; stored = some e }

module _ (D : Database) (E : EventRepo) (C : RedisClient) where
  insert_as :
      (x : WebhookEvent) (w : Inbox D E C) (o : Result Exception WebhookEvent) (s' : E.State)
      → E.insert_event x w.events ≡ (o, s')
      → insert D E C x w ≡ (o, record w { events = s' })
  unfolding insert
  insert_as x w o s' e = ap (λ p. let (r, s) = p in (r, record w { events = s })) e

  push_as :
      (id : String) (w : Inbox D E C) (r : Result (Unit {0}) ℕ)
      → (lpush C reconciliation_queue (text id) w.redis).0 ≡ r
      → push_event D E C id w ≡ (
        elim r [ ok n ↦ ok tt | err x ↦ err (other "redis") ],
        record w { redis = (lpush C reconciliation_queue (text id) w.redis).1 },
      )
  unfolding push_event
  push_as id w r e =
      ap
        (λ q. (
          elim q [ ok n ↦ ok tt | err x ↦ err (other "redis") ],
          record w { redis = (lpush C reconciliation_queue (text id) w.redis).1 },
        ))
        e

  -- a refused row, and a row that is stored and whose push is known
  ingest_refused :
      (event : IncomingWebhook) (s' : E.State) (w : Inbox D E C)
      → E.insert_event (new_event event) w.events ≡ (err (refused unique_violation), s')
      → ingest D E C event w ≡ (ok seen_before, record w { events = s' })
  unfolding ingest store_and_queue catch pure is_unique_violation
  ingest_refused event s' w e =
      ap
        (λ p.
          let (r, v) = p in
          elim r [
            | ok a ↦ (ok a, v)
            | err x ↦ (if is_unique_violation x then pure seen_before else throw x) v
          ])
        (bind_err _ _ (insert_as (new_event event) w _ s' e))

  ingest_stored :
      (event : IncomingWebhook) (e : WebhookEvent) (s' : E.State) (w w' : Inbox D E C)
      → E.insert_event (new_event event) w.events ≡ (ok e, s')
      → push_event D E C e.id (record w { events = s' }) ≡ (ok tt, w')
      → ingest D E C event w ≡ (ok (first_time e), w')
  unfolding ingest store_and_queue catch pure
  ingest_stored event e s' w w' stored pushed =
      ap
        (λ p.
          let (r, v) = p in
          elim r [
            | ok a ↦ (ok a, v)
            | err x ↦ (if is_unique_violation x then pure seen_before else throw x) v
          ])
        (bind_ok _ _ (insert_as (new_event event) w _ s' stored) ∙ bind_ok _ _ pushed)

  ingest_failed :
      (event : IncomingWebhook) (e : WebhookEvent) (s' : E.State) (w w' : Inbox D E C)
      → E.insert_event (new_event event) w.events ≡ (ok e, s')
      → push_event D E C e.id (record w { events = s' }) ≡ (err (other "redis"), w')
      → ingest D E C event w ≡ (err (other "redis"), w')
  unfolding ingest store_and_queue catch pure throw is_unique_violation
  ingest_failed event e s' w w' stored failed =
      ap
        (λ p.
          let (r, v) = p in
          elim r [
            | ok a ↦ (ok a, v)
            | err x ↦ (if is_unique_violation x then pure seen_before else throw x) v
          ])
        (bind_ok _ _ (insert_as (new_event event) w _ s' stored) ∙ bind_err _ _ failed)

module _ (D : Database) (E : EventRepo) (C : RedisClient) (law : IsEventRepo E) where
  -- An event that the index has already is acknowledged as a duplicate; nothing is stored or
  -- queued.
  pub ingest_duplicate :
      (event : IncomingWebhook) (d : WebhookEvent) (w : Inbox D E C)
      → E.find_seen event.gateway event.event_id w.events ≡ some d
      → ingest D E C event w ≡ (ok seen_before, w)
  unfolding new_event
  ingest_duplicate event d w seen =
      ingest_refused D E C event w.events w (law.unique_index (new_event event) d w.events seen)

  -- an insert that succeeded has done this
  inserted_as :
      (event : IncomingWebhook) (e : WebhookEvent) (s s' : E.State)
      → E.insert_event (new_event event) s ≡ (ok e, s')
      → EventInserted E (new_event event) e s s'
  inserted_as event e s s' done =
      let h = law.insert_event_lem (new_event event) s in (rw done at h).holds

  -- A new event, with the service in fallback mode: it is stored, the worker's next `brpop`
  -- returns its id, and a second delivery is acknowledged as a duplicate that changes nothing.
  pub ingest_queued :
      (event : IncomingWebhook) (e : WebhookEvent) (s' : E.State) (w : Inbox D E C)
      → E.insert_event (new_event event) w.events ≡ (ok e, s')
      → IsMock C w.redis
      → truthy_value (some (text e.id)) ≡ some (text e.id)
      → let w' = (ingest D E C event w).1 in
        ((ingest D E C event w).0 ≡ ok (first_time e))
        × (E.find_event e.id w'.events ≡ some e)
        × ((brpop C reconciliation_queue 2 w'.redis).0 ≡ ok (some (text e.id)))
        × (ingest D E C event w' ≡ (ok seen_before, w'))
  ingest_queued event e s' w done mock some_id =
      let redis' = (lpush C reconciliation_queue (text e.id) w.redis).1 in
      let i = inserted_as event e w.events s' done in
      let ran =
        ingest_stored D E C event e s' w (record w { events = s'; redis = redis' }) done
          (push_as D E C e.id (record w { events = s' }) (ok 1)
            (lpush_mock C reconciliation_queue (text e.id) w.redis mock)) in
      rw ran (
        refl,
        i.stored,
        brpop-lpush C reconciliation_queue (text e.id) 2 w.redis mock some_id,
        ingest_duplicate event e _ (unfold new_event in i.indexed),
      )

  -- A new event whose push onto the queue fails: the caller gets the error, but the event stays
  -- stored as not processed, and a second delivery is acknowledged as a duplicate without any
  -- call of Redis, so that nothing queues the event any more.
  pub ingest_lost :
      (event : IncomingWebhook) (e : WebhookEvent) (s' : E.State) (c' : C.Client) (w : Inbox D E C)
      → E.insert_event (new_event event) w.events ≡ (ok e, s')
      → w.redis.is_mock_mode ≡ false
      → C.client_lpush reconciliation_queue (text e.id) w.redis.client ≡ (err tt, c')
      → let w' = (ingest D E C event w).1 in
        ((ingest D E C event w).0 ≡ err (other "redis"))
        × (E.find_event e.id w'.events ≡ some e)
        × (e.processed ≡ false)
        × (ingest D E C event w' ≡ (ok seen_before, w'))
  ingest_lost event e s' c' w done up failed =
      let redis' = (lpush C reconciliation_queue (text e.id) w.redis).1 in
      let i = inserted_as event e w.events s' done in
      let ran =
        ingest_failed D E C event e s' w (record w { events = s'; redis = redis' }) done
          (push_as D E C e.id (record w { events = s' }) (err tt) (unfold lpush in ground arith)) in
      rw ran (
        refl,
        i.stored,
        unfold new_event in ap (λ x. x.processed) i.returned,
        ingest_duplicate event e _ (unfold new_event in i.indexed),
      )
