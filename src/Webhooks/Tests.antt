-- ===== src/Webhooks/Tests.antt =====
-- Runs of the webhook services on tables in memory.
use payment_orchestration_la.Common.{
  String, ◌≡◌, refl, true, false, none, some, List, [], ◌∷◌, subst, arith,
}
use payment_orchestration_la.Common.Effect.{ok, err}
use payment_orchestration_la.Common.Effect.Rules.{Ends, Never}
use payment_orchestration_la.Enums.{retry_pending, stripe}
use payment_orchestration_la.Json.{Json, truthy, or_else, get_field, str, obj, field, end}
use payment_orchestration_la.Entities.{Transaction, WebhookEvent}
use payment_orchestration_la.Database.{other}
use payment_orchestration_la.Database.Memory.{memory, memory-IsLawful, memory-IsAvailable}
use payment_orchestration_la.Redis.{RedisService, brpop}
use payment_orchestration_la.Redis.Store.{text, reconciliation_queue}
use payment_orchestration_la.Redis.Tests.{unreachable, fallen_back}
use payment_orchestration_la.StateMachine.Tests.{row}
use payment_orchestration_la.Webhooks.Events.{Inbox}
use payment_orchestration_la.Webhooks.Worker.{drive_to_reconciled, process_event, find_for}
use payment_orchestration_la.Webhooks.Payload.{extract_gateway_txn_id}
use payment_orchestration_la.Webhooks.Path.{Driven, route, target}
use payment_orchestration_la.Webhooks.Drive.{drive_end}
use payment_orchestration_la.Webhooks.Process.{
  SavesAllEvents, matched, Marked, Settled, process_event_end,
}
use payment_orchestration_la.Webhooks.Intake.{IncomingWebhook, ingest, new_event}
use payment_orchestration_la.Webhooks.Delivery.{
  seen_before, first_time, ingest_duplicate, ingest_queued, ingest_lost,
}
use payment_orchestration_la.Webhooks.Memory.{
  event_table, event_table-IsEventRepo, event_table_saved,
}
use payment_orchestration_la.Webhooks.Loop.{
  fresh_worker, stopped, on_module_init, on_module_destroy,
}
use payment_orchestration_la.Webhooks.Loop.Stops.{Moment, over_time, destroyed_worker_stops}

abbrev body : Json
body = obj (field "idempotencyKey" (str "k1") (field "id" (str "ch_1") end))

abbrev as_text : Json → String
as_text j = elim j [ str s ↦ s | _ ↦ "" ]

abbrev event : WebhookEvent
event = record {
  id = "evt_1";
  gateway = stripe;
  event_id = "evt_1";
  event_type = "charge.succeeded";
  payload = body;
  signature_verified = true;
  processed = false;
  processed_at = none;
}

abbrev incoming : IncomingWebhook
incoming = record {
  gateway = stripe;
  event_id = "evt_1";
  event_type = "charge.succeeded";
  payload = body;
  signature_verified = true;
}

abbrev inbox : List WebhookEvent → RedisService unreachable → Inbox memory event_table unreachable
inbox es r = record {
  db = record { rows = row retry_pending ∷ []; entries = [] };
  events = es;
  redis = r;
}

abbrev connected : RedisService unreachable
connected = record { is_mock_mode = false; mock_store = []; client = tt }

saves : SavesAllEvents event_table
saves e s = event_table_saved Never e s

drive_end_example :
    let db = (inbox [] fallen_back).db in
    Ends
      (λ u db'. Driven memory "t1" (route retry_pending) (target retry_pending) db db')
      Never
      (drive_to_reconciled memory 9 (row retry_pending) stripe "ch_1" body db)
drive_end_example =
    drive_end memory memory-IsLawful memory-IsAvailable 9 "t1" stripe "ch_1" body
      (row retry_pending) (inbox [] fallen_back).db refl refl

-- The event is about the transaction of the test.
event_matches :
    matched memory event_table unreachable 9 as_text event (inbox [] fallen_back).db
    ≡ some (row retry_pending)
unfolding extract_gateway_txn_id truthy or_else get_field find_for
event_matches = refl

row_is_found :
    (t : Transaction)
    → matched memory event_table unreachable 9 as_text event (inbox [] fallen_back).db ≡ some t
    → memory.find_txn t.id (inbox [] fallen_back).db ≡ some t
row_is_found t found =
    let same : row retry_pending ≡ t = cc (event_matches, found) in
    subst (λ r. memory.find_txn r.id (inbox [] fallen_back).db ≡ some r) same refl

process_event_end_example :
    let w = inbox (event ∷ []) fallen_back in
    Ends
      (λ u w'.
        Marked memory event_table unreachable 9 as_text "evt_1" event w w'
        × Settled memory event_table unreachable 9 as_text
            (matched memory event_table unreachable 9 as_text event w.db)
            w.db
            w'.db
        × (process_event memory event_table unreachable 9 as_text "evt_1" w' ≡ (ok tt, w')))
      Never
      (process_event memory event_table unreachable 9 as_text "evt_1" w)
process_event_end_example =
    process_event_end memory event_table unreachable 9 as_text event_table-IsEventRepo saves
      memory-IsLawful memory-IsAvailable "evt_1" event (inbox (event ∷ []) fallen_back) refl refl
      (λ t found. row_is_found t found)

ingest_duplicate_example :
    let w = inbox (event ∷ []) fallen_back in
    ingest memory event_table unreachable incoming w ≡ (ok seen_before, w)
ingest_duplicate_example =
    ingest_duplicate memory event_table unreachable event_table-IsEventRepo incoming event
      (inbox (event ∷ []) fallen_back) refl

ingest_queued_example :
    let w = inbox [] fallen_back in
    let w' = (ingest memory event_table unreachable incoming w).1 in
    ((ingest memory event_table unreachable incoming w).0 ≡ ok (first_time event))
    × (event_table.find_event "evt_1" w'.events ≡ some event)
    × ((brpop unreachable reconciliation_queue 2 w'.redis).0 ≡ ok (some (text "evt_1")))
    × (ingest memory event_table unreachable incoming w' ≡ (ok seen_before, w'))
unfolding new_event
ingest_queued_example =
    ingest_queued memory event_table unreachable event_table-IsEventRepo incoming event (event ∷ [])
      (inbox [] fallen_back) refl refl refl

ingest_lost_example :
    let w = inbox [] connected in
    let w' = (ingest memory event_table unreachable incoming w).1 in
    ((ingest memory event_table unreachable incoming w).0 ≡ err (other "redis"))
    × (event_table.find_event "evt_1" w'.events ≡ some event)
    × (false ≡ false)
    × (ingest memory event_table unreachable incoming w' ≡ (ok seen_before, w'))
unfolding new_event
ingest_lost_example =
    ingest_lost memory event_table unreachable event_table-IsEventRepo incoming event (event ∷ [])
      tt (inbox [] connected) refl refl refl

-- a moment at which another method empties the table of events
abbrev moment : Moment memory event_table unreachable
moment = record { meanwhile = λ w. record w { events = [] }; now = 9 }

abbrev moments : List (Moment memory event_table unreachable)
moments =
    moment ∷ moment ∷ moment ∷ moment ∷ moment ∷ moment ∷ moment ∷ moment ∷ moment ∷ moment ∷ moment
    ∷ []

destroyed_worker_stops_example :
    (let (w, s') = over_time memory event_table unreachable as_text (moment ∷ moment ∷ []) (
      on_module_init memory event_table unreachable as_text 1
          (fresh_worker memory event_table unreachable),
      inbox (event ∷ []) fallen_back,
    ) in
      over_time memory event_table unreachable as_text moments
        (on_module_destroy memory event_table unreachable as_text w, s')).0.phase
    ≡ stopped
destroyed_worker_stops_example =
    destroyed_worker_stops memory event_table unreachable as_text 1 (moment ∷ moment ∷ []) moments
      (inbox (event ∷ []) fallen_back) (omega arith)
