-- ===== src/Webhooks/Process.antt =====
-- `processEvent` of webhooks/reconciliation-worker.service.ts: every event is marked once, and its
-- transaction is driven to its end.
use payment_orchestration_la.Common.{
  ℕ, String, ◌≡◌, ◌≢◌, refl, Bool, true, false, Option, none, some, subst, ap, ◌∙◌, if◌then◌else◌,
}
use payment_orchestration_la.Common.Effect.{Result, ok, err, Action, pure, gets, ◌>>=◌, ◌>>◌}
use payment_orchestration_la.Common.Effect.Rules.{
  Ends, Never, Ends-bind, Ends-mono, gets_lem, bind_ok,
}
use payment_orchestration_la.Json.{Json, truthy}
use payment_orchestration_la.Entities.{Transaction, WebhookEvent}
use payment_orchestration_la.Database.{Database, IsLawful, IsAvailable, Exception}
use payment_orchestration_la.Redis.{RedisClient}
use payment_orchestration_la.Webhooks.Events.{EventRepo, IsEventRepo, EventSaved, Inbox}
use payment_orchestration_la.Webhooks.Payload.{extract_gateway_txn_id}
use payment_orchestration_la.Webhooks.Worker.{
  on_txns, on_events, marked, mark, find_for, reconcile, process_event, drive_to_reconciled,
}
use payment_orchestration_la.Webhooks.Path.{Driven, route, target}
use payment_orchestration_la.Webhooks.Drive.{drive_end}

-- A table of events that refuses no save.
abbrev pub SavesAllEvents : EventRepo → Type 0
SavesAllEvents E =
    (e : WebhookEvent) (s : E.State) → Ends (λ u s'. EventSaved E e s s') Never (E.save_event e s)

module _ (D : Database) (E : EventRepo) (C : RedisClient) (now : ℕ) (as_text : Json → String) where
  -- The transaction that an event is about, if there is one, by the id that the payload names.
  abbrev pub matched_by : Option Json → WebhookEvent → D.Db → Option Transaction
  matched_by none e db = none
  matched_by (some g) e db =
      if truthy (some g) then find_for D E C now as_text g e.payload db else none

  abbrev pub matched : WebhookEvent → D.Db → Option Transaction
  matched e db = matched_by (extract_gateway_txn_id e.gateway e.payload) e db

  -- The event under `id` was marked, no other event has changed, and Redis was not called.
  pub record Marked (id : String) (e : WebhookEvent) (w w' : Inbox D E C) : Type 0 where
    pub stored : E.find_event id w'.events ≡ some (marked D E C now as_text e)
    pub others : (j : String) → j ≢ id → E.find_event j w'.events ≡ E.find_event j w.events
    pub same_redis : w'.redis ≡ w.redis

  -- What has become of the transactions.
  abbrev pub Settled : Option Transaction → D.Db → D.Db → Type 0
  Settled none db db' = db' ≡ db
  Settled (some t) db db' = Driven D t.id (route t.current_state) (target t.current_state) db db'

  abbrev id_text : Option Json → String
  id_text none = ""
  id_text (some g) = as_text g

  -- `processEvent` on the transaction that it has found
  settle_with :
      WebhookEvent → String → Option Transaction → Action (Inbox D E C) Exception (Unit {0})
  settle_with e gid none = mark D E C now as_text e
  settle_with e gid (some t) =
      on_txns D E C now as_text (drive_to_reconciled D now t e.gateway gid e.payload)
      >> mark D E C now as_text e

  if_settle :
      (b : Bool) (e : WebhookEvent) (gid : String) (o : Option Transaction) (w : Inbox D E C)
      (m : Action (Inbox D E C) Exception (Unit {0}))
      → m w ≡ settle_with e gid o w
      → (if b then m else mark D E C now as_text e) w ≡ settle_with e gid (if b then o else none) w
  unfolding settle_with
  if_settle true e gid o w m h = h
  if_settle false e gid o w m h = refl

  reconcile_as :
      (g : Option Json) (e : WebhookEvent) (w : Inbox D E C)
      → reconcile D E C now as_text e g w ≡ settle_with e (id_text g) (matched_by g e w.db) w
  unfolding reconcile settle_with gets ◌>>=◌
  reconcile_as none e w = refl
  reconcile_as (some g) e w = if_settle (truthy (some g)) e (as_text g) _ w _ refl

  process_event_fresh :
      (id : String) (e : WebhookEvent) (w : Inbox D E C)
      → E.find_event id w.events ≡ some e
      → e.processed ≡ false
      → process_event D E C now as_text id w
        ≡ settle_with e (id_text (extract_gateway_txn_id e.gateway e.payload)) (matched e w.db) w
  unfolding process_event
  process_event_fresh id e w found fresh =
      bind_ok _ _ (gets_lem _ w ∙ ap (λ o. (ok o, w)) found)
      ∙ (ap
            (λ b.
              (if b
                  then pure tt
                  else reconcile D E C now as_text e (extract_gateway_txn_id e.gateway e.payload))
                w)
            fresh
          ∙ reconcile_as (extract_gateway_txn_id e.gateway e.payload) e w)

  -- An event that is processed is dropped.
  process_event_dropped :
      (id : String) (e : WebhookEvent) (w : Inbox D E C)
      → E.find_event id w.events ≡ some e
      → e.processed ≡ true
      → process_event D E C now as_text id w ≡ (ok tt, w)
  unfolding process_event pure
  process_event_dropped id e w found done =
      bind_ok _ _ (gets_lem _ w ∙ ap (λ o. (ok o, w)) found) ∙ rw done refl

module _ (D : Database) (E : EventRepo) (C : RedisClient) (now : ℕ) (as_text : Json → String)
    (law : IsEventRepo E) (saves : SavesAllEvents E) where
  mark_end :
      (e : WebhookEvent) (w : Inbox D E C)
      → Ends
          (λ u w'. Marked D E C now as_text e.id e w w' × (w'.db ≡ w.db))
          Never
          (mark D E C now as_text e w)
  unfolding mark on_events marked
  mark_end e w = ended _ (saves (marked D E C now as_text e) w.events)
    where
      ended :
          (o : Result Exception (Unit {0}) × E.State)
          → Ends (λ u s. EventSaved E (marked D E C now as_text e) w.events s) Never o
          → Ends
              (λ u w'. Marked D E C now as_text e.id e w w' × (w'.db ≡ w.db))
              Never
              (let (r, s') = o in (r, record w { events = s' }))
      ended (ok a, s') h = record {
        holds =
            (record { stored = h.holds.stored; others = h.holds.others; same_redis = refl }, refl);
      }
      ended (err x, s') h = absurd h.holds

  module _ (lawful : IsLawful D) (available : IsAvailable D) where
    drive_on_end :
        (e : WebhookEvent) (gid : String) (t : Transaction) (w : Inbox D E C)
        → D.find_txn t.id w.db ≡ some t
        → Ends
            (λ u w'.
              Settled D E C now as_text (some t) w.db w'.db
              × (w'.events ≡ w.events)
              × (w'.redis ≡ w.redis))
            Never
            (on_txns D E C now as_text (drive_to_reconciled D now t e.gateway gid e.payload) w)
    unfolding on_txns
    drive_on_end e gid t w found =
        ended _ (drive_end D lawful available now t.id e.gateway gid e.payload t w.db refl found)
      where
        ended :
            (o : Result Exception (Unit {0}) × D.Db)
            → Ends (λ u db'. Settled D E C now as_text (some t) w.db db') Never o
            → Ends
                (λ u w'.
                  Settled D E C now as_text (some t) w.db w'.db
                  × (w'.events ≡ w.events)
                  × (w'.redis ≡ w.redis))
                Never
                (let (r, db') = o in (r, record w { db = db' }))
        ended (ok a, db') h = record { holds = (h.holds, refl, refl) }
        ended (err x, db') h = absurd h.holds

    settle_end :
        (e : WebhookEvent) (gid : String) (o : Option Transaction) (w : Inbox D E C)
        → ((t : Transaction) → o ≡ some t → D.find_txn t.id w.db ≡ some t)
        → Ends
            (λ u w'. Marked D E C now as_text e.id e w w' × Settled D E C now as_text o w.db w'.db)
            Never
            (settle_with D E C now as_text e gid o w)
    unfolding settle_with
    settle_end e gid none w stored = mark_end e w
    settle_end e gid (some t) w stored =
        Ends-bind _ _ _ w (drive_on_end e gid t w (stored t refl)) λ u w₁ driven.
          Ends-mono _ (mark_end e w₁)
            (λ v w₂ r m. (
              record {
                stored = m.0.stored;
                others = λ j ne. m.0.others j ne ∙ ap (E.find_event j) driven.1;
                same_redis = m.0.same_redis ∙ driven.2;
              },
              rw m.1 driven.0,
            ))
            (λ x s r never. never)

    -- An event that is stored and not processed, in a database and a table of events that refuse
    -- no write: `processEvent` returns and marks the event, the transaction that matches it, if
    -- there is one, is left RECONCILED, or FAILED if it was FAILED, and a second delivery of the
    -- event is dropped.
    pub process_event_end :
        (id : String) (e : WebhookEvent) (w : Inbox D E C)
        → E.find_event id w.events ≡ some e
        → e.processed ≡ false
        → ((t : Transaction)
            → matched D E C now as_text e w.db ≡ some t
            → D.find_txn t.id w.db ≡ some t)
        → Ends
            (λ u w'.
              Marked D E C now as_text id e w w'
              × Settled D E C now as_text (matched D E C now as_text e w.db) w.db w'.db
              × (process_event D E C now as_text id w' ≡ (ok tt, w')))
            Never
            (process_event D E C now as_text id w)
    process_event_end id e w found fresh stored =
        let own = law.id-find_event id e w.events found in
        rw (process_event_fresh D E C now as_text id e w found fresh) (
          Ends-mono _ (settle_end e _ (matched D E C now as_text e w.db) w stored)
            (λ u w' r h.
              let m = subst (λ j. Marked D E C now as_text j e w w') own h.0 in
              (
                m,
                h.1,
                process_event_dropped D E C now as_text id (marked D E C now as_text e) w' m.stored
                    (unfold marked in refl),
              ))
            (λ x s r never. never))
