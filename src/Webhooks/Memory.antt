-- ===== src/Webhooks/Memory.antt =====
-- A table of webhook events in memory, which shows that the laws of `EventRepo` can be met. The id
-- of a new row is its event id.
use payment_orchestration_la.Common.{
  String, ◌≡◌, ◌≢◌, refl, true, ◌&&◌, Option, none, some, List, [], ◌∷◌, arith, str_eq, eq_iff,
  if◌then◌else◌,
}
use payment_orchestration_la.Common.Effect.{ok, err, Action}
use payment_orchestration_la.Common.Effect.Rules.{Ends, Unchanged, Ends-ok, Ends-err}
use payment_orchestration_la.Enums.{GatewayProvider, stripe, razorpay, payu, upi, provider_eq}
use payment_orchestration_la.Entities.{WebhookEvent}
use payment_orchestration_la.Database.{Exception, refused, unique_violation, other_refusal}
use payment_orchestration_la.Webhooks.Events.{EventRepo, IsEventRepo, EventSaved, EventInserted}

abbrev event_at : String → List WebhookEvent → Option WebhookEvent
event_at id [] = none
event_at id (e ∷ es) = if str_eq e.id id then some e else event_at id es

abbrev put_event : WebhookEvent → List WebhookEvent → List WebhookEvent
put_event e [] = e ∷ []
put_event e (d ∷ ds) = if str_eq d.id e.id then e ∷ ds else d ∷ put_event e ds

abbrev event_seen : GatewayProvider → String → List WebhookEvent → Option WebhookEvent
event_seen g i [] = none
event_seen g i (e ∷ es) =
    if provider_eq e.gateway g && str_eq e.event_id i then some e else event_seen g i es

abbrev add : WebhookEvent → Action (List WebhookEvent) Exception WebhookEvent
add e es = elim (event_seen e.gateway e.event_id es) [
  | some d ↦ (err (refused unique_violation), es)
  | none ↦ elim (event_at e.event_id es) [
    | some d ↦ (err (refused other_refusal), es)
    | none ↦ (ok (record e { id = e.event_id }), record e { id = e.event_id } ∷ es)
  ]
]

abbrev pub event_table : EventRepo
event_table = record {
  State = List WebhookEvent;
  find_event = event_at;
  save_event = λ e s. (ok tt, put_event e s);
  insert_event = add;
  find_seen = event_seen;
}

event_at-id :
    (id : String) (e : WebhookEvent) (es : List WebhookEvent) → event_at id es ≡ some e → e.id ≡ id
event_at-id id e [] h = ground arith
event_at-id id e (d ∷ ds) h = ground (arith, eq_iff d.id id, event_at-id id e ds)

event_at-put_self :
    (e : WebhookEvent) (es : List WebhookEvent) → event_at e.id (put_event e es) ≡ some e
event_at-put_self e [] = ground (arith, eq_iff e.id e.id)
event_at-put_self e (d ∷ ds) =
    ground (arith, eq_iff e.id e.id, eq_iff d.id e.id, event_at-put_self e ds)

event_at-put_ne :
    (e : WebhookEvent) (id : String) (es : List WebhookEvent)
    → id ≢ e.id
    → event_at id (put_event e es) ≡ event_at id es
event_at-put_ne e id [] ne = ground (arith, eq_iff e.id id)
event_at-put_ne e id (d ∷ ds) ne =
    ground (arith, eq_iff e.id id, eq_iff d.id e.id, eq_iff d.id id, event_at-put_ne e id ds)

pub event_table_saved :
    (F : Exception → List WebhookEvent → Type 0) (e : WebhookEvent) (s : List WebhookEvent)
    → Ends (λ u s'. EventSaved event_table e s s') F (event_table.save_event e s)
event_table_saved F e s =
    Ends-ok tt _
      (record { stored = event_at-put_self e s; others = λ id ne. event_at-put_ne e id s ne })

same_provider : (g : GatewayProvider) → provider_eq g g ≡ true
same_provider stripe = refl
same_provider razorpay = refl
same_provider payu = refl
same_provider upi = refl

add_lem :
    (e : WebhookEvent) (s : List WebhookEvent)
    → Ends (λ e' s'. EventInserted event_table e e' s s') (Unchanged s) (add e s)
add_lem e s = added (event_seen e.gateway e.event_id s) (event_at e.event_id s)
  where
    added :
        (a b : Option WebhookEvent)
        → Ends {X = Exception}
            (λ e' s'. EventInserted event_table e e' s s')
            (Unchanged s)
            (elim a [
              | some d ↦ (err (refused unique_violation), s)
              | none ↦ elim b [
                | some d ↦ (err (refused other_refusal), s)
                | none ↦ (ok (record e { id = e.event_id }), record e { id = e.event_id } ∷ s)
              ]
            ])
    added (some d) b = Ends-err _ s refl
    added none (some d) = Ends-err _ s refl
    added none none = Ends-ok _ _ (record {
      returned = refl;
      stored = ground (arith, eq_iff e.event_id e.event_id);
      indexed = ground (arith, same_provider e.gateway, eq_iff e.event_id e.event_id);
    })

-- The laws hold of the table in memory.
pub event_table-IsEventRepo : IsEventRepo event_table
event_table-IsEventRepo = record {
  id-find_event = event_at-id;
  save_event_lem = λ e s. event_table_saved (Unchanged s) e s;
  insert_event_lem = add_lem;
  unique_index = λ e d s h. ground arith;
}
