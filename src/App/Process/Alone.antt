-- ===== src/App/Process/Alone.antt =====
-- A request that nothing interrupts, and the calls of App.
use payment_orchestration_la.Common.{ℕ, String, ◌≡◌, ◌∙◌, ap, refl, Option}
use payment_orchestration_la.Common.Effect.{Result, ok, err, Action, pure, ◌>>=◌}
use payment_orchestration_la.Enums.{GatewayProvider}
use payment_orchestration_la.Routing.Config.{Env}
use payment_orchestration_la.Payments.Charge.{Outside}
use payment_orchestration_la.Payments.Requests.{CreateTransactionDto}
use payment_orchestration_la.Payments.Tasks.Alone.{post_payment-Does}
use payment_orchestration_la.Webhooks.Endpoints.{HookRequest}
use payment_orchestration_la.Webhooks.Tasks.{round_task}
use payment_orchestration_la.Webhooks.Tasks.Alone.{hook-Does, poll-Does}
use payment_orchestration_la.App.{Platform, App, Call, pay, notify, work, system, serve}
use payment_orchestration_la.App.Process.{
  Request, world_part, inbox_part, payment_request, webhook_request,
}
use payment_orchestration_la.Async.{run, rescue, give}
use payment_orchestration_la.Async.Alone.{Does-bind, Does-give}
use payment_orchestration_la.Async.Lens.{zoom, zoomed, Does-zoom}

-- the state that an action leaves, whatever is done with its answer
left_by :
    {S X A : Type 0} (m : Action S X A) (s : S)
    → ((m >>= λ a. pure {A = Unit {0}} tt) s).1 ≡ (m s).1
unfolding ◌>>=◌ pure
left_by {S = S} {X = X} {A = A} m s = ends (m s)
  where
    ends :
        (o : Result X A × S)
        → (let (r, s') = o in
            elim r as (λ x. Result X (Unit {0}) × S) [ ok a ↦ (ok tt, s') | err x ↦ (err x, s') ]).1
          ≡ o.1
    ends (ok a, s') = refl
    ends (err x, s') = refl

module _ (P : Platform) where
  payment_request_alone :
      (env : Env) (outside : Outside) (dto : CreateTransactionDto) (header : Option String)
      (a : App P)
      → (run (payment_request P env outside dto header) a).1
        ≡ serve P (pay env outside dto header) a
  unfolding payment_request serve zoomed
  payment_request_alone env outside dto header a =
      ap (λ o. o.1)
        ((Does-bind
            (Does-zoom (world_part P env outside)
              (post_payment-Does (system P env outside) dto header))
            λ t. Does-give tt).same
          a)
      ∙ left_by _ a

  webhook_request_alone :
      (env : Env) (g : GatewayProvider) (r : HookRequest) (a : App P)
      → (run (webhook_request P env g r) a).1 ≡ serve P (notify env g r) a
  unfolding webhook_request serve zoomed
  webhook_request_alone env g r a =
      ap (λ o. o.1)
        ((Does-bind
            (Does-zoom (inbox_part P)
              (hook-Does P.database P.events P.client P.as_text P.crypto env g r))
            λ t. Does-give tt).same
          a)
      ∙ left_by _ a

  round_alone :
      (now : ℕ) (a : App P)
      → (run
          (zoom
            (inbox_part P)
            (rescue (round_task P.database P.events P.client now P.as_text) λ x. give tt))
          a).1
        ≡ serve P (work now) a
  unfolding serve zoomed
  round_alone now a =
      ap (λ o. o.1)
        ((Does-zoom (inbox_part P) (poll-Does P.database P.events P.client now P.as_text)).same a)

  -- The method that serves a call, await by await.
  unfoldable pub method_of : Call → Request P
  unfolding payment_request webhook_request
  method_of (pay env outside dto header) = payment_request P env outside dto header
  method_of (notify env g r) = webhook_request P env g r
  method_of (work now) =
      zoom (inbox_part P)
        (rescue (round_task P.database P.events P.client now P.as_text) λ x. give tt)

  -- A payment request, a webhook or a round of the worker that nothing interrupts at its awaits
  -- leaves the state that the call as a whole leaves.
  pub alone : (call : Call) (a : App P) → (run (method_of call) a).1 ≡ serve P call a
  unfolding method_of
  alone (pay env outside dto header) a = payment_request_alone env outside dto header a
  alone (notify env g r) a = webhook_request_alone env g r a
  alone (work now) a = round_alone now a
