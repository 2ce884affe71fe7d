-- ===== src/Adapters/Stripe.antt =====
-- gateways/adapters/stripe.adapter.ts
use payment_orchestration_la.Common.{ℕ, String, some, [], ◌∷◌, if◌then◌else◌, template, ◌||◌, ◌==◌}
use payment_orchestration_la.Common.Effect.{Result, ok}
use payment_orchestration_la.Json.{Json, str, obj, field, end, get_field}
use payment_orchestration_la.Routing.Config.{Env, ends_with}
use payment_orchestration_la.Payments.Charge.{GatewayChargeRequest, GatewayChargeResponse}
use payment_orchestration_la.Adapters.{
  Web, Charged, HttpRequest, form, simulated, simulated_timeout, paid, declined, is_mock_key,
  member, text_or, is_str, id_of, ◌>>?◌, post_for_json, live, shown, new_id,
}
use payment_orchestration_la.Adapters.Decimal.{decimal}

module _ (web : Web) (env : Env) (request : GatewayChargeRequest) where
  -- The answer of the simulation, by the amount.
  unfoldable pub simulation : Charged
  unfolding simulated simulated_timeout paid declined
  simulation =
      let amount = decimal request.amount in
      if ends_with amount "99"
      then simulated_timeout web
      else if ends_with amount "00"
      then simulated web 150 (
          declined "Simulated Stripe Card Decline" (
            obj (
              field "error"
                (obj (
                  field "message" (str "Your card was declined.")
                    (field "code" (str "card_declined") end)))
                end)))
      else simulated web 200 (
          paid (some (some (new_id "ch_str_" web))) (
            obj (
              field "status" (str "succeeded") (
                field "object" (str "charge")
                  (field "id" (str (template ("ch_str_" ∷ request.transaction_id ∷ []))) end)))))

  abbrev pub charge_post : HttpRequest
  charge_post = record {
    url = "https://api.stripe.com/v1/charges";
    headers =
        ("Authorization", template ("Bearer " ∷ shown (env "STRIPE_SECRET_KEY") ∷ []))
        ∷ ("Content-Type", "application/x-www-form-urlencoded")
        ∷ ("Idempotency-Key", request.idempotency_key)
        ∷ [];
    body = form (
        ("amount", decimal request.amount)
        ∷ ("currency", web.lower request.currency)
        ∷ ("description", template ("Transaction " ∷ request.transaction_id ∷ []))
        ∷ ("source", "tok_visa")
        ∷ []);
  }

  -- What is made of the status and the data.
  unfoldable pub outcome : ℕ → ℕ → Json → Result String GatewayChargeResponse
  unfolding paid declined member text_or id_of
  outcome latency status content =
      let failed = member web "error" content >>? λ e.
      ok
        (declined (text_or web (get_field e "message") "Stripe charging failed") content latency) in
      if status == 200
      then (member web "status" content >>? λ s.
          if is_str s "succeeded"
          then (member web "id" content >>? λ id. ok (paid (id_of web id) content latency))
          else failed)
      else failed

  unfoldable pub live_charge : Charged
  unfolding outcome live post_for_json
  live_charge =
      let (after, answer) = post_for_json web charge_post in
      live "Network error on Stripe" after (answer >>? λ r. outcome after r.0 r.1)
        (charge_post ∷ [])

  unfoldable pub charge : Charged
  unfolding simulation live_charge is_mock_key
  charge =
      let amount = decimal request.amount in
      if is_mock_key "sk_test_xxx" (env "STRIPE_SECRET_KEY")
        || ends_with amount "99"
        || ends_with amount "00"
      then simulation
      else live_charge
