-- ===== src/Adapters/Razorpay.antt =====
-- gateways/adapters/razorpay.adapter.ts
use payment_orchestration_la.Common.{some, [], ◌∷◌, if◌then◌else◌, template, ◌||◌}
use payment_orchestration_la.Json.{num, str, obj, field, end}
use payment_orchestration_la.Routing.Config.{Env, ends_with}
use payment_orchestration_la.Payments.Charge.{GatewayChargeRequest}
use payment_orchestration_la.Adapters.{
  Web, Charged, HttpRequest, json, simulated, simulated_timeout, paid, declined, is_mock_key, ◌>>?◌,
  post_for_json, live, new_id, basic_headers, razorpay_outcome,
}
use payment_orchestration_la.Adapters.Decimal.{decimal}

module _ (web : Web) (env : Env) (request : GatewayChargeRequest) where
  -- The answer of the simulation, by the amount.
  unfoldable pub simulation : Charged
  unfolding simulated simulated_timeout paid declined
  simulation =
      let amount = decimal request.amount in
      if ends_with amount "96"
      then simulated_timeout web
      else if ends_with amount "01"
      then simulated web 150 (
          declined "Simulated Razorpay Failure" (
            obj (
              field "error"
                (obj (field "description" (str "Payment failed due to customer issue.") end)) end)))
      else simulated web 250 (
          paid (some (some (new_id "pay_rzp_" web))) (
            obj (
              field "status" (str "captured") (
                field "id" (str (template ("pay_rzp_" ∷ request.transaction_id ∷ [])))
                  (field "amount" (num request.amount) end)))))

  abbrev pub order_post : HttpRequest
  order_post = record {
    url = "https://api.razorpay.com/v1/orders";
    headers = basic_headers web (env "RAZORPAY_KEY_ID") (env "RAZORPAY_KEY_SECRET");
    body = json (
        obj (
          field "amount" (num request.amount) (
            field "currency" (str request.currency)
              (field "receipt" (str request.transaction_id) end))));
  }

  unfoldable pub live_charge : Charged
  unfolding razorpay_outcome live post_for_json
  live_charge =
      let (after, answer) = post_for_json web order_post in
      live "Network error on Razorpay" after
        (answer >>? λ r. razorpay_outcome web "Razorpay order creation failed" after r.0 r.1)
        (order_post ∷ [])

  unfoldable pub charge : Charged
  unfolding simulation live_charge is_mock_key
  charge =
      let amount = decimal request.amount in
      if is_mock_key "rzp_test_xxx" (env "RAZORPAY_KEY_ID")
        || ends_with amount "96"
        || ends_with amount "01"
        || ends_with amount "99"
        || ends_with amount "00"
      then simulation
      else live_charge
