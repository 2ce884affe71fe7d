-- ===== src/Adapters/Payu.antt =====
-- gateways/adapters/payu.adapter.ts
use Prim.Native.String.{slice}
use payment_orchestration_la.Common.{
  ℕ, ◌+◌, String, some, [], ◌∷◌, if◌then◌else◌, template, ◌||◌, ◌==◌,
}
use payment_orchestration_la.Common.Effect.{Result, ok, err}
use payment_orchestration_la.Json.{num, str, obj, field, end}
use payment_orchestration_la.Routing.Config.{Env, ends_with}
use payment_orchestration_la.Payments.Charge.{GatewayChargeRequest, GatewayChargeResponse}
use payment_orchestration_la.Adapters.{
  Web, Charged, HttpRequest, HttpResponse, form, simulated, simulated_timeout, paid, declined,
  is_mock_key, is_key, ◌>>?◌, live, shown,
}
use payment_orchestration_la.Adapters.Decimal.{decimal}
use payment_orchestration_la.Adapters.Hundredths.{major_units}

module _ (web : Web) (env : Env) (request : GatewayChargeRequest) where
  -- The answer of the simulation, by the amount.
  unfoldable pub simulation : Charged
  unfolding simulated simulated_timeout paid declined
  simulation =
      let amount = decimal request.amount in
      let mock_id = template ("payu_mock_" ∷ request.transaction_id ∷ []) in
      if ends_with amount "97"
      then simulated_timeout web
      else if ends_with amount "02"
      then simulated web 150 (
          declined "Simulated PayU Failure" (
            obj
              (field "error" (obj (field "message" (str "Bank returned failure code.") end)) end)))
      else simulated web 180 (
          paid (some (some mock_id))
            (obj (field "status" (str "success") (field "mihpayid" (str mock_id) end))))

  -- key|txnid|amount|productinfo|firstname|email|udf1|udf2|udf3|udf4|udf5||||||salt
  unfoldable pub hash_sequence : String
  unfolding major_units
  hash_sequence = template (
      shown (env "PAYU_MERCHANT_KEY")
      ∷ "|"
      ∷ request.transaction_id
      ∷ "|"
      ∷ major_units request.amount
      ∷ "|"
      ∷ template ("Transaction " ∷ request.transaction_id ∷ [])
      ∷ "|"
      ∷ "MerchantTest"
      ∷ "|"
      ∷ "test@example.com"
      ∷ "|"
      ∷ ""
      ∷ "|"
      ∷ ""
      ∷ "|"
      ∷ ""
      ∷ "|"
      ∷ ""
      ∷ "|"
      ∷ ""
      ∷ "||||||"
      ∷ shown (env "PAYU_SALT")
      ∷ [])

  abbrev pub payment_post : HttpRequest
  payment_post = record {
    url = "https://test.payu.in/_payment";
    headers = ("Content-Type", "application/x-www-form-urlencoded") ∷ [];
    body = form (
        ("key", shown (env "PAYU_MERCHANT_KEY"))
        ∷ ("txnid", request.transaction_id)
        ∷ ("amount", major_units request.amount)
        ∷ ("productinfo", template ("Transaction " ∷ request.transaction_id ∷ []))
        ∷ ("firstname", "MerchantTest")
        ∷ ("email", "test@example.com")
        ∷ ("phone", "9999999999")
        ∷ ("surl", "https://localhost:3000/webhooks/payu")
        ∷ ("furl", "https://localhost:3000/webhooks/payu")
        ∷ ("hash", web.sha512 hash_sequence)
        ∷ ("service_provider", "payu_paisa")
        ∷ []);
  }

  -- The response once its body is read: the latency is that of `fetch` alone.
  unfoldable pub outcome : ℕ → ℕ → String → GatewayChargeResponse
  unfolding paid declined
  outcome latency status page =
      if status == 200 || status == 302
      then paid (some (some request.transaction_id))
          (obj (
            field "status" (str "initiated")
              (field "htmlSnippet" (str (slice page 0 500)) (field "statusCode" (num status) end))))
          latency
      else declined (template ("PayU returned status code " ∷ decimal status ∷ []))
          (obj (field "error" (str page) end)) latency

  -- What is made of the answer of `fetch`.
  unfoldable pub finish : ℕ × Result String HttpResponse → Charged
  unfolding outcome live
  finish (after, err m) = live "Network error on PayU" after (err m) (payment_post ∷ [])
  finish (after, ok response) =
      live "Network error on PayU" (after + response.reading)
        (response.content >>? λ page. ok (outcome after response.status page)) (payment_post ∷ [])

  unfoldable pub live_charge : Charged
  unfolding finish
  live_charge = finish (web.fetch payment_post)

  unfoldable pub charge : Charged
  unfolding simulation live_charge is_mock_key
  charge =
      let amount = decimal request.amount in
      let key = env "PAYU_MERCHANT_KEY" in
      if is_mock_key "payu_test_xxx" key
        || is_key "xxxxxxxxxxxx" key
        || ends_with amount "97"
        || ends_with amount "02"
      then simulation
      else live_charge
