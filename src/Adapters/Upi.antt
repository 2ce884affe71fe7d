-- ===== src/Adapters/Upi.antt =====
-- gateways/adapters/upi.adapter.ts, which charges by payment links of Razorpay
use payment_orchestration_la.Common.{
  ℕ, ◌+◌, String, Bool, true, false, not, Option, none, some, [], ◌∷◌, if◌then◌else◌, template,
  ◌||◌, ◌&&◌, ◌==◌,
}
use payment_orchestration_la.Common.Effect.{Result, ok, err}
use payment_orchestration_la.Json.{
  Json, null, bool, num, str, arr, obj, field, end, get_field, Items, Fields, nil, item,
}
use payment_orchestration_la.Routing.Config.{Env, ends_with, text_includes}
use payment_orchestration_la.Payments.Charge.{GatewayChargeRequest, GatewayChargeResponse}
use payment_orchestration_la.Adapters.{
  Web, Charged, HttpRequest, json, simulated, simulated_timeout, paid, declined, is_mock_key,
  is_key, is_str, member, ◌>>?◌, post_for_json, live, basic_headers, razorpay_outcome,
}
use payment_orchestration_la.Adapters.Decimal.{decimal}

abbrev has_item : String → Items → Bool
has_item t nil = false
has_item t (item v vs) = let rest = has_item t vs in is_str (some v) t || rest

-- `value?.includes(text)`, by its truth: on a text or an array, and a TypeError on other values
unfoldable pub includes : Web → Option Json → String → Result String Bool
includes web none t = ok false
includes web (some null) t = ok false
includes web (some (str s)) t = ok (text_includes s t)
includes web (some (arr vs)) t = ok (has_item t vs)
includes web (some _) t = err (web.type_error "includes")

module _ (web : Web) (env : Env) (request : GatewayChargeRequest) where
  -- The answer of the simulation, by the amount.
  unfoldable pub simulation : Charged
  unfolding simulated simulated_timeout paid declined
  simulation =
      let amount = decimal request.amount in
      let mock_id = template ("upi_mock_" ∷ request.transaction_id ∷ []) in
      if ends_with amount "98" || ends_with amount "99"
      then simulated_timeout web
      else if ends_with amount "00" || ends_with amount "03"
      then simulated web 150 (
          declined "Simulated UPI Intent App Failure" (
            obj (
              field "error" (obj (field "message" (str "UPI payment declined by user.") end)) end)))
      else simulated web 100 (
          paid (some (some mock_id))
            (obj (field "status" (str "SUCCESS") (field "upi_txn_id" (str mock_id) end))))

  -- The parameters without `upi_link`.
  abbrev link_params : Fields
  link_params = field "amount" (num request.amount) (
      field "currency" (str request.currency) (
        field "reference_id" (str request.transaction_id) (
          field "description"
            (str (template ("UPI payment for transaction " ∷ request.transaction_id ∷ [])))
            (field "customer"
              (obj (
                field "name" (str "UPI Test User") (
                  field "email" (str "test@example.com")
                    (field "contact" (str "+919876543210") end))))
              (field "notify" (obj (field "sms" (bool false) (field "email" (bool false) end)))
                end)))))

  abbrev link_post : Fields → HttpRequest
  link_post params = record {
    url = "https://api.razorpay.com/v1/payment_links/";
    headers = basic_headers web (env "RAZORPAY_KEY_ID") (env "RAZORPAY_KEY_SECRET");
    body = json (obj params);
  }

  abbrev pub upi_post : HttpRequest
  upi_post = link_post (field "upi_link" (str "true") link_params)

  abbrev pub standard_post : HttpRequest
  standard_post = link_post link_params

  -- Whether the first answer says that UPI links do not work in test mode.
  unfoldable pub asks_for_standard : ℕ × Json → Result String Bool
  unfolding includes member
  asks_for_standard (status, content) =
      if not (status == 200) && not (status == 201)
      then (member web "error" content >>? λ e.
          includes web (get_field e "description")
            "UPI Payment Links is not supported in Test Mode")
      else ok false

  unfoldable pub finish : ℕ → ℕ × Json → Result String GatewayChargeResponse
  unfolding razorpay_outcome
  finish after r = razorpay_outcome web "Razorpay UPI payment link creation failed" after r.0 r.1

  -- The end of the charge, by whether it is tried again with a standard link.
  unfoldable pub finish_or_retry : Result String Bool → Charged
  unfolding finish live post_for_json
  finish_or_retry retry =
      let (after, answer) = post_for_json web upi_post in
      elim retry [
        | ok true ↦
            let (later, second) = post_for_json web standard_post in
            live "Network error on Razorpay UPI" (after + later) (second >>? finish (after + later))
              (upi_post ∷ standard_post ∷ [])
        | ok false ↦
            live "Network error on Razorpay UPI" after (answer >>? finish after) (upi_post ∷ [])
        | err m ↦ live "Network error on Razorpay UPI" after (err m) (upi_post ∷ [])
      ]

  unfoldable pub live_charge : Charged
  unfolding asks_for_standard finish_or_retry post_for_json
  live_charge = finish_or_retry ((post_for_json web upi_post).1 >>? asks_for_standard)

  unfoldable pub charge : Charged
  unfolding simulation live_charge is_mock_key
  charge =
      let amount = decimal request.amount in
      let key = env "RAZORPAY_KEY_ID" in
      if is_mock_key "rzp_test_xxx" key
        || is_key "rzp_test_mock" key
        || is_key "xxxxxxxxxxxx" key
        || ends_with amount "98"
        || ends_with amount "99"
        || ends_with amount "00"
        || ends_with amount "03"
      then simulation
      else live_charge
