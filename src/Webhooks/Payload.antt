-- ===== src/Webhooks/Payload.antt =====
-- `extractGatewayTxnId` of webhooks/reconciliation-worker.service.ts.
use payment_orchestration_la.Common.{String, Option, some, List, [], ◌∷◌, if◌then◌else◌}
use payment_orchestration_la.Enums.{GatewayProvider, stripe, razorpay, payu, upi}
use payment_orchestration_la.Json.{Json, null, get_field, truthy, or_else}

-- `v?.a?.b?.c`
abbrev pub get_path : Option Json → List String → Option Json
get_path v [] = v
get_path v (k ∷ ks) = get_path (get_field v k) ks

-- `a || b || … || null`
abbrev pub first_truthy : List (Option Json) → Option Json
first_truthy [] = some null
first_truthy (a ∷ bs) = or_else a (first_truthy bs)

unfoldable pub extract_gateway_txn_id : GatewayProvider → Json → Option Json
extract_gateway_txn_id gateway payload =
    let at : List String → Option Json = get_path (some payload) in
    let found : Option Json = elim gateway [
      | stripe ↦ first_truthy (at ("data" ∷ "object" ∷ "id" ∷ []) ∷ at ("id" ∷ []) ∷ [])
      | razorpay ↦ first_truthy (
          at ("payload" ∷ "payment" ∷ "entity" ∷ "id" ∷ [])
          ∷ at ("payload" ∷ "payment" ∷ "entity" ∷ "order_id" ∷ [])
          ∷ at ("id" ∷ [])
          ∷ [])
      | payu ↦ first_truthy (at ("mihpayid" ∷ []) ∷ at ("txnid" ∷ []) ∷ at ("id" ∷ []) ∷ [])
      | upi ↦ first_truthy (at ("upi_txn_id" ∷ []) ∷ at ("id" ∷ []) ∷ [])
    ] in
    if truthy (some payload) then found else some null
