-- ===== src/Payments/Charge.antt =====
-- gateways/interfaces/gateway-adapter.interface.ts, and the race of one charge against its time
-- limit in transactions/transactions.service.ts.
use payment_orchestration_la.Common.{
  ℕ, String, Bool, false, Option, none, some, ltb, ◌==◌, str_eq, if◌then◌else◌,
}
use payment_orchestration_la.Common.Effect.{Result, ok, err}
use payment_orchestration_la.Enums.{GatewayProvider}
use payment_orchestration_la.Json.{Json, str, obj, field, end}

pub record GatewayChargeRequest : Type 0 where
  pub transaction_id : String
  pub amount : ℕ
  pub currency : String
  pub idempotency_key : String

-- `gateway_txn_id` is `none` where it is `undefined`, and `some none` where it is `null`.
pub record GatewayChargeResponse : Type 0 where
  pub success : Bool
  pub gateway_txn_id : Option (Option String)
  pub raw_response : Json
  pub error : Option String
  pub latency_ms : ℕ

-- What a call of `adapter.charge` comes to: it settles after so many milliseconds, with a response
-- or with the message of an error.
pub record Settled : Type 0 where
  pub after : ℕ
  pub value : Result String GatewayChargeResponse

-- The outside world of the payment service.
pub record Outside : Type 0 where
  -- the adapters, each charge with an idempotency key of its own
  pub charge : GatewayProvider → GatewayChargeRequest → Settled
  -- when a timer of `setTimeout` that was set to so many milliseconds goes off
  pub timer : ℕ → ℕ
  -- the time of `new Date()`
  pub now : ℕ

-- The object that the `catch` builds; `err.message || 'Timeout / Network Error'`.
unfoldable pub failed_charge : String → ℕ → GatewayChargeResponse
failed_charge message elapsed =
    let text = if str_eq message "" then "Timeout / Network Error" else message in
    record {
      success = false;
      gateway_txn_id = none;
      raw_response = obj (field "error" (str text) end);
      error = some text;
      latency_ms = elapsed;
    }

-- `Promise.race` of the charge with a timer of 1500 ms, and the time that it took.
unfoldable pub race : Outside → GatewayProvider → GatewayChargeRequest → GatewayChargeResponse × ℕ
unfolding failed_charge
race o gateway request =
    let settled = o.charge gateway request in
    let limit = o.timer 1500 in
    let answer : GatewayChargeResponse = elim settled.value [
      | ok response ↦ response
      | err message ↦ failed_charge message settled.after
    ] in
    if ltb settled.after limit
    then (answer, settled.after)
    else (failed_charge "Gateway call timed out" limit, limit)

-- `chargeResult.latencyMs || (Date.now() - startTime)`
unfoldable pub latency_of : GatewayChargeResponse × ℕ → ℕ
latency_of (response, elapsed) = if response.latency_ms == 0 then elapsed else response.latency_ms
