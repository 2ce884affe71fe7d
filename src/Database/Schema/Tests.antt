-- ===== src/Database/Schema/Tests.antt =====
-- Rows of a payment that the tables hold.
use payment_orchestration_la.Common.{false, some}
use payment_orchestration_la.Json.{end, obj}
use payment_orchestration_la.Payments.Charge.{GatewayChargeResponse}

abbrev refusal : GatewayChargeResponse
refusal = record {
  success = false;
  gateway_txn_id = some (some "ch_1");
  error = some "Your card was declined.";
  raw_response = obj end;
  latency_ms = 120;
}
