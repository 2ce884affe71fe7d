-- ===== src/Payments/Requests.antt =====
-- What `create` of transactions/transactions.service.ts builds: rows, metadata and charges.
use payment_orchestration_la.Common.{
  ℕ, String, true, false, Option, none, some, List, [], ◌∷◌, template,
}
use payment_orchestration_la.Enums.{initiated, GatewayProvider, provider_name}
use payment_orchestration_la.Entities.{Transaction, AuditLog}
use payment_orchestration_la.StateMachine.{Metadata}
use payment_orchestration_la.Payments.Charge.{GatewayChargeRequest, GatewayChargeResponse}

pub record CreateTransactionDto : Type 0 where
  pub idempotency_key : String
  pub merchant_id : String
  pub amount : ℕ
  pub currency : String

-- The row of step 3; the database replaces the empty id, and the default of `attempt_count` is 0.
unfoldable pub new_transaction :
    CreateTransactionDto → GatewayProvider → List GatewayProvider → Transaction
new_transaction dto primary fallbacks = record {
  id = "";
  idempotency_key = dto.idempotency_key;
  merchant_id = dto.merchant_id;
  amount = dto.amount;
  currency = dto.currency;
  current_state = initiated;
  selected_gateway = some primary;
  gateway_txn_id = none;
  fallback_gateways = fallbacks;
  attempt_count = 0;
  final_reconciled_at = none;
}

unfoldable pub creation_entry : String → GatewayProvider → AuditLog
creation_entry id primary = record {
  transaction_id = id;
  from_state = none;
  to_state = initiated;
  gateway = some primary;
  reason = some "transaction created";
  raw_gateway_response = none;
}

-- The metadata of the transitions that `create` makes.
unfoldable pub routed_metadata : GatewayProvider → Metadata
routed_metadata g = record {
  gateway = some (some g);
  gateway_txn_id = none;
  reason = some (template ("Gateway " ∷ provider_name g ∷ " selected for attempt" ∷ []));
  raw_gateway_response = none;
  increment_attempt = false;
}

unfoldable pub processing_metadata : GatewayProvider → Metadata
processing_metadata g = record {
  gateway = some (some g);
  gateway_txn_id = none;
  reason = some (template ("Initiating API call to " ∷ provider_name g ∷ []));
  raw_gateway_response = none;
  increment_attempt = true;
}

unfoldable pub success_metadata : GatewayProvider → GatewayChargeResponse → Metadata
success_metadata g response = record {
  gateway = some (some g);
  gateway_txn_id = response.gateway_txn_id;
  reason = some "Payment charge succeeded";
  raw_gateway_response = some response.raw_response;
  increment_attempt = false;
}

-- an `undefined` in a template literal
abbrev pub error_text : Option String → String
error_text none = "undefined"
error_text (some s) = s

unfoldable pub retry_metadata : GatewayProvider → GatewayChargeResponse → Metadata
retry_metadata g response = record {
  gateway = some (some g);
  gateway_txn_id = none;
  reason =
      some
        (template ("Attempt failed on " ∷ provider_name g ∷ ": " ∷ error_text response.error ∷ []));
  raw_gateway_response = some response.raw_response;
  increment_attempt = false;
}

unfoldable pub failure_metadata : GatewayProvider → GatewayChargeResponse → Metadata
failure_metadata g response = record {
  gateway = some (some g);
  gateway_txn_id = none;
  reason = some (template ("All attempts failed. Last error: " ∷ error_text response.error ∷ []));
  raw_gateway_response = some response.raw_response;
  increment_attempt = false;
}

-- the charge of one attempt, with `${dto.idempotencyKey}_${currentGateway}`
unfoldable pub charge_request :
    CreateTransactionDto → String → GatewayProvider → GatewayChargeRequest
charge_request dto id g = record {
  transaction_id = id;
  amount = dto.amount;
  currency = dto.currency;
  idempotency_key = template (dto.idempotency_key ∷ "_" ∷ provider_name g ∷ []);
}
