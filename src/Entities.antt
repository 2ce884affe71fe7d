-- ===== src/Entities.antt =====
-- The rows of the four tables: transactions/entities, webhooks/entities and gateways/entities.
-- The columns `created_at`, `updated_at` and `received_at`, which the database fills in and the
-- code only hands on, are left out. A date is a number of milliseconds.
use payment_orchestration_la.Common.{ℕ, String, Bool, Option, List}
use payment_orchestration_la.Enums.{TransactionState, GatewayProvider, CircuitState}
use payment_orchestration_la.Json.{Json}

pub record Transaction : Type 0 where
  pub id : String
  pub idempotency_key : String
  pub merchant_id : String
  pub amount : ℕ
  pub currency : String
  pub current_state : TransactionState
  pub selected_gateway : Option GatewayProvider
  pub gateway_txn_id : Option String
  pub fallback_gateways : List GatewayProvider
  pub attempt_count : ℕ
  pub final_reconciled_at : Option ℕ

pub record AuditLog : Type 0 where
  pub transaction_id : String
  pub from_state : Option TransactionState
  pub to_state : TransactionState
  pub gateway : Option GatewayProvider
  pub reason : Option String
  pub raw_gateway_response : Option Json

pub record WebhookEvent : Type 0 where
  pub id : String
  pub gateway : GatewayProvider
  pub event_id : String
  pub event_type : String
  pub payload : Json
  pub signature_verified : Bool
  pub processed : Bool
  pub processed_at : Option ℕ

pub record GatewayStats : Type 0 where
  pub gateway : GatewayProvider
  pub success_count : ℕ
  pub failure_count : ℕ
  pub avg_latency_ms : ℕ
  pub cost_bps : ℕ
  pub circuit_state : CircuitState
  pub consecutive_failures : ℕ
