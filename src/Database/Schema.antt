-- ===== src/Database/Schema.antt =====
-- database/migrations/1751600000000-InitSchema.ts: the statements of the migration. The text of a
-- statement is given by its parts; the default of a column is SQL text.
pub mod Columns
pub mod Rows
mod Tests
use payment_orchestration_la.Common.{
  ℕ, String, Bool, true, false, Option, none, some, List, [], ◌∷◌,
}

pub data ColumnType : Type 0 where
  uuid bigint int boolean jsonb timestamptz : ColumnType
  varchar : ℕ → ColumnType
  -- a type that the migration creates
  named : String → ColumnType

pub record Column : Type 0 where
  pub name : String
  pub kind : ColumnType
  pub nullable : Bool
  pub default : Option String

pub data Statement : Type 0 where
  create_extension : String → Statement
  create_type : String → List String → Statement
  -- the first column is the primary key
  create_table : String → List Column → Statement
  create_unique_index : String → String → List String → Statement
  create_index : String → String → List String → Statement
  -- the rows that are inserted into `gateway_stats`: gateway and `cost_bps`
  insert_stats : List (String × ℕ) → Statement
  drop_table : String → Statement
  drop_type : String → Statement

-- `NOT NULL`
abbrev required : String → ColumnType → Column
required name kind = record { name = name; kind = kind; nullable = false; default = none }

-- `NOT NULL DEFAULT …`
abbrev defaulted : String → ColumnType → String → Column
defaulted name kind value = record {
  name = name;
  kind = kind;
  nullable = false;
  default = some value;
}

abbrev optional : String → ColumnType → Column
optional name kind = record { name = name; kind = kind; nullable = true; default = none }

abbrev state_type : ColumnType
state_type = named "transactions_current_state_enum"

abbrev provider_type : ColumnType
provider_type = named "gateway_provider_enum"

unfoldable pub transactions_table : List Column
transactions_table =
    defaulted "id" uuid "gen_random_uuid()"
    ∷ required "idempotency_key" (varchar 255)
    ∷ required "merchant_id" (varchar 100)
    ∷ required "amount" bigint
    ∷ required "currency" (varchar 10)
    ∷ defaulted "current_state" state_type "'INITIATED'"
    ∷ optional "selected_gateway" provider_type
    ∷ optional "gateway_txn_id" (varchar 255)
    ∷ defaulted "fallback_gateways" jsonb "'[]'"
    ∷ defaulted "attempt_count" int "0"
    ∷ defaulted "created_at" timestamptz "now()"
    ∷ defaulted "updated_at" timestamptz "now()"
    ∷ optional "final_reconciled_at" timestamptz
    ∷ []

unfoldable pub audit_log_table : List Column
audit_log_table =
    defaulted "id" uuid "gen_random_uuid()"
    ∷ required "transaction_id" uuid
    ∷ optional "from_state" state_type
    ∷ required "to_state" state_type
    ∷ optional "gateway" provider_type
    ∷ optional "reason" (varchar 500)
    ∷ optional "raw_gateway_response" jsonb
    ∷ defaulted "created_at" timestamptz "now()"
    ∷ []

unfoldable pub webhook_events_table : List Column
webhook_events_table =
    defaulted "id" uuid "gen_random_uuid()"
    ∷ required "gateway" provider_type
    ∷ required "event_id" (varchar 255)
    ∷ required "event_type" (varchar 100)
    ∷ required "payload" jsonb
    ∷ defaulted "signature_verified" boolean "false"
    ∷ defaulted "processed" boolean "false"
    ∷ optional "processed_at" timestamptz
    ∷ defaulted "received_at" timestamptz "now()"
    ∷ []

unfoldable pub gateway_stats_table : List Column
gateway_stats_table =
    required "gateway" provider_type
    ∷ defaulted "success_count" int "0"
    ∷ defaulted "failure_count" int "0"
    ∷ defaulted "avg_latency_ms" int "0"
    ∷ defaulted "cost_bps" int "0"
    ∷ defaulted "circuit_state" (named "circuit_state_enum") "'CLOSED'"
    ∷ defaulted "consecutive_failures" int "0"
    ∷ defaulted "updated_at" timestamptz "now()"
    ∷ []

unfoldable pub state_values : List String
state_values =
    "INITIATED" ∷ "ROUTED" ∷ "PROCESSING" ∷ "RETRY_PENDING" ∷ "SUCCESS" ∷ "FAILED" ∷ "RECONCILED"
    ∷ []

unfoldable pub seed_values : List (String × ℕ)
seed_values = ("STRIPE", 290) ∷ ("RAZORPAY", 200) ∷ ("PAYU", 190) ∷ ("UPI", 50) ∷ []

unfoldable pub up : List Statement
unfolding state_values transactions_table audit_log_table webhook_events_table gateway_stats_table
    seed_values
up =
    create_extension "pgcrypto"
    ∷ create_type "transactions_current_state_enum" state_values
    ∷ create_type "gateway_provider_enum" ("STRIPE" ∷ "RAZORPAY" ∷ "PAYU" ∷ "UPI" ∷ [])
    ∷ create_type "circuit_state_enum" ("CLOSED" ∷ "OPEN" ∷ "HALF_OPEN" ∷ [])
    ∷ create_table "transactions" transactions_table
    ∷ create_unique_index "idx_transactions_idempotency_key" "transactions" ("idempotency_key" ∷ [])
    ∷ create_table "audit_log" audit_log_table
    ∷ create_index "idx_audit_log_transaction_id" "audit_log" ("transaction_id" ∷ [])
    ∷ create_table "webhook_events" webhook_events_table
    ∷ create_unique_index "idx_webhook_events_gateway_event_id" "webhook_events"
        ("gateway" ∷ "event_id" ∷ [])
    ∷ create_table "gateway_stats" gateway_stats_table
    ∷ insert_stats seed_values
    ∷ []

unfoldable pub down : List Statement
down =
    drop_table "gateway_stats"
    ∷ drop_table "webhook_events"
    ∷ drop_table "audit_log"
    ∷ drop_table "transactions"
    ∷ drop_type "circuit_state_enum"
    ∷ drop_type "gateway_provider_enum"
    ∷ drop_type "transactions_current_state_enum"
    ∷ []
