-- ===== src/Database/Schema/Columns.antt =====
-- The columns that the entities declare: transactions/entities, webhooks/entities and
-- gateways/entities.
use payment_orchestration_la.Common.{
  String, Bool, true, false, Option, none, some, List, [], ◌∷◌, ◌≡◌, refl, map, str_eq,
  if◌then◌else◌,
}
use payment_orchestration_la.Enums.{
  TransactionState, initiated, routed, processing, retry_pending, success, failed, reconciled,
  stripe, razorpay, payu, upi, CircuitState, closed, open_circuit, half_open, provider_name,
}
use payment_orchestration_la.Database.Schema.{
  ColumnType, uuid, bigint, int, boolean, jsonb, timestamptz, varchar, named, Column, Statement, up,
  create_type, create_table, create_unique_index,
}

pub data EntityName : Type 0 where
  transaction audit_log webhook_event gateway_stats : EntityName

-- The type that a decorator states; an enum is its values.
pub data DeclaredType : Type 0 where
  plain : ColumnType → DeclaredType
  enum : List String → DeclaredType
  -- `@CreateDateColumn` and `@UpdateDateColumn`: a date that is filled in when a row is written
  filled_in : DeclaredType

pub record Declared : Type 0 where
  pub name : String
  pub kind : DeclaredType
  pub nullable : Bool
  -- the default as SQL text, if the decorator states one
  pub default : Option String

-- The values of the enums, as the code compares and stores them.
unfoldable pub state_name : TransactionState → String
state_name initiated = "INITIATED"
state_name routed = "ROUTED"
state_name processing = "PROCESSING"
state_name retry_pending = "RETRY_PENDING"
state_name success = "SUCCESS"
state_name failed = "FAILED"
state_name reconciled = "RECONCILED"

unfoldable pub circuit_name : CircuitState → String
circuit_name closed = "CLOSED"
circuit_name open_circuit = "OPEN"
circuit_name half_open = "HALF_OPEN"

abbrev states : List TransactionState
states = initiated ∷ routed ∷ processing ∷ retry_pending ∷ success ∷ failed ∷ reconciled ∷ []

unfoldable transaction_state : DeclaredType
unfolding state_name
transaction_state = enum (map state_name states)

unfoldable gateway_provider : DeclaredType
unfolding provider_name
gateway_provider = enum (map provider_name (stripe ∷ razorpay ∷ payu ∷ upi ∷ []))

unfoldable circuit_state_type : DeclaredType
unfolding circuit_name
circuit_state_type = enum (map circuit_name (closed ∷ open_circuit ∷ half_open ∷ []))

-- `@Column({ name, type })`
abbrev column : String → DeclaredType → Declared
column name kind = record { name = name; kind = kind; nullable = false; default = none }

-- `@Column({ name, type, nullable: true })`
abbrev nullable_column : String → DeclaredType → Declared
nullable_column name kind = record { name = name; kind = kind; nullable = true; default = none }

-- `@Column({ name, type, default })`
abbrev default_column : String → DeclaredType → String → Declared
default_column name kind value = record {
  name = name;
  kind = kind;
  nullable = false;
  default = some value;
}

unfoldable pub declared_transaction : List Declared
unfolding transaction_state gateway_provider
declared_transaction =
    column "id" (plain uuid)
    ∷ column "idempotency_key" (plain (varchar 255))
    ∷ column "merchant_id" (plain (varchar 100))
    ∷ column "amount" (plain bigint)
    ∷ column "currency" (plain (varchar 10))
    ∷ default_column "current_state" transaction_state "'INITIATED'"
    ∷ nullable_column "selected_gateway" gateway_provider
    ∷ nullable_column "gateway_txn_id" (plain (varchar 255))
    ∷ default_column "fallback_gateways" (plain jsonb) "'[]'"
    ∷ default_column "attempt_count" (plain int) "0"
    ∷ column "created_at" filled_in
    ∷ column "updated_at" filled_in
    ∷ nullable_column "final_reconciled_at" (plain timestamptz)
    ∷ []

unfoldable pub declared_audit_log : List Declared
unfolding transaction_state gateway_provider
declared_audit_log =
    column "id" (plain uuid)
    ∷ column "transaction_id" (plain uuid)
    ∷ nullable_column "from_state" transaction_state
    ∷ column "to_state" transaction_state
    ∷ nullable_column "gateway" gateway_provider
    ∷ nullable_column "reason" (plain (varchar 500))
    ∷ nullable_column "raw_gateway_response" (plain jsonb)
    ∷ column "created_at" filled_in
    ∷ []

unfoldable pub declared_webhook_event : List Declared
unfolding gateway_provider
declared_webhook_event =
    column "id" (plain uuid)
    ∷ column "gateway" gateway_provider
    ∷ column "event_id" (plain (varchar 255))
    ∷ column "event_type" (plain (varchar 100))
    ∷ column "payload" (plain jsonb)
    ∷ default_column "signature_verified" (plain boolean) "false"
    ∷ default_column "processed" (plain boolean) "false"
    ∷ nullable_column "processed_at" (plain timestamptz)
    ∷ column "received_at" filled_in
    ∷ []

unfoldable pub declared_gateway_stats : List Declared
unfolding gateway_provider circuit_state_type
declared_gateway_stats =
    column "gateway" gateway_provider
    ∷ default_column "success_count" (plain int) "0"
    ∷ default_column "failure_count" (plain int) "0"
    ∷ default_column "avg_latency_ms" (plain int) "0"
    ∷ default_column "cost_bps" (plain int) "0"
    ∷ default_column "circuit_state" circuit_state_type "'CLOSED'"
    ∷ default_column "consecutive_failures" (plain int) "0"
    ∷ column "updated_at" filled_in
    ∷ []

unfoldable pub declared : EntityName → List Declared
unfolding declared_transaction declared_audit_log declared_webhook_event declared_gateway_stats
declared transaction = declared_transaction
declared audit_log = declared_audit_log
declared webhook_event = declared_webhook_event
declared gateway_stats = declared_gateway_stats

-- The table of `@Entity`.
unfoldable pub table_name : EntityName → String
table_name transaction = "transactions"
table_name audit_log = "audit_log"
table_name webhook_event = "webhook_events"
table_name gateway_stats = "gateway_stats"

-- `@Index([…], { unique: true })`, by the columns of the properties
unfoldable pub unique_on : EntityName → List (List String)
unique_on transaction = ("idempotency_key" ∷ []) ∷ []
unique_on audit_log = []
unique_on webhook_event = ("gateway" ∷ "event_id" ∷ []) ∷ []
unique_on gateway_stats = []

-- The columns of a table that the statements create.
unfoldable pub columns_of : String → List Statement → List Column
columns_of name [] = []
columns_of name (create_table n cols ∷ rest) = if str_eq n name then cols else columns_of name rest
columns_of name (_ ∷ rest) = columns_of name rest

-- The columns of the unique indexes that the statements create on a table.
unfoldable pub unique_indexes : String → List Statement → List (List String)
unique_indexes name [] = []
unique_indexes name (create_unique_index i t cols ∷ rest) =
    let others = unique_indexes name rest in if str_eq t name then cols ∷ others else others
unique_indexes name (_ ∷ rest) = unique_indexes name rest

-- The values of a type that the statements create.
unfoldable pub values_of : String → List Statement → List String
values_of name [] = []
values_of name (create_type n values ∷ rest) = if str_eq n name then values else values_of name rest
values_of name (_ ∷ rest) = values_of name rest

-- What a column of the migration declares, as far as `d` states it. Whether a date that is filled
-- in has a time zone is not stated in a decorator.
unfoldable pub declares : Declared → Column → Declared
unfolding up values_of
declares d c = record {
  name = c.name;
  kind = elim d.kind [
    | filled_in ↦ elim c.kind [
      | timestamptz ↦ elim c.default [
        | some v ↦ if str_eq v "now()" then filled_in else plain timestamptz
        | none ↦ plain timestamptz
      ]
      | k ↦ plain k
    ]
    | plain k ↦ plain c.kind
    | enum values ↦ elim c.kind [
      | named n ↦ enum (values_of n up)
      | uuid ↦ plain uuid
      | bigint ↦ plain bigint
      | int ↦ plain int
      | boolean ↦ plain boolean
      | jsonb ↦ plain jsonb
      | timestamptz ↦ plain timestamptz
      | varchar n ↦ plain (varchar n)
    ]
  ];
  nullable = c.nullable;
  default = elim d.default [ none ↦ none | some v ↦ c.default ];
}

-- column by column; a column that only one side has is left as it is
unfoldable pub declares_all : List Declared → List Column → List Declared
unfolding declares
declares_all [] [] = []
declares_all (d ∷ ds) [] = []
declares_all [] (c ∷ cs) =
    declares (record { name = ""; kind = filled_in; nullable = c.nullable; default = none }) c ∷ []
declares_all (d ∷ ds) (c ∷ cs) = declares d c ∷ declares_all ds cs

-- Every entity declares the columns of the table that the migration creates for it, in order: the
-- same names, the same types with the same lengths and enum values, dates with the default now() where
-- the entity has a date that is filled in, the same nullability, and the defaults that it states; and
-- its unique indexes are those that the migration creates.
pub entity_matches_migration :
    (e : EntityName)
    → (declares_all (declared e) (columns_of (table_name e) up) ≡ declared e)
      × (unique_indexes (table_name e) up ≡ unique_on e)
unfolding declares_all declared declares columns_of table_name up unique_indexes unique_on
    transaction_state gateway_provider circuit_state_type values_of state_name provider_name
    circuit_name
entity_matches_migration transaction = (refl, refl)
entity_matches_migration audit_log = (refl, refl)
entity_matches_migration webhook_event = (refl, refl)
entity_matches_migration gateway_stats = (refl, refl)
