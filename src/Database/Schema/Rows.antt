-- ===== src/Database/Schema/Rows.antt =====
-- Which rows of the services the tables of the migration hold. PostgreSQL refuses a text that is
-- longer than its varchar, a number out of range, a text that is no value of the enum, and a null
-- in a NOT NULL column; what a uuid looks like is a parameter.
use Prim.Native.String.{len, ◌++◌ as append}
use payment_orchestration_la.Common.{
  ℕ, ◌^◌, ◌≡◌, refl, String, Bool, true, false, ◌&&◌, ◌||◌, Option, none, some, List, [], ◌∷◌, ltb,
  leb, str_eq, if◌then◌else◌,
}
use payment_orchestration_la.Enums.{
  TransactionState, initiated, routed, processing, retry_pending, success, failed, reconciled,
  GatewayProvider, stripe, razorpay, payu, upi, provider_name,
}
use payment_orchestration_la.Entities.{Transaction, AuditLog}
use payment_orchestration_la.Database.Schema.{
  ColumnType, uuid, bigint, int, boolean, jsonb, timestamptz, varchar, named, Column, up,
  state_values,
}
use payment_orchestration_la.Database.Schema.Columns.{state_name, values_of}

-- A value of a statement.
pub data Value : Type 0 where
  null json : Value
  words : String → Value
  whole : ℕ → Value
  truth : Bool → Value
  moment : ℕ → Value

abbrev among : String → List String → Bool
among s [] = false
among s (x ∷ xs) = str_eq x s || among s xs

module _ (is_uuid : String → Bool) where
  unfoldable pub fits_type : ColumnType → Value → Bool
  unfolding up values_of
  fits_type uuid (words s) = is_uuid s
  fits_type (varchar n) (words s) = leb (len s) n
  fits_type bigint (whole n) = ltb n (2 ^ 63)
  fits_type int (whole n) = ltb n (2 ^ 31)
  fits_type boolean (truth b) = true
  fits_type jsonb json = true
  fits_type timestamptz (moment n) = true
  fits_type (named n) (words s) = among s (values_of n up)
  fits_type _ _ = false

  unfoldable pub fits : Column → Value → Bool
  unfolding fits_type
  fits c null = c.nullable
  fits c v = fits_type c.kind v

  -- The value that a statement gives a column, if it gives one.
  unfoldable pub given : String → List (String × Value) → Option Value
  given name [] = none
  given name ((n, v) ∷ rest) = if str_eq n name then some v else given name rest

  -- Every column holds what it is given, or has a default or may be null.
  unfoldable pub fits_row : List Column → List (String × Value) → Bool
  unfolding fits given
  fits_row [] values = true
  fits_row (c ∷ cs) values =
      (elim (given c.name values) [
        | some v ↦ fits c v
        | none ↦ elim c.default [ some d ↦ true | none ↦ c.nullable ]
      ])
      && fits_row cs values

  abbrev optional_words : Option String → Value
  optional_words none = null
  optional_words (some s) = words s

  abbrev gateway_value : Option GatewayProvider → Value
  gateway_value none = null
  gateway_value (some g) = words (provider_name g)

  -- What `save` writes of a transaction that was created.
  unfoldable pub transaction_values : Transaction → List (String × Value)
  transaction_values t =
      ("idempotency_key", words t.idempotency_key)
      ∷ ("merchant_id", words t.merchant_id)
      ∷ ("amount", whole t.amount)
      ∷ ("currency", words t.currency)
      ∷ ("current_state", words (state_name t.current_state))
      ∷ ("selected_gateway", gateway_value t.selected_gateway)
      ∷ ("gateway_txn_id", optional_words t.gateway_txn_id)
      ∷ ("fallback_gateways", json)
      ∷ ("attempt_count", whole t.attempt_count)
      ∷ []

  abbrev state_value : Option TransactionState → Value
  state_value none = null
  state_value (some s) = words (state_name s)

  -- What `save` writes of an entry of the audit log.
  unfoldable pub entry_values : AuditLog → List (String × Value)
  entry_values e =
      ("transaction_id", words e.transaction_id)
      ∷ ("from_state", state_value e.from_state)
      ∷ ("to_state", words (state_name e.to_state))
      ∷ ("gateway", gateway_value e.gateway)
      ∷ ("reason", optional_words e.reason)
      ∷ ("raw_gateway_response", elim e.raw_gateway_response [ none ↦ null | some j ↦ json ])
      ∷ []

  -- The states and gateways that the services write are values of the enums.
  state_fits :
      (s : TransactionState)
      → fits_type (named "transactions_current_state_enum") (words (state_name s)) ≡ true
  unfolding fits_type up values_of state_values state_name
  state_fits initiated = refl
  state_fits routed = refl
  state_fits processing = refl
  state_fits retry_pending = refl
  state_fits success = refl
  state_fits failed = refl
  state_fits reconciled = refl

  gateway_fits :
      (g : GatewayProvider)
      → fits_type (named "gateway_provider_enum") (words (provider_name g)) ≡ true
  unfolding fits_type up values_of provider_name
  gateway_fits stripe = refl
  gateway_fits razorpay = refl
  gateway_fits payu = refl
  gateway_fits upi = refl
