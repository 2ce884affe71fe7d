-- ===== src/StateMachine.antt =====
-- transactions/state-machine.service.ts.
pub mod Tests
pub mod Audit
pub mod Transition
pub mod Evolution
use payment_orchestration_la.Common.{ℕ, ◌+◌, String, Bool, Option, none, some, if◌then◌else◌}
use payment_orchestration_la.Common.Effect.{Action, pure, gets, or_throw, ensure, ◌>>=◌, ◌>>◌}
use payment_orchestration_la.Enums.{
  TransactionState, reconciled, GatewayProvider, state_eq, allowed,
}
use payment_orchestration_la.Json.{Json}
use payment_orchestration_la.Entities.{Transaction, AuditLog}
use payment_orchestration_la.Database.{Database, Exception, not_found, bad_request}

-- The optional argument `metadata`. For the first two fields `none` is `undefined`, and
-- `some none` is `null`; a missing argument is the same as one whose fields are `undefined`.
pub record Metadata : Type 0 where
  pub gateway : Option (Option GatewayProvider)
  pub gateway_txn_id : Option (Option String)
  pub reason : Option String
  pub raw_gateway_response : Option Json
  pub increment_attempt : Bool

-- `a ?? b` and `a !== undefined ? a : b`
abbrev pub or_default : {A : Type 0} → Option A → A → A
or_default none b = b
or_default (some a) b = a

-- Step 3: the new fields. `now` is the time of `new Date()`.
unfoldable pub mutate : ℕ → TransactionState → Metadata → Transaction → Transaction
mutate now to_state metadata t = record t {
  current_state = to_state;
  selected_gateway = or_default metadata.gateway t.selected_gateway;
  gateway_txn_id = or_default metadata.gateway_txn_id t.gateway_txn_id;
  attempt_count = if metadata.increment_attempt then t.attempt_count + 1 else t.attempt_count;
  final_reconciled_at = if state_eq to_state reconciled then some now else t.final_reconciled_at;
}

-- `metadata?.gateway ?? updatedTransaction.selectedGateway`
abbrev pub logged_gateway :
    Option (Option GatewayProvider) → Option GatewayProvider → Option GatewayProvider
logged_gateway (some (some g)) h = some g
logged_gateway _ h = h

-- Step 5: the entry of the audit log.
unfoldable pub audit_entry : TransactionState → TransactionState → Metadata → Transaction → AuditLog
audit_entry from_state to_state metadata updated = record {
  transaction_id = updated.id;
  from_state = some from_state;
  to_state = to_state;
  gateway = logged_gateway metadata.gateway updated.selected_gateway;
  reason = metadata.reason;
  raw_gateway_response = metadata.raw_gateway_response;
}

module _ (D : Database) where
  open D use {Db, find_txn, save_txn, insert_audit, atomically}

  -- The body of the database transaction.
  pub transition_body : ℕ → String → TransactionState → Metadata → Action Db Exception Transaction
  transition_body now transaction_id to_state metadata = do
    found ← gets (find_txn transaction_id)
    t ← or_throw found (not_found transaction_id)
    ensure (allowed t.current_state to_state) (bad_request "Invalid state transition")
    updated ← save_txn (mutate now to_state metadata t)
    insert_audit (audit_entry t.current_state to_state metadata updated)
    pure updated

  unfoldable pub transition :
      ℕ → String → TransactionState → Metadata → Action Db Exception Transaction
  unfolding transition_body
  transition now transaction_id to_state metadata =
      atomically (transition_body now transaction_id to_state metadata)
