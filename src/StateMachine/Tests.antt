-- ===== src/StateMachine/Tests.antt =====
-- Runs of the state machine on a small database in memory.
use payment_orchestration_la.Common.{
  ◌↔◌, ◌⊎◌, ◌≡◌, true, refl, inl, inr, false, none, some, [], ◌∷◌, arith, text_cases, eq_iff,
}
use payment_orchestration_la.Common.Effect.Rules.{Ends, Unchanged, Never}
use payment_orchestration_la.Enums.{
  retry_pending, TransactionState, initiated, routed, processing, success, stripe, allowed,
}
use payment_orchestration_la.Enums.Graph.{Reach, later, Reach-iff}
use payment_orchestration_la.Entities.{Transaction, AuditLog}
use payment_orchestration_la.Database.Memory.{Store, memory, memory-IsLawful, memory-IsAvailable}
use payment_orchestration_la.StateMachine.{Metadata, transition}
use payment_orchestration_la.StateMachine.Transition.{
  Transitioned, transition_outcome, transition_total,
}
use payment_orchestration_la.StateMachine.Audit.{IsAudited, RowIsAudited, transition-IsAudited}

abbrev paid : Metadata
paid = record {
  gateway = some (some stripe);
  gateway_txn_id = some (some "ch_1");
  reason = none;
  raw_gateway_response = none;
  increment_attempt = false;
}

abbrev pub row : TransactionState → Transaction
row s = record {
  id = "t1";
  idempotency_key = "k1";
  merchant_id = "m1";
  amount = 505;
  currency = "USD";
  current_state = s;
  selected_gateway = some stripe;
  gateway_txn_id = none;
  fallback_gateways = [];
  attempt_count = 0;
  final_reconciled_at = none;
}

abbrev created : AuditLog
created = record {
  transaction_id = "t1";
  from_state = none;
  to_state = initiated;
  gateway = some stripe;
  reason = none;
  raw_gateway_response = none;
}

abbrev store : TransactionState → Store
store s = record { rows = row s ∷ []; entries = created ∷ [] }

transition_outcome_example :
    Ends
      (λ t' db'. Transitioned memory 5 "t1" success paid (row processing) t' (store processing) db')
      (Unchanged (store processing))
      (transition memory 5 "t1" success paid (store processing))
unfolding allowed
transition_outcome_example =
    transition_outcome memory memory-IsLawful 5 "t1" success paid (row processing)
      (store processing) refl refl

transition_total_example :
    Ends
      (λ t' db'. Transitioned memory 5 "t1" success paid (row processing) t' (store processing) db')
      Never
      (transition memory 5 "t1" success paid (store processing))
unfolding allowed
transition_total_example =
    transition_total memory memory-IsLawful memory-IsAvailable 5 "t1" success paid (row processing)
      (store processing) refl refl

row-RowIsAudited : RowIsAudited memory (store initiated) "t1" (row initiated)
row-RowIsAudited = record { leads = (refl, refl, refl); dated = inr (ground arith, refl) }

store-IsAudited : IsAudited memory (store initiated)
store-IsAudited id t found = elim (text_cases "t1" id) [
  | inl same ↦
      let it : row initiated ≡ t = ground (arith, eq_iff "t1" id) in
      rw (← same, ← it) row-RowIsAudited
  | inr differ ↦ absurd (ground (arith, eq_iff "t1" id))
]

transition-IsAudited_example :
    Ends
      (λ t' db'. IsAudited memory db')
      (λ x db'. IsAudited memory db')
      (transition memory 5 "t1" routed paid (store initiated))
transition-IsAudited_example =
    transition-IsAudited memory memory-IsLawful 5 "t1" routed paid (store initiated) store-IsAudited

Reach-iff_example :
    Reach retry_pending success ↔ ((retry_pending ≡ success) ⊎ (later retry_pending success ≡ true))
Reach-iff_example = Reach-iff retry_pending success
