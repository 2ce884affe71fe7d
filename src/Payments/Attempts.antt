-- ===== src/Payments/Attempts.antt =====
-- The failover loop against a plain description of what it does to the transaction and of the
-- charges that it makes.
use payment_orchestration_la.Common.{
  ℕ, ◌+◌, String, ◌≡◌, Bool, List, [], ◌∷◌, length, if◌then◌else◌, arith,
}
use payment_orchestration_la.Enums.{
  TransactionState, routed, processing, retry_pending, success, failed, GatewayProvider,
}
use payment_orchestration_la.Entities.{Transaction}
use payment_orchestration_la.StateMachine.{mutate}
use payment_orchestration_la.Payments.Charge.{GatewayChargeResponse, race}
use payment_orchestration_la.Payments.World.{System}
use payment_orchestration_la.Payments.Requests.{
  CreateTransactionDto, routed_metadata, processing_metadata, success_metadata, retry_metadata,
  failure_metadata, charge_request,
}

module _ (Y : System) (dto : CreateTransactionDto) (id : String) where
  open Y use {database, outside}

  abbrev pub now : ℕ
  now = outside.now

  abbrev pub answer_of : GatewayProvider → GatewayChargeResponse × ℕ
  answer_of g = race outside g (charge_request dto id g)

  -- The charge through this gateway succeeds within the time limit.
  abbrev pub pays : GatewayProvider → Bool
  pays g = (answer_of g).0.success

  -- The gateways that are charged: in order, up to the first that pays.
  abbrev pub tried : GatewayProvider → List GatewayProvider → List GatewayProvider
  tried g [] = g ∷ []
  tried g (next ∷ rest) = let others = tried next rest in if pays g then g ∷ [] else g ∷ others

  -- SUCCESS if one of the gateways pays, and FAILED otherwise.
  abbrev pub final_state : GatewayProvider → List GatewayProvider → TransactionState
  final_state g [] = if pays g then success else failed
  final_state g (next ∷ rest) =
      let others = final_state next rest in if pays g then success else others

  -- The row at the time of a charge, and when the loop is done.
  unfoldable pub at_charge : GatewayProvider → Transaction → Transaction
  at_charge g t =
      mutate now processing (processing_metadata g) (mutate now routed (routed_metadata g) t)

  unfoldable pub paid_row : GatewayProvider → Transaction → Transaction
  unfolding at_charge
  paid_row g t = mutate now success (success_metadata g (answer_of g).0) (at_charge g t)

  unfoldable pub final_row : GatewayProvider → List GatewayProvider → Transaction → Transaction
  unfolding at_charge paid_row
  final_row g [] t =
      if pays g
      then paid_row g t
      else mutate now failed (failure_metadata g (answer_of g).0) (at_charge g t)
  final_row g (next ∷ rest) t =
      let others =
        final_row next rest
          (mutate now retry_pending (retry_metadata g (answer_of g).0) (at_charge g t)) in
      if pays g then paid_row g t else others

  pub final_row_state :
      (g : GatewayProvider) (rest : List GatewayProvider) (t : Transaction)
      → (final_row g rest t).current_state ≡ final_state g rest
  unfolding final_row mutate
  final_row_state g [] t = ground arith
  final_row_state g (next ∷ rest) t = ground (
    arith,
    final_row_state next rest
        (mutate now retry_pending (retry_metadata g (answer_of g).0) (at_charge g t)),
  )

  pub final_row_count :
      (g : GatewayProvider) (rest : List GatewayProvider) (t : Transaction)
      → (final_row g rest t).attempt_count ≡ t.attempt_count + length (tried g rest)
  unfolding final_row mutate routed_metadata processing_metadata success_metadata failure_metadata
      retry_metadata
  final_row_count g [] t = ground arith
  final_row_count g (next ∷ rest) t = ground (
    arith,
    final_row_count next rest
        (mutate now retry_pending (retry_metadata g (answer_of g).0) (at_charge g t)),
  )
