-- ===== src/Enums.antt =====
-- common/enums/transaction-state.enum.ts: the states, the allow-list of transitions, the gateways
-- and the states of a circuit breaker.
pub mod Graph
use payment_orchestration_la.Common.{String, Bool, true, false, ◌||◌, List, [], ◌∷◌}

pub data TransactionState : Type 0 where
  initiated routed processing retry_pending success failed reconciled : TransactionState

pub data GatewayProvider : Type 0 where
  stripe razorpay payu upi : GatewayProvider

pub data CircuitState : Type 0 where
  closed open_circuit half_open : CircuitState

unfoldable pub valid_transitions : TransactionState → List TransactionState
valid_transitions initiated = routed ∷ []
valid_transitions routed = processing ∷ []
valid_transitions processing = success ∷ failed ∷ retry_pending ∷ []
valid_transitions retry_pending = routed ∷ failed ∷ []
valid_transitions success = reconciled ∷ []
valid_transitions failed = []
valid_transitions reconciled = []

-- `===` on the states
abbrev pub state_eq : TransactionState → TransactionState → Bool
state_eq initiated initiated = true
state_eq routed routed = true
state_eq processing processing = true
state_eq retry_pending retry_pending = true
state_eq success success = true
state_eq failed failed = true
state_eq reconciled reconciled = true
state_eq _ _ = false

-- `===` on the gateways
abbrev pub provider_eq : GatewayProvider → GatewayProvider → Bool
provider_eq stripe stripe = true
provider_eq razorpay razorpay = true
provider_eq payu payu = true
provider_eq upi upi = true
provider_eq _ _ = false

-- The value of the enum, as a template literal shows it.
unfoldable pub provider_name : GatewayProvider → String
provider_name stripe = "STRIPE"
provider_name razorpay = "RAZORPAY"
provider_name payu = "PAYU"
provider_name upi = "UPI"

-- `Array.prototype.includes`
abbrev pub includes : List TransactionState → TransactionState → Bool
includes [] s = false
includes (x ∷ xs) s = state_eq x s || includes xs s

-- `VALID_TRANSITIONS[from].includes(to)`
unfoldable pub allowed : TransactionState → TransactionState → Bool
unfolding valid_transitions
allowed from to = includes (valid_transitions from) to
